-- ===== src/Io/Nmea/Numbers.antt =====
-- What the NMEA sentences need of floating-point numbers, of the conversions between numbers and text
-- and of src/core/include/falconguide/core/coordinates.hpp and math.hpp: a parameter of the model.
pub mod Text
use falcon_guide.Prelude.{
  ℕ, ◌-◌, zero, suc, Bool, true, false, Option, none, some, List, [], ◌∷◌, ◌++◌, length, get_elem?,
}
use falcon_guide.Core.Time.{Timestamp}
use falcon_guide.Core.Gnss.{Lla}

-- `stod` is `none` where it throws. `below` is `<` and `at_least` is `>=`. `floor` is the cast of
-- `std::floor` to `int`, for a number that is not negative. `fixed n x` is what a stream prints under
-- `std::fixed` and `std::setprecision(n)`, and `decimal` what it prints for an `int`. The members
-- `number_60` to `number_3_6` are the literals, and `knots` is `1.0 / 0.514444`.
pub record NmeaNumbers {ℓ} (D V C : Type ℓ) : Type ℓ where
  pub stod : List ℕ → Option D
  pub below : D → D → Bool
  pub at_least : D → D → Bool
  pub add : D → D → D
  pub sub : D → D → D
  pub mul : D → D → D
  pub div : D → D → D
  pub neg : D → D
  pub abs : D → D
  pub sqrt : D → D
  pub atan2 : D → D → D
  pub floor : D → ℕ
  pub of_int : ℕ → D
  pub number_0 : D
  pub number_60 : D
  pub number_360 : D
  pub number_3_6 : D
  pub knots : D
  pub deg_to_rad : D → D
  pub rad_to_deg : D → D
  pub lla_to_ecef : Lla D → V
  pub ecef_to_lla : V → Lla D
  pub x : V → D
  pub y : V → D
  pub fixed : ℕ → D → List ℕ
  pub decimal : ℕ → List ℕ
  pub default_timestamp : Timestamp D
  pub default_vector : V
  pub default_matrix : C

-- The outcome of a parser: a value, `std::nullopt`, or an exception of `std::stod`.
pub data Parsed {ℓ} (A : Type ℓ) : Type ℓ where
  value : A → Parsed A
  nullopt : Parsed A
  throws : Parsed A

unfoldable pub and_then {ℓ κ} : {A : Type ℓ} {B : Type κ} → Parsed A → (A → Parsed B) → Parsed B
and_then (value a) f = f a
and_then nullopt f = nullopt
and_then throws f = throws

-- Two parsers one after the other, whose results are tested after both.
unfoldable pub both {ℓ κ} : {A : Type ℓ} {B : Type κ} → Parsed A → Parsed B → Parsed (A × B)
both (value a) (value b) = value (a, b)
both (value a) nullopt = nullopt
both (value a) throws = throws
both nullopt (value b) = nullopt
both nullopt nullopt = nullopt
both nullopt throws = throws
both throws _ = throws

-- `stod` where it is not followed by a test.
unfoldable pub or_throw {ℓ} : {A : Type ℓ} → Option A → Parsed A
or_throw none = throws
or_throw (some a) = value a

-- `fields[i]`, which the guards keep within the bounds.
unfoldable pub field : List (List ℕ) → ℕ → List ℕ
field fs i = elim (get_elem? fs i) [ none ↦ [] | some f ↦ f ]

abbrev pub is_empty : List ℕ → Bool
is_empty [] = true
is_empty (c ∷ cs) = false

abbrev pub copies : ℕ → ℕ → List ℕ
copies c zero = []
copies c (suc n) = c ∷ copies c n

-- `std::setw(n)` with `std::setfill('0')`.
abbrev pub set_width : ℕ → List ℕ → List ℕ
set_width n text = copies b'0' (n - length text) ++ text
