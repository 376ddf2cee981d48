-- ===== src/App/Config/Json.antt =====
-- What src/app/src/config_json.cpp uses of nlohmann::json, and its helpers that read and write members.
pub mod Reads
use falcon_guide.Prelude.{
  ℕ, ◌+◌, ◌<◌, ◌≡◌, Bool, true, false, Option, none, some, List, [], ◌∷◌, if◌then◌else◌,
}
use falcon_guide.Prelude.Bytes.{same}
use falcon_guide.Prelude.Int.{ℤ, pos, negsuc, ◌≤ℤ◌}
use falcon_guide.Prelude.Result.{Result, ok, err, ◌>>=◌}
use falcon_guide.Core.Double.{Literal}
use falcon_guide.Core.Vector.{Vec3, Mat3, identity_matrix}

-- The library is not part of the repository. `J` is a JSON value and `W` a document as text.
-- `find j k` is `j[k]` where `j.contains(k)`, and `none` where not, which covers a `j` that is no object.
-- `elements` is `none` where `!is_array()`. The `get` functions are `get<T>()`, with the exception's text
-- where the type does not fit, and `not_object` the text of what `value` throws. `of_object` makes an
-- object of its members, `parse` and `dump` are `json::parse` and `dump(2)`.
pub record Json {ℓ} (D J W : Type ℓ) : Type ℓ where
  pub find : J → List ℕ → Option J
  pub is_object : J → Bool
  pub is_null : J → Bool
  pub elements : J → Option (List J)
  pub get_double : J → Result D
  pub get_bool : J → Result Bool
  pub get_string : J → Result (List ℕ)
  pub get_int : J → Result ℤ
  pub get_uint16 : J → Result ℕ
  pub not_object : J → List ℕ
  pub null : J
  pub of_double : D → J
  pub of_bool : Bool → J
  pub of_string : List ℕ → J
  pub of_int : ℤ → J
  pub of_array : List J → J
  pub of_object : List (List ℕ × J) → J
  pub parse : W → Result J
  pub dump : J → Result W

-- The member of that name: the first, as the library keeps it.
abbrev pub lookup {ℓ} : {J : Type ℓ} → List ℕ → List (List ℕ × J) → Option J
lookup k [] = none
lookup k ((name, v) ∷ rest) = if same name k then some v else lookup k rest

-- The range of `int`.
abbrev pub IsInt : ℤ → Type 0
IsInt n = (negsuc 2147483647 ≤ℤ n) × (n ≤ℤ pos 2147483647)

-- A value that was made from a C++ value is read as that value.
pub record IsJson {ℓ} {D J W : Type ℓ} (json : Json D J W) : Type ℓ where
  pub find-of_object :
      (fs : List (List ℕ × J)) (k : List ℕ) → json.find (json.of_object fs) k ≡ lookup k fs
  pub is_object-of_object : (fs : List (List ℕ × J)) → json.is_object (json.of_object fs) ≡ true
  pub is_null-null : json.is_null json.null ≡ true
  pub is_null-of_double : (x : D) → json.is_null (json.of_double x) ≡ false
  pub elements-of_array : (xs : List J) → json.elements (json.of_array xs) ≡ some xs
  pub get_double-of_double : (x : D) → json.get_double (json.of_double x) ≡ ok x
  pub get_bool-of_bool : (b : Bool) → json.get_bool (json.of_bool b) ≡ ok b
  pub get_string-of_string : (s : List ℕ) → json.get_string (json.of_string s) ≡ ok s
  pub get_int-of_int : (n : ℤ) → IsInt n → json.get_int (json.of_int n) ≡ ok n
  pub get_uint16-of_int : (n : ℕ) → n < 65536 → json.get_uint16 (json.of_int (pos n)) ≡ ok n

module _ {ℓ} {D J W : Type ℓ} (json : Json D J W) where
  open json use {
    find, is_object, is_null, elements, get_double, not_object, null, of_double, of_array,
  }

  -- `if (j.contains(k)) x = j[k];` with `x` before.
  unfoldable pub read_member {κ} : {A : Type κ} → (J → Result A) → J → List ℕ → A → Result A
  read_member get j k x = elim (find j k) [ none ↦ ok x | some v ↦ get v ]

  -- `j.value(k, x)`.
  unfoldable pub value {κ} : {A : Type κ} → (J → Result A) → J → List ℕ → A → Result A
  unfolding read_member
  value get j k x = if is_object j then read_member get j k x else err (not_object j)

  unfoldable pub read_opt_double : J → List ℕ → Result (Option D)
  read_opt_double j k = elim (find j k) [
    | none ↦ ok none
    | some v ↦ if is_null v then ok none else (get_double v >>= λ x. ok (some x))
  ]

  unfoldable pub write_opt_double : Option D → J
  write_opt_double none = null
  write_opt_double (some x) = of_double x

  read_three : J → J → J → Result (Vec3 D)
  read_three a b c = do
    x ← get_double a
    y ← get_double b
    z ← get_double c
    ok (record { x = x; y = y; z = z })

  vec3_of : Option (List J) → Vec3 D → Result (Vec3 D)
  unfolding read_three
  vec3_of (some (a ∷ b ∷ c ∷ rest)) def = read_three a b c
  vec3_of _ def = ok def

  unfoldable pub read_vec3 : J → List ℕ → Vec3 D → Result (Vec3 D)
  unfolding vec3_of
  read_vec3 j k def = elim (find j k) [ none ↦ ok def | some v ↦ vec3_of (elements v) def ]

  abbrev components : Vec3 D → List J → List J
  components v rest = of_double v.x ∷ of_double v.y ∷ of_double v.z ∷ rest

  unfoldable pub write_vec3 : Vec3 D → J
  write_vec3 v = of_array (components v [])

  unfoldable pub write_mat3 : Mat3 D → J
  write_mat3 m = of_array (components m.row_0 (components m.row_1 (components m.row_2 [])))

  module _ ⦃n : Literal D⦄ where
    mat3_of : Option (List J) → Result (Mat3 D)
    unfolding read_three
    mat3_of (some (a ∷ b ∷ c ∷ d ∷ e ∷ f ∷ g ∷ h ∷ i ∷ rest)) = do
      r ← read_three a b c
      s ← read_three d e f
      t ← read_three g h i
      ok (record { row_0 = r; row_1 = s; row_2 = t })
    mat3_of _ = ok identity_matrix

    unfoldable pub read_mat3 : J → List ℕ → Result (Mat3 D)
    unfolding mat3_of
    read_mat3 j k = elim (find j k) [ none ↦ ok identity_matrix | some v ↦ mat3_of (elements v) ]
