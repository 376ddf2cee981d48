-- ===== src/Prelude/Bytes.antt =====
-- Text as a list of byte values, and `std::string_view::find`.
use Prim.Native.Char.{code}
use Prim.Native.String.{String}
use falcon_guide.Prelude.Tests.{◌==◌, if◌then◌else◌, Bool-cases}
use falcon_guide.Prelude.Lists.{All, length, take, drop}
use Prim.Native.Nat.{ℕ, suc, ◌<◌}
use mathlib.Core.Path.{◌≡◌, refl, ap}
use mathlib.Core.Bool.{Bool, true, false}
use mathlib.Core.Logic.{inl, inr}
use mathlib.Core.Option
use mathlib.Core.Option.{Option, none, some}
use mathlib.Core.List.{List, [], ◌∷◌, ◌++◌}
use native.Mathlib.Omega.{arith}

-- The code points of a text: its bytes, where it is ASCII.
abbrev pub codes : String → List ℕ
codes String.[] = []
codes (String.◌∷◌ c s) = code c ∷ codes s

-- `==` of two strings.
abbrev pub same : List ℕ → List ℕ → Bool
same [] [] = true
same (x ∷ xs) (y ∷ ys) = if x == y then same xs ys else false
same _ _ = false

-- The position of the first `c`.
unfoldable pub find : ℕ → List ℕ → Option ℕ
find c [] = none
find c (x ∷ xs) = if x == c then some 0 else Option.map suc (find c xs)

-- No entry is `c`.
abbrev pub IsFree : ℕ → List ℕ → Type 0
IsFree c xs = All (λ x. (x == c) ≡ false) xs

pub find-append : (c : ℕ) (xs ys : List ℕ) → IsFree c xs → find c (xs ++ c ∷ ys) ≡ some (length xs)
unfolding find
find-append c [] ys h = ground arith
find-append c (x ∷ xs) ys h = rw (h.0, find-append c xs ys h.1)

pub find-none : (c : ℕ) (xs : List ℕ) → IsFree c xs → find c xs ≡ none
unfolding find
find-none c [] h = refl
find-none c (x ∷ xs) h = rw (h.0, find-none c xs h.1)

-- `find` cuts its text at the first `c`.
abbrev pub Found : ℕ → List ℕ → Option ℕ → Type 0
Found c xs none = IsFree c xs
Found c xs (some i) =
    (xs ≡ take i xs ++ c ∷ drop (suc i) xs)
    × IsFree c (take i xs)
    × (length (take i xs) ≡ i)
    × (i < length xs)

find-Found-cons :
    (c x : ℕ) (xs : List ℕ) (o : Option ℕ)
    → (x == c) ≡ false
    → Found c xs o
    → Found c (x ∷ xs) (Option.map suc o)
find-Found-cons c x xs none e h = (e, h)
find-Found-cons c x xs (some i) e h =
    (ap (λ ys. x ∷ ys) h.0, (e, h.1), omega (arith, h.2), omega (arith, h.3))

pub find-Found : (c : ℕ) (xs : List ℕ) → Found c xs (find c xs)
unfolding find
find-Found c [] = tt
find-Found c (x ∷ xs) = elim (Bool-cases (x == c)) [
  | inl e ↦ rw e (ground arith, tt, omega arith, omega arith)
  | inr e ↦ rw e (find-Found-cons c x xs (find c xs) e (find-Found c xs))
]
