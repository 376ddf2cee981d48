-- ===== src/Io/Nmea/Sentence/Pieces.antt =====
-- The parts of a sentence: the checksum's digits, and the newlines at the end.
use mathlib.Core.List.{foldl}
use falcon_guide.Prelude.{
  ℕ, zero, suc, ◌<◌, ◌≡◌, refl, Bool, true, false, Option, none, some, List, [], ◌∷◌, ◌++◌, arith,
  All, ◌==◌, ◌&&◌,
}
use falcon_guide.Io.Nmea.Sentence.{
  compute_checksum, format_checksum, parse_hex_byte, is_newline, trim_end,
}

is_some_of : Option ℕ → ℕ → Bool
is_some_of none c = false
is_some_of (some v) c = v == c

is_some_of→≡ : (o : Option ℕ) (c : ℕ) → is_some_of o c ≡ true → o ≡ some c
unfolding is_some_of
is_some_of→≡ none c h = cc
is_some_of→≡ (some v) c h = ground arith

-- A test that every number under a bound passes.
passes : (ℕ → Bool) → ℕ → Bool
passes test zero = true
passes test (suc bound) = passes test bound && test bound

test-passes : (test : ℕ → Bool) (bound n : ℕ) → n < bound → passes test bound ≡ true → test n ≡ true
unfolding passes
test-passes test zero n below all = elim below [ ]
test-passes test (suc bound) n below all = ground (arith, test-passes test bound n)

hex_digits : passes (λ c. is_some_of (parse_hex_byte (format_checksum c)) c) 256 ≡ true
unfolding passes is_some_of parse_hex_byte format_checksum
hex_digits = refl

-- Every byte survives being written as two hexadecimal digits and read back.
pub parse_hex_byte-format_checksum : (c : ℕ) → c < 256 → parse_hex_byte (format_checksum c) ≡ some c
parse_hex_byte-format_checksum c h = is_some_of→≡ _ c (test-passes _ 256 c h hex_digits)

foldl_lt :
    (f : ℕ → ℕ → ℕ) (c : ℕ) (xs : List ℕ) → ((a b : ℕ) → f a b < 256) → c < 256 → foldl f c xs < 256
foldl_lt f c [] h k = k
foldl_lt f c (x ∷ xs) h k = foldl_lt f (f c x) xs h (h c x)

pub compute_checksum_lt : (payload : List ℕ) → compute_checksum payload < 256
unfolding compute_checksum
compute_checksum_lt payload = foldl_lt _ 0 payload (λ a b. omega arith) (omega arith)

abbrev pub IsEnding : List ℕ → Type 0
IsEnding xs = All (λ c. is_newline c ≡ true) xs

trim_end-IsEnding : (xs : List ℕ) → IsEnding xs → trim_end xs ≡ []
unfolding trim_end
trim_end-IsEnding [] h = refl
trim_end-IsEnding (x ∷ xs) h = rw (trim_end-IsEnding xs h.1, h.0)

-- The newlines go, and what stands before them stays.
pub trim_end-append :
    (xs : List ℕ) (c : ℕ) (ending : List ℕ)
    → is_newline c ≡ false
    → IsEnding ending
    → trim_end (xs ++ c ∷ ending) ≡ xs ++ c ∷ []
unfolding trim_end
trim_end-append [] c ending e h = rw (trim_end-IsEnding ending h, e)
trim_end-append (x ∷ []) c ending e h = rw (trim_end-IsEnding ending h, e)
trim_end-append (x ∷ y ∷ ys) c ending e h = rw (trim_end-append (y ∷ ys) c ending e h)
