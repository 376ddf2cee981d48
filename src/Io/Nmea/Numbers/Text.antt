-- ===== src/Io/Nmea/Numbers/Text.antt =====
-- What the streams and `std::stod` promise of the text of a number, and the width of a field.
use falcon_guide.Prelude.{
  ℕ, zero, suc, ◌-◌, ◌≤◌, ◌<◌, ◌≡◌, refl, sym, ap, Bool, true, false, ◌&&◌, leb, some, List, [],
  ◌∷◌, ◌++◌, length, length-append, arith, take, drop, take-append, drop-append, subst,
}
use falcon_guide.Prelude.Bytes.{IsFree}
use falcon_guide.Io.Nmea.Numbers.{NmeaNumbers, is_empty, copies, set_width}

-- The text begins with a digit: it has no sign, and is not that of an infinity or of NaN.
abbrev pub starts_digit : List ℕ → Bool
starts_digit [] = false
starts_digit (c ∷ cs) = leb b'0' c && leb c b'9'

-- A number printed with at most seven decimals is read back as `rounded n`, whatever zeros stand before
-- it, where its text begins with a digit, and an integer of at most three digits as itself. No text of a
-- number is empty or holds a comma or a star.
pub record IsPrinted {ℓ} {D V C : Type ℓ} (numbers : NmeaNumbers D V C) : Type ℓ where
  pub rounded : ℕ → D → D
  pub stod_fixed :
      (width n : ℕ) (d : D)
      → n ≤ 7
      → starts_digit (numbers.fixed n d) ≡ true
      → numbers.stod (set_width width (numbers.fixed n d)) ≡ some (rounded n d)
  pub stod_decimal :
      (width n : ℕ)
      → length (numbers.decimal n) ≤ 3
      → numbers.stod (set_width width (numbers.decimal n)) ≡ some (numbers.of_int n)
  pub fixed_free :
      (n : ℕ) (d : D) → IsFree b',' (numbers.fixed n d) × IsFree b'*' (numbers.fixed n d)

pub starts_digit-filled : (text : List ℕ) → starts_digit text ≡ true → is_empty text ≡ false
starts_digit-filled [] e = sym e
starts_digit-filled (c ∷ cs) e = refl

length-copies : (c n : ℕ) → length (copies c n) ≡ n
length-copies c zero = refl
length-copies c (suc n) = ap suc (length-copies c n)

-- A text that fits is filled up to the width.
pub length-set_width : (n : ℕ) (text : List ℕ) → length text ≤ n → length (set_width n text) ≡ n
length-set_width n text h = omega (
  arith,
  length-append (copies b'0' (n - length text)) text,
  length-copies b'0' (n - length text),
)

pub set_width-long : (n : ℕ) (text : List ℕ) → 0 < n → 0 < length (set_width n text)
set_width-long n text h = omega (
  arith,
  length-append (copies b'0' (n - length text)) text,
  length-copies b'0' (n - length text),
)

-- A text is cut where its first part ends.
pub take-first : (n : ℕ) (xs ys : List ℕ) → length xs ≡ n → take n (xs ++ ys) ≡ xs
take-first n xs ys h = subst (λ k. take k (xs ++ ys) ≡ xs) h (take-append xs ys)

pub drop-first : (n : ℕ) (xs ys : List ℕ) → length xs ≡ n → drop n (xs ++ ys) ≡ ys
drop-first n xs ys h = subst (λ k. drop k (xs ++ ys) ≡ ys) h (drop-append xs ys)
