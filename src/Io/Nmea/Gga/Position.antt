-- ===== src/Io/Nmea/Gga/Position.antt =====
-- Latitude and longitude, written and read back.
use falcon_guide.Prelude.{
  ℕ, ◌≤◌, ◌<◌, ◌≡◌, refl, ◌∙◌, Bool, true, false, List, [], ◌∷◌, ◌++◌, length, length-append, arith,
  leb, if◌then◌else◌, Bool-cases, if_cases, inl, inr,
}
use falcon_guide.Prelude.Bytes.{codes}
use falcon_guide.Io.Nmea.Numbers.{NmeaNumbers, value, and_then, or_throw, is_empty}
use falcon_guide.Io.Nmea.Numbers.Text.{
  IsPrinted, starts_digit, length-set_width, set_width-long, take-first, drop-first,
}
use falcon_guide.Io.Nmea.Gga.{
  parse_latitude_longitude, format_latitude_longitude, with_hemisphere, degree_digits,
  hemisphere_of,
}

append_filled : (xs ys : List ℕ) (n : ℕ) → length xs ≡ n → 0 < n → is_empty (xs ++ ys) ≡ false
append_filled [] ys n h p = ground (arith, h, p)
append_filled (x ∷ xs) ys n h p = refl

append_long :
    (xs ys : List ℕ) (n : ℕ) → length xs ≡ n → 0 < length ys → leb (length (xs ++ ys)) n ≡ false
append_long xs ys n h p = ground (arith, length-append xs ys)

width_positive : (b : Bool) → 0 < (if b then 2 else 3)
width_positive true = omega arith
width_positive false = omega arith

module _ {ℓ} {D V C : Type ℓ} (numbers : NmeaNumbers D V C) (printed : IsPrinted numbers) where
  open numbers use {
    stod, at_least, add, sub, mul, div, neg, abs, floor, of_int, number_0, number_60, deg_to_rad,
    rad_to_deg, fixed, decimal,
  }

  -- The whole degrees and the minutes of an angle.
  abbrev pub degrees_of : D → ℕ
  degrees_of radians = floor (abs (rad_to_deg radians))

  abbrev pub minutes_of : D → D
  minutes_of radians = mul (sub (abs (rad_to_deg radians)) (of_int (degrees_of radians))) number_60

  -- The magnitude that is read back, in degrees.
  abbrev pub read_back : D → D
  read_back radians =
      add (of_int (degrees_of radians)) (div (printed.rounded 7 (minutes_of radians)) number_60)

  parse-cut :
      (xs ys hemisphere : List ℕ) (is_latitude : Bool)
      → is_empty hemisphere ≡ false
      → length xs ≡ degree_digits numbers is_latitude
      → 0 < length ys
      → parse_latitude_longitude numbers (xs ++ ys) hemisphere is_latitude
        ≡ and_then (or_throw (stod xs)) (λ degrees.
          and_then
            (or_throw (stod ys))
            (λ minutes. with_hemisphere numbers hemisphere (add degrees (div minutes number_60))))
  unfolding parse_latitude_longitude
  parse-cut xs ys hemisphere is_latitude h n y =
      let w = degree_digits numbers is_latitude in
      rw (
        append_filled xs ys w n (width_positive is_latitude),
        h,
        append_long xs ys w n y,
        take-first w xs ys n,
        drop-first w xs ys n,
      )

  -- `N` or `S`, `E` or `W`: the sign of the angle.
  abbrev pub hemispheres : Bool → D → List ℕ
  hemispheres is_latitude radians =
      if is_latitude
      then hemisphere_of numbers radians (codes "N") (codes "S")
      else hemisphere_of numbers radians (codes "E") (codes "W")

  abbrev pub signed : D → D
  signed radians =
      if at_least radians number_0
      then deg_to_rad (read_back radians)
      else deg_to_rad (neg (read_back radians))

  hemispheres_filled : (b : Bool) (radians : D) → is_empty (hemispheres b radians) ≡ false
  hemispheres_filled true radians =
      if_cases (λ t. is_empty t ≡ false) (at_least radians number_0) (λ e. refl) (λ e. refl)
  hemispheres_filled false radians =
      if_cases (λ t. is_empty t ≡ false) (at_least radians number_0) (λ e. refl) (λ e. refl)

  with_hemisphere-hemispheres :
      (b : Bool) (radians d : D)
      → with_hemisphere numbers (hemispheres b radians) d
        ≡ value (if at_least radians number_0 then deg_to_rad d else deg_to_rad (neg d))
  unfolding with_hemisphere
  with_hemisphere-hemispheres true radians d = elim (Bool-cases (at_least radians number_0)) [
    | inl e ↦ rw e
    | inr e ↦ rw e
  ]
  with_hemisphere-hemispheres false radians d = elim (Bool-cases (at_least radians number_0)) [
    | inl e ↦ rw e
    | inr e ↦ rw e
  ]

  digits_few : (b : Bool) (n : ℕ) → n ≤ degree_digits numbers b → n ≤ 3
  digits_few true n h = omega (arith, h)
  digits_few false n h = h

  -- An angle of at most 99 whole degrees as a latitude, or 999 as a longitude, whose minutes are printed
  -- without a sign, and neither as an infinity nor as NaN, is read back from its text and its hemisphere
  -- with its sign and its whole degrees, and with its minutes rounded to seven decimals, where the
  -- streams and `std::stod` keep their promises.
  pub parse_latitude_longitude-format_latitude_longitude :
      (radians : D) (is_latitude : Bool)
      → length (decimal (degrees_of radians)) ≤ degree_digits numbers is_latitude
      → starts_digit (fixed 7 (minutes_of radians)) ≡ true
      → parse_latitude_longitude numbers
          (format_latitude_longitude numbers radians is_latitude)
          (hemispheres is_latitude radians)
          is_latitude
        ≡ value (signed radians)
  unfolding format_latitude_longitude and_then with_hemisphere or_throw
  parse_latitude_longitude-format_latitude_longitude radians is_latitude h digit =
      parse-cut _ _ _ is_latitude (hemispheres_filled is_latitude radians) (length-set_width _ _ h)
        (set_width-long 10 (fixed 7 (minutes_of radians)) (omega arith))
      ∙ rw
          (
            printed.stod_decimal (degree_digits numbers is_latitude) (degrees_of radians)
                (digits_few is_latitude _ h),
            printed.stod_fixed 10 7 (minutes_of radians) (omega arith) digit,
          )
          (with_hemisphere-hemispheres is_latitude radians (read_back radians))
