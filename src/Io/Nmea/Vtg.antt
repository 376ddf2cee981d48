-- ===== src/Io/Nmea/Vtg.antt =====
-- src/io/include/falconguide/io/nmea/nmea_vtg.hpp.
pub mod RoundTrip
use falcon_guide.Prelude.{
  ℕ, Bool, true, false, not, ◌&&◌, ◌||◌, Option, none, some, List, [], ◌∷◌, length, ltb, leb,
  if◌then◌else◌,
}
use falcon_guide.Prelude.Bytes.{codes, same}
use falcon_guide.Core.Enums.{NavigationStatus, nominal, degraded, dead_reckoning}
use falcon_guide.Core.Gnss.{NavigationState}
use falcon_guide.Io.Nmea.Sentence.{NmeaSentence, parse_sentence, build_sentence}
use falcon_guide.Io.Nmea.Numbers.{NmeaNumbers, Parsed, value, nullopt, and_then, field}
use falcon_guide.Io.Nmea.Gga.{stod_or, on_sentence}

pub record VtgData {ℓ} (D : Type ℓ) : Type ℓ where
  pub course_true_deg : D
  pub speed_knots : D
  pub speed_kph : D

unfoldable pub vtg_mode : NavigationStatus → List ℕ
vtg_mode nominal = codes "A"
vtg_mode degraded = codes "A"
vtg_mode dead_reckoning = codes "A"
vtg_mode _ = codes "N"

module _ {ℓ} {D V C : Type ℓ} (numbers : NmeaNumbers D V C) where
  open numbers use {
    below, add, mul, sqrt, atan2, number_0, number_360, number_3_6, knots, rad_to_deg, x, y, fixed,
  }

  unfoldable pub parse_vtg : NmeaSentence → Parsed (VtgData D)
  unfolding stod_or
  parse_vtg sentence =
      let fields = sentence.fields in
      if not (same sentence.formatter (codes "VTG")) || ltb (length fields) 7
      then nullopt
      else if leb 9 (length fields) && same (field fields 8) (codes "N")
      then nullopt
      else and_then (stod_or numbers number_0 (field fields 0)) (λ course.
        and_then (stod_or numbers number_0 (field fields 4)) (λ in_knots.
          and_then (stod_or numbers number_0 (field fields 6)) (λ in_kph.
            value
              (record { course_true_deg = course; speed_knots = in_knots; speed_kph = in_kph }))))

  unfoldable pub parse_vtg_line : List ℕ → Parsed (VtgData D)
  unfolding parse_vtg
  parse_vtg_line line = on_sentence numbers parse_vtg (parse_sentence line)

  -- Clockwise from north, from 0 to 360 degrees.
  unfoldable pub course_deg : V → D
  course_deg velocity =
      let course = rad_to_deg (atan2 (x velocity) (y velocity)) in
      if below course number_0 then add course number_360 else course

  unfoldable pub speed_mps : V → D
  speed_mps velocity = sqrt (add (mul (x velocity) (x velocity)) (mul (y velocity) (y velocity)))

  unfoldable pub vtg_fields : NavigationState D V → List (List ℕ)
  unfolding course_deg speed_mps
  vtg_fields state =
      fixed 2 (course_deg state.velocity_enu_mps)
      ∷ codes "T"
      ∷ []
      ∷ codes "M"
      ∷ fixed 2 (mul (speed_mps state.velocity_enu_mps) knots)
      ∷ codes "N"
      ∷ fixed 2 (mul (speed_mps state.velocity_enu_mps) number_3_6)
      ∷ codes "K"
      ∷ vtg_mode state.status
      ∷ []

  unfoldable pub write_vtg : NavigationState D V → List ℕ
  unfolding vtg_fields
  write_vtg state = build_sentence (codes "FG") (codes "VTG") (vtg_fields state)
