-- ===== src/Io/Nmea/Gga.antt =====
-- src/io/include/falconguide/io/nmea/nmea_gga.hpp.
pub mod Position
use falcon_guide.Prelude.{
  ℕ, Bool, true, false, not, ◌||◌, Option, none, some, List, [], ◌∷◌, ◌++◌, length, take, drop, ltb,
  leb, if◌then◌else◌,
}
use falcon_guide.Prelude.Bytes.{codes, same}
use falcon_guide.Core.Enums.{
  GnssFixType, no_fix, single, differential, rtk_fixed, rtk_float, NavigationStatus, nominal,
  degraded, dead_reckoning, MeasurementValidity,
}
use falcon_guide.Core.Gnss.{Lla, GnssSolution, NavigationState, default_solution}
use falcon_guide.Io.Nmea.Sentence.{NmeaSentence, parse_sentence, build_sentence}
use falcon_guide.Io.Nmea.Numbers.{
  NmeaNumbers, Parsed, value, nullopt, and_then, both, or_throw, field, is_empty, set_width,
}

unfoldable pub parse_gga_fix_type : List ℕ → GnssFixType
parse_gga_fix_type text =
    if same text (codes "1")
    then single
    else if same text (codes "2")
    then differential
    else if same text (codes "4")
    then rtk_fixed
    else if same text (codes "5")
    then rtk_float
    else no_fix

unfoldable pub format_gga_fix_type : NavigationStatus → List ℕ
format_gga_fix_type nominal = codes "1"
format_gga_fix_type degraded = codes "1"
format_gga_fix_type dead_reckoning = codes "1"
format_gga_fix_type _ = codes "0"

abbrev fix_validity : GnssFixType → MeasurementValidity
fix_validity no_fix = MeasurementValidity.unknown
fix_validity _ = MeasurementValidity.valid

module _ {ℓ} {D V C : Type ℓ} (numbers : NmeaNumbers D V C) where
  open numbers use {
    stod, at_least, add, sub, mul, div, neg, abs, floor, of_int, number_0, number_60, deg_to_rad,
    rad_to_deg, lla_to_ecef, ecef_to_lla, fixed, decimal, default_timestamp, default_vector,
    default_matrix,
  }

  unfoldable pub with_hemisphere : List ℕ → D → Parsed D
  with_hemisphere hemisphere decimal_degrees =
      if same hemisphere (codes "S") || same hemisphere (codes "W")
      then value (deg_to_rad (neg decimal_degrees))
      else if same hemisphere (codes "N") || same hemisphere (codes "E")
      then value (deg_to_rad decimal_degrees)
      else nullopt

  abbrev pub degree_digits : Bool → ℕ
  degree_digits is_latitude = if is_latitude then 2 else 3

  unfoldable pub parse_latitude_longitude : List ℕ → List ℕ → Bool → Parsed D
  unfolding with_hemisphere
  parse_latitude_longitude text hemisphere is_latitude =
      if is_empty text || is_empty hemisphere
      then nullopt
      else if leb (length text) (degree_digits is_latitude)
      then nullopt
      else and_then (or_throw (stod (take (degree_digits is_latitude) text))) (λ degrees.
        and_then (or_throw (stod (drop (degree_digits is_latitude) text)))
          (λ minutes. with_hemisphere hemisphere (add degrees (div minutes number_60))))

  unfoldable pub format_latitude_longitude : D → Bool → List ℕ
  format_latitude_longitude radians is_latitude =
      let absolute_degrees = abs (rad_to_deg radians) in
      let degrees = floor absolute_degrees in
      let minutes = mul (sub absolute_degrees (of_int degrees)) number_60 in
      set_width (degree_digits is_latitude) (decimal degrees) ++ set_width 10 (fixed 7 minutes)

  -- A field that may be empty.
  unfoldable pub stod_or : D → List ℕ → Parsed D
  stod_or d text = if is_empty text then value d else or_throw (stod text)

  unfoldable pub stod_optional : List ℕ → Parsed (Option D)
  stod_optional text =
      if is_empty text then value none else and_then (or_throw (stod text)) (λ d. value (some d))

  unfoldable pub gga_solution : List (List ℕ) → D × D → D → Option D → GnssSolution D V C
  gga_solution fields (latitude, longitude) altitude_m hdop =
      record (default_solution default_timestamp default_vector default_matrix) {
        position_ecef_m = lla_to_ecef (record {
          latitude_rad = latitude;
          longitude_rad = longitude;
          altitude_m = altitude_m;
        });
        fix_type = parse_gga_fix_type (field fields 5);
        horizontal_dop = hdop;
        validity = fix_validity (parse_gga_fix_type (field fields 5));
      }

  unfoldable pub parse_gga : NmeaSentence → Parsed (GnssSolution D V C)
  unfolding gga_solution stod_or stod_optional parse_latitude_longitude
  parse_gga sentence =
      let fields = sentence.fields in
      if not (same sentence.formatter (codes "GGA")) || ltb (length fields) 14
      then nullopt
      else and_then
          (both (parse_latitude_longitude (field fields 1) (field fields 2) true)
            (parse_latitude_longitude (field fields 3) (field fields 4) false))
          (λ position. and_then (stod_or number_0 (field fields 8)) (λ altitude_m.
            and_then (stod_optional (field fields 7))
              (λ hdop. value (gga_solution fields position altitude_m hdop))))

  abbrev pub on_sentence {κ} :
      {A : Type κ} → (NmeaSentence → Parsed A) → Option NmeaSentence → Parsed A
  on_sentence f none = nullopt
  on_sentence f (some sentence) = f sentence

  unfoldable pub parse_gga_line : List ℕ → Parsed (GnssSolution D V C)
  unfolding parse_gga
  parse_gga_line line = on_sentence parse_gga (parse_sentence line)

  -- `"N" : "S"` and `"E" : "W"`, by the sign.
  abbrev pub hemisphere_of : D → List ℕ → List ℕ → List ℕ
  hemisphere_of d north south = if at_least d number_0 then north else south

  abbrev optional_text : (D → List ℕ) → Option D → List ℕ
  optional_text f none = []
  optional_text f (some d) = f d

  unfoldable pub gga_fields : NavigationState D V → List ℕ → List (List ℕ)
  unfolding format_latitude_longitude
  gga_fields state utc_time =
      let lla = ecef_to_lla state.position_ecef_m in
      utc_time
      ∷ format_latitude_longitude lla.latitude_rad true
      ∷ hemisphere_of lla.latitude_rad (codes "N") (codes "S")
      ∷ format_latitude_longitude lla.longitude_rad false
      ∷ hemisphere_of lla.longitude_rad (codes "E") (codes "W")
      ∷ format_gga_fix_type state.status
      ∷ codes "00"
      ∷ optional_text (fixed 1) state.horizontal_accuracy_m
      ∷ fixed 2 lla.altitude_m
      ∷ codes "M"
      ∷ codes "0.00"
      ∷ codes "M"
      ∷ []
      ∷ []
      ∷ []

  unfoldable pub write_gga : NavigationState D V → List ℕ → List ℕ
  unfolding gga_fields
  write_gga state utc_time = build_sentence (codes "FG") (codes "GGA") (gga_fields state utc_time)
