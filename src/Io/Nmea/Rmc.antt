-- ===== src/Io/Nmea/Rmc.antt =====
-- src/io/include/falconguide/io/nmea/nmea_rmc.hpp.
use falcon_guide.Prelude.{ℕ, true, false, not, ◌||◌, List, [], ◌∷◌, length, ltb, if◌then◌else◌}
use falcon_guide.Prelude.Bytes.{codes, same}
use falcon_guide.Core.Enums.{
  single, NavigationStatus, nominal, degraded, dead_reckoning, MeasurementValidity,
}
use falcon_guide.Core.Gnss.{GnssSolution, NavigationState, default_solution}
use falcon_guide.Io.Nmea.Sentence.{NmeaSentence, parse_sentence, build_sentence}
use falcon_guide.Io.Nmea.Numbers.{NmeaNumbers, Parsed, value, nullopt, and_then, both, field}
use falcon_guide.Io.Nmea.Gga.{
  parse_latitude_longitude, format_latitude_longitude, on_sentence, hemisphere_of,
}
use falcon_guide.Io.Nmea.Vtg.{course_deg, speed_mps}

unfoldable pub rmc_status_char : NavigationStatus → ℕ
rmc_status_char nominal = b'A'
rmc_status_char degraded = b'A'
rmc_status_char dead_reckoning = b'A'
rmc_status_char _ = b'V'

module _ {ℓ} {D V C : Type ℓ} (numbers : NmeaNumbers D V C) where
  open numbers use {
    mul, number_0, knots, lla_to_ecef, ecef_to_lla, fixed, default_timestamp, default_vector,
    default_matrix,
  }

  unfoldable pub rmc_solution : D × D → GnssSolution D V C
  rmc_solution (latitude, longitude) =
      record (default_solution default_timestamp default_vector default_matrix) {
        position_ecef_m =
            lla_to_ecef (record {
              latitude_rad = latitude;
              longitude_rad = longitude;
              altitude_m = number_0;
            });
        fix_type = single;
        validity = MeasurementValidity.valid;
      }

  unfoldable pub parse_rmc : NmeaSentence → Parsed (GnssSolution D V C)
  unfolding rmc_solution parse_latitude_longitude
  parse_rmc sentence =
      let fields = sentence.fields in
      if not (same sentence.formatter (codes "RMC")) || ltb (length fields) 10
      then nullopt
      else if not (same (field fields 1) (codes "A"))
      then nullopt
      else and_then
          (both (parse_latitude_longitude numbers (field fields 2) (field fields 3) true)
            (parse_latitude_longitude numbers (field fields 4) (field fields 5) false))
          (λ position. value (rmc_solution position))

  unfoldable pub parse_rmc_line : List ℕ → Parsed (GnssSolution D V C)
  unfolding parse_rmc
  parse_rmc_line line = on_sentence numbers parse_rmc (parse_sentence line)

  unfoldable pub rmc_fields : NavigationState D V → List ℕ → List ℕ → List (List ℕ)
  unfolding course_deg speed_mps format_latitude_longitude
  rmc_fields state utc_time date =
      let lla = ecef_to_lla state.position_ecef_m in
      utc_time
      ∷ (rmc_status_char state.status ∷ [])
      ∷ format_latitude_longitude numbers lla.latitude_rad true
      ∷ hemisphere_of numbers lla.latitude_rad (codes "N") (codes "S")
      ∷ format_latitude_longitude numbers lla.longitude_rad false
      ∷ hemisphere_of numbers lla.longitude_rad (codes "E") (codes "W")
      ∷ fixed 2 (mul (speed_mps numbers state.velocity_enu_mps) knots)
      ∷ fixed 2 (course_deg numbers state.velocity_enu_mps)
      ∷ date
      ∷ []
      ∷ []
      ∷ []

  unfoldable pub write_rmc : NavigationState D V → List ℕ → List ℕ → List ℕ
  unfolding rmc_fields
  write_rmc state utc_time date =
      build_sentence (codes "FG") (codes "RMC") (rmc_fields state utc_time date)
