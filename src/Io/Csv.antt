-- ===== src/Io/Csv.antt =====
-- src/io/src/csv/csv_measurement_reader.cpp. A file is its lines without their ends, and text is bytes.
pub mod Tokens
pub mod File
use falcon_guide.Prelude.{
  ℕ, Bool, true, false, ◌&&◌, ◌||◌, Option, none, some, List, [], ◌∷◌, ◌++◌, length, get_elem?, leb,
  ◌==◌, if◌then◌else◌,
}
use falcon_guide.Prelude.Bytes.{codes, same}
use falcon_guide.Prelude.Int.{ℤ}
use falcon_guide.Core.Time.{Timestamp}
use falcon_guide.Core.Enums.{single, MeasurementValidity}
use falcon_guide.Core.Gnss.{Lla, default_solution}
use falcon_guide.Estimation.Measurement.{
  SensorMeasurement, imu, magnetometer, barometer, gnss_solution, get_timestamp,
}
use falcon_guide.Io.Reader.{ReadResult, ok, end_of_data, error, ReadOutcome}

-- What the reader needs of floating-point numbers, vectors and matrices, of `std::stod` and `std::stoll`
-- (`none` where they throw; `what_stod` and `what_stoll` is what the exception says), and of
-- coordinates.hpp. `P` stands for the members of other sensors. `enu_to_ecef` is the rotation at a place.
-- `identity_times` scales the identity.
pub record CsvNumbers {ℓ} (D V C P : Type ℓ) : Type ℓ where
  pub stod : List ℕ → Option D
  pub stoll : List ℕ → Option ℤ
  pub what_stod : List ℕ
  pub what_stoll : List ℕ
  pub mul : D → D → D
  pub deg_to_rad : D → D
  pub vec : D → D → D → V
  pub lla_to_ecef : Lla D → V
  pub enu_to_ecef : Lla D → V → V
  pub identity_times : D → C
  pub default_timestamp : Timestamp D
  pub default_vector : V
  pub default_matrix : C

-- A value, or an exception with its text.
pub data Read {ℓ} (A : Type ℓ) : Type ℓ where
  reads : A → Read A
  fails : List ℕ → Read A

unfoldable pub and_then {ℓ κ} : {A : Type ℓ} {B : Type κ} → Read A → (A → Read B) → Read B
and_then (reads a) f = f a
and_then (fails text) f = fails text

unfoldable pub or_fail {ℓ} : {A : Type ℓ} → List ℕ → Option A → Read A
or_fail text none = fails text
or_fail text (some a) = reads a

-- The first token, and the others. `getline` fails at the end of the text, so that nothing follows a
-- comma at the very end.
unfoldable pub cut : List ℕ → List ℕ × List (List ℕ)
cut [] = ([], [])
cut (c ∷ cs) =
    let (token, tokens) = cut cs in
    if c == b',' then ([], elim cs [ [] ↦ [] | _ ∷ _ ↦ token ∷ tokens ]) else (c ∷ token, tokens)

unfoldable pub split : List ℕ → List (List ℕ)
unfolding cut
split [] = []
split (c ∷ cs) = let (token, tokens) = cut (c ∷ cs) in token ∷ tokens

-- `tokens[i]`, which the tests of `tokens.size()` keep within the bounds.
abbrev token : List (List ℕ) → ℕ → List ℕ
token tokens i = elim (get_elem? tokens i) [ none ↦ [] | some t ↦ t ]

module _ {ℓ} {D V C P : Type ℓ} (numbers : CsvNumbers D V C P) where
  open numbers use {
    stod, stoll, what_stod, what_stoll, mul, deg_to_rad, vec, lla_to_ecef, enu_to_ecef,
    identity_times, default_timestamp, default_vector, default_matrix,
  }

  abbrev Measurement : Type ℓ
  Measurement = SensorMeasurement D V C P

  unfoldable pub to_double : List ℕ → Read D
  to_double text = or_fail what_stod (stod text)

  unfoldable pub to_int64 : List ℕ → Read ℤ
  to_int64 text = or_fail what_stoll (stoll text)

  unfoldable pub make_timestamp : ℤ → Timestamp D
  make_timestamp ns = record default_timestamp { steady = record { value = ns }; has_steady = true }

  -- `Vec3` of three tokens from the `i`-th on.
  unfoldable pub to_vec : List ℕ → List ℕ → List ℕ → Read V
  unfolding to_double
  to_vec a b c =
      and_then (to_double a)
        (λ x. and_then (to_double b) (λ y. and_then (to_double c) (λ z. reads (vec x y z))))

  unfoldable pub parse_imu : List (List ℕ) → Read Measurement
  unfolding to_vec to_int64 make_timestamp
  parse_imu tokens = and_then (to_int64 (token tokens 1)) (λ ns.
      and_then (to_vec (token tokens 2) (token tokens 3) (token tokens 4)) (λ force.
        and_then (to_vec (token tokens 5) (token tokens 6) (token tokens 7)) (λ rate. reads (
          imu (record {
            timestamp = make_timestamp ns;
            specific_force_mps2 = force;
            angular_rate_radps = rate;
            temperature_celsius = none;
            validity = MeasurementValidity.valid;
          })))))

  unfoldable pub parse_gnss : List (List ℕ) → Read Measurement
  unfolding to_double to_vec to_int64 make_timestamp
  parse_gnss tokens = and_then (to_double (token tokens 2)) (λ lat.
      and_then (to_double (token tokens 3)) (λ lon. and_then (to_double (token tokens 4)) (λ alt.
        and_then (to_vec (token tokens 5) (token tokens 6) (token tokens 7)) (λ velocity.
          and_then (to_double (token tokens 8)) (λ pos_sigma.
            and_then (to_double (token tokens 9)) (λ vel_sigma.
              and_then (to_int64 (token tokens 1)) (λ ns.
                let lla : Lla D = record {
                  latitude_rad = deg_to_rad lat;
                  longitude_rad = deg_to_rad lon;
                  altitude_m = alt;
                } in
                reads (
                  gnss_solution
                    (record (default_solution default_timestamp default_vector default_matrix) {
                      timestamp = make_timestamp ns;
                      position_ecef_m = lla_to_ecef lla;
                      fix_type = single;
                      validity = MeasurementValidity.valid;
                      velocity_ecef_mps = enu_to_ecef lla velocity;
                      position_covariance_ecef_m2 = identity_times (mul pos_sigma pos_sigma);
                      velocity_covariance_ecef_m2ps2 = identity_times (mul vel_sigma vel_sigma);
                    })))))))))

  unfoldable pub parse_baro : List (List ℕ) → Read Measurement
  unfolding to_double to_int64 make_timestamp
  parse_baro tokens = and_then (to_int64 (token tokens 1)) (λ ns.
      and_then (to_double (token tokens 2)) (λ pressure.
        and_then (to_double (token tokens 3)) (λ altitude. reads (
          barometer (record {
            timestamp = make_timestamp ns;
            pressure_pa = pressure;
            temperature_celsius = none;
            altitude_m = some altitude;
            validity = MeasurementValidity.valid;
          })))))

  unfoldable pub parse_mag : List (List ℕ) → Read Measurement
  unfolding to_vec to_int64 make_timestamp
  parse_mag tokens = and_then (to_int64 (token tokens 1)) (λ ns.
      and_then (to_vec (token tokens 2) (token tokens 3) (token tokens 4)) (λ field. reads (
        magnetometer (record {
          timestamp = make_timestamp ns;
          magnetic_field_tesla = field;
          temperature_celsius = none;
          validity = MeasurementValidity.valid;
        }))))

  abbrev nothing : ReadOutcome Measurement
  nothing = record { result = end_of_data; measurement = none; error_message = [] }

  unfoldable pub caught : Read Measurement → ReadOutcome Measurement
  caught (reads m) = record { result = ok; measurement = some m; error_message = [] }
  caught (fails what) = record {
    result = error;
    measurement = none;
    error_message = codes "parse error: " ++ what;
  }

  unfoldable pub parse_tokens : List (List ℕ) → ReadOutcome Measurement
  unfolding caught parse_imu parse_gnss parse_baro parse_mag
  parse_tokens [] = nothing
  parse_tokens (type ∷ rest) =
      let tokens = type ∷ rest in
      if same type (codes "IMU") && leb 8 (length tokens)
      then caught (parse_imu tokens)
      else if same type (codes "GNSS") && leb 10 (length tokens)
      then caught (parse_gnss tokens)
      else if same type (codes "BARO") && leb 4 (length tokens)
      then caught (parse_baro tokens)
      else if same type (codes "MAG") && leb 5 (length tokens)
      then caught (parse_mag tokens)
      else nothing

  unfoldable pub parse_line : List ℕ → ReadOutcome Measurement
  unfolding parse_tokens split
  parse_line line = parse_tokens (split line)
