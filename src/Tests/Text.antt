-- ===== src/Tests/Text.antt =====
-- Tests of the NMEA data sentences, of the CSV reader and of the diagnostic strings. A number stands for
-- itself, text is read by its length, and a vector is its first number.
use falcon_guide.Prelude.{
  ℕ, zero, suc, ◌==◌, ap, ◌∙◌, ◌/◌, ◌+◌, ◌*◌, ◌-◌, ◌≡◌, refl, true, false, Option, none, some, List,
  [], ◌∷◌, ◌++◌, length, arith, leb, ltb,
}
use falcon_guide.Prelude.Int.{pos}
use falcon_guide.Prelude.Bytes.{codes, IsFree}
use falcon_guide.Core.Time.{Timestamp}
use falcon_guide.Core.Enums.{
  nominal, fault, EstimatorMode, SensorHealth, MeasurementValidity, GnssConstellation,
  EstimatorBackend, AidingSource, single, no_fix,
}
use falcon_guide.Estimation.Interface.{accepted, report, INavigationEstimator}
use falcon_guide.Core.Diagnostics.{
  navigation_status_string, estimator_mode_string, sensor_health_string,
  measurement_validity_string, gnss_fix_type_string, gnss_constellation_string,
  estimator_backend_string, aiding_source_string, estimator_update_result_string,
}
use falcon_guide.Core.Diagnostics.Distinct.{
  strings_readable, read_navigation_status, read_estimator_mode, read_sensor_health,
  read_measurement_validity, read_gnss_fix_type, read_gnss_constellation, read_estimator_backend,
  read_aiding_source, read_estimator_update_result,
}
use falcon_guide.Core.Gnss.{NavigationState}
use falcon_guide.Io.Nmea.Numbers.{NmeaNumbers, value, copies, set_width}
use falcon_guide.Io.Nmea.Numbers.Text.{IsPrinted}
use falcon_guide.Io.Nmea.Gga.{
  parse_gga_fix_type, format_gga_fix_type, parse_latitude_longitude, format_latitude_longitude,
}
use falcon_guide.Io.Nmea.Gga.Position.{
  hemispheres, parse_latitude_longitude-format_latitude_longitude,
}
use falcon_guide.Io.Nmea.Rmc.{rmc_status_char}
use falcon_guide.Io.Nmea.Vtg.{vtg_mode, parse_vtg_line, write_vtg}
use falcon_guide.Io.Nmea.Vtg.RoundTrip.{statuses_agree, vtg_data, parse_vtg_line-write_vtg}
use falcon_guide.Io.Csv.{CsvNumbers, split, parse_line, parse_tokens, and_then, or_fail}
use falcon_guide.Io.Csv.Tokens.{join, split-join}
use falcon_guide.Io.Csv.File.{
  line_measurement, measurement_of, Measurement, CsvDatasetReader, make_csv, dataset_open,
}
use falcon_guide.App.Config.{default_ipc, default_ws}
use falcon_guide.App.Session.{Sockets, Session, running, replaying, completed, returned}
use falcon_guide.Estimation.Pipeline.{make_pipeline}
use falcon_guide.App.Session.Runs.{replay_rounds}
use falcon_guide.App.Replay.{csv_parts, measurements_in, replay_file}

strings_readable_example :
    (read_navigation_status (navigation_status_string nominal) ≡ nominal)
    × (read_estimator_mode (estimator_mode_string EstimatorMode.inertial_only)
        ≡ EstimatorMode.inertial_only)
    × (read_sensor_health (sensor_health_string SensorHealth.stale) ≡ SensorHealth.stale)
    × (read_measurement_validity (measurement_validity_string MeasurementValidity.dropped)
        ≡ MeasurementValidity.dropped)
    × (read_gnss_fix_type (gnss_fix_type_string single) ≡ single)
    × (read_gnss_constellation (gnss_constellation_string GnssConstellation.gps)
        ≡ GnssConstellation.gps)
    × (read_estimator_backend (estimator_backend_string EstimatorBackend.ekf)
        ≡ EstimatorBackend.ekf)
    × (read_aiding_source (aiding_source_string AidingSource.external_slam)
        ≡ AidingSource.external_slam)
    × (read_estimator_update_result (estimator_update_result_string accepted) ≡ accepted)
strings_readable_example =
    strings_readable nominal EstimatorMode.inertial_only SensorHealth.stale
      MeasurementValidity.dropped single GnssConstellation.gps EstimatorBackend.ekf
      AidingSource.external_slam accepted

abbrev no_time : Timestamp ℕ
no_time = record {
  steady = record { value = pos 0 };
  gps = record { week = pos 0; seconds_of_week = 0 };
  has_steady = false;
  has_gps = false;
}

-- The number `n` stands for the half of `n`. A digit `2` of a text counts for one, and a digit `1` for a
-- half, and a text is read as the sum of its digits.
abbrev digit_sum : List ℕ → ℕ
digit_sum [] = 0
digit_sum (c ∷ cs) = (c - b'0') + digit_sum cs

abbrev tallies : NmeaNumbers ℕ ℕ ℕ
tallies = record {
  stod = λ t. some (digit_sum t);
  below = ltb;
  at_least = λ a b. leb b a;
  add = λ a b. a + b;
  sub = λ a b. a - b;
  mul = λ a b. (a * b) / 2;
  div = λ a b. (2 * a) / b;
  neg = λ a. a;
  abs = λ a. a;
  sqrt = λ a. a;
  atan2 = λ a b. a;
  floor = λ a. a / 2;
  of_int = λ n. 2 * n;
  number_0 = 0;
  number_60 = 120;
  number_360 = 720;
  number_3_6 = 7;
  knots = 4;
  deg_to_rad = λ a. a;
  rad_to_deg = λ a. a;
  lla_to_ecef = λ l. l.latitude_rad;
  ecef_to_lla = λ v. record { latitude_rad = v; longitude_rad = v; altitude_m = v };
  x = λ v. v;
  y = λ v. v;
  fixed = λ n d. b'0' ∷ copies b'1' d;
  decimal = λ n. b'0' ∷ copies b'2' n;
  default_timestamp = no_time;
  default_vector = 0;
  default_matrix = 0;
}

digit_sum-zeros : (n : ℕ) (t : List ℕ) → digit_sum (copies b'0' n ++ t) ≡ digit_sum t
digit_sum-zeros zero t = refl
digit_sum-zeros (suc n) t = omega (arith, digit_sum-zeros n t)

digit_sum-set_width : (n : ℕ) (t : List ℕ) → digit_sum (set_width n t) ≡ digit_sum t
digit_sum-set_width n t = digit_sum-zeros (n - length t) t

digit_sum-ones : (n : ℕ) → digit_sum (copies b'1' n) ≡ n
digit_sum-ones zero = refl
digit_sum-ones (suc n) = omega (arith, digit_sum-ones n)

digit_sum-twos : (n : ℕ) → digit_sum (copies b'2' n) ≡ 2 * n
digit_sum-twos zero = refl
digit_sum-twos (suc n) = omega (arith, digit_sum-twos n)

digit_sum-fixed : (n : ℕ) → digit_sum (b'0' ∷ copies b'1' n) ≡ n
digit_sum-fixed n = omega (arith, digit_sum-ones n)

digit_sum-decimal : (n : ℕ) → digit_sum (b'0' ∷ copies b'2' n) ≡ 2 * n
digit_sum-decimal n = omega (arith, digit_sum-twos n)

copies-IsFree : (c d n : ℕ) → (d == c) ≡ false → IsFree c (copies d n)
copies-IsFree c d zero h = tt
copies-IsFree c d (suc n) h = (h, copies-IsFree c d n h)

printed : IsPrinted tallies
printed = record {
  rounded = λ n d. d;
  stod_fixed = λ w n d small digit.
      ap some (digit_sum-set_width w (b'0' ∷ copies b'1' d) ∙ digit_sum-fixed d);
  stod_decimal =
      λ w n few. ap some (digit_sum-set_width w (b'0' ∷ copies b'2' n) ∙ digit_sum-decimal n);
  fixed_free =
      λ n d. ((refl, copies-IsFree b',' b'1' d refl), (refl, copies-IsFree b'*' b'1' d refl));
}

-- One degree and a half, which is written as `02` and 61 digits, is read back as it was.
parse_latitude_longitude-format_latitude_longitude_example :
    parse_latitude_longitude tallies
      (format_latitude_longitude tallies 3 true)
      (hemispheres tallies printed true 3)
      true
    ≡ value 3
unfolding printed
parse_latitude_longitude-format_latitude_longitude_example =
    parse_latitude_longitude-format_latitude_longitude tallies printed 3 true (omega arith) refl

statuses_agree_example :
    (parse_gga_fix_type (format_gga_fix_type fault) ≡ no_fix)
    × (rmc_status_char fault ≡ b'V')
    × (vtg_mode fault ≡ codes "N")
statuses_agree_example = statuses_agree fault

abbrev moving : NavigationState ℕ ℕ
moving = record {
  position_ecef_m = 3;
  velocity_enu_mps = 3;
  status = nominal;
  horizontal_accuracy_m = none;
}

parse_vtg_line-write_vtg_example :
    parse_vtg_line tallies (write_vtg tallies moving ++ 13 ∷ 10 ∷ [])
    ≡ value (vtg_data tallies printed 3)
parse_vtg_line-write_vtg_example =
    parse_vtg_line-write_vtg tallies printed moving (13 ∷ 10 ∷ []) (refl, refl, refl)
      (refl, (refl, tt))

split-join_example :
    split (join (codes "MAG") ([] ∷ codes "1" ∷ [])) ≡ codes "MAG" ∷ [] ∷ codes "1" ∷ []
split-join_example =
    split-join (codes "MAG") ([] ∷ codes "1" ∷ []) (refl, (refl, (refl, tt))) (tt, ((refl, tt), tt))
      (λ e. ground (arith, e))

-- The comma at the end of a line gives no empty token.
drops_last : split (codes "MAG,1,") ≡ codes "MAG" ∷ codes "1" ∷ []
unfolding split
drops_last = refl

-- A whole number is read as 7.
abbrev plain : CsvNumbers ℕ ℕ ℕ Unit
plain = record {
  stod = λ t. some 7;
  stoll = λ t. some (pos 7);
  what_stod = codes "stod";
  what_stoll = codes "stoll";
  mul = λ a b. a * b;
  deg_to_rad = λ a. a;
  vec = λ a b c. a;
  lla_to_ecef = λ l. l.latitude_rad;
  enu_to_ecef = λ l v. v;
  identity_times = λ a. a;
  default_timestamp = no_time;
  default_vector = 0;
  default_matrix = 0;
}

-- A comment, a line of an unknown type, and a measurement.
abbrev flight : List (List ℕ)
flight = codes "# flight" ∷ codes "WIND,3" ∷ codes "MAG,7,7,7,7" ∷ []

abbrev disk : List ℕ → Option (List (List ℕ))
disk path = some flight

abbrev Mag : Type 0
Mag = Measurement plain disk

abbrev log : INavigationEstimator ℕ Mag (List Mag) (List Mag)
log = record {
  returns = λ e m. true;
  add_measurement = λ e m. (e ++ m ∷ [], report accepted);
  latest_state = some;
  reset = λ e. [];
}

abbrev sockets : Sockets
sockets = record { ipc_opens = true; ws_opens = false }

abbrev replay_session : Session ℕ ℕ Mag (List Mag) (List Mag) (CsvDatasetReader ℕ)
replay_session = record {
  cfg = record {
    nav = 0;
    dataset = record { type = codes "csv"; path = codes "x" };
    ipc = default_ipc;
    ws = record default_ws { port = 0 };
    playback_speed = 0;
  };
  pipeline = make_pipeline [] 4;
  reader = (dataset_open plain disk (make_csv plain disk (codes "x"))).0;
  ipc_running = true;
  ws_server = none;
  status = running;
  error_text = [];
  thread = replaying;
  active = true;
  is_paused = false;
  broadcasts = [];
  offered = [];
}

replay_file_example :
    let ms = measurements_in plain disk flight in
    let t =
      replay_rounds (csv_parts plain disk log (λ n. []) sockets) (suc (length ms)) replay_session in
    (t.status ≡ completed) × (t.thread ≡ returned) × (t.offered ≡ ms)
unfolding dataset_open make_csv
replay_file_example =
    replay_file plain disk log (λ n. []) sockets flight replay_session refl refl refl refl

-- Two of the three lines give no measurement.
one_measurement : length (measurements_in plain disk flight) ≡ 1
unfolding line_measurement measurement_of parse_line parse_tokens split and_then or_fail
one_measurement = refl
