-- ===== src/Tests/Filter.antt =====
-- A filter over whole numbers: of its numerics each operation gives back an operand, and its model accepts every
-- measurement.
use falcon_guide.Prelude.{
  List, none, ℕ, suc, ◌≡◌, refl, true, false, some, [], ◌∷◌, arith, if◌then◌else◌,
}
use falcon_guide.Prelude.Int.{ℤ, pos, negsuc, pos_part, ◌-ℤ◌}
use falcon_guide.Core.Time.{seconds, compare_timestamps, time_difference}
use falcon_guide.Core.Buffer.{
  insert, insert_into, insert_after, place, enforce_max_size, should_pop, make_buffer, pop_until,
  pop_while,
}
use falcon_guide.Estimation.Ekf.Estimator.Propagate.{propagate_to, propagate_batch}
use falcon_guide.Core.Enums.{GnssFixType, MeasurementValidity}
use falcon_guide.Core.Gnss.{default_solution}
use falcon_guide.Core.Numerics.{Numerics}
use falcon_guide.Estimation.Interface.{accepted, MeasurementUpdateReport}
use falcon_guide.Estimation.Measurement.{
  ImuMeasurement, SensorMeasurement, BarometerMeasurement, get_timestamp,
}
use falcon_guide.Estimation.Ekf.Factory.{EkfOptions}
use falcon_guide.Estimation.Ekf.Estimator.{IMeasurementModel, EkfEstimator, make_ekf}
use falcon_guide.Estimation.Ekf.Estimator.Initialise.{
  usable_fix, try_initialise_from_gnss, initial_state,
}
use falcon_guide.Estimation.Ekf.Estimator.Calls.{
  start_filter, buffer_imu, latest_state, add_measurement, reset, fuse, dispatch, after_apply,
}
use falcon_guide.Estimation.Ekf.Estimator.Aiding.{is_accepted, aided_by_accepted}
use falcon_guide.Estimation.Ekf.Estimator.Loop.{Returns, IsShrinking, add_measurement-Returns}
use falcon_guide.Estimation.Ekf.Estimator.Invariant.{IsWellFormed}
use falcon_guide.Estimation.Ekf.Estimator.Runs.{Reach, made, added, Reach-IsWellFormed, reset-new}
use falcon_guide.Estimation.Config.Defaults.{default_barometer}
use falcon_guide.Estimation.Ekf.Factory.{Model, barometer}
use falcon_guide.Estimation.Ekf.Estimator.{Applied}
use falcon_guide.Estimation.Ekf.Estimator.Fuse.{ekf_update, joseph_update}
use falcon_guide.Estimation.Ekf.Models.Height.{apply_altitude, apply_barometer, fuse_altitude}
use falcon_guide.Estimation.Ekf.Models.Dispatch.{apply_known}
use falcon_guide.Estimation.Ekf.Models.Proper.{IsProper, apply_known-IsProper}
use falcon_guide.Estimation.Pipeline.{Input, measured, was_reset}
use falcon_guide.Estimation.Ekf.Estimator.Starting.{is_some, run, seen_fix, shown_after_fix}
use falcon_guide.Tests.Json.{whole_literal}
use falcon_guide.Tests.Values.{whole, whole-IsOrdered, at_ns}

abbrev numbers : Numerics ℤ ℤ ℤ ℤ ℤ
numbers = record {
  add = λ x0 x1. x0;
  mul = λ x0 x1. x0;
  div = λ x0 x1. x0;
  negative = λ x0. x0;
  sqrt = λ x0. x0;
  pow = λ x0 x1. x0;
  vector = λ x0 x1 x2. x0;
  v_x = λ x0. x0;
  v_y = λ x0. x0;
  v_z = λ x0. x0;
  v_norm = λ x0. x0;
  v_add = λ x0 x1. x0;
  v_sub = λ x0 x1. x0;
  v_scale = λ x0 x1. x0;
  v_over = λ x0 x1. x0;
  to_vector = λ x0. x0;
  column = λ x0. x0;
  no_rotation = pos 0;
  compose = λ x0 x1. x0;
  normalized = λ x0. x0;
  to_rotation_matrix = λ x0. x0;
  zeros = λ x0 x1. pos 0;
  identity = λ x0. pos 0;
  constant = λ x0. x0;
  rows = λ x0. 15;
  m_add = λ x0 x1. x0;
  m_sub = λ x0 x1. x0;
  m_mul = λ x0 x1. x0;
  m_scale = λ x0 x1. x0;
  negate = λ x0. x0;
  transpose = λ x0. x0;
  inverse = λ x0. x0;
  solve = λ x0 x1. x0;
  apply = λ x0 x1. x0;
  block = λ x0 x1 x2 x3 x4. x0;
  set_block = λ x0 x1 x2 x3. x0;
  entry = λ x0 x1 x2. x0;
  set_entry = λ x0 x1 x2 x3. x0;
  trace = λ x0. x0;
  norm = λ x0. x0;
  exp_map = λ x0. x0;
  skew = λ x0. x0;
  symmetrize = λ x0. x0;
  ecef_to_lla = λ x0. record { latitude_rad = x0; longitude_rad = pos 0; altitude_m = pos 0 };
  tangent_plane = λ x0. pos 0;
  ecef_to_enu_rotation = λ x0. x0;
  enu_to_ecef = λ x0 x1. x0;
  ecef_to_enu = λ x0 x1. x0;
}

abbrev options : EkfOptions ℤ
options = record {
  imu_noise = record {
    accel_noise_density_mps2_per_sqrthz = pos 1;
    gyro_noise_density_radps_per_sqrthz = pos 1;
    accel_random_walk_mps3_per_sqrthz = pos 1;
    gyro_random_walk_radps2_per_sqrthz = pos 1;
  };
  min_imu_dt_s = pos 1;
  max_imu_dt_s = pos 5;
  dead_reckoning_threshold_s = pos 10;
  enable_gnss_clock_state = true;
  enable_baro_bias_state = false;
}

-- A model is its name's length.
abbrev accepting : IMeasurementModel ℤ ℤ ℤ ℤ ℤ ℤ ℕ
accepting = record {
  name = λ a. "Accepting";
  can_handle = λ a m. true;
  apply_model = λ a s m plane. record {
    nominal = s.nominal;
    error_state = s.error_state;
    covariance = s.covariance;
    result = accepted;
  };
}

abbrev fuel : ℤ → ℕ
fuel x = suc (pos_part x)

abbrev Filter : Type 0
Filter = EkfEstimator ℤ ℤ ℤ ℤ ℤ ℕ

steps_shrink : IsShrinking ℤ fuel (pos 5) (pos 1000)
unfolding ◌-ℤ◌
steps_shrink = record {
  rank = pos_part;
  enough = λ x l. omega arith;
  shrinks = λ x l h. ground arith;
  limited = λ x l h. ground arith;
}

abbrev new : Filter
new = make_ekf numbers options (0 ∷ [])

abbrev fix : SensorMeasurement ℤ ℤ ℤ ℤ
fix =
    SensorMeasurement.gnss_solution
      (record (default_solution (at_ns (pos 3)) (pos 0) (pos 0)) { fix_type = GnssFixType.single })

-- The filter after the fix.
abbrev started : Filter
started = (start_filter numbers accepting fuel new fix).0

abbrev first_report : MeasurementUpdateReport ℤ
first_report = (start_filter numbers accepting fuel new fix).1

first_call : add_measurement numbers accepting fuel new fix ≡ some (started, first_report)
unfolding add_measurement make_ekf
first_call = refl

to_started : Reach numbers accepting fuel options (0 ∷ []) started
to_started = added fix first_report made first_call

abbrev second_fix : SensorMeasurement ℤ ℤ ℤ ℤ
second_fix =
    SensorMeasurement.gnss_solution
      (record (default_solution (at_ns (pos 9)) (pos 0) (pos 0)) { fix_type = GnssFixType.single })

abbrev sample : ImuMeasurement ℤ ℤ
sample = record {
  timestamp = at_ns (pos 9);
  specific_force_mps2 = pos 0;
  angular_rate_radps = pos 0;
  temperature_celsius = none;
  validity = MeasurementValidity.valid;
}

-- The filter with a sample, after the fix, that lasts for two steps.
abbrev waiting : Filter
waiting = (buffer_imu numbers accepting fuel started sample).0

add_measurement-Returns_example :
    Returns (add_measurement numbers accepting fuel waiting second_fix)
unfolding make_ekf start_filter try_initialise_from_gnss usable_fix initial_state buffer_imu insert
    insert_into insert_after place enforce_max_size pop_until pop_while should_pop make_buffer
    get_timestamp compare_timestamps time_difference ◌-ℤ◌ seconds
add_measurement-Returns_example =
    add_measurement-Returns numbers accepting fuel waiting second_fix (pos 1000) steps_shrink
      (refl, tt, tt)

Reach-IsWellFormed_example : IsWellFormed started
Reach-IsWellFormed_example = Reach-IsWellFormed numbers accepting fuel whole-IsOrdered to_started

reset-new_example :
    reset numbers accepting fuel started
    ≡ make_ekf numbers started.options started.measurement_models
reset-new_example = reset-new numbers accepting fuel whole-IsOrdered to_started

-- A fix, a reset and another fix.
abbrev inputs : List (Input (SensorMeasurement ℤ ℤ ℤ ℤ))
inputs = measured fix ∷ was_reset ∷ measured second_fix ∷ []

abbrev restarted : Filter
restarted =
    (start_filter numbers accepting fuel (reset numbers accepting fuel started) second_fix).0

restarts : run numbers accepting fuel new inputs ≡ some restarted
unfolding add_measurement make_ekf reset start_filter try_initialise_from_gnss usable_fix
    initial_state
restarts = refl

shown_after_fix_example :
    is_some (latest_state numbers accepting fuel restarted)
    ≡ seen_fix numbers accepting fuel false inputs
shown_after_fix_example =
    shown_after_fix numbers accepting fuel options (0 ∷ []) inputs restarted restarts

-- The filter after the second fix, which the model accepts.
abbrev aided : Filter × MeasurementUpdateReport ℤ
aided = dispatch numbers accepting fuel started second_fix (0 ∷ [])

aided_by_accepted_example : aided.0.last_aiding_timestamp ≡ (
    if is_accepted aided.1.result
    then some (get_timestamp second_fix)
    else started.last_aiding_timestamp)
unfolding make_ekf start_filter try_initialise_from_gnss usable_fix initial_state add_measurement
    fuse propagate_to propagate_batch pop_until pop_while make_buffer dispatch
aided_by_accepted_example =
    aided_by_accepted numbers accepting fuel started second_fix aided refl refl

-- Its time is that of the last aiding.
aided_at : aided.0.last_aiding_timestamp ≡ some (at_ns (pos 9))
unfolding dispatch get_timestamp after_apply
aided_at = refl

-- A barometer of the filter, on a reading below the ground.
abbrev reading : BarometerMeasurement ℤ
reading = record {
  timestamp = at_ns (pos 4);
  pressure_pa = pos 101325;
  temperature_celsius = none;
  altitude_m = some (negsuc 4);
  validity = MeasurementValidity.valid;
}

abbrev barometer_reading : SensorMeasurement ℤ ℤ ℤ ℤ
barometer_reading = SensorMeasurement.barometer reading

abbrev barometer_model : Model ℤ
barometer_model = barometer default_barometer

abbrev after_reading : Applied ℤ ℤ ℤ ℤ
after_reading = apply_altitude numbers default_barometer started.state reading (some (negsuc 4))

apply_known-IsProper_example : IsProper started.state true after_reading
unfolding apply_known apply_barometer
apply_known-IsProper_example =
    apply_known-IsProper numbers started.state barometer_model barometer_reading none after_reading
      refl

reading_accepted : is_accepted after_reading.result ≡ true
unfolding apply_altitude fuse_altitude ekf_update joseph_update
reading_accepted = refl
