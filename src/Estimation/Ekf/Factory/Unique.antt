-- ===== src/Estimation/Ekf/Factory/Unique.antt =====
-- No measurement has two models, so that the order of registration does not matter.
use falcon_guide.Prelude.{ℕ, ◌+◌, ◌≤◌, Bool, List, [], ◌∷◌, arith, if_cases, if◌then◌else◌}
use falcon_guide.Estimation.Measurement.{SensorMeasurement}
use falcon_guide.Estimation.Config.{
  GnssIntegrationMode, loosely_coupled, tightly_coupled, SensorConfig, GnssSensorConfig,
  NavigationSystemConfig,
}
use falcon_guide.Estimation.Ekf.Factory.{
  Model, gnss_loosely_coupled, gnss_tightly_coupled, barometer, magnetometer, wheel_odometry,
  airspeed, optical_flow, radar_altimeter, range_finder, dvl, echo_sounder, external_pose,
  external_velocity, external_odometry, aiding_solution, star_tracker, when, by_mode, when_gnss,
  ekf_models, can_handle,
}

abbrev pub one_if : Bool → ℕ
one_if b = if b then 1 else 0

module _ {ℓ} {D V C P : Type ℓ} (m : SensorMeasurement D V C P) where
  abbrev by_gnss : GnssSensorConfig D → ℕ
  by_gnss c =
      one_if (can_handle (gnss_loosely_coupled c.loosely_coupled) m)
      + one_if (can_handle (gnss_tightly_coupled c.tightly_coupled) m)

  abbrev all_handlers : NavigationSystemConfig D → ℕ
  all_handlers c =
      by_gnss c.gnss
      + one_if (can_handle (barometer c.barometer.options) m)
      + one_if (can_handle (magnetometer c.magnetometer.options) m)
      + one_if (can_handle (wheel_odometry c.wheel_odometry.options) m)
      + one_if (can_handle (airspeed c.airspeed.options) m)
      + one_if (can_handle (optical_flow c.optical_flow.options) m)
      + one_if (can_handle (radar_altimeter c.radar_altimeter.options) m)
      + one_if (can_handle (range_finder c.range_finder.options) m)
      + one_if (can_handle (dvl c.dvl.options) m)
      + one_if (can_handle (echo_sounder c.echo_sounder.options) m)
      + one_if (can_handle (external_pose c.external_pose.options) m)
      + one_if (can_handle (external_velocity c.external_velocity.options) m)
      + one_if (can_handle (external_odometry c.external_odometry.options) m)
      + one_if (can_handle (aiding_solution c.aiding_solution.options) m)
      + one_if (can_handle (star_tracker c.star_tracker.options) m)

  -- How many models of a list can handle the measurement.
  abbrev pub handlers : List (Model D) → ℕ
  handlers [] = 0
  handlers (model ∷ rest) = one_if (can_handle model m) + handlers rest

  handlers-when :
      {O : Type ℓ} (c : SensorConfig O) (model : O → Model D) (rest : List (Model D))
      → handlers (when c model rest) ≤ one_if (can_handle (model c.options) m) + handlers rest
  handlers-when c model rest =
      if_cases (λ ms. handlers ms ≤ one_if (can_handle (model c.options) m) + handlers rest)
        c.enabled (λ e. omega arith) (λ e. omega arith)

  handlers-mode :
      (c : GnssSensorConfig D) (mode : GnssIntegrationMode) (rest : List (Model D))
      → handlers (by_mode c mode ∷ rest) ≤ by_gnss c + handlers rest
  handlers-mode c loosely_coupled rest = omega arith
  handlers-mode c tightly_coupled rest = omega arith

  handlers-when_gnss :
      (c : GnssSensorConfig D) (rest : List (Model D))
      → handlers (when_gnss c rest) ≤ by_gnss c + handlers rest
  handlers-when_gnss c rest =
      if_cases (λ ms. handlers ms ≤ by_gnss c + handlers rest) c.enabled
        (λ e. handlers-mode c c.mode rest) (λ e. omega arith)

  handlers-ekf_models :
      (config : NavigationSystemConfig D) → handlers (ekf_models config) ≤ all_handlers config
  unfolding ekf_models
  handlers-ekf_models config =
      let l1 : List (Model D) = when config.star_tracker star_tracker [] in
      let l2 : List (Model D) = when config.aiding_solution aiding_solution l1 in
      let l3 : List (Model D) = when config.external_odometry external_odometry l2 in
      let l4 : List (Model D) = when config.external_velocity external_velocity l3 in
      let l5 : List (Model D) = when config.external_pose external_pose l4 in
      let l6 : List (Model D) = when config.echo_sounder echo_sounder l5 in
      let l7 : List (Model D) = when config.dvl dvl l6 in
      let l8 : List (Model D) = when config.range_finder range_finder l7 in
      let l9 : List (Model D) = when config.radar_altimeter radar_altimeter l8 in
      let l10 : List (Model D) = when config.optical_flow optical_flow l9 in
      let l11 : List (Model D) = when config.airspeed airspeed l10 in
      let l12 : List (Model D) = when config.wheel_odometry wheel_odometry l11 in
      let l13 : List (Model D) = when config.magnetometer magnetometer l12 in
      let l14 : List (Model D) = when config.barometer barometer l13 in
      omega (
        arith,
        handlers-when_gnss config.gnss l14,
        handlers-when config.star_tracker star_tracker [],
        handlers-when config.aiding_solution aiding_solution l1,
        handlers-when config.external_odometry external_odometry l2,
        handlers-when config.external_velocity external_velocity l3,
        handlers-when config.external_pose external_pose l4,
        handlers-when config.echo_sounder echo_sounder l5,
        handlers-when config.dvl dvl l6,
        handlers-when config.range_finder range_finder l7,
        handlers-when config.radar_altimeter radar_altimeter l8,
        handlers-when config.optical_flow optical_flow l9,
        handlers-when config.airspeed airspeed l10,
        handlers-when config.wheel_odometry wheel_odometry l11,
        handlers-when config.magnetometer magnetometer l12,
        handlers-when config.barometer barometer l13,
      )

module _ {ℓ} {D V C P : Type ℓ} (config : NavigationSystemConfig D) where
  handlers_bound : (m : SensorMeasurement D V C P) → all_handlers m config ≤ 1
  unfolding can_handle
  handlers_bound (SensorMeasurement.imu m) = omega arith
  handlers_bound (SensorMeasurement.magnetometer m) = omega arith
  handlers_bound (SensorMeasurement.barometer m) = omega arith
  handlers_bound (SensorMeasurement.radar_altimeter m) = omega arith
  handlers_bound (SensorMeasurement.wheel_encoder m) = omega arith
  handlers_bound (SensorMeasurement.wheel_odometry m) = omega arith
  handlers_bound (SensorMeasurement.airspeed m) = omega arith
  handlers_bound (SensorMeasurement.range_finder m) = omega arith
  handlers_bound (SensorMeasurement.optical_flow m) = omega arith
  handlers_bound (SensorMeasurement.dvl m) = omega arith
  handlers_bound (SensorMeasurement.echo_sounder m) = omega arith
  handlers_bound (SensorMeasurement.external_pose m) = omega arith
  handlers_bound (SensorMeasurement.external_velocity m) = omega arith
  handlers_bound (SensorMeasurement.external_odometry m) = omega arith
  handlers_bound (SensorMeasurement.gnss_observation_epoch m) = omega arith
  handlers_bound (SensorMeasurement.gnss_solution m) = omega arith
  handlers_bound (SensorMeasurement.camera_frame m) = omega arith
  handlers_bound (SensorMeasurement.geo_reference_image m) = omega arith
  handlers_bound (SensorMeasurement.aiding_solution m) = omega arith
  handlers_bound (SensorMeasurement.star_tracker m) = omega arith
  handlers_bound (SensorMeasurement.gnss_tightly_coupled_epoch m) = omega arith

  -- At most one model that `BuildEkfEstimator` registers can handle a measurement.
  pub one_ekf_handler : (m : SensorMeasurement D V C P) → handlers m (ekf_models config) ≤ 1
  one_ekf_handler m = omega (arith, handlers-ekf_models m config, handlers_bound m)
