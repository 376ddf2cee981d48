-- ===== src/Estimation/Ukf/Factory/Unique.antt =====
-- No measurement has two models of the unscented filter either.
use falcon_guide.Prelude.{ℕ, ◌+◌, ◌≤◌, ◌≡◌, refl, List, [], ◌∷◌, arith, if_cases}
use falcon_guide.Estimation.Measurement.{SensorMeasurement}
use falcon_guide.Estimation.Config.{
  EstimatorBackendChoice, ekf, ukf, ceres, gtsam, SensorConfig, GnssSensorConfig,
  NavigationSystemConfig,
}
use falcon_guide.Estimation.Ekf.Factory.{when, ekf_models}
use falcon_guide.Estimation.Ekf.Factory.Unique.{one_if, handlers, one_ekf_handler}
use falcon_guide.Estimation.Ukf.Factory.{
  UkfModel, Estimator, ekf_estimator, ukf_estimator, ceres_estimator, gtsam_estimator, copy_gnss,
  copy_barometer, copy_magnetometer, copy_wheel_odometry, copy_airspeed, copy_optical_flow,
  copy_radar_altimeter, copy_dvl, copy_echo_sounder, copy_external_pose, copy_external_velocity,
  copy_external_odometry, copy_aiding_solution, copy_star_tracker, when_gnss, ukf_models,
  ukf_can_handle, build_estimator,
}

module _ {ℓ} {D V C P : Type ℓ} (m : SensorMeasurement D V C P) where
  abbrev all_handlers : NavigationSystemConfig D → ℕ
  all_handlers c =
      one_if (ukf_can_handle (copy_gnss c.gnss.loosely_coupled) m)
      + one_if (ukf_can_handle (copy_barometer c.barometer.options) m)
      + one_if (ukf_can_handle (copy_magnetometer c.magnetometer.options) m)
      + one_if (ukf_can_handle (copy_wheel_odometry c.wheel_odometry.options) m)
      + one_if (ukf_can_handle (copy_airspeed c.airspeed.options) m)
      + one_if (ukf_can_handle (copy_optical_flow c.optical_flow.options) m)
      + one_if (ukf_can_handle (copy_radar_altimeter c.radar_altimeter.options) m)
      + one_if (ukf_can_handle (copy_dvl c.dvl.options) m)
      + one_if (ukf_can_handle (copy_echo_sounder c.echo_sounder.options) m)
      + one_if (ukf_can_handle (copy_external_pose c.external_pose.options) m)
      + one_if (ukf_can_handle (copy_external_velocity c.external_velocity.options) m)
      + one_if (ukf_can_handle (copy_external_odometry c.external_odometry.options) m)
      + one_if (ukf_can_handle (copy_aiding_solution c.aiding_solution.options) m)
      + one_if (ukf_can_handle (copy_star_tracker c.star_tracker.options) m)

  -- How many models of a list can handle the measurement.
  abbrev pub ukf_handlers : List (UkfModel D) → ℕ
  ukf_handlers [] = 0
  ukf_handlers (model ∷ rest) = one_if (ukf_can_handle model m) + ukf_handlers rest

  ukf_handlers-when :
      {O : Type ℓ} (c : SensorConfig O) (model : O → UkfModel D) (rest : List (UkfModel D))
      → ukf_handlers (when c model rest)
        ≤ one_if (ukf_can_handle (model c.options) m) + ukf_handlers rest
  ukf_handlers-when c model rest =
      if_cases
        (λ ms. ukf_handlers ms ≤ one_if (ukf_can_handle (model c.options) m) + ukf_handlers rest)
        c.enabled (λ e. omega arith) (λ e. omega arith)

  ukf_handlers-when_gnss :
      (c : GnssSensorConfig D) (rest : List (UkfModel D))
      → ukf_handlers (when_gnss c rest)
        ≤ one_if (ukf_can_handle (copy_gnss c.loosely_coupled) m) + ukf_handlers rest
  ukf_handlers-when_gnss c rest =
      if_cases
        (λ ms.
          ukf_handlers ms
          ≤ one_if (ukf_can_handle (copy_gnss c.loosely_coupled) m) + ukf_handlers rest)
        c.enabled (λ e. omega arith) (λ e. omega arith)

  ukf_handlers-ukf_models :
      (config : NavigationSystemConfig D) → ukf_handlers (ukf_models config) ≤ all_handlers config
  unfolding ukf_models
  ukf_handlers-ukf_models config =
      let l1 : List (UkfModel D) = when config.star_tracker copy_star_tracker [] in
      let l2 : List (UkfModel D) = when config.aiding_solution copy_aiding_solution l1 in
      let l3 : List (UkfModel D) = when config.external_odometry copy_external_odometry l2 in
      let l4 : List (UkfModel D) = when config.external_velocity copy_external_velocity l3 in
      let l5 : List (UkfModel D) = when config.external_pose copy_external_pose l4 in
      let l6 : List (UkfModel D) = when config.echo_sounder copy_echo_sounder l5 in
      let l7 : List (UkfModel D) = when config.dvl copy_dvl l6 in
      let l8 : List (UkfModel D) = when config.radar_altimeter copy_radar_altimeter l7 in
      let l9 : List (UkfModel D) = when config.optical_flow copy_optical_flow l8 in
      let l10 : List (UkfModel D) = when config.airspeed copy_airspeed l9 in
      let l11 : List (UkfModel D) = when config.wheel_odometry copy_wheel_odometry l10 in
      let l12 : List (UkfModel D) = when config.magnetometer copy_magnetometer l11 in
      let l13 : List (UkfModel D) = when config.barometer copy_barometer l12 in
      omega (
        arith,
        ukf_handlers-when_gnss config.gnss l13,
        ukf_handlers-when config.star_tracker copy_star_tracker [],
        ukf_handlers-when config.aiding_solution copy_aiding_solution l1,
        ukf_handlers-when config.external_odometry copy_external_odometry l2,
        ukf_handlers-when config.external_velocity copy_external_velocity l3,
        ukf_handlers-when config.external_pose copy_external_pose l4,
        ukf_handlers-when config.echo_sounder copy_echo_sounder l5,
        ukf_handlers-when config.dvl copy_dvl l6,
        ukf_handlers-when config.radar_altimeter copy_radar_altimeter l7,
        ukf_handlers-when config.optical_flow copy_optical_flow l8,
        ukf_handlers-when config.airspeed copy_airspeed l9,
        ukf_handlers-when config.wheel_odometry copy_wheel_odometry l10,
        ukf_handlers-when config.magnetometer copy_magnetometer l11,
        ukf_handlers-when config.barometer copy_barometer l12,
      )

module _ {ℓ} {D V C P : Type ℓ} (config : NavigationSystemConfig D) where
  ukf_handlers_bound : (m : SensorMeasurement D V C P) → all_handlers m config ≤ 1
  unfolding ukf_can_handle
  ukf_handlers_bound (SensorMeasurement.imu m) = omega arith
  ukf_handlers_bound (SensorMeasurement.magnetometer m) = omega arith
  ukf_handlers_bound (SensorMeasurement.barometer m) = omega arith
  ukf_handlers_bound (SensorMeasurement.radar_altimeter m) = omega arith
  ukf_handlers_bound (SensorMeasurement.wheel_encoder m) = omega arith
  ukf_handlers_bound (SensorMeasurement.wheel_odometry m) = omega arith
  ukf_handlers_bound (SensorMeasurement.airspeed m) = omega arith
  ukf_handlers_bound (SensorMeasurement.range_finder m) = omega arith
  ukf_handlers_bound (SensorMeasurement.optical_flow m) = omega arith
  ukf_handlers_bound (SensorMeasurement.dvl m) = omega arith
  ukf_handlers_bound (SensorMeasurement.echo_sounder m) = omega arith
  ukf_handlers_bound (SensorMeasurement.external_pose m) = omega arith
  ukf_handlers_bound (SensorMeasurement.external_velocity m) = omega arith
  ukf_handlers_bound (SensorMeasurement.external_odometry m) = omega arith
  ukf_handlers_bound (SensorMeasurement.gnss_observation_epoch m) = omega arith
  ukf_handlers_bound (SensorMeasurement.gnss_solution m) = omega arith
  ukf_handlers_bound (SensorMeasurement.camera_frame m) = omega arith
  ukf_handlers_bound (SensorMeasurement.geo_reference_image m) = omega arith
  ukf_handlers_bound (SensorMeasurement.aiding_solution m) = omega arith
  ukf_handlers_bound (SensorMeasurement.star_tracker m) = omega arith
  ukf_handlers_bound (SensorMeasurement.gnss_tightly_coupled_epoch m) = omega arith

  -- How many registered models of an estimator can handle the measurement; the other two backends register
  -- none.
  abbrev pub handlers_in : SensorMeasurement D V C P → Estimator D → ℕ
  handlers_in m (ekf_estimator o ms) = handlers m ms
  handlers_in m (ukf_estimator o ms) = ukf_handlers m ms
  handlers_in m ceres_estimator = 0
  handlers_in m gtsam_estimator = 0

  one_by :
      (m : SensorMeasurement D V C P) (b : EstimatorBackendChoice)
      → config.backend ≡ b
      → handlers_in m (build_estimator config) ≤ 1
  unfolding build_estimator ekf_models ukf_models
  one_by m ekf e = rw e (one_ekf_handler config m)
  one_by m ukf e = rw e (omega (arith, ukf_handlers-ukf_models m config, ukf_handlers_bound m))
  one_by m ceres e = rw e (omega arith)
  one_by m gtsam e = rw e (omega arith)

  -- In the EKF or the UKF that any configuration builds, at most one registered model can handle a
  -- measurement, so that the first that can is the only one.
  pub one_handler : (m : SensorMeasurement D V C P) → handlers_in m (build_estimator config) ≤ 1
  one_handler m = one_by m config.backend refl
