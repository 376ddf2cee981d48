-- ===== src/Estimation/Ukf/Factory/Same.antt =====
-- Which measurements the two filters use under the same settings.
use falcon_guide.Prelude.{◌≡◌, false, any, any-if}
use falcon_guide.Estimation.Measurement.{SensorMeasurement}
use falcon_guide.Estimation.Config.{loosely_coupled, NavigationSystemConfig}
use falcon_guide.Estimation.Ekf.Factory.{can_handle, ekf_models}
use falcon_guide.Estimation.Ukf.Factory.{ukf_can_handle, ukf_models}

-- The settings with GNSS in the loosely coupled mode and without a range finder.
abbrev pub for_ukf {ℓ} : {D : Type ℓ} → NavigationSystemConfig D → NavigationSystemConfig D
for_ukf config = record config {
  gnss = record config.gnss { mode = loosely_coupled };
  range_finder = record config.range_finder { enabled = false };
}

module _ {ℓ} {D V C P : Type ℓ} (config : NavigationSystemConfig D) where
  -- The UKF has a model for exactly the measurements for which the EKF has one with GNSS in the loosely
  -- coupled mode and without a range finder.
  pub same_handled :
      (m : SensorMeasurement D V C P)
      → any (λ model. ukf_can_handle model m) (ukf_models config)
        ≡ any (λ model. can_handle model m) (ekf_models (for_ukf config))
  unfolding ukf_can_handle ukf_models can_handle ekf_models
  same_handled (SensorMeasurement.imu m) = simp any-if
  same_handled (SensorMeasurement.magnetometer m) = simp any-if
  same_handled (SensorMeasurement.barometer m) = simp any-if
  same_handled (SensorMeasurement.radar_altimeter m) = simp any-if
  same_handled (SensorMeasurement.wheel_encoder m) = simp any-if
  same_handled (SensorMeasurement.wheel_odometry m) = simp any-if
  same_handled (SensorMeasurement.airspeed m) = simp any-if
  same_handled (SensorMeasurement.range_finder m) = simp any-if
  same_handled (SensorMeasurement.optical_flow m) = simp any-if
  same_handled (SensorMeasurement.dvl m) = simp any-if
  same_handled (SensorMeasurement.echo_sounder m) = simp any-if
  same_handled (SensorMeasurement.external_pose m) = simp any-if
  same_handled (SensorMeasurement.external_velocity m) = simp any-if
  same_handled (SensorMeasurement.external_odometry m) = simp any-if
  same_handled (SensorMeasurement.gnss_observation_epoch m) = simp any-if
  same_handled (SensorMeasurement.gnss_solution m) = simp any-if
  same_handled (SensorMeasurement.camera_frame m) = simp any-if
  same_handled (SensorMeasurement.geo_reference_image m) = simp any-if
  same_handled (SensorMeasurement.aiding_solution m) = simp any-if
  same_handled (SensorMeasurement.star_tracker m) = simp any-if
  same_handled (SensorMeasurement.gnss_tightly_coupled_epoch m) = simp any-if
