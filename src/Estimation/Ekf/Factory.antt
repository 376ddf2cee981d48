-- ===== src/Estimation/Ekf/Factory.antt =====
-- `BuildEkfEstimator` of src/estimation/src/navigation_system.cpp, `EkfOptions` of ekf_estimator.hpp, and
-- `CanHandle` of src/estimation/src/backends/ekf/measurement_models.
pub mod Unique
pub mod Clock
use falcon_guide.Prelude.{Bool, true, false, ◌&&◌, List, [], ◌∷◌, if◌then◌else◌}
use falcon_guide.Estimation.Measurement.{SensorMeasurement}
use falcon_guide.Estimation.Config.{
  GnssIntegrationMode, loosely_coupled, tightly_coupled, ImuNoiseModel, SensorConfig,
  GnssSensorConfig, NavigationSystemConfig, GnssLooselyCoupledOptions, GnssTightlyCoupledOptions,
  BarometerOptions, MagnetometerOptions, WheelOdometryOptions, AirspeedOptions, OpticalFlowOptions,
  RadarAltimeterOptions, RangeFinderOptions, DvlOptions, EchoSounderOptions, ExternalPoseOptions,
  ExternalVelocityOptions, ExternalOdometryOptions, AidingSolutionOptions, StarTrackerOptions,
}

-- The options of the filter; those of the base class, which nothing reads, are left out.
pub record EkfOptions {ℓ} (D : Type ℓ) : Type ℓ where
  pub imu_noise : ImuNoiseModel D
  pub min_imu_dt_s : D
  pub max_imu_dt_s : D
  pub dead_reckoning_threshold_s : D
  pub enable_gnss_clock_state : Bool
  pub enable_baro_bias_state : Bool

-- The classes that implement `IMeasurementModel`, each with its options.
pub data Model {ℓ} (D : Type ℓ) : Type ℓ where
  gnss_loosely_coupled : GnssLooselyCoupledOptions D → Model D
  gnss_tightly_coupled : GnssTightlyCoupledOptions D → Model D
  barometer : BarometerOptions D → Model D
  magnetometer : MagnetometerOptions D → Model D
  wheel_odometry : WheelOdometryOptions D → Model D
  airspeed : AirspeedOptions D → Model D
  optical_flow : OpticalFlowOptions D → Model D
  radar_altimeter : RadarAltimeterOptions D → Model D
  range_finder : RangeFinderOptions D → Model D
  dvl : DvlOptions D → Model D
  echo_sounder : EchoSounderOptions D → Model D
  external_pose : ExternalPoseOptions D → Model D
  external_velocity : ExternalVelocityOptions D → Model D
  external_odometry : ExternalOdometryOptions D → Model D
  aiding_solution : AidingSolutionOptions D → Model D
  star_tracker : StarTrackerOptions D → Model D

abbrev pub is_tight : GnssIntegrationMode → Bool
is_tight loosely_coupled = false
is_tight tightly_coupled = true

-- A model that is registered where its sensor is enabled, before the ones after it.
abbrev pub when {ℓ κ} : {O : Type ℓ} {A : Type κ} → SensorConfig O → (O → A) → List A → List A
when c model rest = if c.enabled then model c.options ∷ rest else rest

module _ {ℓ} {D : Type ℓ} where
  abbrev pub by_mode : GnssSensorConfig D → GnssIntegrationMode → Model D
  by_mode c loosely_coupled = gnss_loosely_coupled c.loosely_coupled
  by_mode c tightly_coupled = gnss_tightly_coupled c.tightly_coupled

  abbrev pub when_gnss : GnssSensorConfig D → List (Model D) → List (Model D)
  when_gnss c rest = if c.enabled then by_mode c c.mode ∷ rest else rest

  unfoldable pub ekf_options : NavigationSystemConfig D → EkfOptions D
  ekf_options config = record {
    imu_noise = config.imu.noise;
    min_imu_dt_s = config.min_imu_dt_s;
    max_imu_dt_s = config.max_imu_dt_s;
    dead_reckoning_threshold_s = config.dead_reckoning_threshold_s;
    enable_gnss_clock_state = config.gnss.enabled && is_tight config.gnss.mode;
    enable_baro_bias_state = false;
  }

  -- The models that are registered, in their order.
  unfoldable pub ekf_models : NavigationSystemConfig D → List (Model D)
  ekf_models config = when_gnss config.gnss (
      when config.barometer barometer (
        when config.magnetometer magnetometer (
          when config.wheel_odometry wheel_odometry (
            when config.airspeed airspeed (
              when config.optical_flow optical_flow (
                when config.radar_altimeter radar_altimeter (
                  when config.range_finder range_finder (
                    when config.dvl dvl (
                      when config.echo_sounder echo_sounder (
                        when config.external_pose external_pose (
                          when config.external_velocity external_velocity (
                            when config.external_odometry external_odometry (
                              when config.aiding_solution aiding_solution
                                (when config.star_tracker star_tracker []))))))))))))))

-- `CanHandle` of each model.
unfoldable pub can_handle {ℓ} : {D V C P : Type ℓ} → Model D → SensorMeasurement D V C P → Bool
can_handle (gnss_loosely_coupled o) (SensorMeasurement.gnss_solution m) = true
can_handle (gnss_tightly_coupled o) (SensorMeasurement.gnss_tightly_coupled_epoch m) = true
can_handle (barometer o) (SensorMeasurement.barometer m) = true
can_handle (magnetometer o) (SensorMeasurement.magnetometer m) = true
can_handle (wheel_odometry o) (SensorMeasurement.wheel_odometry m) = true
can_handle (airspeed o) (SensorMeasurement.airspeed m) = true
can_handle (optical_flow o) (SensorMeasurement.optical_flow m) = true
can_handle (radar_altimeter o) (SensorMeasurement.radar_altimeter m) = true
can_handle (range_finder o) (SensorMeasurement.range_finder m) = true
can_handle (dvl o) (SensorMeasurement.dvl m) = true
can_handle (echo_sounder o) (SensorMeasurement.echo_sounder m) = true
can_handle (external_pose o) (SensorMeasurement.external_pose m) = true
can_handle (external_velocity o) (SensorMeasurement.external_velocity m) = true
can_handle (external_odometry o) (SensorMeasurement.external_odometry m) = true
can_handle (aiding_solution o) (SensorMeasurement.aiding_solution m) = true
can_handle (star_tracker o) (SensorMeasurement.star_tracker m) = true
can_handle _ _ = false
