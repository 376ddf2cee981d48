-- ===== src/Estimation/Config.antt =====
-- src/estimation/include/falconguide/estimation/navigation_system_config.hpp, `ImuNoiseModel` of ekf_state.hpp
-- and `MerweSigmaParams` of ukf_state.hpp.
pub mod Options
pub mod Defaults
use falcon_guide.Prelude.{Bool, false}
use falcon_guide.Prelude.Int.{pos}
use falcon_guide.Core.Double.{Literal}
pub use Options.*
pub use Defaults.*

pub data EstimatorBackendChoice : Type 0 where
  ekf ukf ceres gtsam : EstimatorBackendChoice

pub data GnssIntegrationMode : Type 0 where
  loosely_coupled tightly_coupled : GnssIntegrationMode

pub record ImuNoiseModel {ℓ} (D : Type ℓ) : Type ℓ where
  pub accel_noise_density_mps2_per_sqrthz : D
  pub gyro_noise_density_radps_per_sqrthz : D
  pub accel_random_walk_mps3_per_sqrthz : D
  pub gyro_random_walk_radps2_per_sqrthz : D

pub record ImuSensorConfig {ℓ} (D : Type ℓ) : Type ℓ where
  pub noise : ImuNoiseModel D

pub record MerweSigmaParams {ℓ} (D : Type ℓ) : Type ℓ where
  pub alpha : D
  pub beta : D
  pub kappa : D

pub record GnssSensorConfig {ℓ} (D : Type ℓ) : Type ℓ where
  pub enabled : Bool
  pub mode : GnssIntegrationMode
  pub loosely_coupled : GnssLooselyCoupledOptions D
  pub tightly_coupled : GnssTightlyCoupledOptions D

-- `BarometerSensorConfig` and the others, which differ in the type `O` of the options.
pub record SensorConfig {ℓ} (O : Type ℓ) : Type ℓ where
  pub enabled : Bool
  pub options : O

pub record NavigationSystemConfig {ℓ} (D : Type ℓ) : Type ℓ where
  pub imu : ImuSensorConfig D
  pub gnss : GnssSensorConfig D
  pub barometer : SensorConfig (BarometerOptions D)
  pub magnetometer : SensorConfig (MagnetometerOptions D)
  pub star_tracker : SensorConfig (StarTrackerOptions D)
  pub wheel_odometry : SensorConfig (WheelOdometryOptions D)
  pub radar_altimeter : SensorConfig (RadarAltimeterOptions D)
  pub range_finder : SensorConfig (RangeFinderOptions D)
  pub optical_flow : SensorConfig (OpticalFlowOptions D)
  pub dvl : SensorConfig (DvlOptions D)
  pub echo_sounder : SensorConfig (EchoSounderOptions D)
  pub airspeed : SensorConfig (AirspeedOptions D)
  pub external_pose : SensorConfig (ExternalPoseOptions D)
  pub external_velocity : SensorConfig (ExternalVelocityOptions D)
  pub external_odometry : SensorConfig (ExternalOdometryOptions D)
  pub aiding_solution : SensorConfig (AidingSolutionOptions D)
  pub backend : EstimatorBackendChoice
  pub ukf_sigma_params : MerweSigmaParams D
  pub dead_reckoning_threshold_s : D
  pub min_imu_dt_s : D
  pub max_imu_dt_s : D

-- A sensor that is not enabled.
abbrev pub disabled {ℓ} : {O : Type ℓ} → O → SensorConfig O
disabled options = record { enabled = false; options = options }

module _ {ℓ} {D : Type ℓ} ⦃n : Literal D⦄ where
  open n use {literal}

  abbrev pub default_noise : ImuNoiseModel D
  default_noise = record {
    accel_noise_density_mps2_per_sqrthz = literal (pos 3) 3;
    gyro_noise_density_radps_per_sqrthz = literal (pos 15) 5;
    accel_random_walk_mps3_per_sqrthz = literal (pos 3) 5;
    gyro_random_walk_radps2_per_sqrthz = literal (pos 2) 6;
  }

  abbrev pub default_sigma_params : MerweSigmaParams D
  default_sigma_params = record {
    alpha = literal (pos 1) 3;
    beta = literal (pos 2) 0;
    kappa = literal (pos 0) 0;
  }

  abbrev pub default_gnss : GnssSensorConfig D
  default_gnss = record {
    enabled = false;
    mode = GnssIntegrationMode.loosely_coupled;
    loosely_coupled = default_gnss_loosely_coupled;
    tightly_coupled = default_gnss_tightly_coupled;
  }

  -- `NavigationSystemConfig{}`.
  abbrev pub default_navigation : NavigationSystemConfig D
  default_navigation = record {
    imu = record { noise = default_noise };
    gnss = default_gnss;
    barometer = disabled default_barometer;
    magnetometer = disabled default_magnetometer;
    star_tracker = disabled default_star_tracker;
    wheel_odometry = disabled default_wheel_odometry;
    radar_altimeter = disabled default_radar_altimeter;
    range_finder = disabled default_range_finder;
    optical_flow = disabled default_optical_flow;
    dvl = disabled default_dvl;
    echo_sounder = disabled default_echo_sounder;
    airspeed = disabled default_airspeed;
    external_pose = disabled default_external_pose;
    external_velocity = disabled default_external_velocity;
    external_odometry = disabled default_external_odometry;
    aiding_solution = disabled default_aiding_solution;
    backend = EstimatorBackendChoice.ekf;
    ukf_sigma_params = default_sigma_params;
    dead_reckoning_threshold_s = literal (pos 5) 0;
    min_imu_dt_s = literal (pos 1) 6;
    max_imu_dt_s = literal (pos 5) 2;
  }
