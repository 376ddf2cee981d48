-- ===== src/Estimation/Ukf/Factory.antt =====
-- `BuildUkfEstimator` and `BuildEstimator` of src/estimation/src/navigation_system.cpp, `UkfOptions` of
-- ukf_estimator.hpp, and `CanHandle` of src/estimation/src/backends/ukf/measurement_models.
pub mod Same
pub mod Unique
use falcon_guide.Prelude.{Bool, true, false, List, [], if◌then◌else◌, ◌∷◌}
use falcon_guide.Estimation.Measurement.{SensorMeasurement}
use falcon_guide.Estimation.Config.{
  EstimatorBackendChoice, ekf, ukf, ceres, gtsam, ImuNoiseModel, MerweSigmaParams, GnssSensorConfig,
  GnssLooselyCoupledOptions, NavigationSystemConfig, BarometerOptions, MagnetometerOptions,
  WheelOdometryOptions, AirspeedOptions, OpticalFlowOptions, RadarAltimeterOptions, DvlOptions,
  EchoSounderOptions, ExternalPoseOptions, ExternalVelocityOptions, ExternalOdometryOptions,
  AidingSolutionOptions, StarTrackerOptions,
}
use falcon_guide.Estimation.Ekf.Factory.{EkfOptions, Model, when, ekf_options, ekf_models}
use falcon_guide.Estimation.Ukf.Options.{
  UkfGnssLooselyCoupledOptions, UkfBarometerOptions, UkfMagnetometerOptions,
  UkfWheelOdometryOptions, UkfAirspeedOptions, UkfOpticalFlowOptions, UkfRadarAltimeterOptions,
  UkfDvlOptions, UkfEchoSounderOptions, UkfExternalPoseOptions, UkfExternalVelocityOptions,
  UkfExternalOdometryOptions, UkfAidingSolutionOptions, UkfStarTrackerOptions,
}

-- The options of the filter. Those of the base class and the noise of GNSS positions keep their defaults
-- and are left out.
pub record UkfOptions {ℓ} (D : Type ℓ) : Type ℓ where
  pub sigma_params : MerweSigmaParams D
  pub imu_noise : ImuNoiseModel D
  pub min_imu_dt_s : D
  pub max_imu_dt_s : D
  pub dead_reckoning_threshold_s : D

-- The classes that implement `IUkfMeasurementModel`, each with its options.
pub data UkfModel {ℓ} (D : Type ℓ) : Type ℓ where
  gnss_loosely_coupled : UkfGnssLooselyCoupledOptions D → UkfModel D
  barometer : UkfBarometerOptions D → UkfModel D
  magnetometer : UkfMagnetometerOptions D → UkfModel D
  wheel_odometry : UkfWheelOdometryOptions D → UkfModel D
  airspeed : UkfAirspeedOptions D → UkfModel D
  optical_flow : UkfOpticalFlowOptions D → UkfModel D
  radar_altimeter : UkfRadarAltimeterOptions D → UkfModel D
  dvl : UkfDvlOptions D → UkfModel D
  echo_sounder : UkfEchoSounderOptions D → UkfModel D
  external_pose : UkfExternalPoseOptions D → UkfModel D
  external_velocity : UkfExternalVelocityOptions D → UkfModel D
  external_odometry : UkfExternalOdometryOptions D → UkfModel D
  aiding_solution : UkfAidingSolutionOptions D → UkfModel D
  star_tracker : UkfStarTrackerOptions D → UkfModel D

-- What `BuildEstimator` makes. The other two backends are built from their own defaults.
pub data Estimator {ℓ} (D : Type ℓ) : Type ℓ where
  ekf_estimator : EkfOptions D → List (Model D) → Estimator D
  ukf_estimator : UkfOptions D → List (UkfModel D) → Estimator D
  ceres_estimator gtsam_estimator : Estimator D

module _ {ℓ} {D : Type ℓ} where
  abbrev pub copy_gnss : GnssLooselyCoupledOptions D → UkfModel D
  copy_gnss o =
      gnss_loosely_coupled (record {
        position_sigma_m = o.position_sigma_m;
        velocity_sigma_mps = o.velocity_sigma_mps;
      })

  abbrev pub copy_barometer : BarometerOptions D → UkfModel D
  copy_barometer o = barometer (record {
    altitude_sigma_m = o.altitude_sigma_m;
    isa_sea_level_pressure_pa = o.isa_sea_level_pressure_pa;
    innovation_gate = o.innovation_gate;
  })

  abbrev pub copy_magnetometer : MagnetometerOptions D → UkfModel D
  copy_magnetometer o = magnetometer (record {
    reference_field_enu_tesla = o.reference_field_enu_tesla;
    sigma_tesla = o.sigma_tesla;
    innovation_gate = o.innovation_gate;
  })

  abbrev pub copy_wheel_odometry : WheelOdometryOptions D → UkfModel D
  copy_wheel_odometry o =
      wheel_odometry
        (record { sigma_linear_mps = o.sigma_linear_mps; innovation_gate = o.innovation_gate })

  abbrev pub copy_airspeed : AirspeedOptions D → UkfModel D
  copy_airspeed o = airspeed (record {
    wind_enu_mps = o.wind_enu_mps;
    sigma_mps = o.sigma_mps;
    innovation_gate = o.innovation_gate;
  })

  abbrev pub copy_optical_flow : OpticalFlowOptions D → UkfModel D
  copy_optical_flow o = optical_flow (record {
    fallback_altitude_m = o.fallback_altitude_m;
    sigma_radps = o.sigma_radps;
    innovation_gate = o.innovation_gate;
  })

  abbrev pub copy_radar_altimeter : RadarAltimeterOptions D → UkfModel D
  copy_radar_altimeter o = radar_altimeter (record {
    terrain_elevation_m = o.terrain_elevation_m;
    sigma_m = o.sigma_m;
    innovation_gate = o.innovation_gate;
  })

  abbrev pub copy_dvl : DvlOptions D → UkfModel D
  copy_dvl o = dvl (record {
    dvl_to_body_rotation = o.dvl_to_body_rotation;
    bottom_track_only = o.bottom_track_only;
    sigma_mps = o.sigma_mps;
    innovation_gate = o.innovation_gate;
  })

  abbrev pub copy_echo_sounder : EchoSounderOptions D → UkfModel D
  copy_echo_sounder o = echo_sounder (record {
    sound_speed_mps = o.sound_speed_mps;
    depth_origin_m = o.depth_origin_m;
    sigma_m = o.sigma_m;
    innovation_gate = o.innovation_gate;
  })

  abbrev pub copy_external_pose : ExternalPoseOptions D → UkfModel D
  copy_external_pose o = external_pose (record {
    use_position = o.use_position;
    use_orientation = o.use_orientation;
    position_sigma_m = o.position_sigma_m;
    orientation_sigma_rad = o.orientation_sigma_rad;
    innovation_gate = o.innovation_gate;
  })

  abbrev pub copy_external_velocity : ExternalVelocityOptions D → UkfModel D
  copy_external_velocity o =
      external_velocity
        (record { sigma_linear_mps = o.sigma_linear_mps; innovation_gate = o.innovation_gate })

  abbrev pub copy_external_odometry : ExternalOdometryOptions D → UkfModel D
  copy_external_odometry o = external_odometry (record {
    use_position = o.use_position;
    use_velocity = o.use_velocity;
    use_orientation = o.use_orientation;
    position_sigma_m = o.position_sigma_m;
    velocity_sigma_mps = o.velocity_sigma_mps;
    orientation_sigma_rad = o.orientation_sigma_rad;
    innovation_gate = o.innovation_gate;
  })

  abbrev pub copy_aiding_solution : AidingSolutionOptions D → UkfModel D
  copy_aiding_solution o = aiding_solution (record {
    min_match_score = o.min_match_score;
    position_sigma_m = o.position_sigma_m;
    velocity_sigma_mps = o.velocity_sigma_mps;
    attitude_sigma_rad = o.attitude_sigma_rad;
    innovation_gate = o.innovation_gate;
  })

  abbrev pub copy_star_tracker : StarTrackerOptions D → UkfModel D
  copy_star_tracker o = star_tracker (record {
    star_tracker_to_body = o.star_tracker_to_body;
    sigma_yaw_rad = o.sigma_yaw_rad;
    sigma_pitch_rad = o.sigma_pitch_rad;
    sigma_roll_rad = o.sigma_roll_rad;
    use_pitch_roll = o.use_pitch_roll;
    innovation_gate = o.innovation_gate;
  })

  -- Either mode of GNSS gives the loosely coupled model.
  abbrev pub when_gnss : GnssSensorConfig D → List (UkfModel D) → List (UkfModel D)
  when_gnss c rest = if c.enabled then copy_gnss c.loosely_coupled ∷ rest else rest

  unfoldable pub ukf_options : NavigationSystemConfig D → UkfOptions D
  ukf_options config = record {
    sigma_params = config.ukf_sigma_params;
    imu_noise = record {
      accel_noise_density_mps2_per_sqrthz = config.imu.noise.accel_noise_density_mps2_per_sqrthz;
      gyro_noise_density_radps_per_sqrthz = config.imu.noise.gyro_noise_density_radps_per_sqrthz;
      accel_random_walk_mps3_per_sqrthz = config.imu.noise.accel_random_walk_mps3_per_sqrthz;
      gyro_random_walk_radps2_per_sqrthz = config.imu.noise.gyro_random_walk_radps2_per_sqrthz;
    };
    min_imu_dt_s = config.min_imu_dt_s;
    max_imu_dt_s = config.max_imu_dt_s;
    dead_reckoning_threshold_s = config.dead_reckoning_threshold_s;
  }

  -- The models that are registered, in their order.
  unfoldable pub ukf_models : NavigationSystemConfig D → List (UkfModel D)
  ukf_models config = when_gnss config.gnss (
      when config.barometer copy_barometer (
        when config.magnetometer copy_magnetometer (
          when config.wheel_odometry copy_wheel_odometry (
            when config.airspeed copy_airspeed (
              when config.optical_flow copy_optical_flow (
                when config.radar_altimeter copy_radar_altimeter (
                  when config.dvl copy_dvl (
                    when config.echo_sounder copy_echo_sounder (
                      when config.external_pose copy_external_pose (
                        when config.external_velocity copy_external_velocity (
                          when config.external_odometry copy_external_odometry (
                            when config.aiding_solution copy_aiding_solution
                              (when config.star_tracker copy_star_tracker [])))))))))))))

  unfoldable pub build_estimator : NavigationSystemConfig D → Estimator D
  build_estimator config = elim config.backend [
    | ekf ↦ ekf_estimator (ekf_options config) (ekf_models config)
    | ukf ↦ ukf_estimator (ukf_options config) (ukf_models config)
    | ceres ↦ ceres_estimator
    | gtsam ↦ gtsam_estimator
  ]

-- `CanHandle` of each model.
unfoldable pub ukf_can_handle {ℓ} :
    {D V C P : Type ℓ} → UkfModel D → SensorMeasurement D V C P → Bool
ukf_can_handle (gnss_loosely_coupled o) (SensorMeasurement.gnss_solution m) = true
ukf_can_handle (barometer o) (SensorMeasurement.barometer m) = true
ukf_can_handle (magnetometer o) (SensorMeasurement.magnetometer m) = true
ukf_can_handle (wheel_odometry o) (SensorMeasurement.wheel_odometry m) = true
ukf_can_handle (airspeed o) (SensorMeasurement.airspeed m) = true
ukf_can_handle (optical_flow o) (SensorMeasurement.optical_flow m) = true
ukf_can_handle (radar_altimeter o) (SensorMeasurement.radar_altimeter m) = true
ukf_can_handle (dvl o) (SensorMeasurement.dvl m) = true
ukf_can_handle (echo_sounder o) (SensorMeasurement.echo_sounder m) = true
ukf_can_handle (external_pose o) (SensorMeasurement.external_pose m) = true
ukf_can_handle (external_velocity o) (SensorMeasurement.external_velocity m) = true
ukf_can_handle (external_odometry o) (SensorMeasurement.external_odometry m) = true
ukf_can_handle (aiding_solution o) (SensorMeasurement.aiding_solution m) = true
ukf_can_handle (star_tracker o) (SensorMeasurement.star_tracker m) = true
ukf_can_handle _ _ = false
