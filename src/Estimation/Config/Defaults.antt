-- ===== src/Estimation/Config/Defaults.antt =====
-- The default member values of the options, of
-- src/estimation/include/falconguide/estimation/backends/ekf/measurement_models.
use falcon_guide.Prelude.{true, false, none}
use falcon_guide.Prelude.Int.{pos, negsuc}
use falcon_guide.Core.Double.{Literal}
use falcon_guide.Core.Vector.{zero_vector, identity_matrix, identity_quaternion}
use falcon_guide.Estimation.Config.Options.{
  GnssLooselyCoupledOptions, GnssTightlyCoupledOptions, BarometerOptions, MagnetometerOptions,
  StarTrackerOptions, WheelOdometryOptions, RadarAltimeterOptions, RangeFinderOptions,
  OpticalFlowOptions, DvlOptions, EchoSounderOptions, AirspeedOptions, ExternalPoseOptions,
  ExternalVelocityOptions, ExternalOdometryOptions, AidingSolutionOptions,
}

module _ {ℓ} {D : Type ℓ} ⦃n : Literal D⦄ where
  open n use {literal}

  abbrev pub default_gnss_loosely_coupled : GnssLooselyCoupledOptions D
  default_gnss_loosely_coupled = record {
    position_sigma_m = none;
    velocity_sigma_mps = none;
    position_gate = literal (pos 0) 0;
  }

  abbrev pub default_gnss_tightly_coupled : GnssTightlyCoupledOptions D
  default_gnss_tightly_coupled = record {
    base_pseudorange_sigma_m = literal (pos 3) 0;
    pseudorange_noise_floor_m = literal (pos 1) 1;
    base_doppler_sigma_mps = literal (pos 5) 1;
    innovation_gate_sigma = literal (pos 3) 0;
    min_satellites = 4;
  }

  abbrev pub default_barometer : BarometerOptions D
  default_barometer = record {
    altitude_sigma_m = none;
    isa_sea_level_pressure_pa = literal (pos 101325) 0;
    innovation_gate = literal (pos 0) 0;
  }

  abbrev pub default_magnetometer : MagnetometerOptions D
  default_magnetometer = record {
    reference_field_enu_tesla = record {
      x = literal (pos 0) 0;
      y = literal (pos 2) 5;
      z = literal (negsuc 42) 6;
    };
    sigma_tesla = none;
    innovation_gate = literal (pos 0) 0;
  }

  abbrev pub default_star_tracker : StarTrackerOptions D
  default_star_tracker = record {
    star_tracker_to_body = identity_quaternion;
    sigma_yaw_rad = literal (pos 1) 3;
    sigma_pitch_rad = literal (pos 1) 3;
    sigma_roll_rad = literal (pos 1) 3;
    use_pitch_roll = true;
    innovation_gate = literal (pos 0) 0;
  }

  abbrev pub default_wheel_odometry : WheelOdometryOptions D
  default_wheel_odometry = record {
    sigma_linear_mps = literal (pos 1) 1;
    sigma_angular_radps = literal (pos 5) 2;
    use_angular_rate = false;
    latest_gyro_radps = zero_vector;
    innovation_gate = literal (pos 0) 0;
  }

  abbrev pub default_radar_altimeter : RadarAltimeterOptions D
  default_radar_altimeter = record {
    terrain_elevation_m = literal (pos 0) 0;
    sigma_m = none;
    innovation_gate = literal (pos 0) 0;
  }

  abbrev pub default_range_finder : RangeFinderOptions D
  default_range_finder = record {
    expected_range_m = literal (pos 0) 0;
    use_as_altitude = true;
    terrain_elevation_m = literal (pos 0) 0;
    sigma_m = none;
    innovation_gate = literal (pos 0) 0;
  }

  abbrev pub default_optical_flow : OpticalFlowOptions D
  default_optical_flow = record {
    fallback_altitude_m = literal (pos 10) 0;
    sigma_radps = literal (pos 1) 2;
    innovation_gate = literal (pos 0) 0;
  }

  abbrev pub default_dvl : DvlOptions D
  default_dvl = record {
    dvl_to_body_rotation = identity_matrix;
    bottom_track_only = false;
    sigma_mps = none;
    innovation_gate = literal (pos 0) 0;
  }

  abbrev pub default_echo_sounder : EchoSounderOptions D
  default_echo_sounder = record {
    sound_speed_mps = literal (pos 1500) 0;
    depth_origin_m = literal (pos 0) 0;
    sigma_m = none;
    innovation_gate = literal (pos 0) 0;
  }

  abbrev pub default_airspeed : AirspeedOptions D
  default_airspeed = record {
    wind_enu_mps = zero_vector;
    sigma_mps = literal (pos 5) 1;
    innovation_gate = literal (pos 0) 0;
  }

  abbrev pub default_external_pose : ExternalPoseOptions D
  default_external_pose = record {
    use_position = true;
    use_orientation = true;
    position_sigma_m = none;
    orientation_sigma_rad = none;
    innovation_gate = literal (pos 0) 0;
  }

  abbrev pub default_external_velocity : ExternalVelocityOptions D
  default_external_velocity = record {
    sigma_linear_mps = none;
    sigma_angular_radps = none;
    use_angular_rate = false;
    latest_gyro_radps = zero_vector;
    innovation_gate = literal (pos 0) 0;
  }

  abbrev pub default_external_odometry : ExternalOdometryOptions D
  default_external_odometry = record {
    use_position = true;
    use_velocity = true;
    use_orientation = true;
    position_sigma_m = none;
    velocity_sigma_mps = none;
    orientation_sigma_rad = none;
    innovation_gate = literal (pos 0) 0;
  }

  abbrev pub default_aiding_solution : AidingSolutionOptions D
  default_aiding_solution = record {
    min_match_score = literal (pos 0) 0;
    position_sigma_m = none;
    velocity_sigma_mps = none;
    attitude_sigma_rad = none;
    innovation_gate = literal (pos 0) 0;
  }
