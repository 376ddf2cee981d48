-- ===== src/App/Config/Sensors/Write.antt =====
-- The blocks of `NavToJson` of src/app/src/config_json.cpp, one for each sensor.
use falcon_guide.Prelude.{List, ℕ, [], ◌∷◌}
use falcon_guide.Prelude.Bytes.{codes}
use falcon_guide.Estimation.Config.{
  SensorConfig, GnssSensorConfig, GnssIntegrationMode, loosely_coupled, tightly_coupled,
  GnssLooselyCoupledOptions, GnssTightlyCoupledOptions, BarometerOptions, MagnetometerOptions,
  StarTrackerOptions, WheelOdometryOptions, RadarAltimeterOptions, RangeFinderOptions,
  OpticalFlowOptions, DvlOptions, EchoSounderOptions, AirspeedOptions, ExternalPoseOptions,
  ExternalVelocityOptions, ExternalOdometryOptions, AidingSolutionOptions,
}
use falcon_guide.App.Config.Json.{Json, write_opt_double, write_vec3, write_mat3}

-- The name of a mode.
unfoldable pub mode_text : GnssIntegrationMode → List ℕ
mode_text tightly_coupled = codes "TightlyCoupled"
mode_text loosely_coupled = codes "LooselyCoupled"

module _ {ℓ} {D J W : Type ℓ} (json : Json D J W) where
  open json use {of_object, of_double, of_bool, of_string}

  unfoldable pub write_loosely_coupled : GnssLooselyCoupledOptions D → J
  write_loosely_coupled o = of_object (
      (codes "position_sigma_m", write_opt_double json o.position_sigma_m)
      ∷ (codes "velocity_sigma_mps", write_opt_double json o.velocity_sigma_mps)
      ∷ (codes "position_gate", of_double o.position_gate)
      ∷ [])

  unfoldable pub write_tightly_coupled : GnssTightlyCoupledOptions D → J
  write_tightly_coupled o = of_object (
      (codes "base_pseudorange_sigma_m", of_double o.base_pseudorange_sigma_m)
      ∷ (codes "pseudorange_noise_floor_m", of_double o.pseudorange_noise_floor_m)
      ∷ (codes "base_doppler_sigma_mps", of_double o.base_doppler_sigma_mps)
      ∷ (codes "innovation_gate_sigma", of_double o.innovation_gate_sigma)
      ∷ [])

  unfoldable pub write_gnss : GnssSensorConfig D → J
  write_gnss c = of_object (
      (codes "enabled", of_bool c.enabled)
      ∷ (codes "mode", of_string (mode_text c.mode))
      ∷ (codes "loosely_coupled", write_loosely_coupled c.loosely_coupled)
      ∷ (codes "tightly_coupled", write_tightly_coupled c.tightly_coupled)
      ∷ [])

  unfoldable pub write_barometer : SensorConfig (BarometerOptions D) → J
  write_barometer c = of_object (
      (codes "enabled", of_bool c.enabled)
      ∷ (codes "altitude_sigma_m", write_opt_double json c.options.altitude_sigma_m)
      ∷ (codes "isa_sea_level_pressure_pa", of_double c.options.isa_sea_level_pressure_pa)
      ∷ (codes "innovation_gate", of_double c.options.innovation_gate)
      ∷ [])

  unfoldable pub write_magnetometer : SensorConfig (MagnetometerOptions D) → J
  write_magnetometer c = of_object (
      (codes "enabled", of_bool c.enabled)
      ∷ (codes "reference_field_enu_tesla", write_vec3 json c.options.reference_field_enu_tesla)
      ∷ (codes "sigma_tesla", write_opt_double json c.options.sigma_tesla)
      ∷ (codes "innovation_gate", of_double c.options.innovation_gate)
      ∷ [])

  unfoldable pub write_star_tracker : SensorConfig (StarTrackerOptions D) → J
  write_star_tracker c = of_object (
      (codes "enabled", of_bool c.enabled)
      ∷ (codes "sigma_yaw_rad", of_double c.options.sigma_yaw_rad)
      ∷ (codes "sigma_pitch_rad", of_double c.options.sigma_pitch_rad)
      ∷ (codes "sigma_roll_rad", of_double c.options.sigma_roll_rad)
      ∷ (codes "use_pitch_roll", of_bool c.options.use_pitch_roll)
      ∷ (codes "innovation_gate", of_double c.options.innovation_gate)
      ∷ [])

  unfoldable pub write_wheel_odometry : SensorConfig (WheelOdometryOptions D) → J
  write_wheel_odometry c = of_object (
      (codes "enabled", of_bool c.enabled)
      ∷ (codes "sigma_linear_mps", of_double c.options.sigma_linear_mps)
      ∷ (codes "sigma_angular_radps", of_double c.options.sigma_angular_radps)
      ∷ (codes "use_angular_rate", of_bool c.options.use_angular_rate)
      ∷ (codes "innovation_gate", of_double c.options.innovation_gate)
      ∷ [])

  unfoldable pub write_radar_altimeter : SensorConfig (RadarAltimeterOptions D) → J
  write_radar_altimeter c = of_object (
      (codes "enabled", of_bool c.enabled)
      ∷ (codes "innovation_gate", of_double c.options.innovation_gate)
      ∷ [])

  unfoldable pub write_range_finder : SensorConfig (RangeFinderOptions D) → J
  write_range_finder c = of_object (
      (codes "enabled", of_bool c.enabled)
      ∷ (codes "expected_range_m", of_double c.options.expected_range_m)
      ∷ (codes "use_as_altitude", of_bool c.options.use_as_altitude)
      ∷ (codes "terrain_elevation_m", of_double c.options.terrain_elevation_m)
      ∷ (codes "sigma_m", write_opt_double json c.options.sigma_m)
      ∷ (codes "innovation_gate", of_double c.options.innovation_gate)
      ∷ [])

  unfoldable pub write_optical_flow : SensorConfig (OpticalFlowOptions D) → J
  write_optical_flow c = of_object (
      (codes "enabled", of_bool c.enabled)
      ∷ (codes "fallback_altitude_m", of_double c.options.fallback_altitude_m)
      ∷ (codes "sigma_radps", of_double c.options.sigma_radps)
      ∷ (codes "innovation_gate", of_double c.options.innovation_gate)
      ∷ [])

  unfoldable pub write_dvl : SensorConfig (DvlOptions D) → J
  write_dvl c = of_object (
      (codes "enabled", of_bool c.enabled)
      ∷ (codes "dvl_to_body_rotation", write_mat3 json c.options.dvl_to_body_rotation)
      ∷ (codes "bottom_track_only", of_bool c.options.bottom_track_only)
      ∷ (codes "sigma_mps", write_opt_double json c.options.sigma_mps)
      ∷ (codes "innovation_gate", of_double c.options.innovation_gate)
      ∷ [])

  unfoldable pub write_echo_sounder : SensorConfig (EchoSounderOptions D) → J
  write_echo_sounder c = of_object (
      (codes "enabled", of_bool c.enabled)
      ∷ (codes "sound_speed_mps", of_double c.options.sound_speed_mps)
      ∷ (codes "depth_origin_m", of_double c.options.depth_origin_m)
      ∷ (codes "sigma_m", write_opt_double json c.options.sigma_m)
      ∷ (codes "innovation_gate", of_double c.options.innovation_gate)
      ∷ [])

  unfoldable pub write_airspeed : SensorConfig (AirspeedOptions D) → J
  write_airspeed c = of_object (
      (codes "enabled", of_bool c.enabled)
      ∷ (codes "wind_enu_mps", write_vec3 json c.options.wind_enu_mps)
      ∷ (codes "sigma_mps", of_double c.options.sigma_mps)
      ∷ (codes "innovation_gate", of_double c.options.innovation_gate)
      ∷ [])

  unfoldable pub write_external_pose : SensorConfig (ExternalPoseOptions D) → J
  write_external_pose c = of_object (
      (codes "enabled", of_bool c.enabled)
      ∷ (codes "use_position", of_bool c.options.use_position)
      ∷ (codes "use_orientation", of_bool c.options.use_orientation)
      ∷ (codes "innovation_gate", of_double c.options.innovation_gate)
      ∷ [])

  unfoldable pub write_external_velocity : SensorConfig (ExternalVelocityOptions D) → J
  write_external_velocity c = of_object (
      (codes "enabled", of_bool c.enabled)
      ∷ (codes "use_angular_rate", of_bool c.options.use_angular_rate)
      ∷ (codes "innovation_gate", of_double c.options.innovation_gate)
      ∷ [])

  unfoldable pub write_external_odometry : SensorConfig (ExternalOdometryOptions D) → J
  write_external_odometry c = of_object (
      (codes "enabled", of_bool c.enabled)
      ∷ (codes "use_position", of_bool c.options.use_position)
      ∷ (codes "use_velocity", of_bool c.options.use_velocity)
      ∷ (codes "use_orientation", of_bool c.options.use_orientation)
      ∷ (codes "position_sigma_m", write_opt_double json c.options.position_sigma_m)
      ∷ (codes "velocity_sigma_mps", write_opt_double json c.options.velocity_sigma_mps)
      ∷ (codes "orientation_sigma_rad", write_opt_double json c.options.orientation_sigma_rad)
      ∷ (codes "innovation_gate", of_double c.options.innovation_gate)
      ∷ [])

  unfoldable pub write_aiding_solution : SensorConfig (AidingSolutionOptions D) → J
  write_aiding_solution c = of_object (
      (codes "enabled", of_bool c.enabled)
      ∷ (codes "min_match_score", of_double c.options.min_match_score)
      ∷ (codes "position_sigma_m", write_opt_double json c.options.position_sigma_m)
      ∷ (codes "velocity_sigma_mps", write_opt_double json c.options.velocity_sigma_mps)
      ∷ (codes "attitude_sigma_rad", write_opt_double json c.options.attitude_sigma_rad)
      ∷ (codes "innovation_gate", of_double c.options.innovation_gate)
      ∷ [])
