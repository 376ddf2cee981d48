-- ===== src/Estimation/Config/Options.antt =====
-- The options of the measurement models, of
-- src/estimation/include/falconguide/estimation/backends/ekf/measurement_models: one record for each header,
-- with its members in their order. A `std::size_t` is a number, a `std::optional` an option.
use falcon_guide.Prelude.{ℕ, Bool, Option}
use falcon_guide.Core.Vector.{Vec3, Mat3, Quaternion}

pub record GnssLooselyCoupledOptions {ℓ} (D : Type ℓ) : Type ℓ where
  pub position_sigma_m : Option D
  pub velocity_sigma_mps : Option D
  pub position_gate : D

pub record GnssTightlyCoupledOptions {ℓ} (D : Type ℓ) : Type ℓ where
  pub base_pseudorange_sigma_m : D
  pub pseudorange_noise_floor_m : D
  pub base_doppler_sigma_mps : D
  pub innovation_gate_sigma : D
  pub min_satellites : ℕ

pub record BarometerOptions {ℓ} (D : Type ℓ) : Type ℓ where
  pub altitude_sigma_m : Option D
  pub isa_sea_level_pressure_pa : D
  pub innovation_gate : D

pub record MagnetometerOptions {ℓ} (D : Type ℓ) : Type ℓ where
  pub reference_field_enu_tesla : Vec3 D
  pub sigma_tesla : Option D
  pub innovation_gate : D

pub record StarTrackerOptions {ℓ} (D : Type ℓ) : Type ℓ where
  pub star_tracker_to_body : Quaternion D
  pub sigma_yaw_rad : D
  pub sigma_pitch_rad : D
  pub sigma_roll_rad : D
  pub use_pitch_roll : Bool
  pub innovation_gate : D

pub record WheelOdometryOptions {ℓ} (D : Type ℓ) : Type ℓ where
  pub sigma_linear_mps : D
  pub sigma_angular_radps : D
  pub use_angular_rate : Bool
  pub latest_gyro_radps : Vec3 D
  pub innovation_gate : D

pub record RadarAltimeterOptions {ℓ} (D : Type ℓ) : Type ℓ where
  pub terrain_elevation_m : D
  pub sigma_m : Option D
  pub innovation_gate : D

pub record RangeFinderOptions {ℓ} (D : Type ℓ) : Type ℓ where
  pub expected_range_m : D
  pub use_as_altitude : Bool
  pub terrain_elevation_m : D
  pub sigma_m : Option D
  pub innovation_gate : D

pub record OpticalFlowOptions {ℓ} (D : Type ℓ) : Type ℓ where
  pub fallback_altitude_m : D
  pub sigma_radps : D
  pub innovation_gate : D

pub record DvlOptions {ℓ} (D : Type ℓ) : Type ℓ where
  pub dvl_to_body_rotation : Mat3 D
  pub bottom_track_only : Bool
  pub sigma_mps : Option D
  pub innovation_gate : D

pub record EchoSounderOptions {ℓ} (D : Type ℓ) : Type ℓ where
  pub sound_speed_mps : D
  pub depth_origin_m : D
  pub sigma_m : Option D
  pub innovation_gate : D

pub record AirspeedOptions {ℓ} (D : Type ℓ) : Type ℓ where
  pub wind_enu_mps : Vec3 D
  pub sigma_mps : D
  pub innovation_gate : D

pub record ExternalPoseOptions {ℓ} (D : Type ℓ) : Type ℓ where
  pub use_position : Bool
  pub use_orientation : Bool
  pub position_sigma_m : Option D
  pub orientation_sigma_rad : Option D
  pub innovation_gate : D

pub record ExternalVelocityOptions {ℓ} (D : Type ℓ) : Type ℓ where
  pub sigma_linear_mps : Option D
  pub sigma_angular_radps : Option D
  pub use_angular_rate : Bool
  pub latest_gyro_radps : Vec3 D
  pub innovation_gate : D

pub record ExternalOdometryOptions {ℓ} (D : Type ℓ) : Type ℓ where
  pub use_position : Bool
  pub use_velocity : Bool
  pub use_orientation : Bool
  pub position_sigma_m : Option D
  pub velocity_sigma_mps : Option D
  pub orientation_sigma_rad : Option D
  pub innovation_gate : D

pub record AidingSolutionOptions {ℓ} (D : Type ℓ) : Type ℓ where
  pub min_match_score : D
  pub position_sigma_m : Option D
  pub velocity_sigma_mps : Option D
  pub attitude_sigma_rad : Option D
  pub innovation_gate : D
