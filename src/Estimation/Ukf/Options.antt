-- ===== src/Estimation/Ukf/Options.antt =====
-- The options of the measurement models of the UKF, of
-- src/estimation/include/falconguide/estimation/backends/ukf/measurement_models.
use falcon_guide.Prelude.{Bool, Option}
use falcon_guide.Core.Vector.{Vec3, Mat3, Quaternion}

pub record UkfGnssLooselyCoupledOptions {ℓ} (D : Type ℓ) : Type ℓ where
  pub position_sigma_m : Option D
  pub velocity_sigma_mps : Option D

pub record UkfBarometerOptions {ℓ} (D : Type ℓ) : Type ℓ where
  pub altitude_sigma_m : Option D
  pub isa_sea_level_pressure_pa : D
  pub innovation_gate : D

pub record UkfMagnetometerOptions {ℓ} (D : Type ℓ) : Type ℓ where
  pub reference_field_enu_tesla : Vec3 D
  pub sigma_tesla : Option D
  pub innovation_gate : D

pub record UkfWheelOdometryOptions {ℓ} (D : Type ℓ) : Type ℓ where
  pub sigma_linear_mps : D
  pub innovation_gate : D

pub record UkfAirspeedOptions {ℓ} (D : Type ℓ) : Type ℓ where
  pub wind_enu_mps : Vec3 D
  pub sigma_mps : D
  pub innovation_gate : D

pub record UkfOpticalFlowOptions {ℓ} (D : Type ℓ) : Type ℓ where
  pub fallback_altitude_m : D
  pub sigma_radps : D
  pub innovation_gate : D

pub record UkfRadarAltimeterOptions {ℓ} (D : Type ℓ) : Type ℓ where
  pub terrain_elevation_m : D
  pub sigma_m : Option D
  pub innovation_gate : D

pub record UkfDvlOptions {ℓ} (D : Type ℓ) : Type ℓ where
  pub dvl_to_body_rotation : Mat3 D
  pub bottom_track_only : Bool
  pub sigma_mps : Option D
  pub innovation_gate : D

pub record UkfEchoSounderOptions {ℓ} (D : Type ℓ) : Type ℓ where
  pub sound_speed_mps : D
  pub depth_origin_m : D
  pub sigma_m : Option D
  pub innovation_gate : D

pub record UkfExternalPoseOptions {ℓ} (D : Type ℓ) : Type ℓ where
  pub use_position : Bool
  pub use_orientation : Bool
  pub position_sigma_m : Option D
  pub orientation_sigma_rad : Option D
  pub innovation_gate : D

pub record UkfExternalVelocityOptions {ℓ} (D : Type ℓ) : Type ℓ where
  pub sigma_linear_mps : Option D
  pub innovation_gate : D

pub record UkfExternalOdometryOptions {ℓ} (D : Type ℓ) : Type ℓ where
  pub use_position : Bool
  pub use_velocity : Bool
  pub use_orientation : Bool
  pub position_sigma_m : Option D
  pub velocity_sigma_mps : Option D
  pub orientation_sigma_rad : Option D
  pub innovation_gate : D

pub record UkfAidingSolutionOptions {ℓ} (D : Type ℓ) : Type ℓ where
  pub min_match_score : D
  pub position_sigma_m : Option D
  pub velocity_sigma_mps : Option D
  pub attitude_sigma_rad : Option D
  pub innovation_gate : D

pub record UkfStarTrackerOptions {ℓ} (D : Type ℓ) : Type ℓ where
  pub star_tracker_to_body : Quaternion D
  pub sigma_yaw_rad : D
  pub sigma_pitch_rad : D
  pub sigma_roll_rad : D
  pub use_pitch_roll : Bool
  pub innovation_gate : D
