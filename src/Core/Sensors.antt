-- ===== src/Core/Sensors.antt =====
-- The measurements of CORE/sensors that the measurement models read, with the members that they read. `V` is
-- the type of vectors and `C` that of matrices.
use falcon_guide.Prelude.{Option}
use falcon_guide.Core.Time.{Timestamp}
use falcon_guide.Core.Enums.{MeasurementValidity}

pub data RadarAltimeterSurface : Type 0 where
  unknown ground water vegetation building invalid : RadarAltimeterSurface

pub data DvlReference : Type 0 where
  unknown bottom_track water_track : DvlReference

pub record RadarAltimeterMeasurement {ℓ} (D : Type ℓ) : Type ℓ where
  pub timestamp : Timestamp D
  pub range_m : D
  pub surface : RadarAltimeterSurface
  pub validity : MeasurementValidity

pub record RangeFinderMeasurement {ℓ} (D : Type ℓ) : Type ℓ where
  pub timestamp : Timestamp D
  pub range_m : D
  pub validity : MeasurementValidity

pub record EchoSounderMeasurement {ℓ} (D : Type ℓ) : Type ℓ where
  pub timestamp : Timestamp D
  pub depth_or_range_m : D
  pub sound_speed_mps : Option D
  pub validity : MeasurementValidity

pub record AirspeedMeasurement {ℓ} (D : Type ℓ) : Type ℓ where
  pub timestamp : Timestamp D
  pub airspeed_mps : D
  pub validity : MeasurementValidity

pub record OpticalFlowMeasurement {ℓ} (D : Type ℓ) : Type ℓ where
  pub timestamp : Timestamp D
  pub integrated_flow_x_rad : D
  pub integrated_flow_y_rad : D
  pub integration_time_s : Option D
  pub ground_distance_m : Option D
  pub validity : MeasurementValidity

pub record DvlMeasurement {ℓ} (D V C : Type ℓ) : Type ℓ where
  pub timestamp : Timestamp D
  pub velocity_mps : V
  pub velocity_covariance_m2ps2 : C
  pub reference : DvlReference
  pub validity : MeasurementValidity

pub record WheelOdometryMeasurement {ℓ} (D V : Type ℓ) : Type ℓ where
  pub timestamp : Timestamp D
  pub linear_velocity_body_mps : V
  pub angular_rate_body_radps : V
  pub validity : MeasurementValidity

pub record ExternalVelocityMeasurement {ℓ} (D V : Type ℓ) : Type ℓ where
  pub timestamp : Timestamp D
  pub linear_velocity_body_mps : V
  pub angular_rate_body_radps : V
  pub validity : MeasurementValidity
