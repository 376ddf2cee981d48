-- ===== src/Estimation/Measurement.antt =====
-- `SensorMeasurement` of src/estimation/include/falconguide/estimation/estimator_interface.hpp, and
-- measurement_variant_helpers.hpp and core/measurement_helpers.hpp. `V` is the type of vectors, `C` that of
-- matrices, and `P` that of the members which no definition here reads.
use falcon_guide.Prelude.{Option}
use falcon_guide.Core.Time.{Timestamp}
use falcon_guide.Core.Enums.{MeasurementValidity}
use falcon_guide.Core.Gnss.{GnssSolution}
use falcon_guide.Core.Sensors.{
  RadarAltimeterMeasurement, RangeFinderMeasurement, EchoSounderMeasurement, AirspeedMeasurement,
  OpticalFlowMeasurement, DvlMeasurement, WheelOdometryMeasurement, ExternalVelocityMeasurement,
}

pub record ImuMeasurement {ℓ} (D V : Type ℓ) : Type ℓ where
  pub timestamp : Timestamp D
  pub specific_force_mps2 : V
  pub angular_rate_radps : V
  pub temperature_celsius : Option D
  pub validity : MeasurementValidity

pub record MagnetometerMeasurement {ℓ} (D V : Type ℓ) : Type ℓ where
  pub timestamp : Timestamp D
  pub magnetic_field_tesla : V
  pub temperature_celsius : Option D
  pub validity : MeasurementValidity

pub record BarometerMeasurement {ℓ} (D : Type ℓ) : Type ℓ where
  pub timestamp : Timestamp D
  pub pressure_pa : D
  pub temperature_celsius : Option D
  pub altitude_m : Option D
  pub validity : MeasurementValidity

-- A measurement of another sensor: its time stamp and validity, and the rest.
pub record Sample {ℓ} (D P : Type ℓ) : Type ℓ where
  pub timestamp : Timestamp D
  pub validity : MeasurementValidity
  pub payload : P

pub data SensorMeasurement {ℓ} (D V C P : Type ℓ) : Type ℓ where
  imu : ImuMeasurement D V → SensorMeasurement D V C P
  magnetometer : MagnetometerMeasurement D V → SensorMeasurement D V C P
  barometer : BarometerMeasurement D → SensorMeasurement D V C P
  radar_altimeter : RadarAltimeterMeasurement D → SensorMeasurement D V C P
  wheel_encoder : Sample D P → SensorMeasurement D V C P
  wheel_odometry : WheelOdometryMeasurement D V → SensorMeasurement D V C P
  airspeed : AirspeedMeasurement D → SensorMeasurement D V C P
  range_finder : RangeFinderMeasurement D → SensorMeasurement D V C P
  optical_flow : OpticalFlowMeasurement D → SensorMeasurement D V C P
  dvl : DvlMeasurement D V C → SensorMeasurement D V C P
  echo_sounder : EchoSounderMeasurement D → SensorMeasurement D V C P
  external_pose : Sample D P → SensorMeasurement D V C P
  external_velocity : ExternalVelocityMeasurement D V → SensorMeasurement D V C P
  external_odometry gnss_observation_epoch : Sample D P → SensorMeasurement D V C P
  gnss_solution : GnssSolution D V C → SensorMeasurement D V C P
  camera_frame geo_reference_image aiding_solution star_tracker gnss_tightly_coupled_epoch :
      Sample D P → SensorMeasurement D V C P

module _ {ℓ} {D V C P : Type ℓ} where
  unfoldable pub get_timestamp : SensorMeasurement D V C P → Timestamp D
  get_timestamp (imu m) = m.timestamp
  get_timestamp (magnetometer m) = m.timestamp
  get_timestamp (barometer m) = m.timestamp
  get_timestamp (radar_altimeter m) = m.timestamp
  get_timestamp (wheel_encoder m) = m.timestamp
  get_timestamp (wheel_odometry m) = m.timestamp
  get_timestamp (airspeed m) = m.timestamp
  get_timestamp (range_finder m) = m.timestamp
  get_timestamp (optical_flow m) = m.timestamp
  get_timestamp (dvl m) = m.timestamp
  get_timestamp (echo_sounder m) = m.timestamp
  get_timestamp (external_pose m) = m.timestamp
  get_timestamp (external_velocity m) = m.timestamp
  get_timestamp (external_odometry m) = m.timestamp
  get_timestamp (gnss_observation_epoch m) = m.timestamp
  get_timestamp (gnss_solution m) = m.timestamp
  get_timestamp (camera_frame m) = m.timestamp
  get_timestamp (geo_reference_image m) = m.timestamp
  get_timestamp (aiding_solution m) = m.timestamp
  get_timestamp (star_tracker m) = m.timestamp
  get_timestamp (gnss_tightly_coupled_epoch m) = m.timestamp
