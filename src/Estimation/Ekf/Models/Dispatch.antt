-- ===== src/Estimation/Ekf/Models/Dispatch.antt =====
-- `Apply` by the model, of src/estimation/src/backends/ekf/measurement_models, and what every model keeps.
use falcon_guide.Prelude.{Option, none, some}
use falcon_guide.Core.Double.{Double, Literal}
use falcon_guide.Core.Numerics.{Numerics}
use falcon_guide.Estimation.Measurement.{SensorMeasurement}
use falcon_guide.Estimation.Ekf.Factory.{
  Model, barometer, radar_altimeter, range_finder, echo_sounder, wheel_odometry, external_velocity,
  dvl, airspeed, optical_flow, magnetometer, gnss_loosely_coupled,
}
use falcon_guide.Estimation.Ekf.Estimator.{EkfState, Applied}
use falcon_guide.Estimation.Ekf.Models.Height.{
  apply_barometer, apply_radar_altimeter, apply_range_finder, apply_echo_sounder,
}
use falcon_guide.Estimation.Ekf.Models.Velocity.{
  apply_wheel_odometry, apply_external_velocity, apply_dvl, apply_airspeed, apply_optical_flow,
}
use falcon_guide.Estimation.Ekf.Models.Field.{apply_magnetometer}
use falcon_guide.Estimation.Ekf.Models.Position.{apply_gnss_loosely_coupled}

module _ {ℓ} {D V Q M L P : Type ℓ} ⦃d : Double D⦄ ⦃n : Literal D⦄ (num : Numerics D V Q M L) where
  -- `none`: a measurement of another sensor, on which `std::get` throws, or a model that is left out.
  unfoldable pub apply_known :
      Model D → EkfState D V Q M → SensorMeasurement D V M P → Option L → Option (Applied D V Q M)
  apply_known (barometer o) s (SensorMeasurement.barometer m) ltp = some (apply_barometer num o s m)
  apply_known (radar_altimeter o) s (SensorMeasurement.radar_altimeter m) ltp =
      some (apply_radar_altimeter num o s m)
  apply_known (range_finder o) s (SensorMeasurement.range_finder m) ltp =
      some (apply_range_finder num o s m)
  apply_known (echo_sounder o) s (SensorMeasurement.echo_sounder m) ltp =
      some (apply_echo_sounder num o s m)
  apply_known (wheel_odometry o) s (SensorMeasurement.wheel_odometry m) ltp =
      some (apply_wheel_odometry num o s m)
  apply_known (external_velocity o) s (SensorMeasurement.external_velocity m) ltp =
      some (apply_external_velocity num o s m)
  apply_known (dvl o) s (SensorMeasurement.dvl m) ltp = some (apply_dvl num o s m)
  apply_known (airspeed o) s (SensorMeasurement.airspeed m) ltp = some (apply_airspeed num o s m)
  apply_known (optical_flow o) s (SensorMeasurement.optical_flow m) ltp =
      some (apply_optical_flow num o s m)
  apply_known (magnetometer o) s (SensorMeasurement.magnetometer m) ltp =
      some (apply_magnetometer num o s m)
  apply_known (gnss_loosely_coupled o) s (SensorMeasurement.gnss_solution m) ltp =
      some (apply_gnss_loosely_coupled num o s m ltp)
  apply_known _ s m ltp = none
