-- ===== src/Estimation/Interface.antt =====
-- src/estimation/include/falconguide/estimation/estimator_interface.hpp: the results of an update,
-- its report, and the interface that a pipeline drives.
use Prim.Native.String.{String}
use falcon_guide.Prelude.{Bool, Option, none}

pub data EstimatorUpdateResult : Type 0 where
  accepted buffered rejected out_of_order not_initialized backend_error : EstimatorUpdateResult

pub record MeasurementUpdateReport {ℓ} (D : Type ℓ) : Type ℓ where
  pub result : EstimatorUpdateResult
  pub model_name : String
  pub correction_norm : Option D

-- `{result}`: the other members have their defaults.
abbrev pub report {ℓ} : {D : Type ℓ} → EstimatorUpdateResult → MeasurementUpdateReport D
report r = record { result = r; model_name = ""; correction_norm = none }

-- The operations of an estimator with state `E` that a pipeline calls, for measurements `M` and
-- navigation states `S`. Where `returns e m` is false, `AddMeasurement` does not return, and
-- `add_measurement e m` is nothing that the program computes.
pub record INavigationEstimator {ℓ} (D M E S : Type ℓ) : Type ℓ where
  pub returns : E → M → Bool
  pub add_measurement : E → M → E × MeasurementUpdateReport D
  pub latest_state : E → Option S
  pub reset : E → E
