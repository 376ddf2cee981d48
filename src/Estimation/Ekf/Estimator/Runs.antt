-- ===== src/Estimation/Ekf/Estimator/Runs.antt =====
-- What a filter can become by calls, and what then holds of it.
use falcon_guide.Prelude.{ℕ, ◌≡◌, ap, true, some, List, arith}
use falcon_guide.Core.Double.{Double, IsOrdered, Literal}
use falcon_guide.Core.Time.{Timestamp}
use falcon_guide.Core.Buffer.{TimeOrderedBuffer, clear, make_buffer}
use falcon_guide.Core.Numerics.{Numerics}
use falcon_guide.Estimation.Interface.{EstimatorUpdateResult, MeasurementUpdateReport}
use falcon_guide.Estimation.Measurement.{ImuMeasurement, SensorMeasurement}
use falcon_guide.Estimation.Ekf.Factory.{EkfOptions}
use falcon_guide.Estimation.Ekf.Estimator.{EkfEstimator, IMeasurementModel, imu_capacity, make_ekf}
use falcon_guide.Estimation.Ekf.Estimator.Calls.{add_measurement, process_until, reset}
use falcon_guide.Estimation.Ekf.Estimator.Invariant.{IsImuBuffer, IsWellFormed}
use falcon_guide.Estimation.Ekf.Estimator.Keeps.{
  make_ekf-IsWellFormed, add_measurement-IsWellFormed, process_until-IsWellFormed,
  reset-IsWellFormed,
}

module _ {ℓ} {D V Q M L P A : Type ℓ} ⦃d : Double D⦄ ⦃n : Literal D⦄ (num : Numerics D V Q M L)
    (models : IMeasurementModel D V Q M L P A) (fuel : D → ℕ) where
  -- What a filter can become by calls that return.
  pub data Reach (options : EkfOptions D) (ms : List A) : EkfEstimator D V Q M L A → Type ℓ where
    made : Reach options ms (make_ekf num options ms)
    added :
        {e e' : EkfEstimator D V Q M L A} (m : SensorMeasurement D V M P)
        (r : MeasurementUpdateReport D)
        → Reach options ms e
        → add_measurement num models fuel e m ≡ some (e', r)
        → Reach options ms e'
    processed :
        {e e' : EkfEstimator D V Q M L A} (t : Timestamp D) (r : EstimatorUpdateResult)
        → Reach options ms e
        → process_until num models fuel e t ≡ some (e', r)
        → Reach options ms e'
    was_reset :
        {e : EkfEstimator D V Q M L A}
        → Reach options ms e
        → Reach options ms (reset num models fuel e)

module _ {ℓ} {D V Q M L P A : Type ℓ} ⦃d : Double D⦄ ⦃n : Literal D⦄ (num : Numerics D V Q M L)
    (models : IMeasurementModel D V Q M L P A) (fuel : D → ℕ) where
  -- After any calls that return, each sample of the IMU buffer is timed no later than the next, on a time
  -- base that the two share, there are at most 2000, the state has the layout of the options, and a filter
  -- that has started has a local tangent plane.
  pub Reach-IsWellFormed :
      {options : EkfOptions D} {ms : List A} {e : EkfEstimator D V Q M L A}
      → IsOrdered D
      → Reach num models fuel options ms e
      → IsWellFormed e
  Reach-IsWellFormed {options} {ms} o made = make_ekf-IsWellFormed num models fuel options ms
  Reach-IsWellFormed o (added m r h e) =
      add_measurement-IsWellFormed num models fuel o _ m _ (Reach-IsWellFormed o h) e
  Reach-IsWellFormed o (processed t r h e) =
      process_until-IsWellFormed num models fuel _ t _ (Reach-IsWellFormed o h) e
  Reach-IsWellFormed o (was_reset h) = reset-IsWellFormed num models fuel _ (Reach-IsWellFormed o h)

  clear-new :
      (b : TimeOrderedBuffer (ImuMeasurement D V))
      → IsImuBuffer b
      → clear b ≡ make_buffer imu_capacity true
  unfolding clear make_buffer
  clear-new b h = ground (arith, h.capacity, h.any_order)

  -- After any calls that return, `Reset` leaves the filter as the constructor makes it with the same options
  -- and models: nothing of the past stays.
  pub reset-new :
      {options : EkfOptions D} {ms : List A} {e : EkfEstimator D V Q M L A}
      → IsOrdered D
      → Reach num models fuel options ms e
      → reset num models fuel e ≡ make_ekf num e.options e.measurement_models
  unfolding reset make_ekf
  reset-new {e} o h =
      ap (λ b. record (make_ekf num e.options e.measurement_models) { imu_buffer = b })
        (clear-new e.imu_buffer (Reach-IsWellFormed o h).buffer)
