-- ===== src/Estimation/Ekf/Estimator/Calls.antt =====
-- The methods of `EkfEstimator` that a pipeline calls, of src/estimation/src/backends/ekf/ekf_estimator.cpp.
-- `none` is a call that does not return, because the loop that splits a gap does not end.
use mathlib.Core.Option
use falcon_guide.Prelude.{ℕ, false, Option, none, some, List, [], ◌∷◌, if◌then◌else◌}
use falcon_guide.Core.Double.{Double, Literal}
use falcon_guide.Core.Time.{Timestamp}
use falcon_guide.Core.Buffer.{
  BufferInsertResult, inserted, inserted_and_dropped_oldest, rejected_out_of_order,
  rejected_not_comparable, insert, clear,
}
use falcon_guide.Core.Numerics.{Numerics}
use falcon_guide.Estimation.Interface.{
  EstimatorUpdateResult, accepted, buffered, rejected, out_of_order, not_initialized,
  MeasurementUpdateReport, report,
}
use falcon_guide.Estimation.Measurement.{ImuMeasurement, SensorMeasurement, get_timestamp}
use falcon_guide.Estimation.Ekf.Estimator.{EkfState, IMeasurementModel, EkfEstimator, fresh_state}
use falcon_guide.Estimation.Ekf.Estimator.Propagate.{propagate_to}
use falcon_guide.Estimation.Ekf.Estimator.Fuse.{inject_error_and_reset}
use falcon_guide.Estimation.Ekf.Estimator.Initialise.{try_initialise_from_gnss}
use falcon_guide.Estimation.Ekf.Estimator.Output.{Output, build_navigation_state}

abbrev pub buffer_result : BufferInsertResult → EstimatorUpdateResult
buffer_result rejected_out_of_order = out_of_order
buffer_result rejected_not_comparable = out_of_order
buffer_result inserted = buffered
buffer_result inserted_and_dropped_oldest = buffered

module _ {ℓ} {D V Q M L P A : Type ℓ} ⦃d : Double D⦄ ⦃n : Literal D⦄ (num : Numerics D V Q M L)
    (models : IMeasurementModel D V Q M L P A) (fuel : D → ℕ) where
  open models use {name, can_handle, apply_model}

  abbrev Ekf : Type ℓ
  Ekf = EkfEstimator D V Q M L A

  abbrev Call : Type ℓ
  Call = Ekf × MeasurementUpdateReport D

  unfoldable pub buffer_imu : Ekf → ImuMeasurement D V → Call
  buffer_imu e imu =
      let (buffer, r) = insert (λ (m : ImuMeasurement D V). m.timestamp) e.imu_buffer imu in
      (record e { imu_buffer = buffer }, report (buffer_result r))

  unfoldable pub start_filter : Ekf → SensorMeasurement D V M P → Call
  start_filter e (SensorMeasurement.gnss_solution gnss) =
      let (e', done) = try_initialise_from_gnss num e gnss in
      (
        e',
        record {
          result = if done then accepted else rejected;
          model_name = "GnssLooselyCoupled";
          correction_norm = none;
        },
      )
  start_filter e m = (e, report not_initialized)

  -- What follows `Apply`, by its result.
  unfoldable pub after_apply :
      Ekf → A → SensorMeasurement D V M P → EkfState D V Q M → EstimatorUpdateResult → Call
  after_apply e model m s accepted = (
    record e {
      state = inject_error_and_reset num s;
      last_aiding_timestamp = some (get_timestamp m);
    },
    record {
      result = accepted;
      model_name = name model;
      correction_norm = some (num.norm s.error_state);
    },
  )
  after_apply e model m s result = (
    record e { state = s },
    record { result = result; model_name = name model; correction_norm = none },
  )

  -- The loop over the models.
  unfoldable pub dispatch : Ekf → SensorMeasurement D V M P → List A → Call
  unfolding after_apply
  dispatch e m [] = (e, report rejected)
  dispatch e m (model ∷ rest) =
      let applied = apply_model model e.state m e.local_tangent_plane in
      let s = record e.state {
        nominal = applied.nominal;
        error_state = applied.error_state;
        covariance = applied.covariance;
      } in
      let here = after_apply e model m s applied.result in
      let later = dispatch e m rest in if can_handle model m then here else later

  unfoldable pub fuse : Ekf → SensorMeasurement D V M P → Option Call
  unfolding dispatch
  fuse e m =
      Option.map (λ e'. dispatch e' m e'.measurement_models)
        (propagate_to num fuel e (get_timestamp m))

  unfoldable pub add_measurement : Ekf → SensorMeasurement D V M P → Option Call
  unfolding buffer_imu start_filter fuse
  add_measurement e (SensorMeasurement.imu imu) = some (buffer_imu e imu)
  add_measurement e m = if e.initialised then fuse e m else some (start_filter e m)

  unfoldable pub process_until : Ekf → Timestamp D → Option (Ekf × EstimatorUpdateResult)
  process_until e timestamp =
      if e.initialised
      then Option.map (λ e'. (e', accepted)) (propagate_to num fuel e timestamp)
      else some (e, not_initialized)

  unfoldable pub reset : Ekf → Ekf
  unfolding clear
  reset e = record e {
    initialised = false;
    local_tangent_plane = none;
    last_aiding_timestamp = none;
    imu_buffer = clear e.imu_buffer;
    state = fresh_state num e.options;
  }

  unfoldable pub latest_state : Ekf → Option (Output D V Q M)
  latest_state e = if e.initialised then some (build_navigation_state num e) else none
