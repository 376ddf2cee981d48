-- ===== src/Estimation/Ekf/Estimator/Keeps.antt =====
-- The calls keep a filter well formed.
use mathlib.Core.Option
use falcon_guide.Prelude.{
  ℕ, zero, suc, ◌≡◌, ◌∙◌, subst, refl, not, ◌&&◌, Option, none, some, List, [], ◌∷◌, arith, inl,
  inr, Bool-cases, Option-cases, if_cases,
}
use falcon_guide.Core.Double.{Double, IsOrdered, Literal}
use falcon_guide.Core.Time.{Timestamp, Duration, time_difference, seconds}
use falcon_guide.Core.Buffer.{make_buffer}
use falcon_guide.Core.Numerics.{Numerics}
use falcon_guide.Estimation.Interface.{EstimatorUpdateResult, MeasurementUpdateReport, accepted}
use falcon_guide.Estimation.Measurement.{ImuMeasurement, SensorMeasurement, get_timestamp}
use falcon_guide.Estimation.Ekf.Factory.{EkfOptions}
use falcon_guide.Estimation.Ekf.Layout.{StateLayout}
use falcon_guide.Estimation.Ekf.Estimator.{EkfState, EkfEstimator, IMeasurementModel, make_ekf}
use falcon_guide.Estimation.Ekf.Estimator.Propagate.{
  min, propagate_imu, split_gap, stamp, propagate_by, propagate_gap, propagate_one, propagate_batch,
  propagate_to,
}
use falcon_guide.Estimation.Ekf.Estimator.Fuse.{inject_error_and_reset}
use falcon_guide.Estimation.Ekf.Estimator.Initialise.{
  initial_state, try_initialise_from_gnss, usable_fix,
}
use falcon_guide.Estimation.Ekf.Estimator.Calls.{
  buffer_imu, start_filter, after_apply, dispatch, fuse, add_measurement, process_until, reset,
}
use falcon_guide.Estimation.Ekf.Estimator.Aiding.{some_inj, if_true, if_false, map-some}
use falcon_guide.Estimation.Ekf.Estimator.Invariant.{
  IsWellFormed, clear-IsImuBuffer, pop_until-IsImuBuffer, insert-IsImuBuffer,
}

-- The state that comes out, if one does, has this layout.
abbrev HasLayout {ℓ} : {D V Q M : Type ℓ} → StateLayout → Option (EkfState D V Q M) → Type 0
HasLayout l none = Unit
HasLayout l (some s) = s.layout ≡ l

module _ {ℓ} {D V Q M L : Type ℓ} ⦃d : Double D⦄ ⦃n : Literal D⦄ (num : Numerics D V Q M L)
    (options : EkfOptions D) where
  split_gap-HasLayout :
      (turns : ℕ) (s : EkfState D V Q M) (imu : ImuMeasurement D V) (x : D)
      → HasLayout s.layout (split_gap num turns options s imu x)
  unfolding split_gap propagate_imu
  split_gap-HasLayout zero s imu x = tt
  split_gap-HasLayout (suc turns) s imu x =
      if_cases (HasLayout s.layout) (d.lt d.nought x)
        (λ h.
          split_gap-HasLayout turns (propagate_imu num options s imu (min x options.max_imu_dt_s))
            imu _)
        (λ h. refl)

  stamp-HasLayout :
      (l : StateLayout) (imu : ImuMeasurement D V) (o : Option (EkfState D V Q M))
      → HasLayout l o
      → HasLayout l (Option.map (stamp imu) o)
  stamp-HasLayout l imu none h = tt
  stamp-HasLayout l imu (some s) h = h

  module _ (fuel : D → ℕ) where
    propagate_gap-HasLayout :
        (s : EkfState D V Q M) (imu : ImuMeasurement D V) (dt : Option Duration)
        → HasLayout s.layout (propagate_gap num fuel options s imu dt)
    unfolding propagate_gap propagate_by
    propagate_gap-HasLayout s imu none = refl
    propagate_gap-HasLayout s imu (some dt) =
        let x = seconds dt in
        if_cases (HasLayout s.layout) (d.lt x options.min_imu_dt_s) (λ h. refl)
          (λ h. stamp-HasLayout s.layout imu _ (split_gap-HasLayout (fuel x) s imu x))

    propagate_one-HasLayout :
        (s : EkfState D V Q M) (imu : ImuMeasurement D V)
        → HasLayout s.layout (propagate_one num fuel options s imu)
    unfolding propagate_one
    propagate_one-HasLayout s imu =
        let t = s.nominal.timestamp in
        if_cases (HasLayout s.layout) (not t.has_steady && not t.has_gps) (λ h. refl)
          (λ h. propagate_gap-HasLayout s imu (time_difference imu.timestamp t))

    propagate_batch-HasLayout :
        (l : StateLayout) (s : EkfState D V Q M) (imus : List (ImuMeasurement D V))
        → s.layout ≡ l
        → HasLayout l (propagate_batch num fuel options s imus)
    unfolding propagate_batch
    propagate_batch-HasLayout l s [] h = h
    propagate_batch-HasLayout l s (imu ∷ rest) h =
        elim (Option-cases (propagate_one num fuel options s imu)) [
          | inl e ↦ rw (e, propagate_batch) tt
          | inr (s', e) ↦
              let kept = subst (HasLayout s.layout) e (propagate_one-HasLayout s imu) in
              rw (e, propagate_batch) (propagate_batch-HasLayout l s' rest (kept ∙ h))
        ]

module _ {ℓ} {D V Q M L P A : Type ℓ} ⦃d : Double D⦄ ⦃n : Literal D⦄ (num : Numerics D V Q M L)
    (models : IMeasurementModel D V Q M L P A) (fuel : D → ℕ) where
  abbrev WellFormed : EkfEstimator D V Q M L A × MeasurementUpdateReport D → Type ℓ
  WellFormed r = IsWellFormed r.0

  propagate_to-IsWellFormed :
      (e e' : EkfEstimator D V Q M L A) (target : Timestamp D)
      → IsWellFormed e
      → propagate_to num fuel e target ≡ some e'
      → IsWellFormed e'
  unfolding propagate_to
  propagate_to-IsWellFormed e e' target w eq =
      let (s, p, q) = map-some _ _ eq in
      subst IsWellFormed q (record {
        buffer = pop_until-IsImuBuffer e.imu_buffer target w.buffer;
        layout =
            subst (HasLayout e.state.layout) p
              (propagate_batch-HasLayout num e.options fuel e.state.layout e.state _ refl)
            ∙ w.layout;
        plane = w.plane;
      })

  after_apply-IsWellFormed :
      (e : EkfEstimator D V Q M L A) (model : A) (m : SensorMeasurement D V M P)
      (s : EkfState D V Q M) (result : EstimatorUpdateResult)
      → s.layout ≡ e.state.layout
      → IsWellFormed e
      → WellFormed (after_apply num models fuel e model m s result)
  unfolding after_apply inject_error_and_reset
  after_apply-IsWellFormed e model m s accepted h w = record {
    buffer = w.buffer;
    layout = h ∙ w.layout;
    plane = w.plane;
  }
  after_apply-IsWellFormed e model m s result h w = record {
    buffer = w.buffer;
    layout = h ∙ w.layout;
    plane = w.plane;
  }

  dispatch-IsWellFormed :
      (e : EkfEstimator D V Q M L A) (m : SensorMeasurement D V M P) (ms : List A)
      → IsWellFormed e
      → WellFormed (dispatch num models fuel e m ms)
  unfolding dispatch
  dispatch-IsWellFormed e m [] w = w
  dispatch-IsWellFormed e m (model ∷ rest) w =
      if_cases WellFormed (models.can_handle model m)
        (λ h. after_apply-IsWellFormed e model m _ _ refl w) (λ h. dispatch-IsWellFormed e m rest w)

  start_filter-IsWellFormed :
      (e : EkfEstimator D V Q M L A) (m : SensorMeasurement D V M P)
      → IsWellFormed e
      → WellFormed (start_filter num models fuel e m)
  unfolding start_filter try_initialise_from_gnss initial_state
  start_filter-IsWellFormed e (SensorMeasurement.gnss_solution gnss) w =
      elim (Bool-cases (usable_fix gnss)) [
        | inl y ↦ rw y (record { buffer = w.buffer; layout = w.layout; plane = refl })
        | inr y ↦ rw y w
      ]
  start_filter-IsWellFormed e m w = w

  fuse-IsWellFormed :
      (e : EkfEstimator D V Q M L A) (m : SensorMeasurement D V M P)
      (r : EkfEstimator D V Q M L A × MeasurementUpdateReport D)
      → IsWellFormed e
      → fuse num models fuel e m ≡ some r
      → WellFormed r
  unfolding fuse
  fuse-IsWellFormed e m r w eq =
      let (e', p, q) = map-some (λ e'. dispatch num models fuel e' m e'.measurement_models) _ eq in
      subst WellFormed q (
        dispatch-IsWellFormed e' m e'.measurement_models
          (propagate_to-IsWellFormed e e' (get_timestamp m) w p))

  buffer_imu-IsWellFormed :
      IsOrdered D
      → (e : EkfEstimator D V Q M L A) (imu : ImuMeasurement D V) → IsWellFormed e
      → WellFormed (buffer_imu num models fuel e imu)
  unfolding buffer_imu
  buffer_imu-IsWellFormed o e imu w = record {
    buffer = insert-IsImuBuffer o e.imu_buffer imu w.buffer;
    layout = w.layout;
    plane = w.plane;
  }

  pub add_measurement-IsWellFormed :
      IsOrdered D
      → (e : EkfEstimator D V Q M L A) (m : SensorMeasurement D V M P)
        (r : EkfEstimator D V Q M L A × MeasurementUpdateReport D)
      → IsWellFormed e
      → add_measurement num models fuel e m ≡ some r
      → WellFormed r
  unfolding add_measurement
  add_measurement-IsWellFormed o e (SensorMeasurement.imu imu) r w eq =
      subst WellFormed (some_inj eq) (buffer_imu-IsWellFormed o e imu w)
  add_measurement-IsWellFormed o e m r w eq = elim (Bool-cases e.initialised) [
    | inl on ↦ fuse-IsWellFormed e m r w (if_true _ _ on eq)
    | inr off ↦ subst WellFormed (some_inj (if_false _ _ off eq)) (start_filter-IsWellFormed e m w)
  ]

  pub process_until-IsWellFormed :
      (e : EkfEstimator D V Q M L A) (t : Timestamp D)
      (r : EkfEstimator D V Q M L A × EstimatorUpdateResult)
      → IsWellFormed e
      → process_until num models fuel e t ≡ some r
      → IsWellFormed r.0
  unfolding process_until
  process_until-IsWellFormed e t r w eq = elim (Bool-cases e.initialised) [
    | inl on ↦
        let (e', p, q) = map-some _ _ (if_true _ _ on eq) in
        subst (λ r. IsWellFormed r.0) q (propagate_to-IsWellFormed e e' t w p)
    | inr off ↦ subst (λ r. IsWellFormed r.0) (some_inj (if_false _ _ off eq)) w
  ]

  pub reset-IsWellFormed :
      (e : EkfEstimator D V Q M L A) → IsWellFormed e → IsWellFormed (reset num models fuel e)
  unfolding reset
  reset-IsWellFormed e w = record {
    buffer = clear-IsImuBuffer e.imu_buffer w.buffer;
    layout = refl;
    plane = refl;
  }

  pub make_ekf-IsWellFormed : (o : EkfOptions D) (ms : List A) → IsWellFormed (make_ekf num o ms)
  unfolding make_ekf make_buffer
  make_ekf-IsWellFormed o ms = record {
    buffer = record { capacity = refl; any_order = refl; sorted = tt; bounded = inr (omega arith) };
    layout = refl;
    plane = refl;
  }
