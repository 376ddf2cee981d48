-- ===== src/Estimation/Ekf/Estimator/Starting.antt =====
-- When `LatestState` has a state to give, over all that a pipeline does to the filter.
use falcon_guide.Prelude.{
  ℕ, ◌≡◌, ◌∙◌, sym, ap, subst, refl, Bool, true, false, ◌||◌, Option, none, some, List, [], ◌∷◌,
  inl, inr, Bool-cases, Option-cases, if_cases, if◌then◌else◌,
}
use falcon_guide.Core.Double.{Double, Literal}
use falcon_guide.Core.Numerics.{Numerics}
use falcon_guide.Estimation.Interface.{EstimatorUpdateResult, accepted, MeasurementUpdateReport}
use falcon_guide.Estimation.Measurement.{SensorMeasurement}
use falcon_guide.Estimation.Pipeline.{Input, measured, was_reset}
use falcon_guide.Estimation.Ekf.Factory.{EkfOptions}
use falcon_guide.Estimation.Ekf.Estimator.{EkfState, EkfEstimator, IMeasurementModel, make_ekf}
use falcon_guide.Estimation.Ekf.Estimator.Propagate.{propagate_to}
use falcon_guide.Estimation.Ekf.Estimator.Calls.{
  after_apply, dispatch, fuse, buffer_imu, add_measurement, reset, latest_state,
}
use falcon_guide.Estimation.Ekf.Estimator.Aiding.{
  starts, starts_on_fix, some_inj, if_true, map-some,
}

abbrev pub is_some {ℓ} : {A : Type ℓ} → Option A → Bool
is_some none = false
is_some (some a) = true

none-some {ℓ} : {A : Type ℓ} {a : A} → none ≡ some a → ⊥
none-some e = cc

is_some-if {ℓ} : {A : Type ℓ} (b : Bool) (a : A) → is_some (if b then some a else none) ≡ b
is_some-if true a = refl
is_some-if false a = refl

module _ {ℓ} {D V Q M L P A : Type ℓ} ⦃d : Double D⦄ ⦃n : Literal D⦄ (num : Numerics D V Q M L)
    (models : IMeasurementModel D V Q M L P A) (fuel : D → ℕ) where
  abbrev IsOn : EkfEstimator D V Q M L A × MeasurementUpdateReport D → Type 0
  IsOn r = r.0.initialised ≡ true

  after_apply-IsOn :
      (e : EkfEstimator D V Q M L A) (model : A) (m : SensorMeasurement D V M P)
      (s : EkfState D V Q M) (result : EstimatorUpdateResult)
      → e.initialised ≡ true
      → IsOn (after_apply num models fuel e model m s result)
  unfolding after_apply
  after_apply-IsOn e model m s accepted h = h
  after_apply-IsOn e model m s result h = h

  dispatch-IsOn :
      (e : EkfEstimator D V Q M L A) (m : SensorMeasurement D V M P) (ms : List A)
      → e.initialised ≡ true
      → IsOn (dispatch num models fuel e m ms)
  unfolding dispatch
  dispatch-IsOn e m [] h = h
  dispatch-IsOn e m (model ∷ rest) h =
      if_cases IsOn (models.can_handle model m) (λ c. after_apply-IsOn e model m _ _ h)
        (λ c. dispatch-IsOn e m rest h)

  fuse-IsOn :
      (e : EkfEstimator D V Q M L A) (m : SensorMeasurement D V M P)
      (r : EkfEstimator D V Q M L A × MeasurementUpdateReport D)
      → e.initialised ≡ true
      → fuse num models fuel e m ≡ some r
      → IsOn r
  unfolding fuse propagate_to
  fuse-IsOn e m r h eq =
      let (e', p, q) = map-some (λ e'. dispatch num models fuel e' m e'.measurement_models) _ eq in
      let (s, b, c) = map-some _ _ p in
      let on : e'.initialised ≡ true =
        subst (λ (t : EkfEstimator D V Q M L A). t.initialised ≡ true) c h in
      subst IsOn q (dispatch-IsOn e' m e'.measurement_models on)

  add_measurement-IsOn :
      (e : EkfEstimator D V Q M L A) (m : SensorMeasurement D V M P)
      (r : EkfEstimator D V Q M L A × MeasurementUpdateReport D)
      → e.initialised ≡ true
      → add_measurement num models fuel e m ≡ some r
      → IsOn r
  unfolding add_measurement buffer_imu
  add_measurement-IsOn e (SensorMeasurement.imu m) r h eq = subst IsOn (some_inj eq) h
  add_measurement-IsOn e m r h eq = fuse-IsOn e m r h (if_true _ _ h eq)

  -- The filter after these inputs, one after the other; `none` where a call does not return.
  abbrev pub run :
      EkfEstimator D V Q M L A
      → List (Input (SensorMeasurement D V M P))
      → Option (EkfEstimator D V Q M L A)
  run e [] = some e
  run e (was_reset ∷ rest) = run (reset num models fuel e) rest
  run e (measured m ∷ rest) = elim (add_measurement num models fuel e m) [
    | none ↦ none
    | some r ↦ run r.0 rest
  ]

  -- Whether a GNSS solution that is valid and has a fix is among the inputs, since the last reset.
  abbrev pub seen_fix : Bool → List (Input (SensorMeasurement D V M P)) → Bool
  seen_fix before [] = before
  seen_fix before (was_reset ∷ rest) = seen_fix false rest
  seen_fix before (measured m ∷ rest) = seen_fix (before || starts m) rest

  add_measurement-initialised :
      (e : EkfEstimator D V Q M L A) (m : SensorMeasurement D V M P)
      (r : EkfEstimator D V Q M L A × MeasurementUpdateReport D)
      → add_measurement num models fuel e m ≡ some r
      → r.0.initialised ≡ (e.initialised || starts m)
  add_measurement-initialised e m r eq = elim (Bool-cases e.initialised) [
    | inl on ↦ add_measurement-IsOn e m r on eq ∙ ap (λ b. b || starts m) (sym on)
    | inr off ↦ (starts_on_fix num models fuel e m r off eq).0 ∙ ap (λ b. b || starts m) (sym off)
  ]

  run-initialised :
      (is : List (Input (SensorMeasurement D V M P))) (e e' : EkfEstimator D V Q M L A)
      → run e is ≡ some e'
      → e'.initialised ≡ seen_fix e.initialised is
  unfolding reset
  run-initialised [] e e' eq =
      sym (ap (λ (t : EkfEstimator D V Q M L A). t.initialised) (some_inj eq))
  run-initialised (was_reset ∷ rest) e e' eq = run-initialised rest (reset num models fuel e) e' eq
  run-initialised (measured m ∷ rest) e e' eq =
      let go : Option (EkfEstimator D V Q M L A × MeasurementUpdateReport D)
          → Option (EkfEstimator D V Q M L A) =
        λ o. elim o [ none ↦ none | some r ↦ run r.0 rest ] in
      elim (Option-cases (add_measurement num models fuel e m)) [
        | inl hangs ↦ absurd (none-some (sym (ap go hangs) ∙ eq))
        | inr (r, e1) ↦
            run-initialised rest r.0 e' (sym (ap go e1) ∙ eq)
            ∙ ap (λ b. seen_fix b rest) (add_measurement-initialised e m r e1)
      ]

  -- After any inputs, where the calls return, `LatestState` of a new filter gives a state exactly where
  -- a GNSS solution that is valid and has a fix was among them, since the last reset.
  pub shown_after_fix :
      (options : EkfOptions D) (ms : List A) (is : List (Input (SensorMeasurement D V M P)))
      (e : EkfEstimator D V Q M L A)
      → run (make_ekf num options ms) is ≡ some e
      → is_some (latest_state num models fuel e) ≡ seen_fix false is
  unfolding latest_state make_ekf
  shown_after_fix options ms is e eq =
      is_some-if e.initialised _ ∙ run-initialised is (make_ekf num options ms) e eq
