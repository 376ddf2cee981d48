-- ===== src/Estimation/Ekf/Estimator/Aiding.antt =====
-- When the filter starts, when it counts as aided, and what status it reports.
use mathlib.Core.Option
use falcon_guide.Prelude.{
  ◌&&◌, ℕ, ◌≡◌, ◌∙◌, sym, ap, subst, refl, Bool, true, false, Option, none, some, List, [], ◌∷◌,
  inl, inr, Bool-cases, if◌then◌else◌, if_cases,
}
use falcon_guide.Core.Double.{Double, Literal}
use falcon_guide.Core.Enums.{GnssFixType, MeasurementValidity, NavigationStatus}
use falcon_guide.Core.Time.{Timestamp}
use falcon_guide.Core.Gnss.{GnssSolution}
use falcon_guide.Core.Buffer.{
  BufferInsertResult, inserted, inserted_and_dropped_oldest, rejected_out_of_order,
  rejected_not_comparable,
}
use falcon_guide.Core.Numerics.{Numerics}
use falcon_guide.Estimation.Interface.{
  EstimatorUpdateResult, accepted, rejected, MeasurementUpdateReport,
}
use falcon_guide.Estimation.Measurement.{SensorMeasurement, get_timestamp}
use falcon_guide.Estimation.Ekf.Estimator.{EkfState, EkfEstimator, IMeasurementModel}
use falcon_guide.Estimation.Ekf.Estimator.Propagate.{propagate_to}
use falcon_guide.Estimation.Ekf.Estimator.Initialise.{
  is_no_fix, is_valid, usable_fix, try_initialise_from_gnss,
}
use falcon_guide.Estimation.Ekf.Estimator.Output.{Output, aiding_status, build_navigation_state}
use falcon_guide.Estimation.Ekf.Estimator.Calls.{
  buffer_result, buffer_imu, start_filter, after_apply, dispatch, fuse, add_measurement,
  latest_state,
}

abbrev pub is_accepted : EstimatorUpdateResult → Bool
is_accepted accepted = true
is_accepted _ = false

-- The receiver has a position.
abbrev pub has_fix : GnssFixType → Bool
has_fix GnssFixType.no_fix = false
has_fix GnssFixType.single = true
has_fix GnssFixType.differential = true
has_fix GnssFixType.rtk_float = true
has_fix GnssFixType.rtk_fixed = true
has_fix GnssFixType.precise_point_positioning = true

-- The source of the measurement vouches for it.
abbrev pub is_sound : MeasurementValidity → Bool
is_sound MeasurementValidity.valid = true
is_sound MeasurementValidity.saturated = false
is_sound MeasurementValidity.dropped = false
is_sound MeasurementValidity.out_of_order = false
is_sound MeasurementValidity.unknown = false

-- A GNSS solution that is valid and has a fix.
abbrev pub starts {ℓ} : {D V M P : Type ℓ} → SensorMeasurement D V M P → Bool
starts (SensorMeasurement.gnss_solution gnss) = has_fix gnss.fix_type && is_sound gnss.validity
starts _ = false

pub is_valid-is_sound : (v : MeasurementValidity) → is_valid v ≡ is_sound v
is_valid-is_sound MeasurementValidity.valid = refl
is_valid-is_sound MeasurementValidity.saturated = refl
is_valid-is_sound MeasurementValidity.dropped = refl
is_valid-is_sound MeasurementValidity.out_of_order = refl
is_valid-is_sound MeasurementValidity.unknown = refl

usable_by :
    (f : GnssFixType) (v : MeasurementValidity)
    → (if is_no_fix f then false else is_valid v) ≡ (has_fix f && is_sound v)
usable_by GnssFixType.no_fix v = refl
usable_by GnssFixType.single v = is_valid-is_sound v
usable_by GnssFixType.differential v = is_valid-is_sound v
usable_by GnssFixType.rtk_float v = is_valid-is_sound v
usable_by GnssFixType.rtk_fixed v = is_valid-is_sound v
usable_by GnssFixType.precise_point_positioning v = is_valid-is_sound v

-- The test of the code lets exactly these pass.
pub usable_fix_lem {ℓ} :
    {D V M : Type ℓ} (gnss : GnssSolution D V M)
    → usable_fix gnss ≡ (has_fix gnss.fix_type && is_sound gnss.validity)
unfolding usable_fix
usable_fix_lem gnss = usable_by gnss.fix_type gnss.validity

pub some_inj {ℓ} : {A : Type ℓ} {a b : A} → some a ≡ some b → a ≡ b
some_inj h = cc

pub if_false {ℓ} :
    {A : Type ℓ} {b : Bool} (x y : A) {z : A} → b ≡ false → (if b then x else y) ≡ z → y ≡ z
if_false x y h e = cc

if_eq {ℓ} : {A : Type ℓ} {b : Bool} (x y : A) → b ≡ true → (if b then x else y) ≡ x
if_eq x y h = cc

pub if_true {ℓ} :
    {A : Type ℓ} {b : Bool} (x y : A) {z : A} → b ≡ true → (if b then x else y) ≡ z → x ≡ z
if_true x y h e = cc

pub map-some {ℓ κ} :
    {A : Type ℓ} {B : Type κ} (f : A → B) (o : Option A) {b : B}
    → Option.map f o ≡ some b
    → (a : A) × (o ≡ some a) × (f a ≡ b)
map-some f none e = cc
map-some f (some a) e = (a, refl, some_inj e)

buffer-not-accepted : (r : BufferInsertResult) → is_accepted (buffer_result r) ≡ false
buffer-not-accepted inserted = refl
buffer-not-accepted inserted_and_dropped_oldest = refl
buffer-not-accepted rejected_out_of_order = refl
buffer-not-accepted rejected_not_comparable = refl

accepted_by : (b : Bool) → is_accepted (if b then accepted else rejected) ≡ b
accepted_by true = refl
accepted_by false = refl

module _ {ℓ} {D V Q M L P A : Type ℓ} ⦃d : Double D⦄ ⦃n : Literal D⦄ (num : Numerics D V Q M L)
    (models : IMeasurementModel D V Q M L P A) (fuel : D → ℕ) where
  fix_cases :
      (e : EkfEstimator D V Q M L A) (gnss : GnssSolution D V M)
      → e.initialised ≡ false
      → ((try_initialise_from_gnss num e gnss).0.initialised ≡ usable_fix gnss)
        × ((try_initialise_from_gnss num e gnss).1 ≡ usable_fix gnss)
  unfolding try_initialise_from_gnss
  fix_cases e gnss h = elim (Bool-cases (usable_fix gnss)) [
    | inl y ↦ rw y (refl, refl)
    | inr y ↦ rw y (h, refl)
  ]

  -- What the time of the last aiding is after a report.
  abbrev noted :
      Option (Timestamp D)
      → SensorMeasurement D V M P
      → EstimatorUpdateResult
      → Option (Timestamp D)
  noted before m result = if is_accepted result then some (get_timestamp m) else before

  abbrev IsNoted :
      Option (Timestamp D)
      → SensorMeasurement D V M P
      → EkfEstimator D V Q M L A × MeasurementUpdateReport D
      → Type ℓ
  IsNoted before m r = r.0.last_aiding_timestamp ≡ noted before m r.1.result

  after_apply-IsNoted :
      (e : EkfEstimator D V Q M L A) (model : A) (m : SensorMeasurement D V M P)
      (s : EkfState D V Q M) (result : EstimatorUpdateResult)
      → IsNoted e.last_aiding_timestamp m (after_apply num models fuel e model m s result)
  unfolding after_apply
  after_apply-IsNoted e model m s accepted = refl
  after_apply-IsNoted e model m s result = refl

  dispatch-IsNoted :
      (e : EkfEstimator D V Q M L A) (m : SensorMeasurement D V M P) (ms : List A)
      → IsNoted e.last_aiding_timestamp m (dispatch num models fuel e m ms)
  unfolding dispatch
  dispatch-IsNoted e m [] = refl
  dispatch-IsNoted e m (model ∷ rest) =
      if_cases (IsNoted e.last_aiding_timestamp m) (models.can_handle model m)
        (λ h. after_apply-IsNoted e model m _ _) (λ h. dispatch-IsNoted e m rest)

  fuse-IsNoted :
      (e : EkfEstimator D V Q M L A) (m : SensorMeasurement D V M P)
      (r : EkfEstimator D V Q M L A × MeasurementUpdateReport D)
      → fuse num models fuel e m ≡ some r
      → IsNoted e.last_aiding_timestamp m r
  unfolding fuse propagate_to
  fuse-IsNoted e m r eq =
      let (e', p, q) = map-some (λ e'. dispatch num models fuel e' m e'.measurement_models) _ eq in
      let (s, b, c) = map-some _ _ p in
      subst (IsNoted e.last_aiding_timestamp m) q (
        subst
          (λ (t : EkfEstimator D V Q M L A).
            IsNoted t.last_aiding_timestamp m (dispatch num models fuel e' m e'.measurement_models))
          (sym c) (dispatch-IsNoted e' m e'.measurement_models))

  -- A filter that has not started starts exactly on a GNSS solution that is valid and has a fix, and reports
  -- exactly that accepted.
  pub starts_on_fix :
      (e : EkfEstimator D V Q M L A) (m : SensorMeasurement D V M P)
      (r : EkfEstimator D V Q M L A × MeasurementUpdateReport D)
      → e.initialised ≡ false
      → add_measurement num models fuel e m ≡ some r
      → (r.0.initialised ≡ starts m) × (is_accepted r.1.result ≡ starts m)
  unfolding add_measurement buffer_imu start_filter
  starts_on_fix e (SensorMeasurement.imu m) r h eq =
      subst (λ r. (r.0.initialised ≡ false) × (is_accepted r.1.result ≡ false)) (some_inj eq)
        (h, buffer-not-accepted _)
  starts_on_fix e (SensorMeasurement.gnss_solution m) r h eq =
      subst
        (λ r.
          (r.0.initialised ≡ (has_fix m.fix_type && is_sound m.validity))
          × (is_accepted r.1.result ≡ (has_fix m.fix_type && is_sound m.validity)))
        (some_inj (if_false _ _ h eq))
        (let c = fix_cases e m h in
          (c.0 ∙ usable_fix_lem m, accepted_by _ ∙ c.1 ∙ usable_fix_lem m))
  starts_on_fix e m r h eq =
      subst (λ r. (r.0.initialised ≡ false) × (is_accepted r.1.result ≡ false))
        (some_inj (if_false _ _ h eq)) (h, refl)

  -- Once started, a filter notes the time of a measurement as that of the last aiding exactly where it
  -- reports it accepted; no other measurement, and no IMU sample, changes that time.
  pub aided_by_accepted :
      (e : EkfEstimator D V Q M L A) (m : SensorMeasurement D V M P)
      (r : EkfEstimator D V Q M L A × MeasurementUpdateReport D)
      → e.initialised ≡ true
      → add_measurement num models fuel e m ≡ some r
      → r.0.last_aiding_timestamp
        ≡ (if is_accepted r.1.result then some (get_timestamp m) else e.last_aiding_timestamp)
  unfolding add_measurement buffer_imu
  aided_by_accepted e (SensorMeasurement.imu m) r h eq =
      subst (IsNoted e.last_aiding_timestamp (SensorMeasurement.imu m)) (some_inj eq)
        (rw (buffer-not-accepted _) refl)
  aided_by_accepted e m r h eq = fuse-IsNoted e m r (if_true _ _ h eq)

  start_filter-aiding :
      (e : EkfEstimator D V Q M L A) (m : SensorMeasurement D V M P)
      → (start_filter num models fuel e m).0.last_aiding_timestamp ≡ e.last_aiding_timestamp
  unfolding start_filter try_initialise_from_gnss
  start_filter-aiding e (SensorMeasurement.gnss_solution gnss) =
      elim (Bool-cases (usable_fix gnss)) [ inl y ↦ rw y refl | inr y ↦ rw y refl ]
  start_filter-aiding e m = refl

  add_measurement-aiding :
      (e : EkfEstimator D V Q M L A) (m : SensorMeasurement D V M P)
      (r : EkfEstimator D V Q M L A × MeasurementUpdateReport D)
      → e.initialised ≡ false
      → add_measurement num models fuel e m ≡ some r
      → r.0.last_aiding_timestamp ≡ e.last_aiding_timestamp
  unfolding add_measurement buffer_imu
  add_measurement-aiding e (SensorMeasurement.imu m) r h eq =
      subst (λ r. r.0.last_aiding_timestamp ≡ e.last_aiding_timestamp) (some_inj eq) refl
  add_measurement-aiding e m r h eq =
      subst (λ r. r.0.last_aiding_timestamp ≡ e.last_aiding_timestamp)
        (some_inj (if_false _ _ h eq)) (start_filter-aiding e m)

  latest_state-some :
      (e : EkfEstimator D V Q M L A)
      → e.initialised ≡ true
      → latest_state num models fuel e ≡ some (build_navigation_state num e)
  unfolding latest_state
  latest_state-some e on = if_eq _ _ on

  unaided_status :
      (e : EkfEstimator D V Q M L A)
      → e.initialised ≡ true
      → e.last_aiding_timestamp ≡ none
      → (build_navigation_state num e).status ≡ NavigationStatus.dead_reckoning
  unfolding build_navigation_state aiding_status
  unaided_status e on unaided =
      if_eq _ _ on
      ∙ ap (aiding_status e.options.dead_reckoning_threshold_s e.state.nominal.timestamp) unaided

  -- Right after the fix from which the filter starts, it reports dead reckoning, since that fix is not
  -- noted as aiding.
  pub first_status :
      (e : EkfEstimator D V Q M L A) (m : SensorMeasurement D V M P)
      (r : EkfEstimator D V Q M L A × MeasurementUpdateReport D)
      → e.initialised ≡ false
      → e.last_aiding_timestamp ≡ none
      → add_measurement num models fuel e m ≡ some r
      → r.1.result ≡ accepted
      → (out : Output D V Q M) × (latest_state num models fuel r.0 ≡ some out)
        × (out.status ≡ NavigationStatus.dead_reckoning)
  first_status e m r h unaided eq accepted_now =
      let c = starts_on_fix e m r h eq in
      let on = c.0 ∙ sym c.1 ∙ ap is_accepted accepted_now in
      (
        build_navigation_state num r.0,
        latest_state-some r.0 on,
        unaided_status r.0 on (add_measurement-aiding e m r h eq ∙ unaided),
      )
