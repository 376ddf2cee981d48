-- ===== src/Estimation/Ekf/Estimator/Loop.antt =====
-- The loop of `PropagateTo` that splits a gap into steps: where it ends, and a setting where it does not.
use mathlib.Core.Option
use falcon_guide.Prelude.{
  ◌⊎◌, ℕ, zero, suc, ◌<◌, ◌≡◌, refl, Bool, true, false, Option, none, some, List, [], ◌∷◌, arith,
  inl, inr, Bool-cases, if_cases, subst, sym, not, ◌&&◌, ◌||◌,
}
use falcon_guide.Core.Double.{Double, Literal}
use falcon_guide.Core.Time.{Timestamp, Duration, time_difference, seconds}
use falcon_guide.Core.Buffer.{pop_until}
use falcon_guide.Core.Numerics.{Numerics}
use falcon_guide.Estimation.Measurement.{ImuMeasurement, SensorMeasurement, get_timestamp}
use falcon_guide.Estimation.Ekf.Factory.{EkfOptions}
use falcon_guide.Estimation.Ekf.Estimator.{EkfState, EkfEstimator, IMeasurementModel}
use falcon_guide.Estimation.Ekf.Estimator.Propagate.{
  min, propagate_imu, split_gap, stamp, propagate_by, propagate_gap, propagate_one, propagate_batch,
  propagate_to,
}
use falcon_guide.Estimation.Ekf.Estimator.Calls.{fuse, add_measurement}

-- The call returns.
abbrev pub Returns {ℓ} : {A : Type ℓ} → Option A → Type ℓ
Returns {A} o = (a : A) × (o ≡ some a)

map-Returns {ℓ κ} :
    {A : Type ℓ} {B : Type κ} (f : A → B) {o : Option A} → Returns o → Returns (Option.map f o)
map-Returns f (a, e) = (f a, rw e refl)

-- Of a gap that is not above `limit`, a step of at most `max_dt` leaves one that is smaller, by a rank that is
-- below the number of turns allowed, and not above the limit either. Doubles meet it for a step that is
-- not lost in rounding at the limit: with the default of 0.05 s, for a limit of 10 000 000 000 s, which no
-- count of nanoseconds in 64 bits exceeds. A NaN ends the loop at once.
pub record IsShrinking {ℓ} (D : Type ℓ) ⦃d : Double D⦄ (fuel : D → ℕ) (max_dt limit : D)
    : Type ℓ where
  pub rank : D → ℕ
  pub enough : (x : D) → d.lt limit x ≡ false → rank x < fuel x
  pub shrinks :
      (x : D)
      → d.lt limit x ≡ false
      → d.lt d.nought x ≡ true
      → rank (d.sub x (min x max_dt)) < rank x
  pub limited :
      (x : D)
      → d.lt limit x ≡ false
      → d.lt d.nought x ≡ true
      → d.lt limit (d.sub x (min x max_dt)) ≡ false

module _ {ℓ} {D : Type ℓ} ⦃d : Double D⦄ (limit : D) where
  -- A gap that can be told is not above the limit.
  abbrev pub IsShort : Option Duration → Type 0
  IsShort none = Unit
  IsShort (some dt) = d.lt limit (seconds dt) ≡ false

  -- The gaps that the loop over these samples can meet from time `t` on: each sample either sets the time or
  -- leaves it.
  abbrev pub ShortGaps : {V : Type ℓ} → Timestamp D → List (ImuMeasurement D V) → Type 0
  ShortGaps t [] = Unit
  ShortGaps t (imu ∷ rest) =
      IsShort (time_difference imu.timestamp t) × ShortGaps t rest × ShortGaps imu.timestamp rest

module _ {ℓ} {D V Q M L : Type ℓ} ⦃d : Double D⦄ ⦃n : Literal D⦄ (num : Numerics D V Q M L)
    (options : EkfOptions D) (imu : ImuMeasurement D V) where
  split_gap-Returns :
      {fuel : D → ℕ} {limit : D} (small : IsShrinking D fuel options.max_imu_dt_s limit) (turns : ℕ)
      (s : EkfState D V Q M) (x : D)
      → d.lt limit x ≡ false
      → small.rank x < turns
      → Returns (split_gap num turns options s imu x)
  unfolding split_gap
  split_gap-Returns small zero s x l h = absurd (omega arith)
  split_gap-Returns small (suc turns) s x l h = elim (Bool-cases (d.lt d.nought x)) [
    | inl more ↦ rw more (
        split_gap-Returns small turns (propagate_imu num options s imu (min x options.max_imu_dt_s))
          (d.sub x (min x options.max_imu_dt_s)) (small.limited x l more)
          (omega (arith, small.shrinks x l more)))
    | inr done ↦ (s, rw done refl)
  ]

  -- Where nothing is taken off what remains of a gap, the loop goes on.
  split_gap-none :
      ((x : D) → d.lt d.nought x ≡ true → d.sub x (min x options.max_imu_dt_s) ≡ x)
      → (turns : ℕ) (s : EkfState D V Q M) (x : D) → d.lt d.nought x ≡ true
      → split_gap num turns options s imu x ≡ none
  unfolding split_gap
  split_gap-none stays zero s x positive = refl
  split_gap-none stays (suc turns) s x positive =
      rw (positive, stays x positive)
        (split_gap-none stays turns (propagate_imu num options s imu (min x options.max_imu_dt_s)) x
          positive)

  -- A step of zero takes nothing off.
  zero_step :
      ((x : D) → d.sub x d.nought ≡ x)
      → options.max_imu_dt_s ≡ d.nought
      → (x : D) → d.lt d.nought x ≡ true
      → d.sub x (min x options.max_imu_dt_s) ≡ x
  zero_step sub_zero e x positive =
      subst (λ m. d.sub x (min x m) ≡ x) (sym e) (rw positive (sub_zero x))

module _ {ℓ} {D V Q M L : Type ℓ} ⦃d : Double D⦄ ⦃n : Literal D⦄ (num : Numerics D V Q M L)
    (fuel : D → ℕ) where
  -- The call returns a state of the same time, or of that of the sample.
  abbrev Goes : EkfState D V Q M → ImuMeasurement D V → Option (EkfState D V Q M) → Type ℓ
  Goes s imu o =
      (s' : EkfState D V Q M) × (o ≡ some s')
      × ((s'.nominal.timestamp ≡ s.nominal.timestamp) ⊎ (s'.nominal.timestamp ≡ imu.timestamp))

  module _ (options : EkfOptions D) {limit : D}
      (small : IsShrinking D fuel options.max_imu_dt_s limit) where
    stamped :
        (s : EkfState D V Q M) (imu : ImuMeasurement D V) {o : Option (EkfState D V Q M)}
        → Returns o
        → Goes s imu (Option.map (stamp imu) o)
    stamped s imu (s', e) = (stamp imu s', rw e refl, inr refl)

    propagate_by-Goes :
        (s : EkfState D V Q M) (imu : ImuMeasurement D V) (dt : D)
        → d.lt limit dt ≡ false
        → Goes s imu (propagate_by num fuel options s imu dt)
    unfolding propagate_by
    propagate_by-Goes s imu dt l =
        if_cases (Goes s imu) (d.lt dt options.min_imu_dt_s) (λ h. (s, refl, inl refl))
          (λ h.
            stamped s imu
              (split_gap-Returns num options imu small (fuel dt) s dt l (small.enough dt l)))

    propagate_gap-Goes :
        (s : EkfState D V Q M) (imu : ImuMeasurement D V) (dt : Option Duration)
        → IsShort limit dt
        → Goes s imu (propagate_gap num fuel options s imu dt)
    unfolding propagate_gap
    propagate_gap-Goes s imu none l = (s, refl, inl refl)
    propagate_gap-Goes s imu (some dt) l = propagate_by-Goes s imu (seconds dt) l

    propagate_one-Goes :
        (s : EkfState D V Q M) (imu : ImuMeasurement D V)
        → IsShort limit (time_difference imu.timestamp s.nominal.timestamp)
        → Goes s imu (propagate_one num fuel options s imu)
    unfolding propagate_one
    propagate_one-Goes s imu l =
        let t = s.nominal.timestamp in
        if_cases (Goes s imu) (not t.has_steady && not t.has_gps)
          (λ h. (stamp imu s, refl, inr refl))
          (λ h. propagate_gap-Goes s imu (time_difference imu.timestamp t) l)

    propagate_batch-Returns :
        (s : EkfState D V Q M) (imus : List (ImuMeasurement D V))
        → ShortGaps limit s.nominal.timestamp imus
        → Returns (propagate_batch num fuel options s imus)
    unfolding propagate_batch
    propagate_batch-Returns s [] l = (s, refl)
    propagate_batch-Returns s (imu ∷ rest) l =
        let (s', e, times) = propagate_one-Goes s imu l.0 in
        let gaps : ShortGaps limit s'.nominal.timestamp rest = elim times [
          | inl same ↦ subst (λ t. ShortGaps limit t rest) (sym same) l.1
          | inr new ↦ subst (λ t. ShortGaps limit t rest) (sym new) l.2
        ] in
        let (s'', e') = propagate_batch-Returns s' rest gaps in (s'', rw (e, propagate_batch) e')

  -- The samples that a call up to this time propagates through.
  abbrev pub due_samples :
      {A : Type ℓ} → EkfEstimator D V Q M L A → Timestamp D → List (ImuMeasurement D V)
  due_samples e target =
      (pop_until (λ (m : ImuMeasurement D V). m.timestamp) e.imu_buffer target true).0

  propagate_to-Returns :
      {A : Type ℓ} (e : EkfEstimator D V Q M L A) (target : Timestamp D) {limit : D}
      → IsShrinking D fuel e.options.max_imu_dt_s limit
      → ShortGaps limit e.state.nominal.timestamp (due_samples e target)
      → Returns (propagate_to num fuel e target)
  unfolding propagate_to
  propagate_to-Returns e target small l =
      map-Returns _ (propagate_batch-Returns e.options small e.state _ l)

module _ {ℓ} {D V Q M L P A : Type ℓ} ⦃d : Double D⦄ ⦃n : Literal D⦄ (num : Numerics D V Q M L)
    (models : IMeasurementModel D V Q M L P A) (fuel : D → ℕ) where
  fuse-Returns :
      (e : EkfEstimator D V Q M L A) (m : SensorMeasurement D V M P) {limit : D}
      → IsShrinking D fuel e.options.max_imu_dt_s limit
      → ShortGaps limit e.state.nominal.timestamp (due_samples num fuel e (get_timestamp m))
      → Returns (fuse num models fuel e m)
  unfolding fuse
  fuse-Returns e m small l =
      map-Returns _ (propagate_to-Returns num fuel e (get_timestamp m) small l)

  -- Where the gaps between the samples that are due, and from the time of the filter to them, are not
  -- above a limit up to which a step makes what remains of a gap smaller, `AddMeasurement` returns, on any
  -- measurement and in any state of the filter.
  pub add_measurement-Returns :
      (e : EkfEstimator D V Q M L A) (m : SensorMeasurement D V M P) (limit : D)
      → IsShrinking D fuel e.options.max_imu_dt_s limit
      → ShortGaps limit e.state.nominal.timestamp (due_samples num fuel e (get_timestamp m))
      → Returns (add_measurement num models fuel e m)
  unfolding add_measurement
  add_measurement-Returns e (SensorMeasurement.imu m) limit small l = (_, refl)
  add_measurement-Returns e m limit small l =
      if_cases Returns e.initialised (λ h. fuse-Returns e m small l) (λ h. (_, refl))

is_timed : (a b : Bool) → (a || b) ≡ true → (not a && not b) ≡ false
is_timed a b h = ground arith

module _ {ℓ} {D V Q M L : Type ℓ} ⦃d : Double D⦄ ⦃n : Literal D⦄ (num : Numerics D V Q M L)
    (fuel : D → ℕ) where
  -- One turn of the loop over the samples.
  propagate_one-none :
      (options : EkfOptions D) (s : EkfState D V Q M) (imu : ImuMeasurement D V) (dt : Duration)
      → split_gap num (fuel (seconds dt)) options s imu (seconds dt) ≡ none
      → (s.nominal.timestamp.has_steady || s.nominal.timestamp.has_gps) ≡ true
      → time_difference imu.timestamp s.nominal.timestamp ≡ some dt
      → d.lt (seconds dt) options.min_imu_dt_s ≡ false
      → propagate_one num fuel options s imu ≡ none
  unfolding propagate_one propagate_gap propagate_by
  propagate_one-none options s imu dt hang timed later long =
      rw (is_timed _ _ timed, later, long, hang) refl

  -- With a longest step of zero, which the settings allow, `PropagateTo` does not return, whatever the number
  -- of turns: where the filter has a time, and the first IMU sample that is due is later than it by more
  -- than zero and by no less than the shortest interval.
  pub zero_step-none :
      {A : Type ℓ} (e : EkfEstimator D V Q M L A) (target : Timestamp D) (imu : ImuMeasurement D V)
      (rest : List (ImuMeasurement D V)) (dt : Duration)
      → ((x : D) → d.sub x d.nought ≡ x)
      → e.options.max_imu_dt_s ≡ d.nought
      → (pop_until (λ (m : ImuMeasurement D V). m.timestamp) e.imu_buffer target true).0
        ≡ imu ∷ rest
      → (e.state.nominal.timestamp.has_steady || e.state.nominal.timestamp.has_gps) ≡ true
      → time_difference imu.timestamp e.state.nominal.timestamp ≡ some dt
      → d.lt d.nought (seconds dt) ≡ true
      → d.lt (seconds dt) e.options.min_imu_dt_s ≡ false
      → propagate_to num fuel e target ≡ none
  unfolding propagate_to propagate_batch
  zero_step-none e target imu rest dt sub_zero zero_max due timed later positive long =
      let hang =
        split_gap-none num e.options imu (zero_step num e.options imu sub_zero zero_max)
          (fuel (seconds dt)) e.state (seconds dt) positive in
      let one = propagate_one-none e.options e.state imu dt hang timed later long in
      rw (due, one, propagate_batch) refl
