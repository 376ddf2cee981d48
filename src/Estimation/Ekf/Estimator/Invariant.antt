-- ===== src/Estimation/Ekf/Estimator/Invariant.antt =====
-- What holds of a filter between its calls: the IMU buffer is sorted and within its bound, the state has the
-- layout of the options, and a filter that has started has a local tangent plane.
use falcon_guide.Prelude.{
  ◌≡◌, ◌∙◌, sym, ap, subst, Bool, true, false, ◌&&◌, Option, none, some, List, [], ◌∷◌, ◌++◌, arith,
  inl, inr, length, length-append,
}
use falcon_guide.Core.Double.{Double, IsOrdered}
use falcon_guide.Core.Time.{Timestamp}
use falcon_guide.Core.Buffer.{TimeOrderedBuffer, insert, clear, pop_until}
use falcon_guide.Core.Buffer.Order.{IsSorted, Chain-tail, insert-IsSorted}
use falcon_guide.Core.Buffer.Contents.{IsBounded, insert-IsBounded, insert-settings}
use falcon_guide.Core.Buffer.Pop.{pop_until_splits}
use falcon_guide.Estimation.Measurement.{ImuMeasurement}
use falcon_guide.Estimation.Ekf.Estimator.{EkfEstimator, imu_capacity, layout_by}

abbrev pub imu_time {ℓ} : {D V : Type ℓ} → ImuMeasurement D V → Timestamp D
imu_time m = m.timestamp

-- The buffer as the constructor makes it, sorted, and with no more than it can hold.
pub record IsImuBuffer {ℓ} {D V : Type ℓ} ⦃d : Double D⦄
    (b : TimeOrderedBuffer (ImuMeasurement D V)) : Type 0 where
  pub capacity : b.max_size ≡ imu_capacity
  pub any_order : b.allow_out_of_order_insert ≡ true
  pub sorted : IsSorted imu_time b.measurements
  pub bounded : IsBounded b

abbrev pub is_missing {ℓ} : {A : Type ℓ} → Option A → Bool
is_missing none = true
is_missing (some a) = false

pub record IsWellFormed {ℓ} {D V Q M L A : Type ℓ} ⦃d : Double D⦄ (e : EkfEstimator D V Q M L A)
    : Type ℓ where
  pub buffer : IsImuBuffer e.imu_buffer
  pub layout : e.state.layout ≡ layout_by e.options
  pub plane : (e.initialised && is_missing e.local_tangent_plane) ≡ false

module _ {ℓ} {D V : Type ℓ} ⦃d : Double D⦄ where
  IsSorted-append :
      (xs ys : List (ImuMeasurement D V)) → IsSorted imu_time (xs ++ ys) → IsSorted imu_time ys
  IsSorted-append [] ys c = c
  IsSorted-append (x ∷ xs) ys c = IsSorted-append xs ys (Chain-tail imu_time x (xs ++ ys) c)

  pub clear-IsImuBuffer :
      (b : TimeOrderedBuffer (ImuMeasurement D V)) → IsImuBuffer b → IsImuBuffer (clear b)
  unfolding clear
  clear-IsImuBuffer b h = record {
    capacity = h.capacity;
    any_order = h.any_order;
    sorted = tt;
    bounded = inr (omega arith);
  }

  IsBounded-rest :
      (b : TimeOrderedBuffer (ImuMeasurement D V)) (popped : List (ImuMeasurement D V))
      (b' : TimeOrderedBuffer (ImuMeasurement D V))
      → popped ++ b'.measurements ≡ b.measurements
      → b'.max_size ≡ b.max_size
      → IsBounded b
      → IsBounded b'
  IsBounded-rest b popped b' e s (inl unlimited) = inl (s ∙ unlimited)
  IsBounded-rest b popped b' e s (inr fits) =
      inr (omega (arith, length-append popped b'.measurements, ap length e))

  pub pop_until-IsImuBuffer :
      (b : TimeOrderedBuffer (ImuMeasurement D V)) (t : Timestamp D)
      → IsImuBuffer b
      → IsImuBuffer (pop_until imu_time b t true).1
  pop_until-IsImuBuffer b t h =
      let p = pop_until_splits imu_time b t true in
      let b' = (pop_until imu_time b t true).1 in
      record {
        capacity = ap (λ c. c.max_size) p.3 ∙ h.capacity;
        any_order = ap (λ c. c.allow_out_of_order_insert) p.3 ∙ h.any_order;
        sorted = IsSorted-append _ b'.measurements (subst (IsSorted imu_time) (sym p.0) h.sorted);
        bounded = IsBounded-rest b _ b' p.0 (ap (λ c. c.max_size) p.3) h.bounded;
      }

  pub insert-IsImuBuffer :
      IsOrdered D
      → (b : TimeOrderedBuffer (ImuMeasurement D V)) (m : ImuMeasurement D V) → IsImuBuffer b
      → IsImuBuffer (insert imu_time b m).0
  insert-IsImuBuffer o b m h =
      let s = insert-settings imu_time b m in
      record {
        capacity = s.0 ∙ h.capacity;
        any_order = s.1 ∙ h.any_order;
        sorted = insert-IsSorted imu_time o b m h.sorted;
        bounded = insert-IsBounded imu_time b m h.bounded;
      }
