-- ===== src/Estimation/Queue.antt =====
-- src/estimation/include/falconguide/estimation/measurement_queue.hpp. Each operation holds the
-- queue's mutex from start to end, so it is one step.
use falcon_guide.Prelude.{
  ℕ, Bool, true, false, ◌||◌, Option, none, some, List, [], ◌∷◌, ◌++◌, length, leb, if◌then◌else◌,
}

pub record MeasurementQueue {ℓ} (M : Type ℓ) : Type ℓ where
  pub capacity : ℕ
  pub queue : List M
  pub shutdown : Bool

module _ {ℓ} {M : Type ℓ} where
  unfoldable pub make_queue : ℕ → MeasurementQueue M
  make_queue capacity = record { capacity = capacity; queue = []; shutdown = false }

  unfoldable pub push : MeasurementQueue M → M → MeasurementQueue M × Bool
  push q measurement =
      if q.shutdown || leb q.capacity (length q.queue)
      then (q, false)
      else (record q { queue = q.queue ++ measurement ∷ [] }, true)

  unfoldable pub pop_front : MeasurementQueue M → List M → Option (Option M × MeasurementQueue M)
  pop_front q [] = if q.shutdown then some (none, q) else none
  pop_front q (m ∷ ms) = some (some m, record q { queue = ms })

  -- The outer `none` is a consumer that waits on the condition variable: nothing is queued and no
  -- shutdown is requested. The inner one is the `std::nullopt` that ends the consumer.
  unfoldable pub pop : MeasurementQueue M → Option (Option M × MeasurementQueue M)
  unfolding pop_front
  pop q = pop_front q q.queue

  unfoldable pub request_shutdown : MeasurementQueue M → MeasurementQueue M
  request_shutdown q = record q { shutdown = true }

  unfoldable pub size : MeasurementQueue M → ℕ
  size q = length q.queue
