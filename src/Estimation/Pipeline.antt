-- ===== src/Estimation/Pipeline.antt =====
-- src/estimation/src/estimator_pipeline.cpp. Producer threads, the thread that calls `Start`, `Stop`
-- and `Reset`, and the worker thread take turns; each step here is one access to a shared member.
pub mod Steps
pub mod Invariant
pub mod Drain
use falcon_guide.Prelude.{
  ℕ, Bool, true, false, Option, none, some, List, [], ◌∷◌, ◌++◌, map, if◌then◌else◌,
}
use falcon_guide.Estimation.Interface.{
  EstimatorUpdateResult, accepted, MeasurementUpdateReport, INavigationEstimator,
}
use falcon_guide.Estimation.Queue.{MeasurementQueue, make_queue, push, pop, request_shutdown}

-- `thread_`: not joinable, in `RunLoop`, or returned from it and not joined.
pub data Worker : Type 0 where
  absent looping exited : Worker

-- Where the thread that calls `Start` and `Stop` stands: in neither; in `Start`, between the exchange
-- and the new thread; in `Stop`, before `RequestShutdown`, and in `join`.
pub data Caller : Type 0 where
  at_rest starting stopping joining : Caller

-- What was done to the estimator.
pub data Input {ℓ} (M : Type ℓ) : Type ℓ where
  measured : M → Input M
  was_reset : Input M

-- A call of an observer's `OnNavigationState` or `OnEstimatorReset`.
pub data Notification {ℓ} (S : Type ℓ) : Type ℓ where
  navigation_state : ℕ → S → Notification S
  estimator_reset : ℕ → Notification S

-- `entering` holds the measurements of producers that have read `running_` as true and have not yet
-- called `queue_.Push`. The last three members record the history: the measurements that
-- `queue_.Push` took, what the estimator was given, and the calls of observers, oldest first.
pub record EstimatorPipeline {ℓ} (M E S : Type ℓ) : Type ℓ where
  pub estimator : E
  pub queue : MeasurementQueue M
  pub observers : List ℕ
  pub running : Bool
  pub worker : Worker
  pub caller : Caller
  pub entering : List M
  pub taken : List M
  pub handled : List (Input M)
  pub notified : List (Notification S)

module _ {ℓ} {S : Type ℓ} where
  abbrev pub notify_observers : List ℕ → S → List (Notification S)
  notify_observers observers s = map (λ o. navigation_state o s) observers

  abbrev pub notify_reset : List ℕ → List (Notification S)
  notify_reset observers = map estimator_reset observers

  -- What `RunLoop` tells the observers after an update with this result, and this latest state.
  unfoldable pub publish : List ℕ → EstimatorUpdateResult → Option S → List (Notification S)
  publish observers accepted (some s) = notify_observers observers s
  publish observers accepted none = []
  publish observers _ _ = []

module _ {ℓ} {M E S : Type ℓ} where
  unfoldable pub make_pipeline : E → ℕ → EstimatorPipeline M E S
  unfolding make_queue
  make_pipeline estimator queue_capacity = record {
    estimator = estimator;
    queue = make_queue queue_capacity;
    observers = [];
    running = false;
    worker = absent;
    caller = at_rest;
    entering = [];
    taken = [];
    handled = [];
    notified = [];
  }

  unfoldable pub register_observer : EstimatorPipeline M E S → ℕ → EstimatorPipeline M E S
  register_observer p observer = record p { observers = p.observers ++ observer ∷ [] }

  -- `Push` reads `running_`; the result is false if that is false.
  unfoldable pub push_test : EstimatorPipeline M E S → M → EstimatorPipeline M E S
  push_test p m = if p.running then record p { entering = m ∷ p.entering } else p

  -- `Push` returns `queue_.Push`; `others` are the other producers on their way.
  unfoldable pub push_enqueue : EstimatorPipeline M E S → M → List M → EstimatorPipeline M E S
  push_enqueue p m others =
      let (q, ok) = push p.queue m in
      record p { queue = q; entering = others; taken = if ok then p.taken ++ m ∷ [] else p.taken }

  -- The two halves of `Start`.
  unfoldable pub start_exchange : EstimatorPipeline M E S → EstimatorPipeline M E S
  start_exchange p = if p.running then p else record p { running = true; caller = starting }

  unfoldable pub start_thread : EstimatorPipeline M E S → EstimatorPipeline M E S
  start_thread p = record p { worker = looping; caller = at_rest }

  -- The three parts of `Stop`.
  unfoldable pub stop_exchange : EstimatorPipeline M E S → EstimatorPipeline M E S
  stop_exchange p = if p.running then record p { running = false; caller = stopping } else p

  unfoldable pub stop_shutdown : EstimatorPipeline M E S → EstimatorPipeline M E S
  stop_shutdown p = record p { queue = request_shutdown p.queue; caller = joining }

  unfoldable pub stop_join : EstimatorPipeline M E S → EstimatorPipeline M E S
  stop_join p = record p { worker = absent; caller = at_rest }

module _ {ℓ} {D M E S : Type ℓ} (ops : INavigationEstimator D M E S) where
  open ops use {add_measurement, latest_state, reset}

  unfoldable pub reset_pipeline : EstimatorPipeline M E S → EstimatorPipeline M E S
  reset_pipeline p = record p {
    estimator = reset p.estimator;
    handled = p.handled ++ was_reset ∷ [];
    notified = p.notified ++ notify_reset p.observers;
  }

  -- The body of the loop in `RunLoop`, for a measurement.
  unfoldable pub process : EstimatorPipeline M E S → M → EstimatorPipeline M E S
  unfolding publish
  process p m =
      let (e, update) = add_measurement p.estimator m in
      record p {
        estimator = e;
        handled = p.handled ++ measured m ∷ [];
        notified = p.notified ++ publish p.observers update.result (latest_state e);
      }

  -- One round of `RunLoop`; a round that waits in `Pop` changes nothing.
  unfoldable pub run_popped :
      EstimatorPipeline M E S → Option (Option M × MeasurementQueue M) → EstimatorPipeline M E S
  unfolding process
  run_popped p none = p
  run_popped p (some (none, q)) = record p { queue = q; worker = exited }
  run_popped p (some (some m, q)) = process (record p { queue = q }) m

  unfoldable pub run_once : EstimatorPipeline M E S → EstimatorPipeline M E S
  unfolding run_popped
  run_once p = run_popped p (pop p.queue)
