-- ===== src/Estimation/Pipeline/Invariant.antt =====
-- What holds of the pipeline between any two steps.
use mathlib.Core.List.{append_assoc, append-nil}
use falcon_guide.Prelude.{
  ℕ, ◌≤◌, ◌≡◌, refl, sym, ap, ◌∙◌, inl, inr, Bool, true, false, List, [], ◌∷◌, ◌++◌, arith, length,
  length-append, list_cases,
}
use falcon_guide.Estimation.Interface.{INavigationEstimator}
use falcon_guide.Estimation.Queue.{push, pop, request_shutdown}
use falcon_guide.Estimation.Pipeline.{
  EstimatorPipeline, Worker, absent, looping, exited, Caller, at_rest, starting, stopping, joining,
  Input, measured, was_reset, Notification, publish, notify_reset, make_pipeline, push_test,
  push_enqueue, start_exchange, start_thread, stop_exchange, stop_shutdown, stop_join,
  reset_pipeline, run_once,
}
use falcon_guide.Estimation.Pipeline.Steps.{Step, Reach}

-- The measurements among the inputs, in order.
abbrev pub measurements {ℓ} : {M : Type ℓ} → List (Input M) → List M
measurements [] = []
measurements (measured m ∷ is) = m ∷ measurements is
measurements (was_reset ∷ is) = measurements is

-- The flags, the thread and the caller agree.
abbrev pub Lifecycle : Bool → Caller → Worker → Bool → Type 0
Lifecycle false at_rest absent shutdown = Unit
Lifecycle true starting absent shutdown = Unit
Lifecycle true at_rest looping shutdown = Unit
Lifecycle true at_rest exited shutdown = Unit
Lifecycle false stopping looping shutdown = Unit
Lifecycle false stopping exited shutdown = Unit
Lifecycle false joining looping shutdown = shutdown ≡ true
Lifecycle false joining exited shutdown = shutdown ≡ true
Lifecycle _ _ _ _ = ⊥

-- After a shutdown nothing is left in the queue, unless the worker still empties it.
abbrev pub Drained {ℓ} : {M : Type ℓ} → Worker → Bool → List M → Type ℓ
Drained looping shutdown ms = Unit
Drained exited shutdown ms = (shutdown ≡ true) × (ms ≡ [])
Drained absent true ms = ms ≡ []
Drained absent false ms = Unit

module _ {ℓ} {D M E S : Type ℓ} (ops : INavigationEstimator D M E S) where
  open ops use {add_measurement, latest_state, reset}

  -- The estimator after a sequence of inputs, given one after the other, and what its observers are
  -- told of them.
  abbrev pub input : E → Input M → E
  input e (measured m) = (add_measurement e m).0
  input e was_reset = reset e

  abbrev pub replay : E → List (Input M) → E
  replay e [] = e
  replay e (i ∷ is) = replay (input e i) is

  abbrev pub told : List ℕ → E → Input M → List (Notification S)
  told observers e (measured m) =
      publish observers (add_measurement e m).1.result (latest_state (add_measurement e m).0)
  told observers e was_reset = notify_reset observers

  abbrev pub replay_told : List ℕ → E → List (Input M) → List (Notification S)
  replay_told observers e [] = []
  replay_told observers e (i ∷ is) = told observers e i ++ replay_told observers (input e i) is

  -- `start` is the estimator that the pipeline was made with.
  pub record Inv (start : E) (p : EstimatorPipeline M E S) : Type ℓ where
    pub in_order : p.taken ≡ measurements p.handled ++ p.queue.queue
    pub estimates : p.estimator ≡ replay start p.handled
    pub tells : p.notified ≡ replay_told p.observers start p.handled
    pub bounded : length p.queue.queue ≤ p.queue.capacity
    pub lifecycle : Lifecycle p.running p.caller p.worker p.queue.shutdown
    pub drained : Drained p.worker p.queue.shutdown p.queue.queue

  replay-snoc :
      (e : E) (is : List (Input M)) (i : Input M) → replay e (is ++ i ∷ []) ≡ input (replay e is) i
  replay-snoc e [] i = refl
  replay-snoc e (j ∷ js) i = replay-snoc (input e j) js i

  replay_told-snoc :
      (os : List ℕ) (e : E) (is : List (Input M)) (i : Input M)
      → replay_told os e (is ++ i ∷ []) ≡ replay_told os e is ++ told os (replay e is) i
  replay_told-snoc os e [] i = append-nil _
  replay_told-snoc os e (j ∷ js) i =
      ap (λ ns. told os e j ++ ns) (replay_told-snoc os (input e j) js i)
      ∙ sym (append_assoc (told os e j) _ _)

  measurements-snoc :
      (is : List (Input M)) (m : M)
      → measurements (is ++ measured m ∷ []) ≡ measurements is ++ m ∷ []
  measurements-snoc [] m = refl
  measurements-snoc (measured x ∷ is) m = ap (λ ms. x ∷ ms) (measurements-snoc is m)
  measurements-snoc (was_reset ∷ is) m = measurements-snoc is m

  measurements-snoc_reset :
      (is : List (Input M)) → measurements (is ++ was_reset ∷ []) ≡ measurements is
  measurements-snoc_reset [] = refl
  measurements-snoc_reset (measured x ∷ is) = ap (λ ms. x ∷ ms) (measurements-snoc_reset is)
  measurements-snoc_reset (was_reset ∷ is) = measurements-snoc_reset is

  pub make_pipeline-Inv : (start : E) (capacity : ℕ) → Inv start (make_pipeline start capacity)
  unfolding make_pipeline
  make_pipeline-Inv start capacity = ground arith

  pub push_test-Inv :
      (start : E) (p : EstimatorPipeline M E S) (m : M) → Inv start p → Inv start (push_test p m)
  unfolding push_test
  push_test-Inv start p m v = ground arith

  pub push_enqueue-Inv :
      (start : E) (p : EstimatorPipeline M E S) (m : M) (others : List M)
      → Inv start p
      → Inv start (push_enqueue p m others)
  unfolding push_enqueue push
  push_enqueue-Inv start p m others v = ground (
    arith,
    append_assoc (measurements p.handled) p.queue.queue (m ∷ []),
    length-append p.queue.queue (m ∷ []),
  )

  start_exchange-Inv :
      (start : E) (p : EstimatorPipeline M E S)
      → p.caller ≡ at_rest
      → Inv start p
      → Inv start (start_exchange p)
  unfolding start_exchange
  start_exchange-Inv start p h v = ground arith

  start_thread-Inv :
      (start : E) (p : EstimatorPipeline M E S)
      → p.caller ≡ starting
      → Inv start p
      → Inv start (start_thread p)
  unfolding start_thread
  start_thread-Inv start p h v = ground arith

  stop_exchange-Inv :
      (start : E) (p : EstimatorPipeline M E S)
      → p.caller ≡ at_rest
      → Inv start p
      → Inv start (stop_exchange p)
  unfolding stop_exchange
  stop_exchange-Inv start p h v = ground arith

  stop_shutdown-Inv :
      (start : E) (p : EstimatorPipeline M E S)
      → p.caller ≡ stopping
      → Inv start p
      → Inv start (stop_shutdown p)
  unfolding stop_shutdown request_shutdown
  stop_shutdown-Inv start p h v = ground arith

  stop_join-Inv :
      (start : E) (p : EstimatorPipeline M E S)
      → p.caller ≡ joining
      → p.worker ≡ exited
      → Inv start p
      → Inv start (stop_join p)
  unfolding stop_join
  stop_join-Inv start p h w v = ground arith

  reset_pipeline-Inv :
      (start : E) (p : EstimatorPipeline M E S) → Inv start p → Inv start (reset_pipeline ops p)
  unfolding reset_pipeline
  reset_pipeline-Inv start p v = ground (
    arith,
    measurements-snoc_reset p.handled,
    replay-snoc start p.handled was_reset,
    replay_told-snoc p.observers start p.handled was_reset,
  )

  pub run_once-Inv :
      (start : E) (p : EstimatorPipeline M E S)
      → p.worker ≡ looping
      → Inv start p
      → Inv start (run_once ops p)
  unfolding run_once pop
  run_once-Inv start p h v = elim (list_cases p.queue.queue) [
    | inl e ↦ ground (arith, e)
    | inr (m, ms, e) ↦ ground (
      arith,
      e,
      measurements-snoc p.handled m,
      append_assoc (measurements p.handled) (m ∷ []) ms,
      replay-snoc start p.handled (measured m),
      replay_told-snoc p.observers start p.handled (measured m),
    )
  ]

  pub Step-Inv :
      (start : E) {p q : EstimatorPipeline M E S} → Step ops p q → Inv start p → Inv start q
  Step-Inv start {p} (Step.producer_tests m) v = push_test-Inv start p m v
  Step-Inv start {p} (Step.producer_pushes m xs ys e) v = push_enqueue-Inv start p m (xs ++ ys) v
  Step-Inv start {p} (Step.start_begins h) v = start_exchange-Inv start p h v
  Step-Inv start {p} (Step.start_ends h) v = start_thread-Inv start p h v
  Step-Inv start {p} (Step.stop_begins h) v = stop_exchange-Inv start p h v
  Step-Inv start {p} (Step.stop_signals h) v = stop_shutdown-Inv start p h v
  Step-Inv start {p} (Step.stop_ends h w) v = stop_join-Inv start p h w v
  Step-Inv start {p} (Step.resets h w) v = reset_pipeline-Inv start p v
  Step-Inv start {p} (Step.works w r) v = run_once-Inv start p w v

  pub Reach-Inv :
      (start : E) {p q : EstimatorPipeline M E S} → Inv start p → Reach ops p q → Inv start q
  Reach-Inv start v Reach.here = v
  Reach-Inv start v (Reach.next r s) = Step-Inv start s (Reach-Inv start v r)
