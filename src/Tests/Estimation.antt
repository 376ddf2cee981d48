-- ===== src/Tests/Estimation.antt =====
-- Tests of the queue and of the pipeline: an estimator that keeps what it was given.
use falcon_guide.Prelude.{
  ℕ, suc, ◌≡◌, refl, true, false, some, List, [], ◌∷◌, ◌++◌, length, map, if◌then◌else◌, ◌==◌,
}
use falcon_guide.Estimation.Interface.{INavigationEstimator, accepted, rejected, report}
use falcon_guide.Estimation.Queue.{push, pop, make_queue, request_shutdown}
use falcon_guide.Estimation.Pipeline.{
  EstimatorPipeline, exited, measured, navigation_state, make_pipeline, register_observer,
  push_test, push_enqueue, start_exchange, start_thread, stop_exchange, stop_shutdown, stop_join,
  run_once,
}
use falcon_guide.Estimation.Pipeline.Steps.{Step, Reach}
use falcon_guide.Estimation.Pipeline.Invariant.{measurements, replay, replay_told}
use falcon_guide.Estimation.Pipeline.Drain.{
  registered, Reach-replay, stop_drains, rounds, shutdown-exits, shutdown_final,
}

-- It rejects the number 0.
abbrev pub keeper : INavigationEstimator ℕ ℕ (List ℕ) (List ℕ)
keeper = record {
  returns = λ e m. true;
  add_measurement = λ e m. (e ++ m ∷ [], report (if m == 0 then rejected else accepted));
  latest_state = some;
  reset = λ e. [];
}

abbrev new : EstimatorPipeline ℕ (List ℕ) (List ℕ)
new = registered keeper [] 4 (7 ∷ [])

full_queue :
    push {M = ℕ} (push (make_queue 1) 5).0 6
    ≡ (record { capacity = 1; queue = 5 ∷ []; shutdown = false }, false)
unfolding push make_queue
full_queue = refl

-- `Start`, then `Push(5)` on another thread; and `Stop` up to `join`.
abbrev pushed : EstimatorPipeline ℕ (List ℕ) (List ℕ)
pushed = push_enqueue (push_test (start_thread (start_exchange new)) 5) 5 []

abbrev signalled : EstimatorPipeline ℕ (List ℕ) (List ℕ)
signalled = stop_shutdown (stop_exchange pushed)

abbrev stopped : EstimatorPipeline ℕ (List ℕ) (List ℕ)
stopped = stop_join (run_once keeper (run_once keeper signalled))

to_pushed : Reach keeper new pushed
unfolding make_pipeline register_observer push_test start_exchange start_thread
to_pushed =
    Reach.next
      (Reach.next
        (Reach.next (Reach.next Reach.here (Step.start_begins refl)) (Step.start_ends refl))
        (Step.producer_tests 5))
      (Step.producer_pushes 5 [] [] refl)

to_stopped : Reach keeper new stopped
unfolding make_pipeline register_observer push_test start_exchange start_thread push_enqueue push
    stop_exchange stop_shutdown request_shutdown run_once pop
to_stopped =
    Reach.next
      (Reach.next
        (Reach.next
          (Reach.next (Reach.next to_pushed (Step.stop_begins refl)) (Step.stop_signals refl))
          (Step.works refl refl))
        (Step.works refl tt))
      (Step.stop_ends refl refl)

told_once : stopped.notified ≡ navigation_state 7 (5 ∷ []) ∷ []
unfolding make_pipeline register_observer push_test start_exchange start_thread push_enqueue push
    stop_exchange stop_shutdown request_shutdown run_once pop stop_join
told_once = refl

Reach-replay_example :
    (stopped.taken ≡ measurements stopped.handled ++ stopped.queue.queue)
    × (stopped.estimator ≡ replay keeper [] stopped.handled)
    × (stopped.notified ≡ replay_told keeper stopped.observers [] stopped.handled)
Reach-replay_example = Reach-replay keeper [] 4 (7 ∷ []) to_stopped

stop_drains_example : measurements stopped.handled ≡ stopped.taken
unfolding make_pipeline register_observer push_test start_exchange start_thread push_enqueue push
    stop_exchange stop_shutdown request_shutdown run_once pop stop_join
stop_drains_example = stop_drains keeper [] 4 (7 ∷ []) to_stopped refl refl

shutdown-exits_example :
    let q = rounds keeper (suc (length signalled.queue.queue)) signalled in
    Reach keeper signalled q
    × (q.worker ≡ exited)
    × (q.handled ≡ signalled.handled ++ map measured signalled.queue.queue)
unfolding make_pipeline register_observer push_test start_exchange start_thread push_enqueue push
    stop_exchange stop_shutdown request_shutdown
shutdown-exits_example = shutdown-exits keeper signalled refl refl (refl, tt)

-- `Start` again after `Stop`, and a push.
abbrev again : EstimatorPipeline ℕ (List ℕ) (List ℕ)
again = push_enqueue (push_test (start_thread (start_exchange stopped)) 6) 6 []

to_again : Reach keeper stopped again
unfolding make_pipeline register_observer push_test start_exchange start_thread push_enqueue push
    stop_exchange stop_shutdown request_shutdown run_once pop stop_join
to_again =
    Reach.next
      (Reach.next
        (Reach.next (Reach.next Reach.here (Step.start_begins refl)) (Step.start_ends refl))
        (Step.producer_tests 6))
      (Step.producer_pushes 6 [] [] refl)

shutdown_final_example : (again.queue.shutdown ≡ true) × (again.taken ≡ stopped.taken)
unfolding make_pipeline register_observer push_test start_exchange start_thread push_enqueue push
    stop_exchange stop_shutdown request_shutdown run_once pop stop_join
shutdown_final_example = shutdown_final keeper to_again refl
