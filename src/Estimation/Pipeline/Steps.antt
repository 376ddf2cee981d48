-- ===== src/Estimation/Pipeline/Steps.antt =====
-- The interleavings of the pipeline's threads. One thread at a time calls `Start` and `Stop`, and
-- `Reset` is called as its comment asks, with the worker stopped.
use falcon_guide.Prelude.{◌≡◌, true, ◌++◌, List, [], ◌∷◌}
use falcon_guide.Estimation.Interface.{INavigationEstimator}
use falcon_guide.Estimation.Pipeline.{
  EstimatorPipeline, absent, looping, exited, at_rest, starting, stopping, joining, push_test,
  push_enqueue, start_exchange, start_thread, stop_exchange, stop_shutdown, stop_join,
  reset_pipeline, run_once,
}

module _ {ℓ} {D M E S : Type ℓ} (ops : INavigationEstimator D M E S) where
  -- `AddMeasurement` returns on the first of these measurements, if there is one.
  abbrev pub FirstReturns : E → List M → Type 0
  FirstReturns e [] = Unit
  FirstReturns e (m ∷ ms) = ops.returns e m ≡ true

  -- The next round of the worker comes to its end.
  abbrev pub Proceeds : EstimatorPipeline M E S → Type 0
  Proceeds p = FirstReturns p.estimator p.queue.queue

  -- `AddMeasurement` returns on each of these measurements, given one after the other.
  abbrev pub AllReturn : E → List M → Type 0
  AllReturn e [] = Unit
  AllReturn e (m ∷ ms) = (ops.returns e m ≡ true) × AllReturn (ops.add_measurement e m).0 ms

  pub data Step (p : EstimatorPipeline M E S) : EstimatorPipeline M E S → Type ℓ where
    producer_tests : (m : M) → Step p (push_test p m)
    producer_pushes :
        (m : M) (xs ys : List M) → p.entering ≡ xs ++ m ∷ ys → Step p (push_enqueue p m (xs ++ ys))
    start_begins : p.caller ≡ at_rest → Step p (start_exchange p)
    start_ends : p.caller ≡ starting → Step p (start_thread p)
    stop_begins : p.caller ≡ at_rest → Step p (stop_exchange p)
    stop_signals : p.caller ≡ stopping → Step p (stop_shutdown p)
    stop_ends : p.caller ≡ joining → p.worker ≡ exited → Step p (stop_join p)
    resets : p.caller ≡ at_rest → p.worker ≡ absent → Step p (reset_pipeline ops p)
    works : p.worker ≡ looping → Proceeds p → Step p (run_once ops p)

  pub data Reach (p : EstimatorPipeline M E S) : EstimatorPipeline M E S → Type ℓ where
    here : Reach p p
    next : {q r : EstimatorPipeline M E S} → Reach p q → Step q r → Reach p r
