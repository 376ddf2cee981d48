-- ===== src/App/Session/Drives.antt =====
-- The pipeline as the session drives it, from one thread.
use mathlib.Core.List.{append-nil}
use falcon_guide.Prelude.{
  ℕ, zero, suc, ◌≡◌, ◌≢◌, list_cases, refl, sym, ap, ◌∙◌, subst, inl, inr, ◌⊎◌, true, false, [],
  arith, length, if_cases,
}
use falcon_guide.Estimation.Interface.{INavigationEstimator}
use falcon_guide.Estimation.Queue.{pop, request_shutdown}
use falcon_guide.Estimation.Pipeline.{
  EstimatorPipeline, Worker, absent, looping, exited, at_rest, starting, stopping, joining,
  push_test, push_enqueue, start_exchange, start_thread, stop_exchange, stop_shutdown, stop_join,
  run_once,
}
use falcon_guide.Estimation.Pipeline.Steps.{Step}
use falcon_guide.Estimation.Pipeline.Invariant.{
  run_once-Inv, Inv, measurements, Step-Inv, push_test-Inv, push_enqueue-Inv,
}
use falcon_guide.Estimation.Pipeline.Drain.{rounds, rounds-shutdown}
use falcon_guide.App.Session.{pipeline_push, pipeline_start, pipeline_stop}

worker_cases : (w : Worker) → (w ≡ absent) ⊎ ((w ≡ looping) ⊎ (w ≡ exited))
worker_cases absent = inl refl
worker_cases looping = inr (inl refl)
worker_cases exited = inr (inr refl)

module _ {ℓ} {D M E S : Type ℓ} (ops : INavigationEstimator D M E S) where
  -- Between two calls of the session.
  pub record Rests (e : E) (p : EstimatorPipeline M E S) : Type ℓ where
    pub inv : Inv ops e p
    pub rests : p.caller ≡ at_rest

  pub pipeline_push-Rests :
      (e : E) (p : EstimatorPipeline M E S) (m : M) → Rests e p → Rests e (pipeline_push ops p m)
  unfolding pipeline_push push_enqueue push_test
  pipeline_push-Rests e p m v =
      if_cases (Rests e) p.running
        (λ r. record {
          inv = push_enqueue-Inv ops e (push_test p m) m p.entering (push_test-Inv ops e p m v.inv);
          rests = ground arith;
        })
        (λ r. v)

  pub pipeline_start-Rests :
      (e : E) (p : EstimatorPipeline M E S)
      → Rests e p
      → Rests e (pipeline_start ops p) × ((pipeline_start ops p).running ≡ true)
  unfolding pipeline_start start_exchange start_thread
  pipeline_start-Rests e p v =
      if_cases (λ q. Rests e q × (q.running ≡ true)) p.running (λ r. (v, r))
        (λ r.
          let starts : (start_exchange p).caller ≡ starting = ground arith in
          (
            record {
              inv =
                  Step-Inv ops e (Step.start_ends starts)
                    (Step-Inv ops e (Step.start_begins v.rests) v.inv);
              rests = refl;
            },
            ground arith,
          ))

  -- What the rounds in `join` keep.
  record Winds (e : E) (p q : EstimatorPipeline M E S) : Type ℓ where
    inv : Inv ops e q
    caller : q.caller ≡ p.caller
    running : q.running ≡ p.running
    there : q.worker ≢ absent

  run_once-Winds :
      (e : E) (p : EstimatorPipeline M E S)
      → Inv ops e p
      → p.worker ≢ absent
      → Winds e p (run_once ops p)
  unfolding run_once pop
  run_once-Winds e p v w = elim (worker_cases p.worker) [
    | inl a ↦ absurd (w a)
    | inr (inl l) ↦ elim (list_cases p.queue.queue) [
      | inl n ↦ record {
        inv = run_once-Inv ops e _ l v;
        caller = ground (arith, n);
        running = ground (arith, n);
        there = ground (arith, n);
      }
      | inr (m, ms, n) ↦ record {
        inv = run_once-Inv ops e _ l v;
        caller = ground (arith, n);
        running = ground (arith, n);
        there = ground (arith, n);
      }
    ]
    | inr (inr x) ↦ ground (arith, x)
  ]

  rounds-Winds :
      (n : ℕ) (e : E) (p : EstimatorPipeline M E S)
      → Inv ops e p
      → p.worker ≢ absent
      → Winds e p (rounds ops n p)
  rounds-Winds zero e p v w = record { inv = v; caller = refl; running = refl; there = w }
  rounds-Winds (suc n) e p v w =
      let one = run_once-Winds e p v w in
      let more = rounds-Winds n e (run_once ops p) one.inv one.there in
      record {
        inv = more.inv;
        caller = more.caller ∙ one.caller;
        running = more.running ∙ one.running;
        there = more.there;
      }

  rounds-exits :
      (e : E) (p : EstimatorPipeline M E S)
      → Inv ops e p
      → p.worker ≢ absent
      → p.queue.shutdown ≡ true
      → (rounds ops (suc (length p.queue.queue)) p).worker ≡ exited
  unfolding run_once pop
  rounds-exits e p v w s = elim (worker_cases p.worker) [
    | inl a ↦ absurd (w a)
    | inr (inl l) ↦ (rounds-shutdown ops p l s).0
    | inr (inr x) ↦
        let empty : p.queue.queue ≡ [] = ground arith in
        subst (λ k. (rounds ops (suc k) p).worker ≡ exited) (sym (ap length empty))
          (ground (arith, empty))
  ]

  abbrev Stopped : E → EstimatorPipeline M E S → Type ℓ
  Stopped e q = Rests e q × (q.running ≡ false) × (measurements q.handled ≡ q.taken)

  stop_join-Stopped :
      (e : E) (q : EstimatorPipeline M E S)
      → Inv ops e q
      → q.caller ≡ joining
      → q.running ≡ false
      → q.worker ≡ exited
      → Stopped e (stop_join q)
  unfolding stop_join
  stop_join-Stopped e q v c r w =
      let v' = Step-Inv ops e (Step.stop_ends c w) v in
      (record { inv = v'; rests = refl }, r, ground (arith, append-nil (measurements q.handled)))

  stop_shutdown-Stopped :
      (e : E) (a : EstimatorPipeline M E S)
      → Inv ops e a
      → a.caller ≡ stopping
      → a.running ≡ false
      → a.worker ≢ absent
      → Stopped e (stop_join (rounds ops (suc (length a.queue.queue)) (stop_shutdown a)))
  unfolding stop_shutdown request_shutdown
  stop_shutdown-Stopped e a v c r w =
      let v' = Step-Inv ops e (Step.stop_signals c) v in
      let wind = rounds-Winds (suc (length a.queue.queue)) e (stop_shutdown a) v' w in
      stop_join-Stopped e _ wind.inv wind.caller (wind.running ∙ r)
        (rounds-exits e (stop_shutdown a) v' w refl)

  -- `Stop` of a running pipeline leaves it at rest and not running, with all that was taken handled.
  pub pipeline_stop-Stopped :
      (e : E) (p : EstimatorPipeline M E S)
      → Rests e p
      → p.running ≡ true
      → Stopped e (pipeline_stop ops p)
  unfolding pipeline_stop stop_exchange
  pipeline_stop-Stopped e p v r =
      let a : EstimatorPipeline M E S = record p { running = false; caller = stopping } in
      let begins : stop_exchange p ≡ a = ground arith in
      let v' : Inv ops e a =
        subst (Inv ops e) begins (Step-Inv ops e (Step.stop_begins v.rests) v.inv) in
      let there : p.worker ≢ absent = ground arith in
      let ends = stop_shutdown-Stopped e a v' refl refl there in
      let goes : pipeline_stop ops p
          ≡ stop_join (rounds ops (suc (length p.queue.queue)) (stop_shutdown a)) =
        ground (arith, begins) in
      subst (Stopped e) (sym goes) ends
