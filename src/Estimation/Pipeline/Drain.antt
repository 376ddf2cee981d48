-- ===== src/Estimation/Pipeline/Drain.antt =====
-- What the pipeline promises over any interleaving: order, replay, a `Stop` that drains, and no
-- second life.
use mathlib.Core.List.{append-nil, append_assoc, foldl, map}
use falcon_guide.Prelude.{
  ℕ, zero, suc, ◌≡◌, refl, sym, subst, ◌∙◌, inl, inr, true, List, [], ◌∷◌, ◌++◌, arith, length,
  list_cases,
}
use falcon_guide.Estimation.Interface.{INavigationEstimator}
use falcon_guide.Estimation.Queue.{push, pop, request_shutdown}
use falcon_guide.Estimation.Pipeline.{
  EstimatorPipeline, absent, looping, exited, measured, make_pipeline, register_observer, push_test,
  push_enqueue, start_exchange, start_thread, stop_exchange, stop_shutdown, stop_join,
  reset_pipeline, process, run_once,
}
use falcon_guide.Estimation.Pipeline.Steps.{Step, Reach, FirstReturns, AllReturn}
use falcon_guide.Estimation.Pipeline.Invariant.{
  Inv, make_pipeline-Inv, Reach-Inv, measurements, replay, replay_told,
}

module _ {ℓ} {D M E S : Type ℓ} (ops : INavigationEstimator D M E S) where
  -- A new pipeline with its observers registered.
  abbrev pub registered : E → ℕ → List ℕ → EstimatorPipeline M E S
  registered start capacity observers =
      foldl register_observer (make_pipeline start capacity) observers

  register-Inv :
      (start : E) (p : EstimatorPipeline M E S) (os : List ℕ)
      → (p.handled ≡ []) × (p.notified ≡ [])
      → Inv ops start p
      → Inv ops start (foldl register_observer p os)
  unfolding register_observer
  register-Inv start p [] e v = v
  register-Inv start p (o ∷ os) e v = register-Inv start (register_observer p o) os e (ground arith)

  pub registered-Inv :
      (start : E) (capacity : ℕ) (os : List ℕ) → Inv ops start (registered start capacity os)
  unfolding make_pipeline
  registered-Inv start capacity os =
      register-Inv start _ os (refl, refl) (make_pipeline-Inv ops start capacity)

  -- Whatever the interleaving: the queue took each measurement once, and the worker gave the
  -- estimator exactly the first of them, in the order in which the queue took them; the rest wait.
  -- The estimator is where it would be after these inputs one by one, and each observer was told of
  -- every accepted update and of every reset, in order and of nothing else.
  pub Reach-replay :
      (start : E) (capacity : ℕ) (os : List ℕ) {p : EstimatorPipeline M E S}
      → Reach ops (registered start capacity os) p
      → (p.taken ≡ measurements p.handled ++ p.queue.queue)
        × (p.estimator ≡ replay ops start p.handled)
        × (p.notified ≡ replay_told ops p.observers start p.handled)
  Reach-replay start capacity os r =
      let v = Reach-Inv ops start (registered-Inv start capacity os) r in
      (v.in_order, v.estimates, v.tells)

  -- Once `Stop` has returned, every measurement that the queue ever took has been given to the
  -- estimator.
  pub stop_drains :
      (start : E) (capacity : ℕ) (os : List ℕ) {p : EstimatorPipeline M E S}
      → Reach ops (registered start capacity os) p
      → p.worker ≡ absent
      → p.queue.shutdown ≡ true
      → measurements p.handled ≡ p.taken
  stop_drains start capacity os {p} r w s =
      let v = Reach-Inv ops start (registered-Inv start capacity os) r in
      ground (arith, append-nil (measurements p.handled))

  abbrev pub rounds : ℕ → EstimatorPipeline M E S → EstimatorPipeline M E S
  rounds zero p = p
  rounds (suc n) p = rounds n (run_once ops p)

  rounds-exited :
      (ms : List M) (p : EstimatorPipeline M E S)
      → p.worker ≡ looping
      → p.queue.shutdown ≡ true
      → p.queue.queue ≡ ms
      → let q = rounds (suc (length ms)) p in
        (q.worker ≡ exited) × (q.handled ≡ p.handled ++ map measured ms)
  unfolding run_once pop
  rounds-exited [] p w s e = ground (arith, append-nil p.handled)
  rounds-exited (m ∷ ms) p w s e =
      let next = process ops (record p { queue = record p.queue { queue = ms } }) m in
      let here : run_once ops p ≡ next = ground arith in
      let rest = rounds-exited ms next w s refl in
      subst
        (λ q.
          let r = rounds (suc (length ms)) q in
          (r.worker ≡ exited) × (r.handled ≡ p.handled ++ map measured (m ∷ ms)))
        (sym here) (rest.0, rest.1 ∙ append_assoc p.handled (measured m ∷ []) (map measured ms))

  -- The worker's rounds up to its exit, as the steps that they are where the calls return.
  pub rounds-shutdown :
      (p : EstimatorPipeline M E S)
      → p.worker ≡ looping
      → p.queue.shutdown ≡ true
      → let q = rounds (suc (length p.queue.queue)) p in
        (q.worker ≡ exited) × (q.handled ≡ p.handled ++ map measured p.queue.queue)
  rounds-shutdown p w s = rounds-exited p.queue.queue p w s refl

  Reach-cons : {p q r : EstimatorPipeline M E S} → Step ops p q → Reach ops q r → Reach ops p r
  Reach-cons s Reach.here = Reach.next Reach.here s
  Reach-cons s (Reach.next r t) = Reach.next (Reach-cons s r) t

  Reach-rounds :
      (ms : List M) (p : EstimatorPipeline M E S)
      → p.worker ≡ looping
      → p.queue.queue ≡ ms
      → AllReturn ops p.estimator ms
      → Reach ops p (rounds (suc (length ms)) p)
  unfolding run_once pop process
  Reach-rounds [] p w e r =
      Reach.next Reach.here (Step.works w (subst (FirstReturns ops p.estimator) (sym e) tt))
  Reach-rounds (m ∷ ms) p w e r =
      let next = process ops (record p { queue = record p.queue { queue = ms } }) m in
      let here : run_once ops p ≡ next = ground arith in
      Reach-cons (Step.works w (subst (FirstReturns ops p.estimator) (sym e) r.0)) (
        subst (λ q. Reach ops q (rounds (suc (length ms)) q)) (sym here)
          (Reach-rounds ms next w refl r.1))

  -- After `RequestShutdown`, where `AddMeasurement` returns on each measurement of the queue, the worker
  -- can take one step for each of them and one more, and has then left its loop, having given the
  -- estimator just these, in order.
  pub shutdown-exits :
      (p : EstimatorPipeline M E S)
      → p.worker ≡ looping
      → p.queue.shutdown ≡ true
      → AllReturn ops p.estimator p.queue.queue
      → let q = rounds (suc (length p.queue.queue)) p in
        Reach ops p q × (q.worker ≡ exited) × (q.handled ≡ p.handled ++ map measured p.queue.queue)
  shutdown-exits p w s r =
      let e = rounds-shutdown p w s in (Reach-rounds p.queue.queue p w refl r, e.0, e.1)

  Step-taken :
      {p q : EstimatorPipeline M E S}
      → Step ops p q
      → p.queue.shutdown ≡ true
      → (q.queue.shutdown ≡ true) × (q.taken ≡ p.taken)
  unfolding push_test push_enqueue push start_exchange start_thread stop_exchange stop_shutdown
      stop_join reset_pipeline run_once pop request_shutdown
  Step-taken (Step.producer_tests m) s = ground arith
  Step-taken (Step.producer_pushes m xs ys e) s = ground arith
  Step-taken (Step.start_begins h) s = ground arith
  Step-taken (Step.start_ends h) s = ground arith
  Step-taken (Step.stop_begins h) s = ground arith
  Step-taken (Step.stop_signals h) s = ground arith
  Step-taken (Step.stop_ends h w) s = ground arith
  Step-taken (Step.resets h w) s = ground arith
  Step-taken {p} (Step.works w r) s = elim (list_cases p.queue.queue) [
    | inl e ↦ ground (arith, e)
    | inr (m, ms, e) ↦ ground (arith, e)
  ]

  -- A shutdown is for ever: no later `Start` makes the queue take another measurement.
  pub shutdown_final :
      {p q : EstimatorPipeline M E S}
      → Reach ops p q
      → p.queue.shutdown ≡ true
      → (q.queue.shutdown ≡ true) × (q.taken ≡ p.taken)
  shutdown_final Reach.here s = (s, refl)
  shutdown_final (Reach.next r st) s =
      let (s', e) = shutdown_final r s in let (s'', e') = Step-taken st s' in (s'', e' ∙ e)
