-- ===== src/App/Session/Restart.antt =====
-- A session that was stopped and is started again.
use falcon_guide.Prelude.{
  list_cases, inl, inr, length, ℕ, zero, suc, ◌≡◌, subst, Bool, true, false, Option, none, some,
  List, arith, if_cases,
}
use falcon_guide.Io.Reader.{ReadResult, ok, end_of_data, timeout, error}
use falcon_guide.Estimation.Queue.{push}
use falcon_guide.Estimation.Pipeline.{EstimatorPipeline, push_enqueue, push_test}
use falcon_guide.App.Session.{
  ReplayThread, Parts, Session, Status, idle, running, completed, absent, replaying, returned,
  returns, start, start_from, start_opened, start_threads, stop, replay_round, replay_reads,
  replay_outcome, replay_ends, broadcast, broadcast_status, pipeline_push, pipeline_start,
  pipeline_stop, set_error,
}
use falcon_guide.App.Session.Steps.{fits}
use falcon_guide.App.Session.Invariant.{Reached}
use falcon_guide.Estimation.Queue.{pop, request_shutdown}
use falcon_guide.Estimation.Pipeline.{
  run_once, start_exchange, start_thread, stop_exchange, stop_shutdown, stop_join,
}
use falcon_guide.Estimation.Pipeline.Drain.{rounds}
use falcon_guide.App.Session.{paused, configured, failed}
use falcon_guide.App.Session.Runs.{replay_rounds, Reached-Fits}
use falcon_guide.App.Session.Steps.{Leaves}

module _ {ℓ} {D N M E S R : Type ℓ} (parts : Parts D N M E S R) where
  open parts use {ops}

  -- The queue has been shut down, and has taken these.
  abbrev Shut : List M → EstimatorPipeline M E S → Type ℓ
  Shut ms p = (p.queue.shutdown ≡ true) × (p.taken ≡ ms)

  abbrev Dead : List M → Session D N M E S R → Type ℓ
  Dead ms s = Shut ms s.pipeline

  pipeline_push-Shut :
      (p : EstimatorPipeline M E S) (m : M) (ms : List M)
      → Shut ms p
      → Shut ms (pipeline_push ops p m)
  unfolding pipeline_push push_enqueue push_test push
  pipeline_push-Shut p m ms h = ground arith

  replay_ends-Dead :
      (s : Session D N M E S R) (ms : List M) → Dead ms s → Dead ms (replay_ends parts s)
  unfolding replay_ends broadcast broadcast_status
  replay_ends-Dead s ms h = if_cases (Dead ms) s.active (λ a. h) (λ a. h)

  replay_outcome-Dead :
      (s : Session D N M E S R) (r : ReadResult) (m : Option M) (ms : List M)
      → Dead ms s
      → Dead ms (replay_outcome parts s r m)
  unfolding replay_outcome
  replay_outcome-Dead s end_of_data m ms h = replay_ends-Dead s ms h
  replay_outcome-Dead s ok (some m) ms h = pipeline_push-Shut s.pipeline m ms h
  replay_outcome-Dead s ok none ms h = h
  replay_outcome-Dead s timeout m ms h = h
  replay_outcome-Dead s error m ms h = h

  replay_round-Dead :
      (s : Session D N M E S R) (ms : List M) → Dead ms s → Dead ms (replay_round parts s)
  unfolding replay_round replay_reads
  replay_round-Dead s ms h =
      if_cases (Dead ms) s.active
        (λ a.
          if_cases (Dead ms) s.is_paused (λ p. h)
            (λ p. replay_outcome-Dead (record s { reader = _ }) _ _ ms h))
        (λ a. replay_ends-Dead s ms h)

  replay_rounds-Dead :
      (n : ℕ) (s : Session D N M E S R) (ms : List M)
      → Dead ms s
      → Dead ms (replay_rounds parts n s)
  replay_rounds-Dead zero s ms h = h
  replay_rounds-Dead (suc n) s ms h =
      replay_rounds-Dead n (replay_round parts s) ms (replay_round-Dead s ms h)

  pipeline_start-Shut :
      (p : EstimatorPipeline M E S) (ms : List M) → Shut ms p → Shut ms (pipeline_start ops p)
  unfolding pipeline_start start_exchange start_thread
  pipeline_start-Shut p ms h = if_cases (Shut ms) p.running (λ r. h) (λ r. ground arith)

  start_threads-Dead :
      (s : Session D N M E S R) (t : ReplayThread) (ms : List M)
      → Dead ms s
      → Leaves (Dead ms) (start_threads parts s t)
  unfolding start_threads broadcast broadcast_status
  start_threads-Dead s absent ms h = pipeline_start-Shut s.pipeline ms h
  start_threads-Dead s replaying ms h = record { lower = tt }
  start_threads-Dead s returned ms h = record { lower = tt }

  start_opened-Dead :
      (s : Session D N M E S R) (o : R × Bool) (ms : List M)
      → Dead ms s
      → Leaves (Dead ms) (start_opened parts s o)
  unfolding start_opened set_error broadcast
  start_opened-Dead s (r, true) ms h = start_threads-Dead (record s { reader = r }) s.thread ms h
  start_opened-Dead s (r, false) ms h = h

  start_from-Dead :
      (s : Session D N M E S R) (st : Status) (ms : List M)
      → Dead ms s
      → Leaves (Dead ms) (start_from parts s st)
  unfolding start_from
  start_from-Dead s running ms h = h
  start_from-Dead s paused ms h = h
  start_from-Dead s failed ms h = h
  start_from-Dead s idle ms h = start_opened-Dead s _ ms h
  start_from-Dead s configured ms h = start_opened-Dead s _ ms h
  start_from-Dead s completed ms h = start_opened-Dead s _ ms h

  run_once-Shut : (p : EstimatorPipeline M E S) (ms : List M) → Shut ms p → Shut ms (run_once ops p)
  unfolding run_once pop
  run_once-Shut p ms h = elim (list_cases p.queue.queue) [
    | inl e ↦ ground (arith, e)
    | inr (m, rest, e) ↦ ground (arith, e)
  ]

  rounds-Shut :
      (n : ℕ) (p : EstimatorPipeline M E S) (ms : List M) → Shut ms p → Shut ms (rounds ops n p)
  rounds-Shut zero p ms h = h
  rounds-Shut (suc n) p ms h = rounds-Shut n (run_once ops p) ms (run_once-Shut p ms h)

  pipeline_stop-Shut :
      (p : EstimatorPipeline M E S) → p.running ≡ true → Shut p.taken (pipeline_stop ops p)
  unfolding pipeline_stop stop_exchange stop_shutdown stop_join request_shutdown
  pipeline_stop-Shut p r =
      if_cases (Shut p.taken) p.running
        (λ x.
          rounds-Shut (suc (length p.queue.queue)) (stop_shutdown (stop_exchange p)) p.taken
            (ground arith))
        (λ x. ground arith)

  stop-Dead :
      (s : Session D N M E S R)
      → s.active ≡ true
      → s.pipeline.running ≡ true
      → Dead s.pipeline.taken (stop parts s)
  unfolding stop broadcast broadcast_status
  stop-Dead s a r =
      if_cases (Dead s.pipeline.taken) s.active (λ x. pipeline_stop-Shut s.pipeline r)
        (λ x. ground arith)

  -- A session that is reached, whose pipeline runs, that is stopped and then started again, has a dead
  -- pipeline: however many rounds the replay thread makes, the queue takes no measurement.
  pub restart_takes_nothing :
      (n : ℕ) {s t : Session D N M E S R} {b : Bool}
      → Reached parts s
      → s.pipeline.running ≡ true
      → start parts (stop parts s) ≡ returns t b
      → (replay_rounds parts n t).pipeline.taken ≡ s.pipeline.taken
  unfolding start fits
  restart_takes_nothing n {s} {t} r p e =
      let f = Reached-Fits parts r in
      let a : s.active ≡ true = ground arith in
      let again = start_from-Dead (stop parts s) _ s.pipeline.taken (stop-Dead s a p) in
      (replay_rounds-Dead n t _ (subst (Leaves (Dead s.pipeline.taken)) e again)).1
