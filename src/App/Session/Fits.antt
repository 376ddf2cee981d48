-- ===== src/App/Session/Fits.antt =====
-- Every method keeps the table of a session's members.
use falcon_guide.Estimation.Queue.{pop}
use falcon_guide.Estimation.Pipeline.Drain.{rounds}
use falcon_guide.Prelude.{
  ℕ, zero, suc, list_cases, ◌∙◌, ◌≡◌, ◌⊎◌, refl, ap, length, Bool, true, false, Option, none, some,
  inl, inr, arith, if_cases, Option-cases,
}
use falcon_guide.Io.Reader.{ReadOutcome, ReadResult, ok, end_of_data, timeout, error}
use falcon_guide.Estimation.Pipeline.{
  EstimatorPipeline, run_once, make_pipeline, register_observer, start_exchange, start_thread,
  stop_exchange, stop_shutdown, stop_join, push_enqueue, push_test,
}
use falcon_guide.App.Config.{SessionConfig}
use falcon_guide.App.Session.{
  Parts, Session, Status, idle, configured, running, paused, completed, failed, ReplayThread,
  absent, replaying, returned, pipeline_push, pipeline_start, pipeline_stop, start_threads,
  start_opened, start_from, start, stop, pause_from, resume_from, rebuild, reconfigure_from,
  reconfigure, replay_ends, replay_outcome, replay_reads, replay_round, broadcast, broadcast_status,
  set_error,
}
use falcon_guide.App.Session.Steps.{fits, Fits, Leaves}

module _ {ℓ} {D N M E S R : Type ℓ} (parts : Parts D N M E S R) where
  open parts use {ops}

  pub run_once-running : (p : EstimatorPipeline M E S) → (run_once ops p).running ≡ p.running
  unfolding run_once pop
  run_once-running p = elim (list_cases p.queue.queue) [
    | inl e ↦ ground (arith, e)
    | inr (m, ms, e) ↦ ground (arith, e)
  ]

  rounds-running : (n : ℕ) (p : EstimatorPipeline M E S) → (rounds ops n p).running ≡ p.running
  unfolding run_once pop
  rounds-running zero p = refl
  rounds-running (suc n) p =
      let one : (run_once ops p).running ≡ p.running = run_once-running p in
      rounds-running n (run_once ops p) ∙ one

  start_threads-Fits :
      (s : Session D N M E S R) (t : ReplayThread)
      → fits failed s.active s.is_paused t s.pipeline.running ≡ true
      → Leaves Fits (start_threads parts s t)
  unfolding start_threads broadcast broadcast_status fits pipeline_start start_exchange start_thread
  start_threads-Fits s absent h = ground arith
  start_threads-Fits s replaying h = record { lower = tt }
  start_threads-Fits s returned h = record { lower = tt }

  start_opened-Fits :
      (s : Session D N M E S R) (o : R × Bool)
      → fits failed s.active s.is_paused s.thread s.pipeline.running ≡ true
      → Leaves Fits (start_opened parts s o)
  unfolding start_opened set_error broadcast
  start_opened-Fits s (r, true) f = start_threads-Fits (record s { reader = r }) s.thread f
  start_opened-Fits s (r, false) f = f

  start_from-Fits :
      (s : Session D N M E S R) (st : Status)
      → s.status ≡ st
      → Fits s
      → Leaves Fits (start_from parts s st)
  unfolding start_from fits
  start_from-Fits s running e h = h
  start_from-Fits s paused e h = h
  start_from-Fits s failed e h = h
  start_from-Fits s idle e h = start_opened-Fits s _ (ground arith)
  start_from-Fits s configured e h = start_opened-Fits s _ (ground arith)
  start_from-Fits s completed e h = start_opened-Fits s _ (ground arith)

  pub start-Fits : (s : Session D N M E S R) → Fits s → Leaves Fits (start parts s)
  unfolding start
  start-Fits s h = start_from-Fits s s.status refl h

  -- What the writes of `Pause` and of `Resume` leave, whatever the replay thread has done since the test.
  pub pause_from-Fits :
      (s : Session D N M E S R) → s.active ≡ true → Fits s → Fits (pause_from parts s running)
  unfolding pause_from broadcast broadcast_status fits
  pause_from-Fits s a h = ground arith

  pub resume_from-Fits :
      (s : Session D N M E S R) → s.active ≡ true → Fits s → Fits (resume_from parts s paused)
  unfolding resume_from broadcast broadcast_status fits
  resume_from-Fits s a h = ground arith

  pub busy-active :
      (s : Session D N M E S R)
      → (s.status ≡ running) ⊎ (s.status ≡ paused)
      → Fits s
      → s.active ≡ true
  unfolding fits
  busy-active s (inl e) h = ground arith
  busy-active s (inr e) h = ground arith

  pipeline_stop-off : (p : EstimatorPipeline M E S) → (pipeline_stop ops p).running ≡ false
  unfolding pipeline_stop stop_exchange stop_shutdown stop_join
  pipeline_stop-off p =
      if_cases (λ (q : EstimatorPipeline M E S). q.running ≡ false) p.running
        (λ r.
          rounds-running (suc (length p.queue.queue)) (stop_shutdown (stop_exchange p))
          ∙ ground arith)
        (λ r. r)

  pub stop-Fits : (s : Session D N M E S R) → Fits s → Fits (stop parts s)
  unfolding stop broadcast broadcast_status fits
  stop-Fits s h =
      if_cases Fits s.active
        (λ r. ap (λ b. fits idle false false absent b) (pipeline_stop-off s.pipeline)) (λ r. h)

  pub reconfigure-Fits :
      (s : Session D N M E S R) (cfg : SessionConfig D N)
      → Fits s
      → Leaves Fits (reconfigure parts s cfg)
  unfolding reconfigure reconfigure_from rebuild fits make_pipeline register_observer
  reconfigure-Fits s cfg h = elim (Option-cases (parts.make_reader cfg.dataset)) [
    | inl e ↦ ground (arith, e)
    | inr (r, e) ↦ ground (arith, e)
  ]

  replay_ends-Fits :
      (s : Session D N M E S R) → s.thread ≡ replaying → Fits s → Fits (replay_ends parts s)
  unfolding replay_ends broadcast broadcast_status fits
  replay_ends-Fits s t h = ground arith

  replay_outcome-Fits :
      (s : Session D N M E S R) (r : ReadResult) (m : Option M)
      → s.thread ≡ replaying
      → Fits s
      → Fits (replay_outcome parts s r m)
  unfolding replay_outcome pipeline_push push_enqueue push_test
  replay_outcome-Fits s end_of_data m t h = replay_ends-Fits s t h
  replay_outcome-Fits s ok (some m) t h = ground arith
  replay_outcome-Fits s ok none t h = h
  replay_outcome-Fits s timeout m t h = h
  replay_outcome-Fits s error m t h = h

  pub replay_reads-Fits :
      (s : Session D N M E S R) (o : R × ReadOutcome M)
      → s.thread ≡ replaying
      → Fits s
      → Fits (replay_reads parts s o)
  unfolding replay_reads
  replay_reads-Fits s o t h = replay_outcome-Fits (record s { reader = o.0 }) _ _ t h

  replay_ends-active : (s : Session D N M E S R) → (replay_ends parts s).active ≡ s.active
  unfolding replay_ends broadcast broadcast_status
  replay_ends-active s = ground arith

  replay_outcome-active :
      (s : Session D N M E S R) (r : ReadResult) (m : Option M)
      → (replay_outcome parts s r m).active ≡ s.active
  unfolding replay_outcome
  replay_outcome-active s end_of_data m = replay_ends-active s
  replay_outcome-active s ok (some m) = refl
  replay_outcome-active s ok none = refl
  replay_outcome-active s timeout m = refl
  replay_outcome-active s error m = refl

  pub replay_reads-active :
      (s : Session D N M E S R) (o : R × ReadOutcome M) → (replay_reads parts s o).active ≡ s.active
  unfolding replay_reads
  replay_reads-active s o = replay_outcome-active (record s { reader = o.0 }) _ _

  pub replay_round-active : (s : Session D N M E S R) → (replay_round parts s).active ≡ s.active
  unfolding replay_round
  replay_round-active s =
      let P : Session D N M E S R → Type 0 = λ t. t.active ≡ s.active in
      if_cases P s.active
        (λ a.
          if_cases P s.is_paused (λ p. refl)
            (λ p. replay_reads-active s (parts.files.next s.reader)))
        (λ a. replay_ends-active s)

  pub replay_round-Fits :
      (s : Session D N M E S R) → s.thread ≡ replaying → Fits s → Fits (replay_round parts s)
  unfolding replay_round replay_reads fits
  replay_round-Fits s t h =
      if_cases Fits s.active
        (λ a.
          if_cases Fits s.is_paused (λ p. h)
            (λ p. replay_reads-Fits s (parts.files.next s.reader) t h))
        (λ a. ground arith)
