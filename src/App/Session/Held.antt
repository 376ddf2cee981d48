-- ===== src/App/Session/Held.antt =====
-- Every method leaves the pipeline at rest, with its inputs accounted for.
use falcon_guide.Prelude.{
  ◌≡◌, refl, subst, sym, [], ◌∷◌, Bool, true, false, Option, none, some, inl, inr, arith, if_cases,
  Bool-cases,
}
use falcon_guide.Io.Reader.{ReadOutcome, ReadResult, ok, end_of_data, timeout, error}
use falcon_guide.Estimation.Pipeline.{EstimatorPipeline, make_pipeline, register_observer}
use falcon_guide.App.Config.{SessionConfig}
use falcon_guide.App.Session.{
  Parts, Session, Status, idle, configured, running, paused, completed, failed, ReplayThread,
  absent, replaying, returned, pipeline_stop, default_capacity, start_threads, start_opened,
  start_from, stop, pause_from, resume_from, rebuild, reconfigure_from, replay_ends, replay_outcome,
  replay_reads, replay_round, broadcast, broadcast_status, set_error,
}
use falcon_guide.Estimation.Pipeline.Drain.{registered-Inv}
use falcon_guide.App.Session.Drives.{
  Rests, pipeline_push-Rests, pipeline_start-Rests, pipeline_stop-Stopped,
}
use falcon_guide.App.Session.Steps.{Fits, Leaves}

module _ {ℓ} {D N M E S R : Type ℓ} (parts : Parts D N M E S R) where
  open parts use {ops}

  -- The pipeline stands between two calls, with the inputs of its estimator accounted for.
  abbrev pub Held : Session D N M E S R → Type ℓ
  Held s = Rests ops (parts.build s.cfg.nav) s.pipeline

  start_threads-Held :
      (s : Session D N M E S R) (t : ReplayThread) → Held s → Leaves Held (start_threads parts s t)
  unfolding start_threads broadcast broadcast_status
  start_threads-Held s absent h = (pipeline_start-Rests ops _ s.pipeline h).0
  start_threads-Held s replaying h = record { lower = tt }
  start_threads-Held s returned h = record { lower = tt }

  start_opened-Held :
      (s : Session D N M E S R) (o : R × Bool) → Held s → Leaves Held (start_opened parts s o)
  unfolding start_opened set_error broadcast
  start_opened-Held s (r, true) h = start_threads-Held (record s { reader = r }) s.thread h
  start_opened-Held s (r, false) h = h

  pub start_from-Held :
      (s : Session D N M E S R) (st : Status) → Held s → Leaves Held (start_from parts s st)
  unfolding start_from
  start_from-Held s running h = h
  start_from-Held s paused h = h
  start_from-Held s failed h = h
  start_from-Held s idle h = start_opened-Held s _ h
  start_from-Held s configured h = start_opened-Held s _ h
  start_from-Held s completed h = start_opened-Held s _ h

  pub pause_from-Held :
      (s : Session D N M E S R) (st : Status) → Held s → Held (pause_from parts s st)
  unfolding pause_from broadcast broadcast_status
  pause_from-Held s idle h = h
  pause_from-Held s configured h = h
  pause_from-Held s running h = h
  pause_from-Held s paused h = h
  pause_from-Held s completed h = h
  pause_from-Held s failed h = h

  pub resume_from-Held :
      (s : Session D N M E S R) (st : Status) → Held s → Held (resume_from parts s st)
  unfolding resume_from broadcast broadcast_status
  resume_from-Held s idle h = h
  resume_from-Held s configured h = h
  resume_from-Held s running h = h
  resume_from-Held s paused h = h
  resume_from-Held s completed h = h
  resume_from-Held s failed h = h

  pub new-Rests : (e : E) → Rests ops e (register_observer (make_pipeline e default_capacity) 0)
  unfolding register_observer make_pipeline
  new-Rests e = record { inv = registered-Inv ops e default_capacity (0 ∷ []); rests = refl }

  rebuild-Held :
      (s : Session D N M E S R) (cfg : SessionConfig D N) (r : Option R)
      → Leaves Held (rebuild parts s cfg r)
  unfolding rebuild
  rebuild-Held s cfg none = new-Rests (parts.build cfg.nav)
  rebuild-Held s cfg (some r) = new-Rests (parts.build cfg.nav)

  pub reconfigure_from-Held :
      (s : Session D N M E S R) (cfg : SessionConfig D N) (st : Status)
      → Held s
      → Leaves Held (reconfigure_from parts s cfg st)
  unfolding reconfigure_from
  reconfigure_from-Held s cfg idle h = rebuild-Held s cfg _
  reconfigure_from-Held s cfg configured h = rebuild-Held s cfg _
  reconfigure_from-Held s cfg running h = h
  reconfigure_from-Held s cfg paused h = h
  reconfigure_from-Held s cfg completed h = rebuild-Held s cfg _
  reconfigure_from-Held s cfg failed h = rebuild-Held s cfg _

  stop_off : {p : EstimatorPipeline M E S} → p.running ≡ false → pipeline_stop ops p ≡ p
  unfolding pipeline_stop
  stop_off r = ground arith

  pub stop-Held : (s : Session D N M E S R) → Fits s → Held s → Held (stop parts s)
  unfolding stop broadcast broadcast_status
  stop-Held s f h =
      if_cases Held s.active
        (λ a. elim (Bool-cases s.pipeline.running) [
          | inl r ↦ (pipeline_stop-Stopped ops _ s.pipeline h r).0
          | inr r ↦ subst (Rests ops (parts.build s.cfg.nav)) (sym (stop_off r)) h
        ])
        (λ a. h)

  replay_ends-Held : (s : Session D N M E S R) → Held s → Held (replay_ends parts s)
  unfolding replay_ends broadcast broadcast_status
  replay_ends-Held s h = if_cases Held s.active (λ a. h) (λ a. h)

  replay_outcome-Held :
      (s : Session D N M E S R) (r : ReadResult) (m : Option M)
      → Held s
      → Held (replay_outcome parts s r m)
  unfolding replay_outcome
  replay_outcome-Held s end_of_data m h = replay_ends-Held s h
  replay_outcome-Held s ok (some m) h = pipeline_push-Rests ops _ s.pipeline m h
  replay_outcome-Held s ok none h = h
  replay_outcome-Held s timeout m h = h
  replay_outcome-Held s error m h = h

  pub replay_reads-Held :
      (s : Session D N M E S R) (o : R × ReadOutcome M) → Held s → Held (replay_reads parts s o)
  unfolding replay_reads
  replay_reads-Held s o h = replay_outcome-Held (record s { reader = o.0 }) _ _ h

  pub replay_round-Held : (s : Session D N M E S R) → Held s → Held (replay_round parts s)
  unfolding replay_round replay_reads
  replay_round-Held s h =
      if_cases Held s.active
        (λ a.
          if_cases Held s.is_paused (λ p. h)
            (λ p. replay_reads-Held s (parts.files.next s.reader) h))
        (λ a. replay_ends-Held s h)
