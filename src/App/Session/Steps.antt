-- ===== src/App/Session/Steps.antt =====
-- What is called on a session, in whatever order, while its replay thread and the worker of its pipeline run,
-- and the table of its members. One thread at a time calls the methods. The calls of `AddMeasurement` that are
-- waited for return.
use mathlib.Core.Logic.{Lift}
use falcon_guide.Prelude.{ℕ, List, ◌≡◌, Bool, true, false}
use falcon_guide.Estimation.Pipeline.Steps.{Proceeds, AllReturn}
use falcon_guide.Estimation.Pipeline.{looping, run_once}
use falcon_guide.App.Config.{SessionConfig}
use falcon_guide.App.Session.{
  Event, broadcast, Parts, Session, Status, idle, configured, running, paused, completed, failed,
  ReplayThread, absent, replaying, returned, Return, returns, throws, terminates, start, stop,
  pause_from, resume_from, reconfigure, replay_round, replay_reads,
}

-- How the status, `running_`, `paused_`, the replay thread and the pipeline go together.
unfoldable pub fits : Status → Bool → Bool → ReplayThread → Bool → Bool
fits idle false false absent false = true
fits configured false false absent false = true
fits configured true _ returned false = true
fits failed false false absent false = true
fits failed true _ returned _ = true
fits running true false replaying true = true
fits running true false returned _ = true
fits paused true true replaying true = true
fits paused true true returned _ = true
fits completed true _ returned _ = true
fits _ _ _ _ _ = false

module _ {ℓ} {D N M E S R : Type ℓ} where
  abbrev pub Fits : Session D N M E S R → Type 0
  Fits s = fits s.status s.active s.is_paused s.thread s.pipeline.running ≡ true

  -- The session that a call leaves behind satisfies `P`.
  abbrev pub Leaves {κ} : (Session D N M E S R → Type κ) → Return (Session D N M E S R) → Type κ
  Leaves P (returns t b) = P t
  Leaves P (throws t text) = P t
  Leaves P terminates = Lift {0, κ} Unit

module _ {ℓ} {D N M E S R : Type ℓ} (parts : Parts D N M E S R) where
  open parts use {ops}

  -- A round of the replay thread, or of the pipeline's worker. The tests at the head of a round of the
  -- replay thread may come before a `Pause` that is over when the round reads on.
  pub data Round (s : Session D N M E S R) : Session D N M E S R → Type ℓ where
    replays : s.thread ≡ replaying → Round s (replay_round parts s)
    reads_on :
        s.thread ≡ replaying
        → s.is_paused ≡ true
        → Round s (replay_reads parts s (parts.files.next s.reader))
    works :
        s.pipeline.worker ≡ looping
        → Proceeds ops s.pipeline
        → Round s (record s { pipeline = run_once ops s.pipeline })

  -- What the two threads do while a method stands between its test of the status and its writes.
  pub data Meanwhile (s : Session D N M E S R) : Session D N M E S R → Type ℓ where
    nothing : Meanwhile s s
    after : {t u : Session D N M E S R} → Meanwhile s t → Round t u → Meanwhile s u

  -- A call of a method, or a round. `Pause` and `Resume` test the status first, and return where it is
  -- another; `Start` and `Reconfigure` go on only where no replay runs, and `Stop` joins it. The handlers of
  -- commands also set the speed and broadcast.
  pub data Step (s : Session D N M E S R) : Session D N M E S R → Type ℓ where
    starts : {t : Session D N M E S R} {b : Bool} → start parts s ≡ returns t b → Step s t
    stops : AllReturn ops s.pipeline.estimator s.pipeline.queue.queue → Step s (stop parts s)
    pauses :
        {t : Session D N M E S R}
        → s.status ≡ running
        → Meanwhile s t
        → Step s (pause_from parts t running)
    resumes :
        {t : Session D N M E S R}
        → s.status ≡ paused
        → Meanwhile s t
        → Step s (resume_from parts t paused)
    reconfigures :
        {t : Session D N M E S R} {b : Bool} (cfg : SessionConfig D N)
        → reconfigure parts s cfg ≡ returns t b
        → Step s t
    reconfigure_throws :
        {t : Session D N M E S R} {text : List ℕ} (cfg : SessionConfig D N)
        → reconfigure parts s cfg ≡ throws t text
        → Step s t
    sets_speed : (speed : D) → Step s (record s { cfg = record s.cfg { playback_speed = speed } })
    broadcasts : (event : Event) → Step s (broadcast parts s event)
    runs : {t : Session D N M E S R} → Round s t → Step s t

  pub data Reach (s : Session D N M E S R) : Session D N M E S R → Type ℓ where
    here : Reach s s
    next : {t u : Session D N M E S R} → Reach s t → Step t u → Reach s u
