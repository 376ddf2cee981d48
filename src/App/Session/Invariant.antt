-- ===== src/App/Session/Invariant.antt =====
-- The states a session reaches, whatever is called in whatever order.
use mathlib.Core.Option
use falcon_guide.Estimation.Queue.{pop}
use falcon_guide.Prelude.{
  list_cases, ◌∙◌, ◌≡◌, refl, subst, sym, Bool, true, Option, none, some, inl, inr, arith,
}
use falcon_guide.Estimation.Pipeline.{looping, run_once, make_pipeline, register_observer}
use falcon_guide.App.Config.{SessionConfig}
use falcon_guide.App.Session.{
  Parts, Session, Return, returns, make_session, make_from, broadcast, start, reconfigure, running,
  paused,
}
use falcon_guide.Estimation.Pipeline.Invariant.{run_once-Inv}
use falcon_guide.App.Session.Steps
use falcon_guide.App.Session.Steps.{fits, Fits, Leaves, Reach}
use falcon_guide.App.Session.Fits.{
  run_once-running, start-Fits, pause_from-Fits, resume_from-Fits, busy-active, stop-Fits,
  reconfigure-Fits, replay_round-Fits, replay_reads-Fits, replay_round-active, replay_reads-active,
}
use falcon_guide.App.Session.Held.{
  Held, start_from-Held, pause_from-Held, resume_from-Held, stop-Held, reconfigure_from-Held,
  replay_round-Held, replay_reads-Held, new-Rests,
}

module _ {ℓ} {D N M E S R : Type ℓ} (parts : Parts D N M E S R) where
  open parts use {ops}

  -- What every step keeps.
  pub record Good (s : Session D N M E S R) : Type ℓ where
    pub table : Fits s
    pub held : Held parts s

  Leaves-Good :
      (r : Return (Session D N M E S R)) {t : Session D N M E S R} {b : Bool}
      → r ≡ returns t b
      → Leaves Fits r
      → Leaves (Held parts) r
      → Good t
  Leaves-Good r {t} {b} e f h = record {
    table = subst (Leaves Fits) e f;
    held = subst (Leaves (Held parts)) e h;
  }

  run_once-Held :
      (s : Session D N M E S R)
      → s.pipeline.worker ≡ looping
      → Held parts s
      → Held parts (record s { pipeline = run_once ops s.pipeline })
  unfolding run_once pop
  run_once-Held s w h = record {
    inv = run_once-Inv ops _ s.pipeline w h.inv;
    rests = elim (list_cases s.pipeline.queue.queue) [
      | inl e ↦ ground (arith, e)
      | inr (m, ms, e) ↦ ground (arith, e)
    ];
  }

  Round-Good : {s t : Session D N M E S R} → Steps.Round parts s t → Good s → Good t
  Round-Good {s} (Steps.Round.replays t) g = record {
    table = replay_round-Fits parts s t g.table;
    held = replay_round-Held parts s g.held;
  }
  Round-Good {s} (Steps.Round.reads_on t p) g = record {
    table = replay_reads-Fits parts s _ t g.table;
    held = replay_reads-Held parts s _ g.held;
  }
  Round-Good {s} (Steps.Round.works w p) g = record {
    table =
        subst (λ b. fits s.status s.active s.is_paused s.thread b ≡ true)
          (sym (run_once-running parts s.pipeline)) g.table;
    held = run_once-Held s w g.held;
  }

  Round-active : {s t : Session D N M E S R} → Steps.Round parts s t → t.active ≡ s.active
  Round-active {s} (Steps.Round.replays t) = replay_round-active parts s
  Round-active {s} (Steps.Round.reads_on t p) = replay_reads-active parts s _
  Round-active (Steps.Round.works w p) = refl

  Meanwhile-Good :
      {s t : Session D N M E S R}
      → Steps.Meanwhile parts s t
      → s.active ≡ true
      → Good s
      → (t.active ≡ true) × Good t
  Meanwhile-Good Steps.Meanwhile.nothing a g = (a, g)
  Meanwhile-Good (Steps.Meanwhile.after w r) a g =
      let (a', g') = Meanwhile-Good w a g in (Round-active r ∙ a', Round-Good r g')

  Step-Good : {s t : Session D N M E S R} → Steps.Step parts s t → Good s → Good t
  unfolding start reconfigure broadcast
  Step-Good {s} (Steps.Step.starts e) g =
      Leaves-Good _ e (start-Fits parts s g.table) (start_from-Held parts s s.status g.held)
  Step-Good {s} (Steps.Step.stops w) g = record {
    table = stop-Fits parts s g.table;
    held = stop-Held parts s g.table g.held;
  }
  Step-Good {s} (Steps.Step.pauses {t} e w) g =
      let (a, h) = Meanwhile-Good w (busy-active parts s (inl e) g.table) g in
      record {
        table = pause_from-Fits parts t a h.table;
        held = pause_from-Held parts t running h.held;
      }
  Step-Good {s} (Steps.Step.resumes {t} e w) g =
      let (a, h) = Meanwhile-Good w (busy-active parts s (inr e) g.table) g in
      record {
        table = resume_from-Fits parts t a h.table;
        held = resume_from-Held parts t paused h.held;
      }
  Step-Good {s} (Steps.Step.reconfigures cfg e) g =
      Leaves-Good _ e (reconfigure-Fits parts s cfg g.table)
        (reconfigure_from-Held parts s cfg s.status g.held)
  Step-Good {s} (Steps.Step.reconfigure_throws cfg e) g = record {
    table = subst (Leaves Fits) e (reconfigure-Fits parts s cfg g.table);
    held = subst (Leaves (Held parts)) e (reconfigure_from-Held parts s cfg s.status g.held);
  }
  Step-Good (Steps.Step.sets_speed speed) g = record {
    table = g.table;
    held = record { inv = g.held.inv; rests = g.held.rests };
  }
  Step-Good (Steps.Step.broadcasts event) g = record {
    table = g.table;
    held = record { inv = g.held.inv; rests = g.held.rests };
  }
  Step-Good (Steps.Step.runs r) g = Round-Good r g

  -- A new session, or one that a call, the replay thread or the worker made of it.
  pub record Reached (s : Session D N M E S R) : Type ℓ where
    pub cfg : SessionConfig D N
    pub made : Session D N M E S R
    pub makes : make_session parts cfg ≡ some made
    pub steps : Reach parts made s

  made-Good :
      (cfg : SessionConfig D N) (r : Option R) {s : Session D N M E S R}
      → make_from parts cfg r ≡ some s
      → Good s
  unfolding make_from fits make_pipeline register_observer
  made-Good cfg none e = ground (arith, e)
  made-Good cfg (some r) e =
      subst Good (Option.some-injective _ _ e)
        (record { table = refl; held = new-Rests parts (parts.build cfg.nav) })

  Reach-Good : {s t : Session D N M E S R} → Reach parts s t → Good s → Good t
  Reach-Good Reach.here g = g
  Reach-Good (Reach.next r st) g = Step-Good st (Reach-Good r g)

  pub Reached-Good : {s : Session D N M E S R} → Reached s → Good s
  unfolding make_session
  Reached-Good r = Reach-Good r.steps (made-Good r.cfg _ r.makes)
