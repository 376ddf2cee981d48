-- ===== src/App/Session/Runs.antt =====
-- What the methods of a session promise, from any state that it reaches.
use falcon_guide.Prelude.{
  ℕ, zero, suc, ◌≡◌, refl, sym, ap, ap₂, ◌∙◌, subst, Bool, true, false, some, List, [], ◌∷◌, ◌++◌,
  arith,
}
use mathlib.Core.List.{append-nil, append_assoc}
use falcon_guide.Io.Reader.{ReadOutcome, ReadResult, ok, end_of_data}
use falcon_guide.Estimation.Pipeline.Invariant.{measurements}
use falcon_guide.App.Session.{
  Parts, Session, idle, running, completed, absent, replaying, returned, Return, returns,
  terminates, start, start_from, start_opened, start_threads, stop, replay_round, replay_reads,
  replay_outcome, replay_ends, broadcast, broadcast_status,
}
use falcon_guide.App.Session.Drives.{pipeline_stop-Stopped, pipeline_start-Rests}
use falcon_guide.App.Session.Steps.{fits, Fits}
use falcon_guide.App.Session.Held.{Held}
use falcon_guide.App.Session.Invariant.{Reached, Reached-Good}

module _ {ℓ} {D N M E S R : Type ℓ} (parts : Parts D N M E S R) where
  open parts use {ops, files}
  open files use {open_reader, close, next}

  pub Reached-Fits : {s : Session D N M E S R} → Reached parts s → Fits s
  Reached-Fits r = (Reached-Good parts r).table

  -- Where `Stop` returns, a session that is reached, and whose pipeline runs, is stopped: it is idle, its
  -- replay thread is joined, the pipeline and the IPC server are off, and the estimator has been given
  -- every measurement that the queue took.
  pub stop-idle :
      {s : Session D N M E S R}
      → Reached parts s
      → s.pipeline.running ≡ true
      → let t = stop parts s in
        (t.status ≡ idle)
        × (t.thread ≡ absent)
        × (t.pipeline.running ≡ false)
        × (t.ipc_running ≡ false)
        × (measurements t.pipeline.handled ≡ t.pipeline.taken)
  unfolding stop broadcast broadcast_status fits
  stop-idle {s} r p =
      let g = Reached-Good parts r in
      let stopped = pipeline_stop-Stopped ops _ s.pipeline g.held p in
      let a : s.active ≡ true = let f = g.table in ground arith in
      rw a (refl, refl, stopped.1, refl, stopped.2)

  start_opened-terminates :
      (s : Session D N M E S R) (o : R × Bool)
      → o.1 ≡ true
      → s.thread ≡ returned
      → start_opened parts s o ≡ terminates
  unfolding start_opened start_threads
  start_opened-terminates s (r, true) h t = ap (start_threads parts (record s { reader = r })) t
  start_opened-terminates s (r, false) h t = ground arith

  -- What `Start` promises where the dataset opens.
  abbrev Runs : Return (Session D N M E S R) → Type ℓ
  Runs result =
      (t : Session D N M E S R) × (result ≡ returns t true)
      × (t.status ≡ running)
      × (t.thread ≡ replaying)
      × (t.pipeline.running ≡ true)

  start_threads-Runs :
      (s : Session D N M E S R) → Held parts s → Runs (start_threads parts s absent)
  unfolding start_threads broadcast broadcast_status
  start_threads-Runs s h = (_, refl, refl, refl, (pipeline_start-Rests ops _ s.pipeline h).1)

  start_opened-Runs :
      (s : Session D N M E S R) (o : R × Bool)
      → Held parts s
      → o.1 ≡ true
      → s.thread ≡ absent
      → Runs (start_opened parts s o)
  unfolding start_opened
  start_opened-Runs s (r, true) g h t =
      subst (λ x. Runs (start_threads parts (record s { reader = r }) x)) (sym t)
        (start_threads-Runs (record s { reader = r }) g)
  start_opened-Runs s (r, false) g h t = ground arith

  -- A session that is reached and has completed a replay cannot be started again: where the dataset
  -- opens, `Start` assigns a thread to the joinable `replay_thread_`, and the program is ended.
  pub start_completed-terminates :
      {s : Session D N M E S R}
      → Reached parts s
      → s.status ≡ completed
      → (open_reader s.reader).1 ≡ true
      → start parts s ≡ terminates
  unfolding start start_from fits
  start_completed-terminates {s} r c o =
      let f = Reached-Fits r in
      let t : s.thread ≡ returned = ground arith in
      ap (start_from parts s) c ∙ start_opened-terminates s _ o t

  -- A session that is reached and idle is started where the dataset opens: `Start` returns true, and
  -- the session runs, with its replay thread and its pipeline.
  pub start_idle-runs :
      {s : Session D N M E S R}
      → Reached parts s
      → s.status ≡ idle
      → (open_reader s.reader).1 ≡ true
      → (t : Session D N M E S R) × (start parts s ≡ returns t true)
        × (t.status ≡ running)
        × (t.thread ≡ replaying)
        × (t.pipeline.running ≡ true)
  unfolding start start_from fits
  start_idle-runs {s} r i o =
      let f = Reached-Fits r in
      let t : s.thread ≡ absent = ground arith in
      subst (λ st. Runs (start_from parts s st)) (sym i)
        (start_opened-Runs s _ (Reached-Good parts r).held o t)

  -- The next `n` rounds of the replay thread.
  abbrev pub replay_rounds : ℕ → Session D N M E S R → Session D N M E S R
  replay_rounds zero s = s
  replay_rounds (suc n) s = replay_rounds n (replay_round parts s)

  -- In `n` calls of `Next`, of which the last says `EndOfData`, a reader gives these measurements.
  pub data Feeds : ℕ → R → List M → R → Type ℓ where
    ends :
        {r r' : R} {o : ReadOutcome M} → next r ≡ (r', o) → o.result ≡ end_of_data → Feeds 1 r [] r'
    gives :
        {n : ℕ} {r r' r'' : R} {ms : List M} {o : ReadOutcome M} {m : M}
        → next r ≡ (r', o)
        → o.result ≡ ok
        → o.measurement ≡ some m
        → Feeds n r' ms r''
        → Feeds (suc n) r (m ∷ ms) r''
    skips :
        {n : ℕ} {r r' r'' : R} {ms : List M} {o : ReadOutcome M}
        → next r ≡ (r', o)
        → o.result ≡ ReadResult.error
        → Feeds n r' ms r''
        → Feeds (suc n) r ms r''

  replay_round-reads :
      (s : Session D N M E S R) {r : R} {o : ReadOutcome M}
      → s.active ≡ true
      → s.is_paused ≡ false
      → next s.reader ≡ (r, o)
      → replay_round parts s ≡ replay_outcome parts (record s { reader = r }) o.result o.measurement
  unfolding replay_round replay_reads
  replay_round-reads s a p e = ground arith

  -- The replay is over, with these measurements offered in all.
  abbrev pub IsOver : Session D N M E S R → R → List M → Type ℓ
  IsOver t r ms = (t.status ≡ completed) × (t.thread ≡ returned) × (t.reader ≡ r) × (t.offered ≡ ms)

  -- An active session that is not paused has, after as many rounds as the reader has outcomes,
  -- completed the replay and offered the pipeline all the measurements in the reader's order.
  pub replay_completes :
      {n : ℕ} {r' : R} {ms : List M} (s : Session D N M E S R)
      → Feeds n s.reader ms r'
      → s.active ≡ true
      → s.is_paused ≡ false
      → IsOver (replay_rounds n s) r' (s.offered ++ ms)
  unfolding replay_outcome replay_ends broadcast broadcast_status
  replay_completes s (ends {r' = r'} {o = o} e x) a p =
      let here : replay_round parts s ≡ replay_ends parts (record s { reader = r' }) =
        replay_round-reads s a p e
        ∙ ap (λ x. replay_outcome parts (record s { reader = r' }) x o.measurement) x in
      ground (arith, append-nil s.offered)
  replay_completes s (gives {n = n} {r' = r'} {r'' = r''} {ms = ms} {o = o} {m = m} e x y f) a p =
      let t = replay_outcome parts (record s { reader = r' }) ok (some m) in
      let here : replay_round parts s ≡ t =
        replay_round-reads s a p e ∙ ap₂ (replay_outcome parts (record s { reader = r' })) x y in
      let rest = replay_completes t f a p in
      subst (λ q. IsOver (replay_rounds n q) r'' (s.offered ++ m ∷ ms)) (sym here)
        (rest.0, rest.1, rest.2, rest.3 ∙ append_assoc s.offered (m ∷ []) ms)
  replay_completes s (skips {n = n} {r' = r'} {r'' = r''} {ms = ms} {o = o} e x f) a p =
      let here : replay_round parts s ≡ record s { reader = r' } =
        replay_round-reads s a p e
        ∙ ap (λ x. replay_outcome parts (record s { reader = r' }) x o.measurement) x in
      subst (λ q. IsOver (replay_rounds n q) r'' (s.offered ++ ms)) (sym here)
        (replay_completes (record s { reader = r' }) f a p)
