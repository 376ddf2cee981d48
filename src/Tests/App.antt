-- ===== src/Tests/App.antt =====
-- Tests of the session: a reader of two numbers, and the estimator that keeps what it was given.
use falcon_guide.Prelude.{ℕ, ◌≡◌, refl, true, false, none, some, List, [], ◌∷◌, inl, inr}
use falcon_guide.Prelude.Bytes.{codes}
use falcon_guide.Io.Reader.{ReadOutcome, ok, end_of_data, IDatasetReader}
use falcon_guide.Estimation.Pipeline.{
  make_pipeline, register_observer, start_exchange, start_thread,
}
use falcon_guide.Estimation.Pipeline.Invariant.{measurements}
use falcon_guide.App.Config.{SessionConfig, default_ipc, default_ws}
use falcon_guide.App.Session.{
  Session, Parts, idle, configured, running, absent, replaying, Return, returns, terminates,
  default_capacity, make_session, make_from, start, start_from, start_opened, start_threads, stop,
  replay_round, replay_reads, replay_outcome, broadcast, broadcast_status, pipeline_start,
}
use falcon_guide.App.Session.Steps
use falcon_guide.App.Session.Steps.{fits, Reach}
use falcon_guide.App.Session.Invariant.{Reached}
use falcon_guide.App.Session.Runs.{
  stop-idle, start_completed-terminates, start_idle-runs, replay_rounds, Feeds, IsOver,
  replay_completes,
}
use falcon_guide.App.Session.Restart.{restart_takes_nothing}
use falcon_guide.App.Session.Commands.{
  configure, goes_on, hangs, handle_command, handle_ws_command, configured_reply, configure_busy,
}
use falcon_guide.Tests.Estimation.{keeper}

abbrev gives : List ℕ → List ℕ × ReadOutcome ℕ
gives [] = ([], record { result = end_of_data; measurement = none; error_message = [] })
gives (m ∷ ms) = (ms, record { result = ok; measurement = some m; error_message = [] })

abbrev numbers : IDatasetReader ℕ (List ℕ)
numbers = record {
  open_reader = λ r. (5 ∷ 6 ∷ [], true);
  close = λ r. r;
  next = gives;
  measurements_read = λ r. 0;
}

abbrev parts : Parts ℕ ℕ ℕ (List ℕ) (List ℕ) (List ℕ)
parts = record {
  ops = keeper;
  files = numbers;
  make_reader = λ c. some [];
  build = λ n. [];
  sockets = record { ipc_opens = true; ws_opens = true };
}

abbrev cfg : SessionConfig ℕ ℕ
cfg = record {
  nav = 0;
  dataset = record { type = codes "csv"; path = codes "x" };
  ipc = default_ipc;
  ws = record default_ws { port = 0 };
  playback_speed = 0;
}

abbrev Numbers : Type 0
Numbers = Session ℕ ℕ ℕ (List ℕ) (List ℕ) (List ℕ)

abbrev made : Numbers
made = record {
  cfg = cfg;
  pipeline = register_observer (make_pipeline [] default_capacity) 0;
  reader = [];
  ipc_running = false;
  ws_server = none;
  status = configured;
  error_text = [];
  thread = absent;
  active = false;
  is_paused = false;
  broadcasts = [];
  offered = [];
}

abbrev left_by : Return Numbers → Numbers
left_by (returns s b) = s
left_by _ = made

abbrev started : Numbers
started = left_by (start parts made)

starts_made : start parts made ≡ returns started true
unfolding start start_from start_opened start_threads
starts_made = refl

made-Reached : (s : Numbers) → Reach parts made s → Reached parts s
unfolding make_session make_from
made-Reached s r = record { cfg = cfg; made = made; makes = refl; steps = r }

started-Reached : Reached parts started
started-Reached = made-Reached started (Reach.next Reach.here (Steps.Step.starts starts_made))

started_runs : started.pipeline.running ≡ true
unfolding start start_from start_opened start_threads broadcast broadcast_status pipeline_start
    make_pipeline register_observer start_exchange start_thread
started_runs = refl

stop-idle_example :
    let t = stop parts started in
    (t.status ≡ idle)
    × (t.thread ≡ absent)
    × (t.pipeline.running ≡ false)
    × (t.ipc_running ≡ false)
    × (measurements t.pipeline.handled ≡ t.pipeline.taken)
stop-idle_example = stop-idle parts started-Reached started_runs

stopped-Reached : Reached parts (stop parts started)
unfolding start register_observer make_pipeline start_thread start_exchange
stopped-Reached =
    made-Reached _
      (Reach.next (Reach.next Reach.here (Steps.Step.starts starts_made)) (Steps.Step.stops tt))

stopped_idle : (stop parts started).status ≡ idle
stopped_idle = (stop-idle parts started-Reached started_runs).0

start_idle-runs_example :
    (t : Numbers) × (start parts (stop parts started) ≡ returns t true)
    × (t.status ≡ running)
    × (t.thread ≡ replaying)
    × (t.pipeline.running ≡ true)
start_idle-runs_example = start_idle-runs parts stopped-Reached stopped_idle refl

-- The reader's outcomes.
feeds : Feeds parts 3 (5 ∷ 6 ∷ []) (5 ∷ 6 ∷ []) []
feeds = Feeds.gives refl refl refl (Feeds.gives refl refl refl (Feeds.ends refl refl))

started_reads : started.reader ≡ 5 ∷ 6 ∷ []
unfolding start start_from start_opened start_threads broadcast broadcast_status
started_reads = refl

replay_completes_example : IsOver parts (replay_rounds parts 3 started) [] (5 ∷ 6 ∷ [])
unfolding start start_from start_opened start_threads broadcast broadcast_status
replay_completes_example = replay_completes parts started feeds refl refl

abbrev over : Numbers
over = replay_rounds parts 3 started

over-Reached : Reached parts over
unfolding start start_from start_opened start_threads broadcast broadcast_status replay_round
    replay_reads replay_outcome
over-Reached = made-Reached over (
    Reach.next
      (Reach.next
        (Reach.next (Reach.next Reach.here (Steps.Step.starts starts_made))
          (Steps.Step.runs (Steps.Round.replays refl)))
        (Steps.Step.runs (Steps.Round.replays refl)))
      (Steps.Step.runs (Steps.Round.replays refl)))

start_completed-terminates_example : start parts over ≡ terminates
start_completed-terminates_example =
    start_completed-terminates parts over-Reached replay_completes_example.0 refl

abbrev again : Numbers
again = left_by (start parts (stop parts started))

starts_again : start parts (stop parts started) ≡ returns again true
unfolding start start_from start_opened start_threads stop broadcast broadcast_status
starts_again = refl

restart_takes_nothing_example :
    (replay_rounds parts 3 again).pipeline.taken ≡ started.pipeline.taken
restart_takes_nothing_example =
    restart_takes_nothing parts 3 started-Reached started_runs starts_again

configure_busy_example :
    (handle_command parts started (configure (some (inr cfg))) ≡ hangs)
    × (handle_ws_command parts started (configure (some (inr cfg)))
        ≡ goes_on (started, configured_reply))
unfolding start start_from start_opened start_threads broadcast broadcast_status
configure_busy_example = configure_busy parts started cfg (inl refl)
