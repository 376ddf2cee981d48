-- ===== src/App/Session.antt =====
-- src/app/src/session.cpp. Each method is a function, and so is a round of `ReplayLoop`; Steps says how they
-- interleave. The dataset reader is an interface; whether the sockets open is told by `Sockets`. Replay
-- timing only delays the loop and is left out.
pub mod Drives
pub mod Steps
pub mod Fits
pub mod Held
pub mod Commands
pub mod Invariant
pub mod Runs
pub mod Restart
use falcon_guide.Prelude.{
  ℕ, suc, Bool, true, false, Option, none, some, List, [], ◌∷◌, ◌++◌, length, ltb, if◌then◌else◌,
}
use falcon_guide.Prelude.Bytes.{codes}
use falcon_guide.App.Config.{DatasetConfig, SessionConfig}
use falcon_guide.Io.Reader.{
  ReadResult, ok, end_of_data, timeout, error, ReadOutcome, IDatasetReader,
}
use falcon_guide.Estimation.Interface.{INavigationEstimator}
use falcon_guide.Estimation.Pipeline.{
  EstimatorPipeline, make_pipeline, register_observer, push_test, push_enqueue, start_exchange,
  start_thread, stop_exchange, stop_shutdown, stop_join,
}
use falcon_guide.Estimation.Pipeline.Drain.{rounds}

-- Whether `IpcServer::Start` returns true, and whether `WsServer::Start` does not throw.
pub record Sockets : Type 0 where
  pub ipc_opens : Bool
  pub ws_opens : Bool

pub data Status : Type 0 where
  idle configured running paused completed failed : Status

-- `replay_thread_`: not joinable, in `ReplayLoop`, or returned from it and not joined.
pub data ReplayThread : Type 0 where
  absent replaying returned : ReplayThread

-- A JSON event to the clients of the IPC server.
pub data Event : Type 0 where
  status_event : List ℕ → ℕ → Event
  error_event : List ℕ → Event
  schema_event : Event

-- `ws_server` is `none` for a null pointer, and tells whether the server runs. `broadcasts` and
-- `offered` record the events sent and the measurements given to `Pipeline().Push`, oldest first.
pub record Session {ℓ} (D N M E S R : Type ℓ) : Type ℓ where
  pub cfg : SessionConfig D N
  pub pipeline : EstimatorPipeline M E S
  pub reader : R
  pub ipc_running : Bool
  pub ws_server : Option Bool
  pub status : Status
  pub error_text : List ℕ
  pub thread : ReplayThread
  pub active : Bool
  pub is_paused : Bool
  pub broadcasts : List Event
  pub offered : List M

-- What a call ends in: it returns, it throws, or `std::terminate` ends the program, since a new thread
-- is assigned to a joinable `replay_thread_`.
pub data Return {ℓ} (A : Type ℓ) : Type ℓ where
  returns : A → Bool → Return A
  throws : A → List ℕ → Return A
  terminates : Return A

unfoldable pub get_status_string : Status → List ℕ
get_status_string idle = codes "idle"
get_status_string configured = codes "configured"
get_status_string running = codes "running"
get_status_string paused = codes "paused"
get_status_string completed = codes "completed"
get_status_string failed = codes "error"

module _ {ℓ} {D M E S : Type ℓ} (ops : INavigationEstimator D M E S) where
  -- `EstimatorPipeline::Push`, `Start` and `Stop` from one thread, where no other interferes.
  unfoldable pub pipeline_push : EstimatorPipeline M E S → M → EstimatorPipeline M E S
  pipeline_push p m = if p.running then push_enqueue (push_test p m) m p.entering else p

  unfoldable pub pipeline_start : EstimatorPipeline M E S → EstimatorPipeline M E S
  pipeline_start p = if p.running then p else start_thread (start_exchange p)

  -- `join` waits for the worker, which leaves its loop after these rounds.
  unfoldable pub pipeline_stop : EstimatorPipeline M E S → EstimatorPipeline M E S
  pipeline_stop p =
      if p.running
      then stop_join (rounds ops (suc (length p.queue.queue)) (stop_shutdown (stop_exchange p)))
      else p

-- The queue of a pipeline holds 4096 measurements.
abbrev pub default_capacity : ℕ
default_capacity = 4096

-- What a session is made from: the estimator's operations, `MakeDatasetReader` with `none` where it
-- throws, its readers' operations, the estimator that the settings build, and the sockets.
pub record Parts {ℓ} (D N M E S R : Type ℓ) : Type ℓ where
  pub ops : INavigationEstimator D M E S
  pub files : IDatasetReader M R
  pub make_reader : DatasetConfig → Option R
  pub build : N → E
  pub sockets : Sockets

module _ {ℓ} {D N M E S R : Type ℓ} (parts : Parts D N M E S R) where
  open parts use {ops, files, make_reader, build, sockets}
  open files use {open_reader, close, next, measurements_read}

  unfoldable pub broadcast : Session D N M E S R → Event → Session D N M E S R
  broadcast s event = record s { broadcasts = s.broadcasts ++ event ∷ [] }

  unfoldable pub broadcast_status : Session D N M E S R → Status → ℕ → Session D N M E S R
  unfolding broadcast
  broadcast_status s status count = broadcast s (status_event (get_status_string status) count)

  -- `SetStatus` with an error.
  unfoldable pub set_error : Session D N M E S R → List ℕ → Session D N M E S R
  unfolding broadcast
  set_error s text = broadcast (record s { status = failed; error_text = text }) (error_event text)

  abbrev new_pipeline : N → EstimatorPipeline M E S
  new_pipeline nav = register_observer (make_pipeline (build nav) default_capacity) 0

  abbrev new_ws : ℕ → Option Bool
  new_ws port = if ltb 0 port then some false else none

  unfoldable pub make_from : SessionConfig D N → Option R → Option (Session D N M E S R)
  make_from cfg none = none
  make_from cfg (some r) = some (record {
    cfg = cfg;
    pipeline = new_pipeline cfg.nav;
    reader = r;
    ipc_running = false;
    ws_server = new_ws cfg.ws.port;
    status = configured;
    error_text = [];
    thread = absent;
    active = false;
    is_paused = false;
    broadcasts = [];
    offered = [];
  })

  -- The constructor; `none` where it throws.
  unfoldable pub make_session : SessionConfig D N → Option (Session D N M E S R)
  unfolding make_from
  make_session cfg = make_from cfg (make_reader cfg.dataset)

  abbrev start_ws : Option Bool → Option Bool
  start_ws none = none
  start_ws (some runs) = some (if runs then true else sockets.ws_opens)

  -- `Start` from the IPC server's `Start` to the new thread.
  unfoldable pub start_threads : Session D N M E S R → ReplayThread → Return (Session D N M E S R)
  unfolding broadcast_status pipeline_start
  start_threads s absent =
      returns
        (broadcast_status
          (record s {
            ipc_running = if s.ipc_running then true else sockets.ipc_opens;
            ws_server = start_ws s.ws_server;
            pipeline = pipeline_start ops s.pipeline;
            status = running;
            active = true;
            thread = replaying;
          })
          running 0)
        true
  start_threads s _ = terminates

  unfoldable pub start_opened : Session D N M E S R → R × Bool → Return (Session D N M E S R)
  unfolding start_threads set_error
  start_opened s (r, true) = start_threads (record s { reader = r }) s.thread
  start_opened s (r, false) =
      returns
        (set_error (record s { reader = r })
          (codes "Failed to open dataset: " ++ s.cfg.dataset.path))
        false

  unfoldable pub start_from : Session D N M E S R → Status → Return (Session D N M E S R)
  unfolding start_opened
  start_from s running = returns s true
  start_from s paused = returns s true
  start_from s failed = returns s false
  start_from s _ = start_opened s (open_reader s.reader)

  unfoldable pub start : Session D N M E S R → Return (Session D N M E S R)
  unfolding start_from
  start s = start_from s s.status

  abbrev stop_ws : Option Bool → Option Bool
  stop_ws none = none
  stop_ws (some runs) = some false

  -- The replay thread leaves its loop, since `running_` is false, and is joined, and the worker empties the
  -- queue. The calls of `AddMeasurement` that it makes are taken to return.
  unfoldable pub stop : Session D N M E S R → Session D N M E S R
  unfolding broadcast_status pipeline_stop
  stop s =
      if s.active
      then broadcast_status
          (record s {
            active = false;
            is_paused = false;
            thread = absent;
            pipeline = pipeline_stop ops s.pipeline;
            reader = close s.reader;
            ipc_running = false;
            ws_server = stop_ws s.ws_server;
            status = idle;
          })
          idle 0
      else s

  unfoldable pub pause_from : Session D N M E S R → Status → Session D N M E S R
  unfolding broadcast_status
  pause_from s running =
      broadcast_status (record s { is_paused = true; status = paused }) paused
        (measurements_read s.reader)
  pause_from s _ = s

  unfoldable pub pause : Session D N M E S R → Session D N M E S R
  unfolding pause_from
  pause s = pause_from s s.status

  unfoldable pub resume_from : Session D N M E S R → Status → Session D N M E S R
  unfolding broadcast_status
  resume_from s paused =
      broadcast_status (record s { is_paused = false; status = running }) running
        (measurements_read s.reader)
  resume_from s _ = s

  unfoldable pub resume : Session D N M E S R → Session D N M E S R
  unfolding resume_from
  resume s = resume_from s s.status

  -- `Reconfigure` when it is allowed. `MakeDatasetReader` throws after the settings and the
  -- navigation system have been replaced.
  unfoldable pub rebuild :
      Session D N M E S R → SessionConfig D N → Option R → Return (Session D N M E S R)
  rebuild s cfg none =
      throws (record s { cfg = cfg; pipeline = new_pipeline cfg.nav })
        (codes "Unknown dataset type: " ++ cfg.dataset.type)
  rebuild s cfg (some r) =
      returns
        (record s {
          cfg = cfg;
          pipeline = new_pipeline cfg.nav;
          reader = r;
          ipc_running = false;
          ws_server = new_ws cfg.ws.port;
          status = configured;
        })
        true

  unfoldable pub reconfigure_from :
      Session D N M E S R → SessionConfig D N → Status → Return (Session D N M E S R)
  unfolding rebuild
  reconfigure_from s cfg running = returns s false
  reconfigure_from s cfg paused = returns s false
  reconfigure_from s cfg _ = rebuild s cfg (make_reader cfg.dataset)

  unfoldable pub reconfigure :
      Session D N M E S R → SessionConfig D N → Return (Session D N M E S R)
  unfolding reconfigure_from
  reconfigure s cfg = reconfigure_from s cfg s.status

  -- What `ReplayLoop` does when it is left.
  unfoldable pub replay_ends : Session D N M E S R → Session D N M E S R
  unfolding broadcast_status
  replay_ends s =
      if s.active
      then broadcast_status (record s { thread = returned; status = completed }) completed
          (measurements_read s.reader)
      else record s { thread = returned }

  unfoldable pub replay_outcome : Session D N M E S R → ReadResult → Option M → Session D N M E S R
  unfolding replay_ends pipeline_push
  replay_outcome s end_of_data m = replay_ends s
  replay_outcome s ok (some m) = record s {
    pipeline = pipeline_push ops s.pipeline m;
    offered = s.offered ++ m ∷ [];
  }
  replay_outcome s ok none = s
  replay_outcome s timeout m = s
  replay_outcome s error m = s

  unfoldable pub replay_reads : Session D N M E S R → R × ReadOutcome M → Session D N M E S R
  unfolding replay_outcome
  replay_reads s (r, outcome) =
      replay_outcome (record s { reader = r }) outcome.result outcome.measurement

  -- One round of `ReplayLoop`. It waits while the session is paused.
  unfoldable pub replay_round : Session D N M E S R → Session D N M E S R
  unfolding replay_reads
  replay_round s =
      if s.active then if s.is_paused then s else replay_reads s (next s.reader) else replay_ends s
