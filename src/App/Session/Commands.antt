-- ===== src/App/Session/Commands.antt =====
-- `HandleCommand` and `HandleWsCommand`: what a JSON command of a client does to the session.
use falcon_guide.Prelude.{
  true, Option-cases, ◌∷◌, length, length-append, ltb, if◌then◌else◌, arith, ℕ, ◌≡◌, refl, ap, ◌⊎◌,
  inl, inr, Option, none, some, List, [], ◌++◌,
}
use falcon_guide.Prelude.Bytes.{codes}
use falcon_guide.App.Config.{SessionConfig}
use falcon_guide.App.Session.{
  Parts, Session, Event, Status, idle, completed, failed, rebuild, configured, running, paused,
  status_event, error_event, schema_event, Return, returns, throws, terminates, get_status_string,
  broadcast, start, stop, pause, resume, reconfigure, reconfigure_from,
}
use falcon_guide.App.Session.Steps.{Leaves}

-- A command by its `cmd`. `set_speed` has the member `speed`, where it is there. `configure` has the
-- outcome of `SessionConfig::FromJson` on the member `config`, where it is there: what the exception
-- says, or the settings. Members of a wrong type, which make `value` throw, are left out.
pub data Command {ℓ} (D N : Type ℓ) : Type ℓ where
  start_command stop_command pause_command resume_command get_status get_schema : Command D N
  set_speed : Option D → Command D N
  configure : Option (List ℕ ⊎ SessionConfig D N) → Command D N
  other : List ℕ → Command D N

-- The answer to a client of the WebSocket server.
pub data Reply : Type 0 where
  status_reply : List ℕ → ℕ → Reply
  configured_reply schema_reply : Reply
  error_reply : List ℕ → Reply
  ack : List ℕ → Reply

-- The handler returns and leaves the session, `std::terminate` ends the program, or the handler never
-- returns.
pub data Outcome {ℓ} (A : Type ℓ) : Type ℓ where
  goes_on : A → Outcome A
  ended hangs : Outcome A

longer {ℓ} : {A : Type ℓ} (xs : List A) (x : A) → ltb (length xs) (length (xs ++ x ∷ [])) ≡ true
longer xs x = ground (arith, length-append xs (x ∷ []))

abbrev pub map_outcome {ℓ κ} : {A : Type ℓ} {B : Type κ} → (A → B) → Outcome A → Outcome B
map_outcome f (goes_on a) = goes_on (f a)
map_outcome f ended = ended
map_outcome f hangs = hangs

-- The `cmd` of a command.
unfoldable pub verb {ℓ} : {D N : Type ℓ} → Command D N → List ℕ
verb start_command = codes "start"
verb stop_command = codes "stop"
verb pause_command = codes "pause"
verb resume_command = codes "resume"
verb get_status = codes "get_status"
verb get_schema = codes "get_schema"
verb (set_speed speed) = codes "set_speed"
verb (configure config) = codes "configure"
verb (other text) = text

module _ {ℓ} {D N M E S R : Type ℓ} (parts : Parts D N M E S R) where
  open parts use {files}
  open files use {measurements_read}

  unfoldable pub after_start : Return (Session D N M E S R) → Outcome (Session D N M E S R)
  after_start (returns s b) = goes_on s
  after_start (throws s text) = goes_on s
  after_start terminates = ended

  unfoldable pub change_speed : Session D N M E S R → Option D → Session D N M E S R
  change_speed s none = s
  change_speed s (some speed) = record s { cfg = record s.cfg { playback_speed = speed } }

  abbrev failure : List ℕ → List ℕ
  failure text = codes "configure failed: " ++ text

  -- The end of a call on the thread of the IPC server. `ServerLoop` holds `clients_mutex_` while it handles
  -- the data of a client, and a broadcast locks it again, so that a call that broadcasts does not return.
  unfoldable pub on_server_thread :
      Session D N M E S R → Session D N M E S R → Outcome (Session D N M E S R)
  on_server_thread before after =
      if ltb (length before.broadcasts) (length after.broadcasts) then hangs else goes_on after

  -- `Start` broadcasts before it assigns the new thread.
  unfoldable pub ipc_start :
      Session D N M E S R → Return (Session D N M E S R) → Outcome (Session D N M E S R)
  unfolding on_server_thread
  ipc_start s (returns t b) = on_server_thread s t
  ipc_start s (throws t text) = on_server_thread s t
  ipc_start s terminates = hangs

  -- `Reconfigure` returns or throws.
  unfoldable pub after_reconfigure :
      Session D N M E S R → Return (Session D N M E S R) → Outcome (Session D N M E S R)
  unfolding on_server_thread broadcast
  after_reconfigure s (returns t b) =
      on_server_thread s (broadcast parts t (status_event (codes "configured") 0))
  after_reconfigure s (throws t text) =
      on_server_thread s (broadcast parts t (error_event (failure text)))
  after_reconfigure s terminates = hangs

  unfoldable pub handle_configure :
      Session D N M E S R → Option (List ℕ ⊎ SessionConfig D N) → Outcome (Session D N M E S R)
  unfolding after_reconfigure broadcast on_server_thread
  handle_configure s none = on_server_thread s s
  handle_configure s (some (inl text)) =
      on_server_thread s (broadcast parts s (error_event (failure text)))
  handle_configure s (some (inr cfg)) = after_reconfigure s (reconfigure parts s cfg)

  unfoldable pub handle_command : Session D N M E S R → Command D N → Outcome (Session D N M E S R)
  unfolding ipc_start change_speed handle_configure broadcast on_server_thread
  handle_command s start_command = ipc_start s (start parts s)
  handle_command s stop_command = on_server_thread s (stop parts s)
  handle_command s pause_command = on_server_thread s (pause parts s)
  handle_command s resume_command = on_server_thread s (resume parts s)
  handle_command s get_status =
      on_server_thread s
        (broadcast parts s (status_event (get_status_string s.status) (measurements_read s.reader)))
  handle_command s get_schema = on_server_thread s (broadcast parts s schema_event)
  handle_command s (set_speed speed) = on_server_thread s (change_speed s speed)
  handle_command s (configure config) = handle_configure s config
  handle_command s (other text) =
      on_server_thread s (broadcast parts s (error_event (codes "unknown command: " ++ text)))

  unfoldable pub reply_reconfigure :
      Return (Session D N M E S R) → Outcome (Session D N M E S R × Reply)
  reply_reconfigure (returns s b) = goes_on (s, configured_reply)
  reply_reconfigure (throws s text) = goes_on (s, error_reply (failure text))
  reply_reconfigure terminates = ended

  unfoldable pub reply_configure :
      Session D N M E S R
      → Option (List ℕ ⊎ SessionConfig D N)
      → Outcome (Session D N M E S R × Reply)
  unfolding reply_reconfigure
  reply_configure s none = goes_on (s, ack (codes "configure"))
  reply_configure s (some (inl text)) = goes_on (s, error_reply (failure text))
  reply_configure s (some (inr cfg)) = reply_reconfigure (reconfigure parts s cfg)

  abbrev acked : List ℕ → Session D N M E S R → Session D N M E S R × Reply
  acked text s = (s, ack text)

  unfoldable pub handle_ws_command :
      Session D N M E S R → Command D N → Outcome (Session D N M E S R × Reply)
  unfolding after_start change_speed reply_configure
  handle_ws_command s start_command =
      map_outcome (acked (codes "start")) (after_start (start parts s))
  handle_ws_command s stop_command = goes_on (acked (codes "stop") (stop parts s))
  handle_ws_command s pause_command = goes_on (acked (codes "pause") (pause parts s))
  handle_ws_command s resume_command = goes_on (acked (codes "resume") (resume parts s))
  handle_ws_command s (set_speed speed) = goes_on (acked (codes "set_speed") (change_speed s speed))
  handle_ws_command s get_status =
      goes_on (s, status_reply (get_status_string s.status) (measurements_read s.reader))
  handle_ws_command s get_schema = goes_on (s, schema_reply)
  handle_ws_command s (configure config) = reply_configure s config
  handle_ws_command s (other text) = goes_on (acked text s)

  -- A broadcast hangs.
  on_server_thread-broadcast :
      (s t : Session D N M E S R) (event : Event)
      → t.broadcasts ≡ s.broadcasts
      → on_server_thread s (broadcast parts t event) ≡ hangs
  unfolding on_server_thread broadcast
  on_server_thread-broadcast s t event e = rw (e, longer s.broadcasts event) refl

  -- `Reconfigure` itself broadcasts nothing.
  reconfigure_from-broadcasts :
      (s : Session D N M E S R) (cfg : SessionConfig D N) (st : Status)
      → Leaves (λ t. t.broadcasts ≡ s.broadcasts) (reconfigure_from parts s cfg st)
  unfolding reconfigure_from rebuild
  reconfigure_from-broadcasts s cfg running = refl
  reconfigure_from-broadcasts s cfg paused = refl
  reconfigure_from-broadcasts s cfg idle = elim (Option-cases (parts.make_reader cfg.dataset)) [
    | inl e ↦ rw e refl
    | inr (r, e) ↦ rw e refl
  ]
  reconfigure_from-broadcasts s cfg configured =
      elim (Option-cases (parts.make_reader cfg.dataset)) [
        | inl e ↦ rw e refl
        | inr (r, e) ↦ rw e refl
      ]
  reconfigure_from-broadcasts s cfg completed =
      elim (Option-cases (parts.make_reader cfg.dataset)) [
        | inl e ↦ rw e refl
        | inr (r, e) ↦ rw e refl
      ]
  reconfigure_from-broadcasts s cfg failed = elim (Option-cases (parts.make_reader cfg.dataset)) [
    | inl e ↦ rw e refl
    | inr (r, e) ↦ rw e refl
  ]

  after_reconfigure-hangs :
      (s : Session D N M E S R) (r : Return (Session D N M E S R))
      → Leaves (λ t. t.broadcasts ≡ s.broadcasts) r
      → after_reconfigure s r ≡ hangs
  unfolding after_reconfigure
  after_reconfigure-hangs s (returns t b) e = on_server_thread-broadcast s t _ e
  after_reconfigure-hangs s (throws t text) e = on_server_thread-broadcast s t _ e
  after_reconfigure-hangs s terminates e = refl

  -- The WebSocket server's handler returns with this session and some reply.
  abbrev Answers : Session D N M E S R → Outcome (Session D N M E S R × Reply) → Type ℓ
  Answers t o = (reply : Reply) × (o ≡ goes_on (t, reply))

  -- Where the session runs or is paused, `configure` by the IPC server does not return, since it locks the
  -- mutex of the clients a second time, and by the WebSocket server it changes nothing, and yet the
  -- client is told that the session has been configured.
  pub configure_busy :
      (s : Session D N M E S R) (cfg : SessionConfig D N)
      → (s.status ≡ running) ⊎ (s.status ≡ paused)
      → (handle_command s (configure (some (inr cfg))) ≡ hangs)
        × (handle_ws_command s (configure (some (inr cfg))) ≡ goes_on (s, configured_reply))
  unfolding handle_command handle_configure handle_ws_command reply_configure reconfigure
      reconfigure_from reply_reconfigure
  configure_busy s cfg (inl e) = (
    after_reconfigure-hangs s _ (reconfigure_from-broadcasts s cfg s.status),
    ap (λ st. reply_reconfigure (reconfigure_from parts s cfg st)) e,
  )
  configure_busy s cfg (inr e) = (
    after_reconfigure-hangs s _ (reconfigure_from-broadcasts s cfg s.status),
    ap (λ st. reply_reconfigure (reconfigure_from parts s cfg st)) e,
  )
