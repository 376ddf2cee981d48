-- ===== src/App/Config/Document.antt =====
-- `SessionConfig::FromJson` and `SessionConfig::ToJson` of src/app/src/config_json.cpp.
pub mod RoundTrip
pub mod Errors
use falcon_guide.Prelude.{ℕ, List, [], ◌∷◌, ◌++◌}
use falcon_guide.Prelude.Bytes.{codes}
use falcon_guide.Prelude.Int.{pos}
use falcon_guide.Prelude.Result.{Result, ok, err, ◌>>=◌}
use falcon_guide.Core.Double.{Literal}
use falcon_guide.Estimation.Config.{NavigationSystemConfig, default_navigation}
use falcon_guide.App.Config.{
  DatasetConfig, IpcConfig, WsConfig, SessionConfig, default_dataset, default_ipc, default_ws,
}
use falcon_guide.App.Config.Json.{Json, read_member, value}
use falcon_guide.App.Config.Nav.{nav_from_json, nav_to_json}

-- The `catch`: the `std::invalid_argument` that replaces the exception.
abbrev pub rethrow {ℓ} : {A : Type ℓ} → Result A → Result A
rethrow (ok a) = ok a
rethrow (err what) = err (codes "SessionConfig::FromJson: " ++ what)

module _ {ℓ} {D J W : Type ℓ} (json : Json D J W) where
  open json use {
    of_object, of_double, of_string, of_int, get_double, get_string, get_int, get_uint16, parse,
    dump,
  }

  unfoldable pub write_dataset : DatasetConfig → J
  write_dataset c =
      of_object ((codes "type", of_string c.type) ∷ (codes "path", of_string c.path) ∷ [])

  unfoldable pub write_ipc : IpcConfig → J
  write_ipc c = of_object (
      (codes "socket_path", of_string c.socket_path)
      ∷ (codes "max_clients", of_int c.max_clients)
      ∷ [])

  unfoldable pub write_ws : WsConfig → J
  write_ws c = of_object (
      (codes "port", of_int (pos c.port))
      ∷ (codes "max_clients", of_int c.max_clients)
      ∷ (codes "ui_path", of_string c.ui_path)
      ∷ [])

  -- The value that `ToJson` prints.
  unfoldable pub session_to_json : SessionConfig D (NavigationSystemConfig D) → J
  session_to_json cfg = of_object (
      (codes "nav", nav_to_json json cfg.nav)
      ∷ (codes "dataset", write_dataset cfg.dataset)
      ∷ (codes "ipc", write_ipc cfg.ipc)
      ∷ (codes "ws", write_ws cfg.ws)
      ∷ (codes "playback_speed", of_double cfg.playback_speed)
      ∷ [])

  unfoldable pub to_json : SessionConfig D (NavigationSystemConfig D) → Result W
  unfolding session_to_json
  to_json cfg = dump (session_to_json cfg)

  unfoldable pub read_dataset : J → Result DatasetConfig
  read_dataset j = do
    type ← value json get_string j (codes "type") default_dataset.type
    path ← value json get_string j (codes "path") default_dataset.path
    ok (record { type = type; path = path })

  unfoldable pub read_ipc : J → Result IpcConfig
  read_ipc j = do
    socket_path ← value json get_string j (codes "socket_path") default_ipc.socket_path
    max_clients ← value json get_int j (codes "max_clients") default_ipc.max_clients
    ok (record { socket_path = socket_path; max_clients = max_clients })

  unfoldable pub read_ws : J → Result WsConfig
  read_ws j = do
    port ← value json get_uint16 j (codes "port") default_ws.port
    max_clients ← value json get_int j (codes "max_clients") default_ws.max_clients
    ui_path ← value json get_string j (codes "ui_path") default_ws.ui_path
    ok (record { port = port; max_clients = max_clients; ui_path = ui_path })

  module _ ⦃n : Literal D⦄ where
    -- The body of the `try`.
    unfoldable pub session_from_json : J → Result (SessionConfig D (NavigationSystemConfig D))
    session_from_json j = do
      nav ← read_member json (nav_from_json json) j (codes "nav") default_navigation
      dataset ← read_member json read_dataset j (codes "dataset") default_dataset
      ipc ← read_member json read_ipc j (codes "ipc") default_ipc
      ws ← read_member json read_ws j (codes "ws") default_ws
      playback_speed ← value json get_double j (codes "playback_speed") (n.literal (pos 1) 0)
      ok (record {
        nav = nav;
        dataset = dataset;
        ipc = ipc;
        ws = ws;
        playback_speed = playback_speed;
      })

    unfoldable pub from_json : W → Result (SessionConfig D (NavigationSystemConfig D))
    unfolding session_from_json
    from_json text = rethrow (parse text >>= session_from_json)
