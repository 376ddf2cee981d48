-- ===== src/App/Config.antt =====
-- src/app/include/falconguide/app/config_json.hpp, `WsConfig` of ws_server.hpp, and
-- `SessionConfig::Validate` of src/app/src/config_json.cpp. Text is bytes.
pub mod Json
pub mod Sensors
pub mod Valid
pub mod Nav
pub mod Document
use falcon_guide.Prelude.{ℕ, List, [], ◌∷◌, Bool, Option, none, some, if◌then◌else◌}
use falcon_guide.Prelude.Bytes.{codes}
use falcon_guide.Prelude.Int.{ℤ, pos, ltb_ℤ}
use falcon_guide.Core.Double.{Double, Literal}

pub record DatasetConfig : Type 0 where
  pub type : List ℕ
  pub path : List ℕ

pub record IpcConfig : Type 0 where
  pub socket_path : List ℕ
  pub max_clients : ℤ

-- `port` is a `uint16_t`.
pub record WsConfig : Type 0 where
  pub port : ℕ
  pub max_clients : ℤ
  pub ui_path : List ℕ

-- The settings of the navigation system are of the type `N`.
pub record SessionConfig {ℓ} (D N : Type ℓ) : Type ℓ where
  pub nav : N
  pub dataset : DatasetConfig
  pub ipc : IpcConfig
  pub ws : WsConfig
  pub playback_speed : D

abbrev pub default_dataset : DatasetConfig
default_dataset = record { type = codes "csv"; path = [] }

abbrev pub default_ipc : IpcConfig
default_ipc = record { socket_path = codes "/tmp/falconguide.sock"; max_clients = pos 8 }

abbrev pub default_ws : WsConfig
default_ws = record { port = 8765; max_clients = pos 16; ui_path = codes "ui/index.html" }

abbrev is_empty : List ℕ → Bool
is_empty [] = Bool.true
is_empty (c ∷ cs) = Bool.false

-- `Validate`: the error, or none where it returns true.
unfoldable pub validate {ℓ} : {D N : Type ℓ} ⦃d : Double D⦄ → SessionConfig D N → Option (List ℕ)
validate ⦃d⦄ cfg =
    if is_empty cfg.dataset.path
    then some (codes "dataset.path is empty")
    else if is_empty cfg.ipc.socket_path
    then some (codes "ipc.socket_path is empty")
    else if ltb_ℤ cfg.ipc.max_clients (pos 1)
    then some (codes "ipc.max_clients must be >= 1")
    else if d.lt cfg.playback_speed d.nought
    then some (codes "playback_speed must be >= 0 (0 = as fast as possible)")
    else none
