-- ===== src/App/Config/Document/RoundTrip.antt =====
-- `FromJson` after `ToJson`, and back.
use falcon_guide.Prelude.{◌<◌, ◌≡◌, ◌∙◌, refl, ap, sym, subst}
use falcon_guide.Prelude.Result.{ok, bind_ok}
use falcon_guide.Core.Double.{Literal}
use falcon_guide.Estimation.Config.{NavigationSystemConfig}
use falcon_guide.App.Config.{DatasetConfig, IpcConfig, WsConfig, SessionConfig}
use falcon_guide.App.Config.Json.{Json, IsJson, IsInt}
use falcon_guide.App.Config.Json.Reads.{
  member_ok, value_double-of_double, value_string-of_string, value_int-of_int, value_uint16-of_int,
}
use falcon_guide.App.Config.Nav.{nav_to_json}
use falcon_guide.App.Config.Sensors.Write.{
  write_tightly_coupled, write_gnss, write_star_tracker, write_wheel_odometry,
  write_radar_altimeter, write_external_pose, write_external_velocity,
}
use falcon_guide.App.Config.Nav.RoundTrip.{saved, nav_from_json-nav_to_json}
use falcon_guide.App.Config.Document.{
  write_dataset, write_ipc, write_ws, session_to_json, to_json, read_dataset, read_ipc, read_ws,
  session_from_json, rethrow, from_json,
}

ok_inj {ℓ} : {A : Type ℓ} {a b : A} → ok a ≡ ok b → a ≡ b
ok_inj h = cc

-- The numbers lie in the ranges of their C++ types.
pub record IsInRange {ℓ} {D N : Type ℓ} (cfg : SessionConfig D N) : Type 0 where
  pub ipc_clients : IsInt cfg.ipc.max_clients
  pub ws_clients : IsInt cfg.ws.max_clients
  pub port : cfg.ws.port < 65536

-- The library reads a document that it printed as the value printed. It does so for a value whose
-- numbers are finite.
abbrev pub Reparses {ℓ} : {D J W : Type ℓ} → Json D J W → J → Type ℓ
Reparses {W} json v = (text : W) → json.dump v ≡ ok text → json.parse text ≡ ok v

-- What a file keeps of a session's settings.
abbrev pub saved_session {ℓ} :
    {D : Type ℓ} ⦃n : Literal D⦄
    → SessionConfig D (NavigationSystemConfig D)
    → SessionConfig D (NavigationSystemConfig D)
saved_session cfg = record cfg { nav = saved cfg.nav }

module _ {ℓ} {D J W : Type ℓ} {json : Json D J W} (laws : IsJson json) where
  read_dataset-write_dataset : (c : DatasetConfig) → read_dataset json (write_dataset json c) ≡ ok c
  unfolding read_dataset write_dataset
  read_dataset-write_dataset c =
      bind_ok _ _ (value_string-of_string laws _ _ _ refl)
        (bind_ok _ _ (value_string-of_string laws _ _ _ refl) refl)

  read_ipc-write_ipc :
      (c : IpcConfig) → IsInt c.max_clients → read_ipc json (write_ipc json c) ≡ ok c
  unfolding read_ipc write_ipc
  read_ipc-write_ipc c h =
      bind_ok _ _ (value_string-of_string laws _ _ _ refl)
        (bind_ok _ _ (value_int-of_int laws _ _ _ h refl) refl)

  read_ws-write_ws :
      (c : WsConfig) → IsInt c.max_clients → c.port < 65536 → read_ws json (write_ws json c) ≡ ok c
  unfolding read_ws write_ws
  read_ws-write_ws c h p = bind_ok _ _ (value_uint16-of_int laws _ _ _ p refl) (
      bind_ok _ _ (value_int-of_int laws _ _ _ h refl)
        (bind_ok _ _ (value_string-of_string laws _ _ _ refl) refl))

  module _ ⦃n : Literal D⦄ (cfg : SessionConfig D (NavigationSystemConfig D)) where
    session_from_json-session_to_json :
        IsInRange cfg → session_from_json json (session_to_json json cfg) ≡ ok (saved_session cfg)
    unfolding session_from_json session_to_json
    session_from_json-session_to_json r =
        bind_ok _ _ (member_ok laws _ _ refl _ _ (nav_from_json-nav_to_json laws cfg.nav)) (
          bind_ok _ _ (member_ok laws _ _ refl _ _ (read_dataset-write_dataset cfg.dataset)) (
            bind_ok _ _ (member_ok laws _ _ refl _ _ (read_ipc-write_ipc cfg.ipc r.ipc_clients)) (
              bind_ok _ _
                (member_ok laws _ _ refl _ _ (read_ws-write_ws cfg.ws r.ws_clients r.port))
                (bind_ok _ _ (value_double-of_double laws _ _ _ refl) refl))))

    -- What is left out by a save is not read by a save.
    session_to_json-saved : session_to_json json (saved_session cfg) ≡ session_to_json json cfg
    unfolding session_to_json nav_to_json write_gnss write_tightly_coupled write_star_tracker
        write_wheel_odometry write_radar_altimeter write_external_pose write_external_velocity
    session_to_json-saved = refl

    -- A document that `ToJson` prints, where the parser reads it as the value printed, gives `FromJson`
    -- the settings, except that the members which `ToJson` leaves out have their default values.
    pub from_json-to_json :
        (text : W)
        → IsInRange cfg
        → Reparses json (session_to_json json cfg)
        → to_json json cfg ≡ ok text
        → from_json json text ≡ ok (saved_session cfg)
    unfolding from_json to_json
    from_json-to_json text r reparses printed =
        ap rethrow (bind_ok _ _ (reparses text printed) (session_from_json-session_to_json r))

    -- Under the same conditions, what `FromJson` gives is printed as that document again, so that nothing
    -- more is lost by another save.
    pub to_json-from_json :
        (text : W) (loaded : SessionConfig D (NavigationSystemConfig D))
        → IsInRange cfg
        → Reparses json (session_to_json json cfg)
        → to_json json cfg ≡ ok text
        → from_json json text ≡ ok loaded
        → to_json json loaded ≡ ok text
    unfolding to_json
    to_json-from_json text loaded r reparses printed e =
        subst (λ c. to_json json c ≡ ok text)
          (ok_inj (sym (from_json-to_json text r reparses printed) ∙ e))
          (ap json.dump session_to_json-saved ∙ printed)
