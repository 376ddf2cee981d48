-- ===== src/App/Config/Valid.antt =====
-- What `Validate` accepts.
use falcon_guide.Prelude.{◌≡◌, ◌≢◌, ◌↔◌, false, none, [], arith}
use falcon_guide.Prelude.Int.{pos, ◌≤ℤ◌}
use falcon_guide.Core.Double.{Double}
use falcon_guide.App.Config.{SessionConfig, validate}

-- What the settings of a session have to meet.
pub record IsUsable {ℓ} {D N : Type ℓ} ⦃d : Double D⦄ (cfg : SessionConfig D N) : Type 0 where
  pub dataset_named : cfg.dataset.path ≢ []
  pub socket_named : cfg.ipc.socket_path ≢ []
  pub clients_allowed : pos 1 ≤ℤ cfg.ipc.max_clients
  pub speed_not_negative : d.lt cfg.playback_speed d.nought ≡ false

module _ {ℓ} {D N : Type ℓ} ⦃d : Double D⦄ (cfg : SessionConfig D N) where
  -- `Validate` returns true exactly where the data set and the socket have a path, a client is allowed
  -- and the speed is not below zero; so it accepts any integration step and any sigma.
  pub validate_iff : (validate cfg ≡ none) ↔ IsUsable cfg
  unfolding validate
  validate_iff = (
    λ h. record {
      dataset_named = λ e. ground arith;
      socket_named = λ e. ground arith;
      clients_allowed = ground arith;
      speed_not_negative = ground arith;
    },
    λ u. ground (arith, u.dataset_named, u.socket_named),
  )
