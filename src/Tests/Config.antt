-- ===== src/Tests/Config.antt =====
-- Tests of the configuration.
use falcon_guide.Prelude.{
  ℕ, ◌≡◌, ◌↔◌, refl, sym, true, false, none, some, List, ◌++◌, arith, inl, inr,
}
use falcon_guide.Prelude.Bytes.{codes}
use falcon_guide.Prelude.Int.{ℤ, pos}
use falcon_guide.Prelude.Result.{ok, err}
use falcon_guide.Estimation.Config.{
  NavigationSystemConfig, EstimatorBackendChoice, default_navigation,
}
use falcon_guide.App.Config.{SessionConfig, default_ipc, default_ws, validate}
use falcon_guide.App.Config.Valid.{IsUsable, validate_iff}
use falcon_guide.App.Config.Document.{session_to_json, to_json, from_json}
use falcon_guide.App.Config.Document.RoundTrip.{
  IsInRange, saved_session, from_json-to_json, to_json-from_json,
}
use falcon_guide.App.Config.Document.Errors.{plain_sensor_throws}
use falcon_guide.Tests.Values.{whole}
use falcon_guide.Tests.Json.{
  Value, member, end, members, number, values, values-IsJson, whole_literal,
}

-- Settings with a sigma that is not written.
abbrev settings : SessionConfig ℤ (NavigationSystemConfig ℤ)
settings = record {
  nav = record (default_navigation {D = ℤ}) {
    backend = EstimatorBackendChoice.gtsam;
    max_imu_dt_s = pos 7;
    external_pose = record {
      enabled = true;
      options = record (default_navigation {D = ℤ}).external_pose.options {
        position_sigma_m = some (pos 3);
        use_orientation = false;
      };
    };
  };
  dataset = record { type = codes "csv"; path = codes "flight" };
  ipc = default_ipc;
  ws = default_ws;
  playback_speed = pos 2;
}

printed : Value
printed = session_to_json values settings

settings-IsInRange : IsInRange settings
settings-IsInRange = record {
  ipc_clients = omega arith;
  ws_clients = omega arith;
  port = omega arith;
}

from_json-to_json_example : from_json values printed ≡ ok (saved_session settings)
unfolding printed to_json
from_json-to_json_example =
    from_json-to_json values-IsJson settings printed settings-IsInRange (λ text e. sym e) refl

to_json-from_json_example : to_json values (saved_session settings) ≡ ok printed
unfolding printed to_json
to_json-from_json_example =
    to_json-from_json values-IsJson settings printed (saved_session settings) settings-IsInRange
      (λ text e. sym e) refl from_json-to_json_example

validate_iff_example : (validate settings ≡ none) ↔ IsUsable settings
validate_iff_example = validate_iff settings

-- `{"nav": {"dvl": 5}}`.
abbrev plain_nav : Value
plain_nav = members (member (codes "dvl") (number (pos 5)) end)

abbrev plain_document : Value
plain_document = members (member (codes "nav") plain_nav end)

plain_sensor_throws_example :
    (what : List ℕ) × (from_json values plain_document
      ≡ err (codes "SessionConfig::FromJson: " ++ what))
plain_sensor_throws_example =
    plain_sensor_throws values plain_document plain_document plain_nav refl refl
      (inr (inr (inr (inr (inr (inr (inr (inr (inl (number (pos 5), refl, refl))))))))))
