-- ===== src/App/Config/Sensors/ReadGnss.antt =====
-- The blocks of `NavFromJson` of src/app/src/config_json.cpp for sensors of GNSS. `def` is the
-- value of the options before, which a member that is absent leaves.
use falcon_guide.Prelude.{false, List, ℕ, if◌then◌else◌}
use falcon_guide.Prelude.Bytes.{codes}
use falcon_guide.Prelude.Result.{Result, ok, ◌>>=◌}
use falcon_guide.Core.Double.{Literal}
use falcon_guide.Estimation.Config.{
  GnssSensorConfig, GnssIntegrationMode, GnssLooselyCoupledOptions, GnssTightlyCoupledOptions,
  default_gnss,
}
use falcon_guide.App.Config.Json.{Json, read_member, value, read_opt_double}
use falcon_guide.Prelude.Bytes.{same}

unfoldable pub gnss_mode : List ℕ → GnssIntegrationMode
gnss_mode text =
    if same text (codes "TightlyCoupled")
    then GnssIntegrationMode.tightly_coupled
    else GnssIntegrationMode.loosely_coupled

module _ {ℓ} {D J W : Type ℓ} ⦃n : Literal D⦄ (json : Json D J W) where
  open json use {get_double, get_bool, get_string}

  unfoldable pub read_loosely_coupled : J → Result (GnssLooselyCoupledOptions D)
  read_loosely_coupled j =
      let def = default_gnss.loosely_coupled in
      do
        position_sigma_m ← read_opt_double json j (codes "position_sigma_m")
        velocity_sigma_mps ← read_opt_double json j (codes "velocity_sigma_mps")
        position_gate ← read_member json get_double j (codes "position_gate") def.position_gate
        ok (record {
          position_sigma_m = position_sigma_m;
          velocity_sigma_mps = velocity_sigma_mps;
          position_gate = position_gate;
        })

  unfoldable pub read_tightly_coupled : J → Result (GnssTightlyCoupledOptions D)
  read_tightly_coupled j =
      let def = default_gnss.tightly_coupled in
      do
        base ←
            read_member json get_double j (codes "base_pseudorange_sigma_m")
              def.base_pseudorange_sigma_m
        floor ←
            read_member json get_double j (codes "pseudorange_noise_floor_m")
              def.pseudorange_noise_floor_m
        doppler ←
            read_member json get_double j (codes "base_doppler_sigma_mps")
              def.base_doppler_sigma_mps
        gate ←
            read_member json get_double j (codes "innovation_gate_sigma") def.innovation_gate_sigma
        ok (record def {
          base_pseudorange_sigma_m = base;
          pseudorange_noise_floor_m = floor;
          base_doppler_sigma_mps = doppler;
          innovation_gate_sigma = gate;
        })

  unfoldable pub read_gnss : J → Result (GnssSensorConfig D)
  read_gnss j = do
    enabled ← value json get_bool j (codes "enabled") false
    mode ← value json get_string j (codes "mode") (codes "LooselyCoupled")
    loosely ←
        read_member json read_loosely_coupled j (codes "loosely_coupled")
          default_gnss.loosely_coupled
    tightly ←
        read_member json read_tightly_coupled j (codes "tightly_coupled")
          default_gnss.tightly_coupled
    ok (record {
      enabled = enabled;
      mode = gnss_mode mode;
      loosely_coupled = loosely;
      tightly_coupled = tightly;
    })
