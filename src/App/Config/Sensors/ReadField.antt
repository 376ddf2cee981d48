-- ===== src/App/Config/Sensors/ReadField.antt =====
-- The blocks of `NavFromJson` of src/app/src/config_json.cpp for sensors of pressure, magnetic field, stars
-- and air. `def` is the value of the options before, which a member that is absent leaves.
use falcon_guide.Prelude.{false}
use falcon_guide.Prelude.Bytes.{codes}
use falcon_guide.Prelude.Int.{pos}
use falcon_guide.Prelude.Result.{Result, ok, ◌>>=◌}
use falcon_guide.Core.Double.{Literal}
use falcon_guide.Core.Vector.{zero_vector}
use falcon_guide.Estimation.Config.{
  SensorConfig, BarometerOptions, MagnetometerOptions, StarTrackerOptions, AirspeedOptions,
  default_magnetometer, default_star_tracker, default_airspeed,
}
use falcon_guide.App.Config.Json.{Json, read_member, value, read_opt_double, read_vec3}

module _ {ℓ} {D J W : Type ℓ} ⦃n : Literal D⦄ (json : Json D J W) where
  open n use {literal}
  open json use {get_double, get_bool, get_string}

  unfoldable pub read_barometer : J → Result (SensorConfig (BarometerOptions D))
  read_barometer j = do
    enabled ← value json get_bool j (codes "enabled") false
    altitude_sigma_m ← read_opt_double json j (codes "altitude_sigma_m")
    isa_sea_level_pressure_pa ←
        value json get_double j (codes "isa_sea_level_pressure_pa") (literal (pos 101325) 0)
    innovation_gate ← value json get_double j (codes "innovation_gate") (literal (pos 0) 0)
    ok (record {
      enabled = enabled;
      options = record {
        altitude_sigma_m = altitude_sigma_m;
        isa_sea_level_pressure_pa = isa_sea_level_pressure_pa;
        innovation_gate = innovation_gate;
      };
    })

  unfoldable pub read_magnetometer : J → Result (SensorConfig (MagnetometerOptions D))
  read_magnetometer j =
      let def = default_magnetometer in
      do
        enabled ← value json get_bool j (codes "enabled") false
        reference_field_enu_tesla ←
            read_vec3 json j (codes "reference_field_enu_tesla") def.reference_field_enu_tesla
        sigma_tesla ← read_opt_double json j (codes "sigma_tesla")
        innovation_gate ← value json get_double j (codes "innovation_gate") (literal (pos 0) 0)
        ok (record {
          enabled = enabled;
          options = record {
            reference_field_enu_tesla = reference_field_enu_tesla;
            sigma_tesla = sigma_tesla;
            innovation_gate = innovation_gate;
          };
        })

  unfoldable pub read_star_tracker : J → Result (SensorConfig (StarTrackerOptions D))
  read_star_tracker j =
      let def = default_star_tracker in
      do
        enabled ← value json get_bool j (codes "enabled") false
        sigma_yaw_rad ← read_member json get_double j (codes "sigma_yaw_rad") def.sigma_yaw_rad
        sigma_pitch_rad ←
            read_member json get_double j (codes "sigma_pitch_rad") def.sigma_pitch_rad
        sigma_roll_rad ← read_member json get_double j (codes "sigma_roll_rad") def.sigma_roll_rad
        use_pitch_roll ← read_member json get_bool j (codes "use_pitch_roll") def.use_pitch_roll
        innovation_gate ←
            read_member json get_double j (codes "innovation_gate") def.innovation_gate
        ok (record {
          enabled = enabled;
          options = record def {
            sigma_yaw_rad = sigma_yaw_rad;
            sigma_pitch_rad = sigma_pitch_rad;
            sigma_roll_rad = sigma_roll_rad;
            use_pitch_roll = use_pitch_roll;
            innovation_gate = innovation_gate;
          };
        })

  unfoldable pub read_airspeed : J → Result (SensorConfig (AirspeedOptions D))
  read_airspeed j =
      let def = default_airspeed in
      do
        enabled ← value json get_bool j (codes "enabled") false
        wind_enu_mps ← read_vec3 json j (codes "wind_enu_mps") zero_vector
        sigma_mps ← read_member json get_double j (codes "sigma_mps") def.sigma_mps
        innovation_gate ←
            read_member json get_double j (codes "innovation_gate") def.innovation_gate
        ok (record {
          enabled = enabled;
          options = record {
            wind_enu_mps = wind_enu_mps;
            sigma_mps = sigma_mps;
            innovation_gate = innovation_gate;
          };
        })
