-- ===== src/App/Config/Sensors/ReadRange.antt =====
-- The blocks of `NavFromJson` of src/app/src/config_json.cpp for sensors of range and flow. `def` is the
-- value of the options before, which a member that is absent leaves.
use falcon_guide.Prelude.{false}
use falcon_guide.Prelude.Bytes.{codes}
use falcon_guide.Prelude.Result.{Result, ok, ◌>>=◌}
use falcon_guide.Core.Double.{Literal}
use falcon_guide.Estimation.Config.{
  SensorConfig, RadarAltimeterOptions, RangeFinderOptions, OpticalFlowOptions, DvlOptions,
  EchoSounderOptions, default_radar_altimeter, default_range_finder, default_optical_flow,
  default_dvl, default_echo_sounder,
}
use falcon_guide.App.Config.Json.{Json, read_member, value, read_opt_double, read_mat3}

module _ {ℓ} {D J W : Type ℓ} ⦃n : Literal D⦄ (json : Json D J W) where
  open json use {get_double, get_bool, get_string}

  unfoldable pub read_radar_altimeter : J → Result (SensorConfig (RadarAltimeterOptions D))
  read_radar_altimeter j =
      let def = default_radar_altimeter in
      do
        enabled ← value json get_bool j (codes "enabled") false
        innovation_gate ←
            read_member json get_double j (codes "innovation_gate") def.innovation_gate
        ok (record {
          enabled = enabled;
          options = record def { innovation_gate = innovation_gate };
        })

  unfoldable pub read_range_finder : J → Result (SensorConfig (RangeFinderOptions D))
  read_range_finder j =
      let def = default_range_finder in
      do
        enabled ← value json get_bool j (codes "enabled") false
        expected_range_m ←
            read_member json get_double j (codes "expected_range_m") def.expected_range_m
        use_as_altitude ← read_member json get_bool j (codes "use_as_altitude") def.use_as_altitude
        terrain_elevation_m ←
            read_member json get_double j (codes "terrain_elevation_m") def.terrain_elevation_m
        sigma_m ← read_opt_double json j (codes "sigma_m")
        innovation_gate ←
            read_member json get_double j (codes "innovation_gate") def.innovation_gate
        ok (record {
          enabled = enabled;
          options = record {
            expected_range_m = expected_range_m;
            use_as_altitude = use_as_altitude;
            terrain_elevation_m = terrain_elevation_m;
            sigma_m = sigma_m;
            innovation_gate = innovation_gate;
          };
        })

  unfoldable pub read_optical_flow : J → Result (SensorConfig (OpticalFlowOptions D))
  read_optical_flow j =
      let def = default_optical_flow in
      do
        enabled ← value json get_bool j (codes "enabled") false
        fallback_altitude_m ←
            read_member json get_double j (codes "fallback_altitude_m") def.fallback_altitude_m
        sigma_radps ← read_member json get_double j (codes "sigma_radps") def.sigma_radps
        innovation_gate ←
            read_member json get_double j (codes "innovation_gate") def.innovation_gate
        ok (record {
          enabled = enabled;
          options = record {
            fallback_altitude_m = fallback_altitude_m;
            sigma_radps = sigma_radps;
            innovation_gate = innovation_gate;
          };
        })

  unfoldable pub read_dvl : J → Result (SensorConfig (DvlOptions D))
  read_dvl j =
      let def = default_dvl in
      do
        enabled ← value json get_bool j (codes "enabled") false
        dvl_to_body_rotation ← read_mat3 json j (codes "dvl_to_body_rotation")
        bottom_track_only ←
            read_member json get_bool j (codes "bottom_track_only") def.bottom_track_only
        sigma_mps ← read_opt_double json j (codes "sigma_mps")
        innovation_gate ←
            read_member json get_double j (codes "innovation_gate") def.innovation_gate
        ok (record {
          enabled = enabled;
          options = record {
            dvl_to_body_rotation = dvl_to_body_rotation;
            bottom_track_only = bottom_track_only;
            sigma_mps = sigma_mps;
            innovation_gate = innovation_gate;
          };
        })

  unfoldable pub read_echo_sounder : J → Result (SensorConfig (EchoSounderOptions D))
  read_echo_sounder j =
      let def = default_echo_sounder in
      do
        enabled ← value json get_bool j (codes "enabled") false
        sound_speed_mps ←
            read_member json get_double j (codes "sound_speed_mps") def.sound_speed_mps
        depth_origin_m ← read_member json get_double j (codes "depth_origin_m") def.depth_origin_m
        sigma_m ← read_opt_double json j (codes "sigma_m")
        innovation_gate ←
            read_member json get_double j (codes "innovation_gate") def.innovation_gate
        ok (record {
          enabled = enabled;
          options = record {
            sound_speed_mps = sound_speed_mps;
            depth_origin_m = depth_origin_m;
            sigma_m = sigma_m;
            innovation_gate = innovation_gate;
          };
        })
