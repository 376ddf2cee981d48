-- ===== src/App/Config/Sensors/ReadMotion.antt =====
-- The blocks of `NavFromJson` of src/app/src/config_json.cpp for sensors of odometry and outside solutions.
-- `def` is the value of the options before, which a member that is absent leaves.
use falcon_guide.Prelude.{false}
use falcon_guide.Prelude.Bytes.{codes}
use falcon_guide.Prelude.Result.{Result, ok, ◌>>=◌}
use falcon_guide.Core.Double.{Literal}
use falcon_guide.Estimation.Config.{
  SensorConfig, WheelOdometryOptions, ExternalPoseOptions, ExternalVelocityOptions,
  ExternalOdometryOptions, AidingSolutionOptions, default_wheel_odometry, default_external_pose,
  default_external_velocity, default_external_odometry, default_aiding_solution,
}
use falcon_guide.App.Config.Json.{Json, read_member, value, read_opt_double}

module _ {ℓ} {D J W : Type ℓ} ⦃n : Literal D⦄ (json : Json D J W) where
  open json use {get_double, get_bool, get_string}

  unfoldable pub read_wheel_odometry : J → Result (SensorConfig (WheelOdometryOptions D))
  read_wheel_odometry j =
      let def = default_wheel_odometry in
      do
        enabled ← value json get_bool j (codes "enabled") false
        sigma_linear_mps ←
            read_member json get_double j (codes "sigma_linear_mps") def.sigma_linear_mps
        sigma_angular_radps ←
            read_member json get_double j (codes "sigma_angular_radps") def.sigma_angular_radps
        use_angular_rate ←
            read_member json get_bool j (codes "use_angular_rate") def.use_angular_rate
        innovation_gate ←
            read_member json get_double j (codes "innovation_gate") def.innovation_gate
        ok (record {
          enabled = enabled;
          options = record def {
            sigma_linear_mps = sigma_linear_mps;
            sigma_angular_radps = sigma_angular_radps;
            use_angular_rate = use_angular_rate;
            innovation_gate = innovation_gate;
          };
        })

  unfoldable pub read_external_pose : J → Result (SensorConfig (ExternalPoseOptions D))
  read_external_pose j =
      let def = default_external_pose in
      do
        enabled ← value json get_bool j (codes "enabled") false
        use_position ← read_member json get_bool j (codes "use_position") def.use_position
        use_orientation ← read_member json get_bool j (codes "use_orientation") def.use_orientation
        innovation_gate ←
            read_member json get_double j (codes "innovation_gate") def.innovation_gate
        ok (record {
          enabled = enabled;
          options = record def {
            use_position = use_position;
            use_orientation = use_orientation;
            innovation_gate = innovation_gate;
          };
        })

  unfoldable pub read_external_velocity : J → Result (SensorConfig (ExternalVelocityOptions D))
  read_external_velocity j =
      let def = default_external_velocity in
      do
        enabled ← value json get_bool j (codes "enabled") false
        use_angular_rate ←
            read_member json get_bool j (codes "use_angular_rate") def.use_angular_rate
        innovation_gate ←
            read_member json get_double j (codes "innovation_gate") def.innovation_gate
        ok (record {
          enabled = enabled;
          options = record def {
            use_angular_rate = use_angular_rate;
            innovation_gate = innovation_gate;
          };
        })

  unfoldable pub read_external_odometry : J → Result (SensorConfig (ExternalOdometryOptions D))
  read_external_odometry j =
      let def = default_external_odometry in
      do
        enabled ← value json get_bool j (codes "enabled") false
        use_position ← read_member json get_bool j (codes "use_position") def.use_position
        use_velocity ← read_member json get_bool j (codes "use_velocity") def.use_velocity
        use_orientation ← read_member json get_bool j (codes "use_orientation") def.use_orientation
        position_sigma_m ← read_opt_double json j (codes "position_sigma_m")
        velocity_sigma_mps ← read_opt_double json j (codes "velocity_sigma_mps")
        orientation_sigma_rad ← read_opt_double json j (codes "orientation_sigma_rad")
        innovation_gate ←
            read_member json get_double j (codes "innovation_gate") def.innovation_gate
        ok (record {
          enabled = enabled;
          options = record {
            use_position = use_position;
            use_velocity = use_velocity;
            use_orientation = use_orientation;
            position_sigma_m = position_sigma_m;
            velocity_sigma_mps = velocity_sigma_mps;
            orientation_sigma_rad = orientation_sigma_rad;
            innovation_gate = innovation_gate;
          };
        })

  unfoldable pub read_aiding_solution : J → Result (SensorConfig (AidingSolutionOptions D))
  read_aiding_solution j =
      let def = default_aiding_solution in
      do
        enabled ← value json get_bool j (codes "enabled") false
        min_match_score ←
            read_member json get_double j (codes "min_match_score") def.min_match_score
        position_sigma_m ← read_opt_double json j (codes "position_sigma_m")
        velocity_sigma_mps ← read_opt_double json j (codes "velocity_sigma_mps")
        attitude_sigma_rad ← read_opt_double json j (codes "attitude_sigma_rad")
        innovation_gate ←
            read_member json get_double j (codes "innovation_gate") def.innovation_gate
        ok (record {
          enabled = enabled;
          options = record {
            min_match_score = min_match_score;
            position_sigma_m = position_sigma_m;
            velocity_sigma_mps = velocity_sigma_mps;
            attitude_sigma_rad = attitude_sigma_rad;
            innovation_gate = innovation_gate;
          };
        })
