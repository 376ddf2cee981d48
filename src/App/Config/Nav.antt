-- ===== src/App/Config/Nav.antt =====
-- `NavFromJson` and `NavToJson` of src/app/src/config_json.cpp.
pub mod RoundTrip
use falcon_guide.Prelude.{ℕ, List, [], ◌∷◌, if◌then◌else◌}
use falcon_guide.Prelude.Bytes.{codes, same}
use falcon_guide.Prelude.Result.{Result, ok, ◌>>=◌}
use falcon_guide.Core.Double.{Literal}
use falcon_guide.Estimation.Config.{
  EstimatorBackendChoice, ekf, ukf, ceres, gtsam, ImuNoiseModel, MerweSigmaParams,
  NavigationSystemConfig, disabled, default_noise, default_sigma_params, default_gnss,
  default_navigation, default_barometer, default_magnetometer, default_star_tracker,
  default_wheel_odometry, default_radar_altimeter, default_range_finder, default_optical_flow,
  default_dvl, default_echo_sounder, default_airspeed, default_external_pose,
  default_external_velocity, default_external_odometry, default_aiding_solution,
}
use falcon_guide.App.Config.Json.{Json, read_member}
use falcon_guide.App.Config.Sensors.ReadGnss.{read_gnss}
use falcon_guide.App.Config.Sensors.ReadField.{
  read_barometer, read_magnetometer, read_star_tracker, read_airspeed,
}
use falcon_guide.App.Config.Sensors.ReadMotion.{
  read_wheel_odometry, read_external_pose, read_external_velocity, read_external_odometry,
  read_aiding_solution,
}
use falcon_guide.App.Config.Sensors.ReadRange.{
  read_radar_altimeter, read_range_finder, read_optical_flow, read_dvl, read_echo_sounder,
}
use falcon_guide.App.Config.Sensors.Write.{
  write_gnss, write_barometer, write_magnetometer, write_star_tracker, write_wheel_odometry,
  write_radar_altimeter, write_range_finder, write_optical_flow, write_dvl, write_echo_sounder,
  write_airspeed, write_external_pose, write_external_velocity, write_external_odometry,
  write_aiding_solution,
}

unfoldable pub backend_of : List ℕ → EstimatorBackendChoice
backend_of text =
    if same text (codes "UKF")
    then ukf
    else if same text (codes "Ceres")
    then ceres
    else if same text (codes "GTSAM")
    then gtsam
    else ekf

unfoldable pub backend_text : EstimatorBackendChoice → List ℕ
backend_text ukf = codes "UKF"
backend_text ceres = codes "Ceres"
backend_text gtsam = codes "GTSAM"
backend_text ekf = codes "EKF"

module _ {ℓ} {D J W : Type ℓ} (json : Json D J W) where
  open json use {of_object, of_double, of_string, get_double, get_string}

  unfoldable pub write_noise : ImuNoiseModel D → J
  write_noise c = of_object (
      (codes "accel_noise_density", of_double c.accel_noise_density_mps2_per_sqrthz)
      ∷ (codes "gyro_noise_density", of_double c.gyro_noise_density_radps_per_sqrthz)
      ∷ (codes "accel_random_walk", of_double c.accel_random_walk_mps3_per_sqrthz)
      ∷ (codes "gyro_random_walk", of_double c.gyro_random_walk_radps2_per_sqrthz)
      ∷ [])

  unfoldable pub write_sigma_params : MerweSigmaParams D → J
  write_sigma_params c = of_object (
      (codes "alpha", of_double c.alpha)
      ∷ (codes "beta", of_double c.beta)
      ∷ (codes "kappa", of_double c.kappa)
      ∷ [])

  unfoldable pub nav_to_json : NavigationSystemConfig D → J
  nav_to_json cfg = of_object (
      (codes "backend", of_string (backend_text cfg.backend))
      ∷ (codes "dead_reckoning_threshold_s", of_double cfg.dead_reckoning_threshold_s)
      ∷ (codes "min_imu_dt_s", of_double cfg.min_imu_dt_s)
      ∷ (codes "max_imu_dt_s", of_double cfg.max_imu_dt_s)
      ∷ (codes "imu", write_noise cfg.imu.noise)
      ∷ (codes "gnss", write_gnss json cfg.gnss)
      ∷ (codes "barometer", write_barometer json cfg.barometer)
      ∷ (codes "magnetometer", write_magnetometer json cfg.magnetometer)
      ∷ (codes "star_tracker", write_star_tracker json cfg.star_tracker)
      ∷ (codes "wheel_odometry", write_wheel_odometry json cfg.wheel_odometry)
      ∷ (codes "radar_altimeter", write_radar_altimeter json cfg.radar_altimeter)
      ∷ (codes "range_finder", write_range_finder json cfg.range_finder)
      ∷ (codes "optical_flow", write_optical_flow json cfg.optical_flow)
      ∷ (codes "dvl", write_dvl json cfg.dvl)
      ∷ (codes "echo_sounder", write_echo_sounder json cfg.echo_sounder)
      ∷ (codes "airspeed", write_airspeed json cfg.airspeed)
      ∷ (codes "external_pose", write_external_pose json cfg.external_pose)
      ∷ (codes "external_velocity", write_external_velocity json cfg.external_velocity)
      ∷ (codes "external_odometry", write_external_odometry json cfg.external_odometry)
      ∷ (codes "aiding_solution", write_aiding_solution json cfg.aiding_solution)
      ∷ (codes "ukf_sigma", write_sigma_params cfg.ukf_sigma_params)
      ∷ [])

  unfoldable pub read_backend : J → Result EstimatorBackendChoice
  read_backend j = do text ← get_string j; ok (backend_of text)

  module _ ⦃n : Literal D⦄ where
    unfoldable pub read_noise : J → Result (ImuNoiseModel D)
    read_noise j = do
      accel ←
          read_member json get_double j (codes "accel_noise_density")
            default_noise.accel_noise_density_mps2_per_sqrthz
      gyro ←
          read_member json get_double j (codes "gyro_noise_density")
            default_noise.gyro_noise_density_radps_per_sqrthz
      accel_walk ←
          read_member json get_double j (codes "accel_random_walk")
            default_noise.accel_random_walk_mps3_per_sqrthz
      gyro_walk ←
          read_member json get_double j (codes "gyro_random_walk")
            default_noise.gyro_random_walk_radps2_per_sqrthz
      ok (record {
        accel_noise_density_mps2_per_sqrthz = accel;
        gyro_noise_density_radps_per_sqrthz = gyro;
        accel_random_walk_mps3_per_sqrthz = accel_walk;
        gyro_random_walk_radps2_per_sqrthz = gyro_walk;
      })

    unfoldable pub read_sigma_params : J → Result (MerweSigmaParams D)
    read_sigma_params j = do
      alpha ← read_member json get_double j (codes "alpha") default_sigma_params.alpha
      beta ← read_member json get_double j (codes "beta") default_sigma_params.beta
      kappa ← read_member json get_double j (codes "kappa") default_sigma_params.kappa
      ok (record { alpha = alpha; beta = beta; kappa = kappa })

    unfoldable pub nav_from_json : J → Result (NavigationSystemConfig D)
    nav_from_json j =
        let def = default_navigation in
        do
          backend ← read_member json read_backend j (codes "backend") def.backend
          threshold ←
              read_member json get_double j (codes "dead_reckoning_threshold_s")
                def.dead_reckoning_threshold_s
          min_dt ← read_member json get_double j (codes "min_imu_dt_s") def.min_imu_dt_s
          max_dt ← read_member json get_double j (codes "max_imu_dt_s") def.max_imu_dt_s
          noise ← read_member json read_noise j (codes "imu") def.imu.noise
          gnss ← read_member json (read_gnss json) j (codes "gnss") def.gnss
          barometer ← read_member json (read_barometer json) j (codes "barometer") def.barometer
          magnetometer ←
              read_member json (read_magnetometer json) j (codes "magnetometer") def.magnetometer
          star_tracker ←
              read_member json (read_star_tracker json) j (codes "star_tracker") def.star_tracker
          wheel_odometry ←
              read_member json (read_wheel_odometry json) j (codes "wheel_odometry")
                def.wheel_odometry
          radar_altimeter ←
              read_member json (read_radar_altimeter json) j (codes "radar_altimeter")
                def.radar_altimeter
          range_finder ←
              read_member json (read_range_finder json) j (codes "range_finder") def.range_finder
          optical_flow ←
              read_member json (read_optical_flow json) j (codes "optical_flow") def.optical_flow
          dvl ← read_member json (read_dvl json) j (codes "dvl") def.dvl
          echo_sounder ←
              read_member json (read_echo_sounder json) j (codes "echo_sounder") def.echo_sounder
          airspeed ← read_member json (read_airspeed json) j (codes "airspeed") def.airspeed
          external_pose ←
              read_member json (read_external_pose json) j (codes "external_pose") def.external_pose
          external_velocity ←
              read_member json (read_external_velocity json) j (codes "external_velocity")
                def.external_velocity
          external_odometry ←
              read_member json (read_external_odometry json) j (codes "external_odometry")
                def.external_odometry
          aiding_solution ←
              read_member json (read_aiding_solution json) j (codes "aiding_solution")
                def.aiding_solution
          sigma_params ←
              read_member json read_sigma_params j (codes "ukf_sigma") def.ukf_sigma_params
          ok (record {
            imu = record { noise = noise };
            gnss = gnss;
            barometer = barometer;
            magnetometer = magnetometer;
            star_tracker = star_tracker;
            wheel_odometry = wheel_odometry;
            radar_altimeter = radar_altimeter;
            range_finder = range_finder;
            optical_flow = optical_flow;
            dvl = dvl;
            echo_sounder = echo_sounder;
            airspeed = airspeed;
            external_pose = external_pose;
            external_velocity = external_velocity;
            external_odometry = external_odometry;
            aiding_solution = aiding_solution;
            backend = backend;
            ukf_sigma_params = sigma_params;
            dead_reckoning_threshold_s = threshold;
            min_imu_dt_s = min_dt;
            max_imu_dt_s = max_dt;
          })
