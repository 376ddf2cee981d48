-- ===== src/App/Config/Nav/RoundTrip.antt =====
-- `NavFromJson` after `NavToJson`.
use falcon_guide.Prelude.{◌≡◌, refl}
use falcon_guide.Prelude.Result.{ok, bind_ok}
use falcon_guide.Core.Double.{Literal}
use falcon_guide.Estimation.Config.{
  EstimatorBackendChoice, ekf, ukf, ceres, gtsam, ImuNoiseModel, MerweSigmaParams,
  NavigationSystemConfig,
}
use falcon_guide.App.Config.Json.{Json, IsJson}
use falcon_guide.App.Config.Json.Reads.{member_ok, read_double-of_double}
use falcon_guide.App.Config.Sensors.RoundTrip.{
  saved_gnss, saved_star_tracker, saved_wheel_odometry, saved_radar_altimeter, saved_external_pose,
  saved_external_velocity, read_gnss-write_gnss, read_barometer-write_barometer,
  read_magnetometer-write_magnetometer, read_star_tracker-write_star_tracker,
  read_wheel_odometry-write_wheel_odometry, read_radar_altimeter-write_radar_altimeter,
  read_range_finder-write_range_finder, read_optical_flow-write_optical_flow, read_dvl-write_dvl,
  read_echo_sounder-write_echo_sounder, read_airspeed-write_airspeed,
  read_external_pose-write_external_pose, read_external_velocity-write_external_velocity,
  read_external_odometry-write_external_odometry, read_aiding_solution-write_aiding_solution,
}
use falcon_guide.App.Config.Nav.{
  backend_of, backend_text, write_noise, write_sigma_params, nav_to_json, read_backend, read_noise,
  read_sigma_params, nav_from_json,
}

backend_lem : (b : EstimatorBackendChoice) → backend_of (backend_text b) ≡ b
unfolding backend_of backend_text
backend_lem ekf = refl
backend_lem ukf = refl
backend_lem ceres = refl
backend_lem gtsam = refl

-- What a file keeps of the settings.
abbrev pub saved {ℓ} :
    {D : Type ℓ} ⦃n : Literal D⦄ → NavigationSystemConfig D → NavigationSystemConfig D
saved cfg = record cfg {
  gnss = saved_gnss cfg.gnss;
  star_tracker = saved_star_tracker cfg.star_tracker;
  wheel_odometry = saved_wheel_odometry cfg.wheel_odometry;
  radar_altimeter = saved_radar_altimeter cfg.radar_altimeter;
  external_pose = saved_external_pose cfg.external_pose;
  external_velocity = saved_external_velocity cfg.external_velocity;
}

module _ {ℓ} {D J W : Type ℓ} ⦃n : Literal D⦄ {json : Json D J W} (laws : IsJson json) where
  read_backend-of_string :
      (b : EstimatorBackendChoice) → read_backend json (json.of_string (backend_text b)) ≡ ok b
  unfolding read_backend
  read_backend-of_string b = bind_ok _ _ (laws.get_string-of_string _) (rw (backend_lem b) refl)

  read_noise-write_noise : (c : ImuNoiseModel D) → read_noise json (write_noise json c) ≡ ok c
  unfolding read_noise write_noise
  read_noise-write_noise c = bind_ok _ _ (read_double-of_double laws _ _ _ refl) (
      bind_ok _ _ (read_double-of_double laws _ _ _ refl) (
        bind_ok _ _ (read_double-of_double laws _ _ _ refl)
          (bind_ok _ _ (read_double-of_double laws _ _ _ refl) refl)))

  read_sigma_params-write :
      (c : MerweSigmaParams D) → read_sigma_params json (write_sigma_params json c) ≡ ok c
  unfolding read_sigma_params write_sigma_params
  read_sigma_params-write c = bind_ok _ _ (read_double-of_double laws _ _ _ refl) (
      bind_ok _ _ (read_double-of_double laws _ _ _ refl)
        (bind_ok _ _ (read_double-of_double laws _ _ _ refl) refl))

  pub nav_from_json-nav_to_json :
      (cfg : NavigationSystemConfig D) → nav_from_json json (nav_to_json json cfg) ≡ ok (saved cfg)
  unfolding nav_from_json nav_to_json
  nav_from_json-nav_to_json cfg =
      bind_ok _ _ (member_ok laws _ _ refl _ _ (read_backend-of_string cfg.backend)) (
        bind_ok _ _ (read_double-of_double laws _ _ _ refl) (
          bind_ok _ _ (read_double-of_double laws _ _ _ refl) (
            bind_ok _ _ (read_double-of_double laws _ _ _ refl) (
              bind_ok _ _ (member_ok laws _ _ refl _ _ (read_noise-write_noise cfg.imu.noise)) (
                bind_ok _ _ (member_ok laws _ _ refl _ _ (read_gnss-write_gnss laws cfg.gnss)) (
                  bind_ok _ _
                    (member_ok laws _ _ refl _ _
                      (read_barometer-write_barometer laws cfg.barometer))
                    (bind_ok _ _
                      (member_ok laws _ _ refl _ _
                        (read_magnetometer-write_magnetometer laws cfg.magnetometer))
                      (bind_ok _ _
                        (member_ok laws _ _ refl _ _
                          (read_star_tracker-write_star_tracker laws cfg.star_tracker))
                        (bind_ok _ _
                          (member_ok laws _ _ refl _ _
                            (read_wheel_odometry-write_wheel_odometry laws cfg.wheel_odometry))
                          (bind_ok _ _
                            (member_ok laws _ _ refl _ _
                              (read_radar_altimeter-write_radar_altimeter laws cfg.radar_altimeter))
                            (bind_ok _ _
                              (member_ok laws _ _ refl _ _
                                (read_range_finder-write_range_finder laws cfg.range_finder))
                              (bind_ok _ _
                                (member_ok laws _ _ refl _ _
                                  (read_optical_flow-write_optical_flow laws cfg.optical_flow))
                                (bind_ok _ _
                                  (member_ok laws _ _ refl _ _ (read_dvl-write_dvl laws cfg.dvl))
                                  (bind_ok _ _
                                    (member_ok laws _ _ refl _ _
                                      (read_echo_sounder-write_echo_sounder laws cfg.echo_sounder))
                                    (bind_ok _ _
                                      (member_ok laws _ _ refl _ _
                                        (read_airspeed-write_airspeed laws cfg.airspeed))
                                      (bind_ok _ _
                                        (member_ok laws _ _ refl _ _ (
                                          read_external_pose-write_external_pose laws
                                            cfg.external_pose))
                                        (bind_ok _ _
                                          (member_ok laws _ _ refl _ _ (
                                            read_external_velocity-write_external_velocity laws
                                              cfg.external_velocity))
                                          (bind_ok _ _
                                            (member_ok laws _ _ refl _ _ (
                                              read_external_odometry-write_external_odometry laws
                                                cfg.external_odometry))
                                            (bind_ok _ _
                                              (member_ok laws _ _ refl _ _ (
                                                read_aiding_solution-write_aiding_solution laws
                                                  cfg.aiding_solution))
                                              (bind_ok _ _
                                                (member_ok laws _ _ refl _ _
                                                  (read_sigma_params-write cfg.ukf_sigma_params))
                                                (refl)))))))))))))))))))))
