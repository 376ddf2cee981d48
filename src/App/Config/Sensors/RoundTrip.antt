-- ===== src/App/Config/Sensors/RoundTrip.antt =====
-- Each block reads what the same block wrote: the settings, but for the members that it does not write,
-- which have their default values.
use falcon_guide.Prelude.{◌≡◌, refl}
use falcon_guide.Prelude.Result.{ok, bind_ok}
use falcon_guide.Core.Double.{Literal}
use falcon_guide.Estimation.Config.{
  SensorConfig, GnssSensorConfig, GnssIntegrationMode, loosely_coupled, tightly_coupled,
  GnssLooselyCoupledOptions, GnssTightlyCoupledOptions, BarometerOptions, MagnetometerOptions,
  StarTrackerOptions, WheelOdometryOptions, RadarAltimeterOptions, RangeFinderOptions,
  OpticalFlowOptions, DvlOptions, EchoSounderOptions, AirspeedOptions, ExternalPoseOptions,
  ExternalVelocityOptions, ExternalOdometryOptions, AidingSolutionOptions,
  default_gnss_tightly_coupled, default_star_tracker, default_wheel_odometry,
  default_radar_altimeter, default_external_pose, default_external_velocity,
}
use falcon_guide.App.Config.Json.{Json, IsJson}
use falcon_guide.App.Config.Json.Reads.{
  member_ok, read_double-of_double, read_bool-of_bool, value_double-of_double, value_bool-of_bool,
  value_string-of_string, read_opt_double-write_opt_double, read_vec3-write_vec3,
  read_mat3-write_mat3,
}
use falcon_guide.App.Config.Sensors.ReadGnss.{
  gnss_mode, read_loosely_coupled, read_tightly_coupled, read_gnss,
}
use falcon_guide.App.Config.Sensors.ReadField.{
  read_barometer, read_magnetometer, read_star_tracker, read_airspeed,
}
use falcon_guide.App.Config.Sensors.ReadMotion.{
  read_wheel_odometry, read_external_pose, read_external_velocity, read_external_odometry,
  read_aiding_solution,
}
use falcon_guide.App.Config.Sensors.ReadRange.{
  read_radar_altimeter, read_range_finder, read_optical_flow, read_dvl, read_echo_sounder,
}
use falcon_guide.App.Config.Sensors.Write.{
  mode_text, write_loosely_coupled, write_tightly_coupled, write_gnss, write_barometer,
  write_magnetometer, write_star_tracker, write_wheel_odometry, write_radar_altimeter,
  write_range_finder, write_optical_flow, write_dvl, write_echo_sounder, write_airspeed,
  write_external_pose, write_external_velocity, write_external_odometry, write_aiding_solution,
}

module _ {ℓ} {D : Type ℓ} ⦃n : Literal D⦄ where
  -- What a file keeps of the settings of a sensor.
  abbrev pub saved_gnss : GnssSensorConfig D → GnssSensorConfig D
  saved_gnss c = record c {
    tightly_coupled = record c.tightly_coupled {
      min_satellites = (default_gnss_tightly_coupled {D = D}).min_satellites;
    };
  }

  abbrev pub saved_star_tracker :
      SensorConfig (StarTrackerOptions D) → SensorConfig (StarTrackerOptions D)
  saved_star_tracker c = record c {
    options = record c.options {
      star_tracker_to_body = (default_star_tracker {D = D}).star_tracker_to_body;
    };
  }

  abbrev pub saved_wheel_odometry :
      SensorConfig (WheelOdometryOptions D) → SensorConfig (WheelOdometryOptions D)
  saved_wheel_odometry c = record c {
    options = record c.options {
      latest_gyro_radps = (default_wheel_odometry {D = D}).latest_gyro_radps;
    };
  }

  abbrev pub saved_radar_altimeter :
      SensorConfig (RadarAltimeterOptions D) → SensorConfig (RadarAltimeterOptions D)
  saved_radar_altimeter c = record c {
    options = record c.options {
      terrain_elevation_m = (default_radar_altimeter {D = D}).terrain_elevation_m;
      sigma_m = (default_radar_altimeter {D = D}).sigma_m;
    };
  }

  abbrev pub saved_external_pose :
      SensorConfig (ExternalPoseOptions D) → SensorConfig (ExternalPoseOptions D)
  saved_external_pose c = record c {
    options = record c.options {
      position_sigma_m = (default_external_pose {D = D}).position_sigma_m;
      orientation_sigma_rad = (default_external_pose {D = D}).orientation_sigma_rad;
    };
  }

  abbrev pub saved_external_velocity :
      SensorConfig (ExternalVelocityOptions D) → SensorConfig (ExternalVelocityOptions D)
  saved_external_velocity c = record c {
    options = record c.options {
      sigma_linear_mps = (default_external_velocity {D = D}).sigma_linear_mps;
      sigma_angular_radps = (default_external_velocity {D = D}).sigma_angular_radps;
      latest_gyro_radps = (default_external_velocity {D = D}).latest_gyro_radps;
    };
  }

mode_lem : (m : GnssIntegrationMode) → gnss_mode (mode_text m) ≡ m
unfolding gnss_mode mode_text
mode_lem loosely_coupled = refl
mode_lem tightly_coupled = refl

module _ {ℓ} {D J W : Type ℓ} ⦃n : Literal D⦄ {json : Json D J W} (laws : IsJson json) where
  read_loosely_coupled-write :
      (o : GnssLooselyCoupledOptions D)
      → read_loosely_coupled json (write_loosely_coupled json o) ≡ ok o
  unfolding read_loosely_coupled write_loosely_coupled
  read_loosely_coupled-write o = bind_ok _ _ (read_opt_double-write_opt_double laws _ _ _ refl) (
      bind_ok _ _ (read_opt_double-write_opt_double laws _ _ _ refl)
        (bind_ok _ _ (read_double-of_double laws _ _ _ refl) refl))

  read_tightly_coupled-write :
      (o : GnssTightlyCoupledOptions D)
      → read_tightly_coupled json (write_tightly_coupled json o)
        ≡ ok (record o { min_satellites = (default_gnss_tightly_coupled {D = D}).min_satellites })
  unfolding read_tightly_coupled write_tightly_coupled
  read_tightly_coupled-write o = bind_ok _ _ (read_double-of_double laws _ _ _ refl) (
      bind_ok _ _ (read_double-of_double laws _ _ _ refl) (
        bind_ok _ _ (read_double-of_double laws _ _ _ refl)
          (bind_ok _ _ (read_double-of_double laws _ _ _ refl) refl)))

  pub read_gnss-write_gnss :
      (c : GnssSensorConfig D) → read_gnss json (write_gnss json c) ≡ ok (saved_gnss c)
  unfolding read_gnss write_gnss
  read_gnss-write_gnss c = bind_ok _ _ (value_bool-of_bool laws _ _ _ refl) (
      bind_ok _ _ (value_string-of_string laws _ _ _ refl) (
        bind_ok _ _ (member_ok laws _ _ refl _ _ (read_loosely_coupled-write c.loosely_coupled)) (
          bind_ok _ _ (member_ok laws _ _ refl _ _ (read_tightly_coupled-write c.tightly_coupled))
            (rw (mode_lem c.mode) refl))))

  pub read_barometer-write_barometer :
      (c : SensorConfig (BarometerOptions D)) → read_barometer json (write_barometer json c) ≡ ok c
  unfolding read_barometer write_barometer
  read_barometer-write_barometer c = bind_ok _ _ (value_bool-of_bool laws _ _ _ refl) (
      bind_ok _ _ (read_opt_double-write_opt_double laws _ _ _ refl) (
        bind_ok _ _ (value_double-of_double laws _ _ _ refl)
          (bind_ok _ _ (value_double-of_double laws _ _ _ refl) (refl))))

  pub read_magnetometer-write_magnetometer :
      (c : SensorConfig (MagnetometerOptions D))
      → read_magnetometer json (write_magnetometer json c) ≡ ok c
  unfolding read_magnetometer write_magnetometer
  read_magnetometer-write_magnetometer c = bind_ok _ _ (value_bool-of_bool laws _ _ _ refl) (
      bind_ok _ _ (read_vec3-write_vec3 laws _ _ _ refl) (
        bind_ok _ _ (read_opt_double-write_opt_double laws _ _ _ refl)
          (bind_ok _ _ (value_double-of_double laws _ _ _ refl) (refl))))

  pub read_star_tracker-write_star_tracker :
      (c : SensorConfig (StarTrackerOptions D))
      → read_star_tracker json (write_star_tracker json c) ≡ ok (saved_star_tracker c)
  unfolding read_star_tracker write_star_tracker
  read_star_tracker-write_star_tracker c = bind_ok _ _ (value_bool-of_bool laws _ _ _ refl) (
      bind_ok _ _ (read_double-of_double laws _ _ _ refl) (
        bind_ok _ _ (read_double-of_double laws _ _ _ refl) (
          bind_ok _ _ (read_double-of_double laws _ _ _ refl) (
            bind_ok _ _ (read_bool-of_bool laws _ _ _ refl)
              (bind_ok _ _ (read_double-of_double laws _ _ _ refl) (refl))))))

  pub read_wheel_odometry-write_wheel_odometry :
      (c : SensorConfig (WheelOdometryOptions D))
      → read_wheel_odometry json (write_wheel_odometry json c) ≡ ok (saved_wheel_odometry c)
  unfolding read_wheel_odometry write_wheel_odometry
  read_wheel_odometry-write_wheel_odometry c = bind_ok _ _ (value_bool-of_bool laws _ _ _ refl) (
      bind_ok _ _ (read_double-of_double laws _ _ _ refl) (
        bind_ok _ _ (read_double-of_double laws _ _ _ refl) (
          bind_ok _ _ (read_bool-of_bool laws _ _ _ refl)
            (bind_ok _ _ (read_double-of_double laws _ _ _ refl) (refl)))))

  pub read_radar_altimeter-write_radar_altimeter :
      (c : SensorConfig (RadarAltimeterOptions D))
      → read_radar_altimeter json (write_radar_altimeter json c) ≡ ok (saved_radar_altimeter c)
  unfolding read_radar_altimeter write_radar_altimeter
  read_radar_altimeter-write_radar_altimeter c =
      bind_ok _ _ (value_bool-of_bool laws _ _ _ refl)
        (bind_ok _ _ (read_double-of_double laws _ _ _ refl) (refl))

  pub read_range_finder-write_range_finder :
      (c : SensorConfig (RangeFinderOptions D))
      → read_range_finder json (write_range_finder json c) ≡ ok c
  unfolding read_range_finder write_range_finder
  read_range_finder-write_range_finder c = bind_ok _ _ (value_bool-of_bool laws _ _ _ refl) (
      bind_ok _ _ (read_double-of_double laws _ _ _ refl) (
        bind_ok _ _ (read_bool-of_bool laws _ _ _ refl) (
          bind_ok _ _ (read_double-of_double laws _ _ _ refl) (
            bind_ok _ _ (read_opt_double-write_opt_double laws _ _ _ refl)
              (bind_ok _ _ (read_double-of_double laws _ _ _ refl) (refl))))))

  pub read_optical_flow-write_optical_flow :
      (c : SensorConfig (OpticalFlowOptions D))
      → read_optical_flow json (write_optical_flow json c) ≡ ok c
  unfolding read_optical_flow write_optical_flow
  read_optical_flow-write_optical_flow c = bind_ok _ _ (value_bool-of_bool laws _ _ _ refl) (
      bind_ok _ _ (read_double-of_double laws _ _ _ refl) (
        bind_ok _ _ (read_double-of_double laws _ _ _ refl)
          (bind_ok _ _ (read_double-of_double laws _ _ _ refl) (refl))))

  pub read_dvl-write_dvl :
      (c : SensorConfig (DvlOptions D)) → read_dvl json (write_dvl json c) ≡ ok c
  unfolding read_dvl write_dvl
  read_dvl-write_dvl c = bind_ok _ _ (value_bool-of_bool laws _ _ _ refl) (
      bind_ok _ _ (read_mat3-write_mat3 laws _ _ refl) (
        bind_ok _ _ (read_bool-of_bool laws _ _ _ refl) (
          bind_ok _ _ (read_opt_double-write_opt_double laws _ _ _ refl)
            (bind_ok _ _ (read_double-of_double laws _ _ _ refl) (refl)))))

  pub read_echo_sounder-write_echo_sounder :
      (c : SensorConfig (EchoSounderOptions D))
      → read_echo_sounder json (write_echo_sounder json c) ≡ ok c
  unfolding read_echo_sounder write_echo_sounder
  read_echo_sounder-write_echo_sounder c = bind_ok _ _ (value_bool-of_bool laws _ _ _ refl) (
      bind_ok _ _ (read_double-of_double laws _ _ _ refl) (
        bind_ok _ _ (read_double-of_double laws _ _ _ refl) (
          bind_ok _ _ (read_opt_double-write_opt_double laws _ _ _ refl)
            (bind_ok _ _ (read_double-of_double laws _ _ _ refl) (refl)))))

  pub read_airspeed-write_airspeed :
      (c : SensorConfig (AirspeedOptions D)) → read_airspeed json (write_airspeed json c) ≡ ok c
  unfolding read_airspeed write_airspeed
  read_airspeed-write_airspeed c = bind_ok _ _ (value_bool-of_bool laws _ _ _ refl) (
      bind_ok _ _ (read_vec3-write_vec3 laws _ _ _ refl) (
        bind_ok _ _ (read_double-of_double laws _ _ _ refl)
          (bind_ok _ _ (read_double-of_double laws _ _ _ refl) (refl))))

  pub read_external_pose-write_external_pose :
      (c : SensorConfig (ExternalPoseOptions D))
      → read_external_pose json (write_external_pose json c) ≡ ok (saved_external_pose c)
  unfolding read_external_pose write_external_pose
  read_external_pose-write_external_pose c = bind_ok _ _ (value_bool-of_bool laws _ _ _ refl) (
      bind_ok _ _ (read_bool-of_bool laws _ _ _ refl) (
        bind_ok _ _ (read_bool-of_bool laws _ _ _ refl)
          (bind_ok _ _ (read_double-of_double laws _ _ _ refl) (refl))))

  pub read_external_velocity-write_external_velocity :
      (c : SensorConfig (ExternalVelocityOptions D))
      → read_external_velocity json (write_external_velocity json c)
        ≡ ok (saved_external_velocity c)
  unfolding read_external_velocity write_external_velocity
  read_external_velocity-write_external_velocity c =
      bind_ok _ _ (value_bool-of_bool laws _ _ _ refl) (
        bind_ok _ _ (read_bool-of_bool laws _ _ _ refl)
          (bind_ok _ _ (read_double-of_double laws _ _ _ refl) (refl)))

  pub read_external_odometry-write_external_odometry :
      (c : SensorConfig (ExternalOdometryOptions D))
      → read_external_odometry json (write_external_odometry json c) ≡ ok c
  unfolding read_external_odometry write_external_odometry
  read_external_odometry-write_external_odometry c =
      bind_ok _ _ (value_bool-of_bool laws _ _ _ refl) (
        bind_ok _ _ (read_bool-of_bool laws _ _ _ refl) (
          bind_ok _ _ (read_bool-of_bool laws _ _ _ refl) (
            bind_ok _ _ (read_bool-of_bool laws _ _ _ refl) (
              bind_ok _ _ (read_opt_double-write_opt_double laws _ _ _ refl) (
                bind_ok _ _ (read_opt_double-write_opt_double laws _ _ _ refl) (
                  bind_ok _ _ (read_opt_double-write_opt_double laws _ _ _ refl)
                    (bind_ok _ _ (read_double-of_double laws _ _ _ refl) (refl))))))))

  pub read_aiding_solution-write_aiding_solution :
      (c : SensorConfig (AidingSolutionOptions D))
      → read_aiding_solution json (write_aiding_solution json c) ≡ ok c
  unfolding read_aiding_solution write_aiding_solution
  read_aiding_solution-write_aiding_solution c = bind_ok _ _ (value_bool-of_bool laws _ _ _ refl) (
      bind_ok _ _ (read_double-of_double laws _ _ _ refl) (
        bind_ok _ _ (read_opt_double-write_opt_double laws _ _ _ refl) (
          bind_ok _ _ (read_opt_double-write_opt_double laws _ _ _ refl) (
            bind_ok _ _ (read_opt_double-write_opt_double laws _ _ _ refl)
              (bind_ok _ _ (read_double-of_double laws _ _ _ refl) (refl))))))
