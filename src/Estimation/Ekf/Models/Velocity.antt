-- ===== src/Estimation/Ekf/Models/Velocity.antt =====
-- wheel_odometry.cpp, external_velocity.cpp, dvl.cpp, airspeed.cpp and optical_flow.cpp of
-- src/estimation/src/backends/ekf/measurement_models.
use falcon_guide.Prelude.{ℕ, Bool, true, false, not, ◌&&◌, Option, none, some, if◌then◌else◌}
use falcon_guide.Prelude.Int.{pos}
use falcon_guide.Core.Double.{Double, Literal}
use falcon_guide.Core.Sensors.{
  DvlReference, DvlMeasurement, WheelOdometryMeasurement, ExternalVelocityMeasurement,
  AirspeedMeasurement, OpticalFlowMeasurement,
}
use falcon_guide.Core.Numerics.{Numerics}
use falcon_guide.Estimation.Interface.{rejected}
use falcon_guide.Estimation.Config.{
  WheelOdometryOptions, ExternalVelocityOptions, DvlOptions, AirspeedOptions, OpticalFlowOptions,
}
use falcon_guide.Estimation.Ekf.Layout.{velocity, attitude, gyro_bias, has}
use falcon_guide.Estimation.Ekf.Estimator.{EkfState, Applied, offset_of}
use falcon_guide.Estimation.Ekf.Estimator.Fuse.{ekf_update}
use falcon_guide.Estimation.Ekf.Models.Shared.{
  value_or, unchanged, where_valid, reject_if, of_vec3, of_mat3, of_sigma,
}

abbrev is_bottom_track : DvlReference → Bool
is_bottom_track DvlReference.bottom_track = true
is_bottom_track _ = false

module _ {ℓ} {D V Q M L : Type ℓ} ⦃d : Double D⦄ ⦃n : Literal D⦄ (num : Numerics D V Q M L) where
  open n use {literal}
  open num use {
    mul, div, vector, v_x, v_y, v_norm, v_sub, v_over, column, to_rotation_matrix, zeros, identity,
    constant, m_mul, m_scale, negate, transpose, apply, block, set_block, set_entry, trace, skew,
  }

  -- `R.transpose() * nominal.velocity_enu_mps`.
  abbrev body_velocity : EkfState D V Q M → V
  body_velocity s =
      apply (transpose (to_rotation_matrix s.nominal.orientation_body_to_enu))
        s.nominal.velocity_enu_mps

  -- The update that `WheelOdometry` and `ExternalVelocity` make, by the velocity and the rate observed, the
  -- two sigmas, and the last rate of the gyroscope.
  unfoldable pub fuse_body_velocity :
      EkfState D V Q M → Bool → V → V → V → D → D → D → Applied D V Q M
  fuse_body_velocity s use_angular_rate v_obs omega_obs latest_gyro s_lin s_ang gate =
      let layout = s.layout in
      let rt = transpose (to_rotation_matrix s.nominal.orientation_body_to_enu) in
      let v_body = body_velocity s in
      let rows : ℕ = if use_angular_rate then 6 else 3 in
      let with_rate = use_angular_rate && has layout gyro_bias in
      let h0 = set_block (zeros rows layout.total_size) 0 (offset_of layout velocity) rt in
      let h1 = set_block h0 0 (offset_of layout attitude) (skew v_body) in
      let h2 = set_block h1 3 (offset_of layout gyro_bias) (negate (identity 3)) in
      let dz0 = set_block (zeros rows 1) 0 0 (column (v_sub v_obs v_body)) in
      let omega_pred = v_sub latest_gyro s.nominal.gyro_bias_radps in
      let dz1 = set_block dz0 3 0 (column (v_sub omega_obs omega_pred)) in
      let r0 = set_block (zeros rows rows) 0 0 (of_sigma num s_lin) in
      let r1 = set_block r0 3 3 (of_sigma num s_ang) in
      ekf_update num s (if with_rate then h2 else h1) (if with_rate then dz1 else dz0)
        (if use_angular_rate then r1 else r0) gate

  unfoldable pub apply_wheel_odometry :
      WheelOdometryOptions D → EkfState D V Q M → WheelOdometryMeasurement D V → Applied D V Q M
  unfolding fuse_body_velocity
  apply_wheel_odometry o s m = where_valid s m.validity (
      fuse_body_velocity s o.use_angular_rate m.linear_velocity_body_mps m.angular_rate_body_radps
        (of_vec3 num o.latest_gyro_radps) o.sigma_linear_mps o.sigma_angular_radps
        o.innovation_gate)

  unfoldable pub apply_external_velocity :
      ExternalVelocityOptions D
      → EkfState D V Q M
      → ExternalVelocityMeasurement D V
      → Applied D V Q M
  unfolding fuse_body_velocity
  apply_external_velocity o s m = where_valid s m.validity (
      fuse_body_velocity s o.use_angular_rate m.linear_velocity_body_mps m.angular_rate_body_radps
        (of_vec3 num o.latest_gyro_radps) (value_or o.sigma_linear_mps (literal (pos 1) 1))
        (value_or o.sigma_angular_radps (literal (pos 5) 2)) o.innovation_gate)

  unfoldable pub apply_dvl :
      DvlOptions D → EkfState D V Q M → DvlMeasurement D V M → Applied D V Q M
  apply_dvl o s m =
      let layout = s.layout in
      let rt = transpose (to_rotation_matrix s.nominal.orientation_body_to_enu) in
      let dt = transpose (of_mat3 num o.dvl_to_body_rotation) in
      let a = m_mul dt rt in
      let v_pred = apply a s.nominal.velocity_enu_mps in
      let h0 = set_block (zeros 3 layout.total_size) 0 (offset_of layout velocity) a in
      let h = set_block h0 0 (offset_of layout attitude) (m_mul dt (skew (body_velocity s))) in
      let r_meas =
        if d.lt (literal (pos 1) 12) (trace m.velocity_covariance_m2ps2)
        then m.velocity_covariance_m2ps2
        else of_sigma num (value_or o.sigma_mps (literal (pos 5) 2)) in
      where_valid s m.validity (
        reject_if s (o.bottom_track_only && not (is_bottom_track m.reference))
          (ekf_update num s h (column (v_sub m.velocity_mps v_pred)) r_meas o.innovation_gate))

  unfoldable pub apply_airspeed :
      AirspeedOptions D → EkfState D V Q M → AirspeedMeasurement D → Applied D V Q M
  apply_airspeed o s m =
      let layout = s.layout in
      let rt = transpose (to_rotation_matrix s.nominal.orientation_body_to_enu) in
      let v_body = apply rt (v_sub s.nominal.velocity_enu_mps (of_vec3 num o.wind_enu_mps)) in
      let h_pred = v_norm v_body in
      let u = transpose (column (v_over v_body h_pred)) in
      let h0 = set_block (zeros 1 layout.total_size) 0 (offset_of layout velocity) (m_mul u rt) in
      let h = set_block h0 0 (offset_of layout attitude) (m_mul u (skew v_body)) in
      where_valid s m.validity (
        reject_if s (d.lt m.airspeed_mps d.nought) (
          reject_if s (d.lt h_pred (literal (pos 1) 3)) (
            ekf_update num s h (constant (d.sub m.airspeed_mps h_pred))
              (constant (mul o.sigma_mps o.sigma_mps)) o.innovation_gate)))

  -- By the integration time, if there is one.
  unfoldable pub fuse_flow :
      OpticalFlowOptions D
      → EkfState D V Q M
      → OpticalFlowMeasurement D
      → Option D
      → Applied D V Q M
  fuse_flow o s m none = unchanged s rejected
  fuse_flow o s m (some dt) =
      let layout = s.layout in
      let z = value_or m.ground_distance_m o.fallback_altitude_m in
      let rt = transpose (to_rotation_matrix s.nominal.orientation_body_to_enu) in
      let v_body = body_velocity s in
      let dz_x = d.sub (mul (div m.integrated_flow_x_rad dt) z) (v_x v_body) in
      let dz_y = d.sub (mul (div m.integrated_flow_y_rad dt) z) (v_y v_body) in
      let dz = set_entry (set_entry (zeros 2 1) 0 0 dz_x) 1 0 dz_y in
      let h0 =
        set_block (zeros 2 layout.total_size) 0 (offset_of layout velocity) (block rt 0 0 2 3) in
      let h = set_block h0 0 (offset_of layout attitude) (block (skew v_body) 0 0 2 3) in
      let sv = mul o.sigma_radps z in
      reject_if s (d.lt dt (literal (pos 1) 6)) (
        reject_if s (d.lt z (literal (pos 1) 1))
          (ekf_update num s h dz (m_scale (identity 2) (mul sv sv)) o.innovation_gate))

  unfoldable pub apply_optical_flow :
      OpticalFlowOptions D → EkfState D V Q M → OpticalFlowMeasurement D → Applied D V Q M
  unfolding fuse_flow
  apply_optical_flow o s m = where_valid s m.validity (fuse_flow o s m m.integration_time_s)
