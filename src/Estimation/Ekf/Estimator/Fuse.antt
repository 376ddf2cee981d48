-- ===== src/Estimation/Ekf/Estimator/Fuse.antt =====
-- `InjectErrorAndReset` of src/estimation/src/backends/ekf/ekf_estimator.cpp, and `EkfUpdate` of
-- src/estimation/include/falconguide/estimation/backends/ekf/measurement_models/ekf_update.hpp.
use falcon_guide.Prelude.{◌&&◌, Option, none, some, if◌then◌else◌}
use falcon_guide.Core.Double.{Double}
use falcon_guide.Core.Numerics.{Numerics}
use falcon_guide.Estimation.Interface.{accepted, rejected}
use falcon_guide.Estimation.Ekf.Layout.{
  StateSegmentId, StateLayout, position, velocity, attitude, accel_bias, gyro_bias, gnss_clock, has,
}
use falcon_guide.Estimation.Ekf.Estimator.{EkfState, Applied, offset_of, size_of}

module _ {ℓ} {D V Q M L : Type ℓ} ⦃d : Double D⦄ (num : Numerics D V Q M L) where
  open num use {
    v_add, to_vector, compose, normalized, exp_map, zeros, identity, rows, m_add, m_sub, m_mul,
    transpose, inverse, solve, block, entry, symmetrize,
  }

  -- `dx.segment(s.offset, s.size)`.
  abbrev pub part : StateLayout → M → StateSegmentId → M
  part layout dx id = block dx (offset_of layout id) 0 (size_of layout id) 1

  unfoldable pub inject_clock : StateLayout → M → Option M → Option M
  inject_clock layout dx none = none
  inject_clock layout dx (some clock) =
      if has layout gnss_clock then some (m_add clock (part layout dx gnss_clock)) else some clock

  unfoldable pub inject_error_and_reset : EkfState D V Q M → EkfState D V Q M
  unfolding inject_clock
  inject_error_and_reset s =
      let nom = s.nominal in
      let dx = part s.layout s.error_state in
      record s {
        nominal = record nom {
          position_enu_m = v_add nom.position_enu_m (to_vector (dx position));
          velocity_enu_mps = v_add nom.velocity_enu_mps (to_vector (dx velocity));
          orientation_body_to_enu =
              normalized (compose nom.orientation_body_to_enu (exp_map (to_vector (dx attitude))));
          accel_bias_mps2 = v_add nom.accel_bias_mps2 (to_vector (dx accel_bias));
          gyro_bias_radps = v_add nom.gyro_bias_radps (to_vector (dx gyro_bias));
          gnss_clock = inject_clock s.layout s.error_state nom.gnss_clock;
        };
        error_state = zeros (rows s.error_state) 1;
      }

  -- The part of `EkfUpdate` after the gate.
  unfoldable pub joseph_update : EkfState D V Q M → M → M → M → Applied D V Q M
  joseph_update s h dz r_meas =
      let p = s.covariance in
      let pht = m_mul p (transpose h) in
      let k = m_mul pht (inverse (m_add (m_mul h pht) r_meas)) in
      let ikh = m_sub (identity (rows p)) (m_mul k h) in
      record {
        nominal = s.nominal;
        error_state = m_add s.error_state (m_mul k dz);
        covariance =
            symmetrize
              (m_add (m_mul (m_mul ikh p) (transpose ikh)) (m_mul (m_mul k r_meas) (transpose k)));
        result = accepted;
      }

  -- An update that changes nothing.
  abbrev pub refuse : EkfState D V Q M → Applied D V Q M
  refuse s = record {
    nominal = s.nominal;
    error_state = s.error_state;
    covariance = s.covariance;
    result = rejected;
  }

  -- `EkfUpdate`; the gate is open where it is not above zero.
  unfoldable pub ekf_update : EkfState D V Q M → M → M → M → D → Applied D V Q M
  unfolding joseph_update
  ekf_update s h dz r_meas gate =
      let pht = m_mul s.covariance (transpose h) in
      let innovation = m_add (m_mul h pht) r_meas in
      let mahal = entry (m_mul (transpose dz) (solve innovation dz)) 0 0 in
      if d.lt d.nought gate && d.lt gate mahal then refuse s else joseph_update s h dz r_meas
