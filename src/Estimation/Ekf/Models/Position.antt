-- ===== src/Estimation/Ekf/Models/Position.antt =====
-- gnss_loosely_coupled.cpp of src/estimation/src/backends/ekf/measurement_models.
use falcon_guide.Prelude.{◌&&◌, Option, none, some, if◌then◌else◌}
use falcon_guide.Core.Double.{Double, Literal}
use falcon_guide.Core.Gnss.{GnssSolution}
use falcon_guide.Core.Numerics.{Numerics}
use falcon_guide.Estimation.Interface.{accepted, rejected, not_initialized}
use falcon_guide.Estimation.Config.{GnssLooselyCoupledOptions}
use falcon_guide.Estimation.Ekf.Layout.{position, velocity}
use falcon_guide.Estimation.Ekf.Estimator.{EkfState, Applied, offset_of}
use falcon_guide.Estimation.Ekf.Estimator.Initialise.{usable_fix}
use falcon_guide.Estimation.Ekf.Models.Shared.{unchanged, of_sigma}

module _ {ℓ} {D V Q M L : Type ℓ} ⦃d : Double D⦄ ⦃n : Literal D⦄ (num : Numerics D V Q M L) where
  open num use {
    v_sub, column, zeros, identity, m_add, m_sub, m_mul, transpose, inverse, solve, apply, block,
    set_block, entry, symmetrize, ecef_to_enu_rotation, ecef_to_enu,
  }

  -- The noise of a sub-block: from the option, or from the covariance of the solution.
  abbrev noise_of : M → Option D → M → M
  noise_of r none covariance = m_mul (m_mul r covariance) (transpose r)
  noise_of r (some sigma) covariance = of_sigma num sigma

  unfoldable pub apply_solution :
      GnssLooselyCoupledOptions D → EkfState D V Q M → GnssSolution D V M → L → Applied D V Q M
  apply_solution o s gnss ltp =
      let p = s.covariance in
      let n = s.layout.total_size in
      let r = ecef_to_enu_rotation ltp in
      let dz_p = v_sub (ecef_to_enu ltp gnss.position_ecef_m) s.nominal.position_enu_m in
      let dz_v = v_sub (apply r gnss.velocity_ecef_mps) s.nominal.velocity_enu_mps in
      let dz = set_block (set_block (zeros 6 1) 0 0 (column dz_p)) 3 0 (column dz_v) in
      let h0 = set_block (zeros 6 n) 0 (offset_of s.layout position) (identity 3) in
      let h = set_block h0 3 (offset_of s.layout velocity) (identity 3) in
      let r_pos = noise_of r o.position_sigma_m gnss.position_covariance_ecef_m2 in
      let r_vel = noise_of r o.velocity_sigma_mps gnss.velocity_covariance_ecef_m2ps2 in
      let r_meas = set_block (set_block (zeros 6 6) 0 0 r_pos) 3 3 r_vel in
      let innovation = m_add (m_mul (m_mul h p) (transpose h)) r_meas in
      let head = block dz 0 0 3 1 in
      let mahal = entry (m_mul (transpose head) (solve (block innovation 0 0 3 3) head)) 0 0 in
      let k = m_mul (m_mul p (transpose h)) (inverse innovation) in
      let ikh = m_sub (identity n) (m_mul k h) in
      if d.lt d.nought o.position_gate && d.lt o.position_gate mahal
      then unchanged s rejected
      else record {
        nominal = s.nominal;
        error_state = m_add s.error_state (m_mul k dz);
        covariance =
            symmetrize
              (m_add (m_mul (m_mul ikh p) (transpose ikh)) (m_mul (m_mul k r_meas) (transpose k)));
        result = accepted;
      }

  unfoldable pub apply_gnss_loosely_coupled :
      GnssLooselyCoupledOptions D
      → EkfState D V Q M
      → GnssSolution D V M
      → Option L
      → Applied D V Q M
  unfolding apply_solution
  apply_gnss_loosely_coupled o s gnss none = unchanged s not_initialized
  apply_gnss_loosely_coupled o s gnss (some ltp) =
      if usable_fix gnss then apply_solution o s gnss ltp else unchanged s rejected
