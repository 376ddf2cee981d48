-- ===== src/Estimation/Ekf/Estimator/Initialise.antt =====
-- `TryInitialiseFromGnss` of src/estimation/src/backends/ekf/ekf_estimator.cpp.
use falcon_guide.Prelude.{ℕ, ◌+◌, Bool, true, false, some, if◌then◌else◌}
use falcon_guide.Prelude.Int.{ℤ, pos}
use falcon_guide.Core.Double.{Double, Literal}
use falcon_guide.Core.Enums.{GnssFixType, MeasurementValidity}
use falcon_guide.Core.Gnss.{GnssSolution}
use falcon_guide.Core.Numerics.{Numerics}
use falcon_guide.Estimation.Ekf.Layout.{
  StateLayout, position, velocity, attitude, accel_bias, gyro_bias, gnss_clock, has,
}
use falcon_guide.Estimation.Ekf.Estimator.{EkfState, EkfEstimator, offset_of, origin}

abbrev pub is_no_fix : GnssFixType → Bool
is_no_fix GnssFixType.no_fix = true
is_no_fix _ = false

abbrev pub is_valid : MeasurementValidity → Bool
is_valid MeasurementValidity.valid = true
is_valid _ = false

-- A solution from which the filter can start.
unfoldable pub usable_fix {ℓ} : {D V M : Type ℓ} → GnssSolution D V M → Bool
usable_fix gnss = if is_no_fix gnss.fix_type then false else is_valid gnss.validity

module _ {ℓ} {D V Q M L : Type ℓ} ⦃d : Double D⦄ ⦃n : Literal D⦄ (num : Numerics D V Q M L) where
  open n use {literal}
  open num use {
    mul, apply, to_rotation_matrix, zeros, identity, m_mul, m_scale, transpose, set_block,
    set_entry, block, norm, ecef_to_lla, tangent_plane, ecef_to_enu_rotation, no_rotation,
  }

  -- The covariance of three states with this standard deviation.
  abbrev of_sigma : ℤ → ℕ → M
  of_sigma m e = m_scale (identity 3) (mul (literal m e) (literal m e))

  -- Position and velocity: from the solution, unless the covariance of its position is about zero.
  unfoldable pub gnss_covariance : StateLayout → M → GnssSolution D V M → M
  gnss_covariance layout r gnss =
      let n = layout.total_size in
      let pos_seg = offset_of layout position in
      let vel_seg = offset_of layout velocity in
      let p0 =
        set_block (zeros n n) pos_seg pos_seg
          (m_mul (m_mul r gnss.position_covariance_ecef_m2) (transpose r)) in
      let p1 =
        set_block p0 vel_seg vel_seg
          (m_mul (m_mul r gnss.velocity_covariance_ecef_m2ps2) (transpose r)) in
      if d.lt (norm (block p1 pos_seg pos_seg 3 3)) (literal (pos 1) 12)
      then set_block (set_block p1 pos_seg pos_seg (of_sigma (pos 10) 0)) vel_seg vel_seg
          (of_sigma (pos 1) 0)
      else p1

  unfoldable pub initial_covariance : StateLayout → M → GnssSolution D V M → M
  unfolding gnss_covariance
  initial_covariance layout r gnss =
      let p0 = gnss_covariance layout r gnss in
      let att_seg = offset_of layout attitude in
      let aba_seg = offset_of layout accel_bias in
      let gba_seg = offset_of layout gyro_bias in
      let p1 = set_block p0 att_seg att_seg (of_sigma (pos 5) 1) in
      let p2 = set_block p1 aba_seg aba_seg (of_sigma (pos 3) 1) in
      let p3 = set_block p2 gba_seg gba_seg (of_sigma (pos 5) 2) in
      let clk = offset_of layout gnss_clock in
      let bias = mul (literal (pos 100) 0) (literal (pos 100) 0) in
      let drift = mul (literal (pos 10) 0) (literal (pos 10) 0) in
      if has layout gnss_clock
      then set_entry (set_entry p3 clk clk bias) (clk + 1) (clk + 1) drift
      else p3

  -- The state and the tangent plane at the first fix.
  unfoldable pub initial_state : EkfState D V Q M → L → GnssSolution D V M → EkfState D V Q M
  unfolding initial_covariance
  initial_state s ltp gnss =
      let r = ecef_to_enu_rotation ltp in
      let layout = s.layout in
      record s {
        nominal = record s.nominal {
          timestamp = gnss.timestamp;
          position_enu_m = origin num;
          velocity_enu_mps = apply r gnss.velocity_ecef_mps;
          orientation_body_to_enu = no_rotation;
          accel_bias_mps2 = origin num;
          gyro_bias_radps = origin num;
          gnss_clock = if has layout gnss_clock then some (zeros 2 1) else s.nominal.gnss_clock;
        };
        error_state = zeros layout.total_size 1;
        covariance = initial_covariance layout r gnss;
      }

  unfoldable pub try_initialise_from_gnss :
      {A : Type ℓ} → EkfEstimator D V Q M L A → GnssSolution D V M → EkfEstimator D V Q M L A × Bool
  unfolding usable_fix initial_state
  try_initialise_from_gnss e gnss =
      let ltp = tangent_plane (ecef_to_lla gnss.position_ecef_m) in
      if usable_fix gnss
      then (
        record e {
          local_tangent_plane = some ltp;
          state = initial_state e.state ltp gnss;
          initialised = true;
        },
        true,
      )
      else (e, false)
