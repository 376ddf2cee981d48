-- ===== src/Estimation/Ekf/Estimator/Propagate.antt =====
-- `PropagateImu` and `PropagateTo` of src/estimation/src/backends/ekf/ekf_estimator.cpp. The loop that splits
-- a gap counts its turns down from `fuel dt`; `none` is a loop that has not ended by then.
use mathlib.Core.Option
use falcon_guide.Prelude.{
  ℕ, zero, suc, ◌+◌, true, not, ◌&&◌, Option, none, some, List, [], ◌∷◌, if◌then◌else◌,
}
use falcon_guide.Prelude.Int.{pos, negsuc}
use falcon_guide.Core.Double.{Double, Literal}
use falcon_guide.Core.Time.{Timestamp, Duration, time_difference, seconds}
use falcon_guide.Core.Buffer.{pop_until}
use falcon_guide.Core.Numerics.{Numerics}
use falcon_guide.Estimation.Config.{ImuNoiseModel}
use falcon_guide.Estimation.Measurement.{ImuMeasurement}
use falcon_guide.Estimation.Ekf.Factory.{EkfOptions}
use falcon_guide.Estimation.Ekf.Layout.{
  StateLayout, position, velocity, attitude, accel_bias, gyro_bias, gnss_clock, has,
}
use falcon_guide.Estimation.Ekf.Estimator.{NominalState, EkfState, EkfEstimator, offset_of}

-- `std::min(a, b)`.
abbrev pub min {ℓ} : {D : Type ℓ} ⦃d : Double D⦄ → D → D → D
min ⦃d⦄ a b = if d.lt b a then b else a

-- `state_.nominal.timestamp = imu.timestamp;`
abbrev pub stamp {ℓ} : {D V Q M : Type ℓ} → ImuMeasurement D V → EkfState D V Q M → EkfState D V Q M
stamp imu s = record s { nominal = record s.nominal { timestamp = imu.timestamp } }

module _ {ℓ} {D V Q M L : Type ℓ} ⦃d : Double D⦄ ⦃n : Literal D⦄ (num : Numerics D V Q M L) where
  open n use {literal}
  open num use {
    mul, vector, v_add, v_sub, v_scale, compose, normalized, to_rotation_matrix, zeros, identity,
    m_add, m_mul, m_scale, negate, transpose, apply, set_block, set_entry, exp_map, skew,
    symmetrize,
  }

  -- The nominal part of `PropagateImu`.
  unfoldable pub propagate_nominal :
      NominalState D V Q M → ImuMeasurement D V → D → NominalState D V Q M
  propagate_nominal nom imu dt =
      let f = v_sub imu.specific_force_mps2 nom.accel_bias_mps2 in
      let omega = v_sub imu.angular_rate_radps nom.gyro_bias_radps in
      let r = to_rotation_matrix nom.orientation_body_to_enu in
      let g_enu = vector d.nought d.nought (literal (negsuc 980664) 5) in
      let a_enu = v_add (apply r f) g_enu in
      record nom {
        position_enu_m =
            v_add (v_add nom.position_enu_m (v_scale nom.velocity_enu_mps dt))
              (v_scale (v_scale (v_scale a_enu (literal (pos 5) 1)) dt) dt);
        velocity_enu_mps = v_add nom.velocity_enu_mps (v_scale a_enu dt);
        orientation_body_to_enu =
            normalized (compose nom.orientation_body_to_enu (exp_map (v_scale omega dt)));
        timestamp = imu.timestamp;
      }

  -- The matrix `F` of the error dynamics, from the bias-corrected readings and the rotation before.
  unfoldable pub dynamics_matrix : StateLayout → M → V → V → M
  dynamics_matrix layout r f omega =
      let n = layout.total_size in
      let pos_seg = offset_of layout position in
      let vel_seg = offset_of layout velocity in
      let att_seg = offset_of layout attitude in
      let f0 = set_block (zeros n n) pos_seg vel_seg (identity 3) in
      let f1 = set_block f0 vel_seg att_seg (m_mul (negate r) (skew f)) in
      let f2 = set_block f1 vel_seg (offset_of layout accel_bias) (negate r) in
      let f3 = set_block f2 att_seg att_seg (negate (skew omega)) in
      let f4 = set_block f3 att_seg (offset_of layout gyro_bias) (negate (identity 3)) in
      let clk = offset_of layout gnss_clock in
      if has layout gnss_clock then set_entry f4 clk (clk + 1) (literal (pos 1) 0) else f4

  -- The matrix `G`, by which the noise enters.
  unfoldable pub noise_input : StateLayout → M → M
  noise_input layout r =
      let g0 = set_block (zeros layout.total_size 12) (offset_of layout velocity) 0 (negate r) in
      let g1 = set_block g0 (offset_of layout attitude) 3 (negate (identity 3)) in
      let g2 = set_block g1 (offset_of layout accel_bias) 6 (identity 3) in
      set_block g2 (offset_of layout gyro_bias) 9 (identity 3)

  -- The matrix `Qc`.
  unfoldable pub noise_density : ImuNoiseModel D → M
  noise_density noise =
      let square = λ (q : D). m_scale (identity 3) (mul q q) in
      let q0 = set_block (zeros 12 12) 0 0 (square noise.accel_noise_density_mps2_per_sqrthz) in
      let q1 = set_block q0 3 3 (square noise.gyro_noise_density_radps_per_sqrthz) in
      let q2 = set_block q1 6 6 (square noise.accel_random_walk_mps3_per_sqrthz) in
      set_block q2 9 9 (square noise.gyro_random_walk_radps2_per_sqrthz)

  unfoldable pub propagate_imu :
      EkfOptions D → EkfState D V Q M → ImuMeasurement D V → D → EkfState D V Q M
  unfolding propagate_nominal dynamics_matrix noise_input noise_density
  propagate_imu options s imu dt =
      let nom = s.nominal in
      let f = v_sub imu.specific_force_mps2 nom.accel_bias_mps2 in
      let omega = v_sub imu.angular_rate_radps nom.gyro_bias_radps in
      let r = to_rotation_matrix nom.orientation_body_to_enu in
      let g = noise_input s.layout r in
      let phi =
        m_add (identity s.layout.total_size) (m_scale (dynamics_matrix s.layout r f omega) dt) in
      let q = m_scale (m_mul (m_mul g (noise_density options.imu_noise)) (transpose g)) dt in
      record s {
        nominal = propagate_nominal nom imu dt;
        covariance = symmetrize (m_add (m_mul (m_mul phi s.covariance) (transpose phi)) q);
      }

  -- The loop `while (remaining > 0.0)`.
  unfoldable pub split_gap :
      ℕ → EkfOptions D → EkfState D V Q M → ImuMeasurement D V → D → Option (EkfState D V Q M)
  split_gap zero options s imu remaining = none
  split_gap (suc fuel) options s imu remaining =
      let step = min remaining options.max_imu_dt_s in
      let rest =
        split_gap fuel options (propagate_imu options s imu step) imu (d.sub remaining step) in
      if d.lt d.nought remaining then rest else some s

  module _ (fuel : D → ℕ) where
    -- The part of the `for` loop of `PropagateTo` after the difference of times.
    unfoldable pub propagate_by :
        EkfOptions D → EkfState D V Q M → ImuMeasurement D V → D → Option (EkfState D V Q M)
    propagate_by options s imu dt =
        if d.lt dt options.min_imu_dt_s
        then some s
        else Option.map (stamp imu) (split_gap (fuel dt) options s imu dt)

    unfoldable pub propagate_gap :
        EkfOptions D
        → EkfState D V Q M
        → ImuMeasurement D V
        → Option Duration
        → Option (EkfState D V Q M)
    unfolding propagate_by
    propagate_gap options s imu none = some s
    propagate_gap options s imu (some dt) = propagate_by options s imu (seconds dt)

    -- One turn of the `for` loop of `PropagateTo`.
    unfoldable pub propagate_one :
        EkfOptions D → EkfState D V Q M → ImuMeasurement D V → Option (EkfState D V Q M)
    unfolding propagate_gap
    propagate_one options s imu =
        let t = s.nominal.timestamp in
        if not t.has_steady && not t.has_gps
        then some (stamp imu s)
        else propagate_gap options s imu (time_difference imu.timestamp t)

    unfoldable pub propagate_batch :
        EkfOptions D → EkfState D V Q M → List (ImuMeasurement D V) → Option (EkfState D V Q M)
    unfolding propagate_one
    propagate_batch options s [] = some s
    propagate_batch options s (imu ∷ rest) = elim (propagate_one options s imu) [
      | none ↦ none
      | some s' ↦ propagate_batch options s' rest
    ]

    unfoldable pub propagate_to :
        {A : Type ℓ} → EkfEstimator D V Q M L A → Timestamp D → Option (EkfEstimator D V Q M L A)
    unfolding propagate_batch
    propagate_to e target =
        let popped = pop_until (λ (m : ImuMeasurement D V). m.timestamp) e.imu_buffer target true in
        Option.map (λ s. record e { state = s; imu_buffer = popped.1 })
          (propagate_batch e.options e.state popped.0)
