-- ===== src/Estimation/Ekf/Models/Field.antt =====
-- magnetometer.cpp of src/estimation/src/backends/ekf/measurement_models.
use falcon_guide.Prelude.Int.{pos}
use falcon_guide.Core.Double.{Double, Literal}
use falcon_guide.Core.Numerics.{Numerics}
use falcon_guide.Estimation.Measurement.{MagnetometerMeasurement}
use falcon_guide.Estimation.Config.{MagnetometerOptions}
use falcon_guide.Estimation.Ekf.Layout.{attitude}
use falcon_guide.Estimation.Ekf.Estimator.{EkfState, Applied, offset_of}
use falcon_guide.Estimation.Ekf.Estimator.Fuse.{ekf_update}
use falcon_guide.Estimation.Ekf.Models.Shared.{value_or, where_valid, of_vec3, of_sigma}

module _ {ℓ} {D V Q M L : Type ℓ} ⦃d : Double D⦄ ⦃n : Literal D⦄ (num : Numerics D V Q M L) where
  open num use {
    mul, v_norm, v_sub, column, to_rotation_matrix, zeros, transpose, apply, set_block, skew,
  }

  unfoldable pub apply_magnetometer :
      MagnetometerOptions D → EkfState D V Q M → MagnetometerMeasurement D V → Applied D V Q M
  apply_magnetometer o s m =
      let reference = of_vec3 num o.reference_field_enu_tesla in
      let b_pred =
        apply (transpose (to_rotation_matrix s.nominal.orientation_body_to_enu)) reference in
      let h =
        set_block (zeros 3 s.layout.total_size) 0 (offset_of s.layout attitude) (skew b_pred) in
      let sigma = value_or o.sigma_tesla (mul (v_norm reference) (n.literal (pos 5) 2)) in
      where_valid s m.validity (
        ekf_update num s h (column (v_sub m.magnetic_field_tesla b_pred)) (of_sigma num sigma)
          o.innovation_gate)
