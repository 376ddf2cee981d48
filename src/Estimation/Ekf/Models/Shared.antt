-- ===== src/Estimation/Ekf/Models/Shared.antt =====
-- What the models share: `value_or`, conversions, and the scalar update that the models of height make.
use falcon_guide.Prelude.{ℕ, ◌+◌, Bool, Option, none, some, if◌then◌else◌}
use falcon_guide.Core.Double.{Double, Literal}
use falcon_guide.Core.Vector.{Vec3, Mat3}
use falcon_guide.Core.Enums.{MeasurementValidity}
use falcon_guide.Core.Numerics.{Numerics}
use falcon_guide.Estimation.Interface.{EstimatorUpdateResult, rejected}
use falcon_guide.Estimation.Ekf.Layout.{position}
use falcon_guide.Estimation.Ekf.Estimator.{EkfState, Applied, offset_of}
use falcon_guide.Estimation.Ekf.Estimator.Initialise.{is_valid}
use falcon_guide.Estimation.Ekf.Estimator.Fuse.{ekf_update}

abbrev pub value_or {ℓ} : {D : Type ℓ} → Option D → D → D
value_or none x = x
value_or (some y) x = y

-- `Apply` returns this result and changes nothing.
abbrev pub unchanged {ℓ} :
    {D V Q M : Type ℓ} → EkfState D V Q M → EstimatorUpdateResult → Applied D V Q M
unchanged s result = record {
  nominal = s.nominal;
  error_state = s.error_state;
  covariance = s.covariance;
  result = result;
}

-- An early return on a measurement that does not pass.
abbrev pub where_valid {ℓ} :
    {D V Q M : Type ℓ} → EkfState D V Q M → MeasurementValidity → Applied D V Q M → Applied D V Q M
where_valid s validity rest = if is_valid validity then rest else unchanged s rejected

abbrev pub reject_if {ℓ} :
    {D V Q M : Type ℓ} → EkfState D V Q M → Bool → Applied D V Q M → Applied D V Q M
reject_if s test rest = if test then unchanged s rejected else rest

module _ {ℓ} {D V Q M L : Type ℓ} ⦃d : Double D⦄ ⦃n : Literal D⦄ (num : Numerics D V Q M L) where
  open num use {mul, vector, zeros, identity, constant, m_scale, set_entry, set_block}

  abbrev pub of_vec3 : Vec3 D → V
  of_vec3 v = vector v.x v.y v.z

  abbrev of_row : M → ℕ → Vec3 D → M
  of_row m r v = set_entry (set_entry (set_entry m r 0 v.x) r 1 v.y) r 2 v.z

  abbrev pub of_mat3 : Mat3 D → M
  of_mat3 m = of_row (of_row (of_row (zeros 3 3) 0 m.row_0) 1 m.row_1) 2 m.row_2

  -- `Matrix3d::Identity() * (s * s)`.
  abbrev pub of_sigma : D → M
  of_sigma s = m_scale (identity 3) (mul s s)

  -- The update by one number that depends on the height: its derivative, the innovation and the sigma.
  unfoldable pub height_update : EkfState D V Q M → D → D → D → D → Applied D V Q M
  height_update s slope dz sigma gate =
      let h = set_entry (zeros 1 s.layout.total_size) 0 (offset_of s.layout position + 2) slope in
      ekf_update num s h (constant dz) (constant (mul sigma sigma)) gate
