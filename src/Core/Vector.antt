-- ===== src/Core/Vector.antt =====
-- The values of Eigen's `Vector3d`, `Matrix3d` and `Quaterniond` as their components; the operations on
-- them are not modelled here.
use falcon_guide.Core.Double.{Literal}
use falcon_guide.Prelude.Int.{pos}

pub record Vec3 {ℓ} (D : Type ℓ) : Type ℓ where
  pub x : D
  pub y : D
  pub z : D

-- By rows.
pub record Mat3 {ℓ} (D : Type ℓ) : Type ℓ where
  pub row_0 : Vec3 D
  pub row_1 : Vec3 D
  pub row_2 : Vec3 D

pub record Quaternion {ℓ} (D : Type ℓ) : Type ℓ where
  pub w : D
  pub x : D
  pub y : D
  pub z : D

module _ {ℓ} {D : Type ℓ} ⦃n : Literal D⦄ where
  open n use {literal}

  abbrev pub zero_vector : Vec3 D
  zero_vector = record { x = literal (pos 0) 0; y = literal (pos 0) 0; z = literal (pos 0) 0 }

  abbrev pub identity_matrix : Mat3 D
  identity_matrix = record {
    row_0 = record zero_vector { x = literal (pos 1) 0 };
    row_1 = record zero_vector { y = literal (pos 1) 0 };
    row_2 = record zero_vector { z = literal (pos 1) 0 };
  }

  abbrev pub identity_quaternion : Quaternion D
  identity_quaternion = record {
    w = literal (pos 1) 0;
    x = literal (pos 0) 0;
    y = literal (pos 0) 0;
    z = literal (pos 0) 0;
  }
