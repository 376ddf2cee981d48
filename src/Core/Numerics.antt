-- ===== src/Core/Numerics.antt =====
-- What the filters use of Eigen, of `double` and of the geometry of CORE/coordinates.hpp and math.hpp: a
-- parameter, since it is arithmetic in floating point. `V` is the type of vectors of three, `Q` that of
-- quaternions, `M` that of matrices and of vectors of any length, and `L` that of local tangent planes.
use falcon_guide.Prelude.{ℕ}
use falcon_guide.Core.Gnss.{Lla}

pub record Numerics {ℓ} (D V Q M L : Type ℓ) : Type ℓ where
  -- Of `double`.
  pub add : D → D → D
  pub mul : D → D → D
  pub div : D → D → D
  pub negative : D → D
  pub sqrt : D → D
  pub pow : D → D → D
  -- Of `Vector3d`; `scale` is `v * s`, `v / s` is `v_over v s`, and `to_vector` and `column`
  -- convert from and to a matrix of one column.
  pub vector : D → D → D → V
  pub v_x : V → D
  pub v_y : V → D
  pub v_z : V → D
  pub v_norm : V → D
  pub v_add : V → V → V
  pub v_sub : V → V → V
  pub v_scale : V → D → V
  pub v_over : V → D → V
  pub to_vector : M → V
  pub column : V → M
  -- Of `Quaterniond`.
  pub no_rotation : Q
  pub compose : Q → Q → Q
  pub normalized : Q → Q
  pub to_rotation_matrix : Q → M
  -- Of `MatrixXd` and `VectorXd`. `block m r c h w` is the block of height `h` and width `w` at row `r` and
  -- column `c`, and `set_block m r c b` is `m` with `b` written there. `solve m b` is `m.ldlt().solve(b)`.
  pub zeros : ℕ → ℕ → M
  pub identity : ℕ → M
  pub constant : D → M
  pub rows : M → ℕ
  pub m_add : M → M → M
  pub m_sub : M → M → M
  pub m_mul : M → M → M
  pub m_scale : M → D → M
  pub negate : M → M
  pub transpose : M → M
  pub inverse : M → M
  pub solve : M → M → M
  pub apply : M → V → V
  pub block : M → ℕ → ℕ → ℕ → ℕ → M
  pub set_block : M → ℕ → ℕ → M → M
  pub entry : M → ℕ → ℕ → D
  pub set_entry : M → ℕ → ℕ → D → M
  pub trace : M → D
  pub norm : M → D
  -- `ExpMapSo3`, `SkewSymmetric`, `SymmetrizeCovariance`, `EcefToLla` and `LocalTangentPlane`.
  pub exp_map : V → Q
  pub skew : V → M
  pub symmetrize : M → M
  pub ecef_to_lla : V → Lla D
  pub tangent_plane : Lla D → L
  pub ecef_to_enu_rotation : L → M
  pub enu_to_ecef : L → V → V
  pub ecef_to_enu : L → V → V
