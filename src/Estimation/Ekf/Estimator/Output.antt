-- ===== src/Estimation/Ekf/Estimator/Output.antt =====
-- `BuildNavigationState` of src/estimation/src/backends/ekf/ekf_estimator.cpp.
use falcon_guide.Prelude.{Bool, false, ◌&&◌, Option, none, some, List, [], ◌∷◌, leb, if◌then◌else◌}
use falcon_guide.Prelude.Int.{pos}
use falcon_guide.Core.Double.{Double, Literal}
use falcon_guide.Core.Enums.{NavigationStatus, EstimatorMode, SensorHealth}
use falcon_guide.Core.Time.{Timestamp, time_difference, seconds}
use falcon_guide.Core.Numerics.{Numerics}
use falcon_guide.Estimation.Ekf.Layout.{StateSegmentId, position, velocity, attitude}
use falcon_guide.Estimation.Ekf.Estimator.{EkfEstimator, offset_of}

-- The members of `NavigationState` that the filter sets; an option that is `none` keeps its default.
pub record Output {ℓ} (D V Q M : Type ℓ) : Type ℓ where
  pub timestamp : Timestamp D
  pub position_enu_m : V
  pub velocity_enu_mps : V
  pub orientation_body_to_enu : Q
  pub position_ecef_m : Option V
  pub velocity_ecef_mps : Option V
  pub covariance : Option M
  pub initialized : Bool
  pub position_accuracy_m : Option D
  pub velocity_accuracy_mps : Option D
  pub attitude_accuracy_rad : Option D
  pub status : NavigationStatus
  pub mode : EstimatorMode
  pub imu_health : SensorHealth
  pub imu_used : Bool

abbrev mode_by {ℓ} : {A : Type ℓ} → List A → EstimatorMode
mode_by [] = EstimatorMode.inertial_only
mode_by (model ∷ rest) = EstimatorMode.multi_sensor_fusion

module _ {ℓ} {D : Type ℓ} ⦃d : Double D⦄ where
  -- Whether the last aiding is longer ago than the threshold; not where the times cannot be compared.
  unfoldable pub is_old : D → Timestamp D → Timestamp D → Bool
  is_old threshold now last = elim (time_difference now last) [
    | none ↦ false
    | some age ↦ d.lt threshold (seconds age)
  ]

  unfoldable pub aiding_status : D → Timestamp D → Option (Timestamp D) → NavigationStatus
  unfolding is_old
  aiding_status threshold now none = NavigationStatus.dead_reckoning
  aiding_status threshold now (some last) =
      if now.has_steady && last.has_steady
      then if is_old threshold now last
        then NavigationStatus.dead_reckoning
        else NavigationStatus.nominal
      else NavigationStatus.dead_reckoning

module _ {ℓ} {D V Q M L A : Type ℓ} ⦃d : Double D⦄ ⦃n : Literal D⦄ (num : Numerics D V Q M L) where
  open num use {apply, transpose, ecef_to_enu_rotation, enu_to_ecef, block, trace, sqrt, div}

  abbrev accuracy : EkfEstimator D V Q M L A → StateSegmentId → Option D
  accuracy e id =
      let o = offset_of e.state.layout id in
      if e.initialised
      then some (sqrt (div (trace (block e.state.covariance o o 3 3)) (n.literal (pos 3) 0)))
      else none

  unfoldable pub build_navigation_state : EkfEstimator D V Q M L A → Output D V Q M
  unfolding aiding_status
  build_navigation_state e =
      let nom = e.state.nominal in
      record {
        timestamp = nom.timestamp;
        position_enu_m = nom.position_enu_m;
        velocity_enu_mps = nom.velocity_enu_mps;
        orientation_body_to_enu = nom.orientation_body_to_enu;
        position_ecef_m = elim e.local_tangent_plane [
          | none ↦ none
          | some ltp ↦ some (enu_to_ecef ltp nom.position_enu_m)
        ];
        velocity_ecef_mps = elim e.local_tangent_plane [
          | none ↦ none
          | some ltp ↦ some (apply (transpose (ecef_to_enu_rotation ltp)) nom.velocity_enu_mps)
        ];
        covariance =
            if leb 15 e.state.layout.total_size
            then some (block e.state.covariance 0 0 15 15)
            else none;
        initialized = e.initialised;
        position_accuracy_m = accuracy e position;
        velocity_accuracy_mps = accuracy e velocity;
        attitude_accuracy_rad = accuracy e attitude;
        status =
            if e.initialised
            then aiding_status e.options.dead_reckoning_threshold_s nom.timestamp
                e.last_aiding_timestamp
            else NavigationStatus.not_initialized;
        mode = if e.initialised then mode_by e.measurement_models else EstimatorMode.unknown;
        imu_health = if e.initialised then SensorHealth.healthy else SensorHealth.unknown;
        imu_used = e.initialised;
      }
