-- ===== src/Estimation/Ekf/Estimator.antt =====
-- The state of `EkfEstimator`: src/estimation/include/falconguide/estimation/backends/ekf/ekf_estimator.hpp,
-- ekf_state.hpp and measurement_models/measurement_model.hpp. The numerics and the measurement models are
-- interfaces; `A` is the type of the models, and `P` that of the members of measurements that none reads.
pub mod Propagate
pub mod Fuse
pub mod Initialise
pub mod Output
pub mod Calls
pub mod Loop
pub mod Invariant
pub mod Starting
pub mod Keeps
pub mod Runs
pub mod Aiding
use Prim.Native.String.{String}
use falcon_guide.Prelude.{ℕ, Bool, true, false, Option, none, some, List}
use falcon_guide.Prelude.Int.{pos}
use falcon_guide.Core.Double.{Double, Literal}
use falcon_guide.Core.Time.{Timestamp}
use falcon_guide.Core.Buffer.{TimeOrderedBuffer, make_buffer}
use falcon_guide.Core.Numerics.{Numerics}
use falcon_guide.Estimation.Interface.{EstimatorUpdateResult}
use falcon_guide.Estimation.Measurement.{ImuMeasurement, SensorMeasurement}
use falcon_guide.Estimation.Ekf.Factory.{EkfOptions}
use falcon_guide.Estimation.Ekf.Layout.{
  StateSegmentId, StateSegment, StateLayout, get, build_layout,
}

pub record NominalState {ℓ} (D V Q M : Type ℓ) : Type ℓ where
  pub timestamp : Timestamp D
  pub position_enu_m : V
  pub velocity_enu_mps : V
  pub orientation_body_to_enu : Q
  pub accel_bias_mps2 : V
  pub gyro_bias_radps : V
  pub gnss_clock : Option M

pub record EkfState {ℓ} (D V Q M : Type ℓ) : Type ℓ where
  pub nominal : NominalState D V Q M
  pub error_state : M
  pub covariance : M
  pub layout : StateLayout

-- What `Apply` writes to its reference arguments, and returns.
pub record Applied {ℓ} (D V Q M : Type ℓ) : Type ℓ where
  pub nominal : NominalState D V Q M
  pub error_state : M
  pub covariance : M
  pub result : EstimatorUpdateResult

-- `IMeasurementModel`; the context is the local tangent plane, where there is one.
pub record IMeasurementModel {ℓ} (D V Q M L P A : Type ℓ) : Type ℓ where
  pub name : A → String
  pub can_handle : A → SensorMeasurement D V M P → Bool
  pub apply_model : A → EkfState D V Q M → SensorMeasurement D V M P → Option L → Applied D V Q M

-- The members. A call holds the mutex from start to end.
pub record EkfEstimator {ℓ} (D V Q M L A : Type ℓ) : Type ℓ where
  pub options : EkfOptions D
  pub initialised : Bool
  pub state : EkfState D V Q M
  pub measurement_models : List A
  pub imu_buffer : TimeOrderedBuffer (ImuMeasurement D V)
  pub last_aiding_timestamp : Option (Timestamp D)
  pub local_tangent_plane : Option L

abbrev pub imu_capacity : ℕ
imu_capacity = 2000

-- The layout that `BuildLayout` makes by the options.
abbrev pub layout_by {ℓ} : {D : Type ℓ} → EkfOptions D → StateLayout
layout_by o = build_layout o.enable_gnss_clock_state o.enable_baro_bias_state

module _ {ℓ} {D V Q M L : Type ℓ} ⦃d : Double D⦄ ⦃n : Literal D⦄ (num : Numerics D V Q M L) where
  open num use {vector, no_rotation, zeros}

  -- `Timestamp{}`.
  abbrev pub no_time : Timestamp D
  no_time = record {
    steady = record { value = pos 0 };
    gps = record { week = pos 0; seconds_of_week = d.nought };
    has_steady = false;
    has_gps = false;
  }

  abbrev pub origin : V
  origin = vector d.nought d.nought d.nought

  -- `NominalState{}`.
  abbrev pub default_nominal : NominalState D V Q M
  default_nominal = record {
    timestamp = no_time;
    position_enu_m = origin;
    velocity_enu_mps = origin;
    orientation_body_to_enu = no_rotation;
    accel_bias_mps2 = origin;
    gyro_bias_radps = origin;
    gnss_clock = none;
  }

  -- The state with the layout of the options, without error or covariance.
  abbrev pub fresh_state : EkfOptions D → EkfState D V Q M
  fresh_state o =
      let layout = layout_by o in
      record {
        nominal = default_nominal;
        error_state = zeros layout.total_size 1;
        covariance = zeros layout.total_size layout.total_size;
        layout = layout;
      }

  -- The constructor, and `RegisterMeasurementModel` of each of the models.
  unfoldable pub make_ekf : {A : Type ℓ} → EkfOptions D → List A → EkfEstimator D V Q M L A
  unfolding make_buffer
  make_ekf options models = record {
    options = options;
    initialised = false;
    state = fresh_state options;
    measurement_models = models;
    imu_buffer = make_buffer imu_capacity true;
    last_aiding_timestamp = none;
    local_tangent_plane = none;
  }

-- The place of a segment, which the layout of every filter has: `Get` throws where it has none.
abbrev pub offset_of : StateLayout → StateSegmentId → ℕ
offset_of layout id = elim (get layout id) [ none ↦ 0 | some s ↦ s.offset ]

abbrev pub size_of : StateLayout → StateSegmentId → ℕ
size_of layout id = elim (get layout id) [ none ↦ 0 | some s ↦ s.size ]
