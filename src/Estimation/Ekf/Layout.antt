-- ===== src/Estimation/Ekf/Layout.antt =====
-- src/estimation/include/falconguide/estimation/backends/ekf/state_layout.hpp, and `BuildLayout` of
-- src/estimation/src/backends/ekf/ekf_estimator.cpp. The asserts of `Register` are left out: a build may
-- have none, and a segment that is registered again is then written over.
pub mod Ranges
use falcon_guide.Prelude.{
  ℕ, ◌+◌, Bool, true, false, Option, none, some, List, [], ◌∷◌, ◌==◌, if◌then◌else◌,
}

pub data StateSegmentId : Type 0 where
  position velocity attitude accel_bias gyro_bias gnss_clock baro_bias : StateSegmentId

pub record StateSegment : Type 0 where
  pub offset : ℕ
  pub size : ℕ

-- `segments` has the last registered first; the first entry of an identity is the one in the map.
pub record StateLayout : Type 0 where
  pub segments : List (StateSegmentId × StateSegment)
  pub total_size : ℕ

-- The place of an identity in the enumeration.
abbrev number : StateSegmentId → ℕ
number position = 0
number velocity = 1
number attitude = 2
number accel_bias = 3
number gyro_bias = 4
number gnss_clock = 5
number baro_bias = 6

abbrev pub same_id : StateSegmentId → StateSegmentId → Bool
same_id a b = number a == number b

unfoldable pub register : StateLayout → StateSegmentId → ℕ → StateLayout
register layout id size = record {
  segments = (id, record { offset = layout.total_size; size = size }) ∷ layout.segments;
  total_size = layout.total_size + size;
}

abbrev pub lookup : List (StateSegmentId × StateSegment) → StateSegmentId → Option StateSegment
lookup [] id = none
lookup ((key, segment) ∷ rest) id = if same_id key id then some segment else lookup rest id

-- `Get`; `none` where `at` throws.
unfoldable pub get : StateLayout → StateSegmentId → Option StateSegment
get layout id = lookup layout.segments id

unfoldable pub has : StateLayout → StateSegmentId → Bool
unfolding get
has layout id = elim (get layout id) [ none ↦ false | some segment ↦ true ]

unfoldable pub make_standard_layout : StateLayout
unfolding register
make_standard_layout =
    let empty : StateLayout = record { segments = []; total_size = 0 } in
    register
      (register (register (register (register empty position 3) velocity 3) attitude 3) accel_bias
        3)
      gyro_bias 3

unfoldable pub make_tightly_coupled_layout : StateLayout
unfolding register make_standard_layout
make_tightly_coupled_layout = register make_standard_layout gnss_clock 2

-- `BuildLayout`, by the two options.
unfoldable pub build_layout : Bool → Bool → StateLayout
unfolding register make_standard_layout
build_layout enable_gnss_clock_state enable_baro_bias_state =
    let layout =
      if enable_gnss_clock_state
      then register make_standard_layout gnss_clock 2
      else make_standard_layout in
    if enable_baro_bias_state then register layout baro_bias 1 else layout
