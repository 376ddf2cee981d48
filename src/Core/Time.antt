-- ===== src/Core/Time.antt =====
-- src/core/include/falconguide/core/time.hpp and time_helpers.hpp. An `int64_t` count of nanoseconds
-- and an `int32_t` week are integers; a difference of two counts is taken not to overflow.
pub mod Laws
use falcon_guide.Prelude.{Bool, true, false, ◌&&◌, Option, none, some, if◌then◌else◌}
use falcon_guide.Prelude.Int.{ℤ, pos, ltb_ℤ, eqb_ℤ, ◌-ℤ◌}
use falcon_guide.Core.Double.{Double}

-- Nanoseconds.
pub record Duration : Type 0 where
  pub value : ℤ

pub record MonotonicTime : Type 0 where
  pub value : ℤ

pub record GpsTime {ℓ} (D : Type ℓ) : Type ℓ where
  pub week : ℤ
  pub seconds_of_week : D

pub record Timestamp {ℓ} (D : Type ℓ) : Type ℓ where
  pub steady : MonotonicTime
  pub gps : GpsTime D
  pub has_steady : Bool
  pub has_gps : Bool

pub data TimestampOrdering : Type 0 where
  before equal after not_comparable : TimestampOrdering

-- `operator-` of two monotonic times.
unfoldable pub steady_sub : MonotonicTime → MonotonicTime → Duration
steady_sub lhs rhs = record { value = lhs.value -ℤ rhs.value }

unfoldable pub compare_steady : MonotonicTime → MonotonicTime → TimestampOrdering
compare_steady lhs rhs =
    if ltb_ℤ lhs.value rhs.value then before else if ltb_ℤ rhs.value lhs.value then after else equal

module _ {ℓ} {D : Type ℓ} ⦃d : Double D⦄ where
  unfoldable pub from_seconds : D → Duration
  from_seconds seconds = record { value = d.to_ns seconds }

  unfoldable pub seconds : Duration → D
  seconds duration = d.of_ns duration.value

  unfoldable pub compare_gps_time : GpsTime D → GpsTime D → TimestampOrdering
  compare_gps_time lhs rhs =
      if ltb_ℤ lhs.week rhs.week
      then before
      else if ltb_ℤ rhs.week lhs.week
      then after
      else if d.lt lhs.seconds_of_week rhs.seconds_of_week
      then before
      else if d.lt rhs.seconds_of_week lhs.seconds_of_week
      then after
      else equal

  unfoldable pub compare_timestamps : Timestamp D → Timestamp D → TimestampOrdering
  unfolding compare_steady compare_gps_time
  compare_timestamps lhs rhs =
      if lhs.has_steady && rhs.has_steady
      then compare_steady lhs.steady rhs.steady
      else if lhs.has_gps && rhs.has_gps
      then compare_gps_time lhs.gps rhs.gps
      else not_comparable

  unfoldable pub is_before : Timestamp D → Timestamp D → Bool
  is_before lhs rhs = elim (compare_timestamps lhs rhs) [ before ↦ true | _ ↦ false ]

  unfoldable pub is_after : Timestamp D → Timestamp D → Bool
  is_after lhs rhs = elim (compare_timestamps lhs rhs) [ after ↦ true | _ ↦ false ]

  unfoldable pub is_equal_time : Timestamp D → Timestamp D → Bool
  is_equal_time lhs rhs = elim (compare_timestamps lhs rhs) [ equal ↦ true | _ ↦ false ]

  unfoldable pub time_difference : Timestamp D → Timestamp D → Option Duration
  unfolding steady_sub from_seconds
  time_difference lhs rhs =
      if lhs.has_steady && rhs.has_steady
      then some (steady_sub lhs.steady rhs.steady)
      else if lhs.has_gps && rhs.has_gps && eqb_ℤ lhs.gps.week rhs.gps.week
      then some (from_seconds (d.sub lhs.gps.seconds_of_week rhs.gps.seconds_of_week))
      else none
