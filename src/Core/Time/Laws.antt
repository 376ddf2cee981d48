-- ===== src/Core/Time/Laws.antt =====
-- Laws of the comparison of time stamps.
use falcon_guide.Prelude.{◌≡◌, arith}
use falcon_guide.Core.Double.{Double, IsOrdered}
use falcon_guide.Core.Time.{
  Timestamp, TimestampOrdering, before, equal, after, not_comparable, compare_timestamps,
}

-- The ordering seen from the other side.
abbrev pub flip : TimestampOrdering → TimestampOrdering
flip before = after
flip equal = equal
flip after = before
flip not_comparable = not_comparable

module _ {ℓ} {D : Type ℓ} ⦃d : Double D⦄ (laws : IsOrdered D) where
  -- Exchanging the two time stamps reverses the ordering.
  pub compare_timestamps-flip :
      (s t : Timestamp D) → compare_timestamps t s ≡ flip (compare_timestamps s t)
  unfolding compare_timestamps
  compare_timestamps-flip s t = ground (
    arith,
    laws.lt_asymm s.gps.seconds_of_week t.gps.seconds_of_week,
    laws.lt_asymm t.gps.seconds_of_week s.gps.seconds_of_week,
  )
