-- ===== src/Tests/Values.antt =====
-- Values that stand for floating-point numbers in the tests: whole nanoseconds.
use falcon_guide.Prelude.{true, false, arith}
use falcon_guide.Prelude.Int.{ℤ, pos, ltb_ℤ, ◌-ℤ◌}
use falcon_guide.Core.Double.{Double, IsOrdered}
use falcon_guide.Core.Time.{Timestamp}

instance abbrev pub whole : Double ℤ
whole = record { nought = pos 0; lt = ltb_ℤ; sub = ◌-ℤ◌; to_ns = λ s. s; of_ns = λ n. n }

pub whole-IsOrdered : IsOrdered ℤ
whole-IsOrdered = record { lt_asymm = λ x y h. ground arith }

-- A time stamp of the steady clock.
abbrev pub at_ns : ℤ → Timestamp ℤ
at_ns ns = record {
  steady = record { value = ns };
  gps = record { week = pos 0; seconds_of_week = pos 0 };
  has_steady = true;
  has_gps = false;
}

-- A time stamp of GPS time.
abbrev pub at_gps : ℤ → ℤ → Timestamp ℤ
at_gps week s = record {
  steady = record { value = pos 0 };
  gps = record { week = week; seconds_of_week = s };
  has_steady = false;
  has_gps = true;
}
