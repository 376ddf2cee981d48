-- ===== src/Tests/Core.antt =====
-- Tests of time stamps and of the buffer.
use falcon_guide.Prelude.{◌≡◌, refl, inr, true, List, [], ◌∷◌, ◌++◌, arith, All}
use falcon_guide.Prelude.Int.{ℤ, pos}
use falcon_guide.Core.Time.{Timestamp, compare_timestamps}
use falcon_guide.Core.Time.Laws.{compare_timestamps-flip, flip}
use falcon_guide.Core.Buffer.{
  TimeOrderedBuffer, insert, place, enforce_max_size, pop_until, pop_while,
  inserted_and_dropped_oldest, rejected_not_comparable,
}
use falcon_guide.Core.Buffer.Order.{IsSorted, insert-IsSorted}
use falcon_guide.Core.Buffer.Contents.{Outcome, insert-Outcome, IsBounded, insert-IsBounded}
use falcon_guide.Core.Buffer.Pop.{IsTimed, Past, IsLater, pop_until_splits, pop_until-IsLater}
use falcon_guide.Tests.Values.{whole, whole-IsOrdered, at_ns, at_gps}

-- Time stamps that are their own measurements.
abbrev stamp : Timestamp ℤ → Timestamp ℤ
stamp t = t

abbrev buffer : List (Timestamp ℤ) → TimeOrderedBuffer (Timestamp ℤ)
buffer ms = record { max_size = 2; allow_out_of_order_insert = true; measurements = ms }

abbrev ten_thirty : TimeOrderedBuffer (Timestamp ℤ)
ten_thirty = buffer (at_ns (pos 10) ∷ at_ns (pos 30) ∷ [])

drops_oldest :
    insert stamp ten_thirty (at_ns (pos 20))
    ≡ (buffer (at_ns (pos 20) ∷ at_ns (pos 30) ∷ []), inserted_and_dropped_oldest)
unfolding insert compare_timestamps place enforce_max_size
drops_oldest = refl

other_clock :
    insert stamp ten_thirty (at_gps (pos 1) (pos 5)) ≡ (ten_thirty, rejected_not_comparable)
unfolding insert compare_timestamps
other_clock = refl

pops_two :
    pop_until stamp ten_thirty (at_ns (pos 30)) true
    ≡ (at_ns (pos 10) ∷ at_ns (pos 30) ∷ [], buffer [])
unfolding pop_until pop_while compare_timestamps
pops_two = refl

compare_timestamps-flip_example :
    compare_timestamps (at_ns (pos 30)) (at_ns (pos 10))
    ≡ flip (compare_timestamps (at_ns (pos 10)) (at_ns (pos 30)))
compare_timestamps-flip_example =
    compare_timestamps-flip whole-IsOrdered (at_ns (pos 10)) (at_ns (pos 30))

insert-IsSorted_example : IsSorted stamp (insert stamp ten_thirty (at_ns (pos 20))).0.measurements
unfolding compare_timestamps
insert-IsSorted_example = insert-IsSorted stamp whole-IsOrdered ten_thirty (at_ns (pos 20)) (tt, tt)

insert-Outcome_example :
    Outcome ten_thirty
      (at_ns (pos 20))
      (insert stamp ten_thirty (at_ns (pos 20))).1
      (insert stamp ten_thirty (at_ns (pos 20))).0
insert-Outcome_example = insert-Outcome stamp ten_thirty (at_ns (pos 20))

insert-IsBounded_example : IsBounded (insert stamp ten_thirty (at_ns (pos 20))).0
insert-IsBounded_example = insert-IsBounded stamp ten_thirty (at_ns (pos 20)) (inr (omega arith))

pop_until_splits_example :
    let (popped, b) = pop_until stamp ten_thirty (at_ns (pos 20)) true in
    (popped ++ b.measurements ≡ ten_thirty.measurements)
    × All (IsTimed stamp (at_ns (pos 20)) true) popped
    × Past stamp (at_ns (pos 20)) true b.measurements
    × (b ≡ record ten_thirty { measurements = b.measurements })
pop_until_splits_example = pop_until_splits stamp ten_thirty (at_ns (pos 20)) true

pop_until-IsLater_example :
    All
      (IsLater stamp (at_ns (pos 20)) true)
      (pop_until stamp ten_thirty (at_ns (pos 20)) true).1.measurements
unfolding compare_timestamps
pop_until-IsLater_example =
    pop_until-IsLater stamp ten_thirty (at_ns (pos 20)) true refl (refl, (refl, tt)) (tt, tt)
