-- ===== src/Core/Buffer.antt =====
-- src/core/include/falconguide/core/buffers/time_ordered_buffer.hpp, for any type of measurements
-- with a time stamp. The head of the list is the front of the deque, the oldest measurement.
pub mod Order
pub mod Contents
pub mod Pop
use mathlib.Core.Option
use falcon_guide.Prelude.{
  ℕ, Bool, true, false, ◌||◌, Option, none, some, List, [], ◌∷◌, ◌++◌, length, leb, ◌==◌,
  if◌then◌else◌,
}
use falcon_guide.Core.Double.{Double}
use falcon_guide.Core.Time.{
  Timestamp, TimestampOrdering, before, equal, after, not_comparable, compare_timestamps,
}

pub data BufferInsertResult : Type 0 where
  inserted inserted_and_dropped_oldest rejected_out_of_order rejected_not_comparable :
      BufferInsertResult

pub record TimeOrderedBuffer {ℓ} (M : Type ℓ) : Type ℓ where
  -- Zero means no limit.
  pub max_size : ℕ
  pub allow_out_of_order_insert : Bool
  pub measurements : List M

module _ {ℓ} {M : Type ℓ} where
  -- The last of a list that starts with `x`.
  abbrev pub last : M → List M → M
  last x [] = x
  last x (y ∷ ys) = last y ys

  unfoldable pub make_buffer : ℕ → Bool → TimeOrderedBuffer M
  make_buffer max_size allow = record {
    max_size = max_size;
    allow_out_of_order_insert = allow;
    measurements = [];
  }

  abbrev pub first : List M → Option M
  first [] = none
  first (x ∷ xs) = some x

  abbrev pub final : List M → Option M
  final [] = none
  final (x ∷ xs) = some (last x xs)

  unfoldable pub oldest : TimeOrderedBuffer M → Option M
  oldest b = first b.measurements

  unfoldable pub latest : TimeOrderedBuffer M → Option M
  latest b = final b.measurements

  unfoldable pub clear : TimeOrderedBuffer M → TimeOrderedBuffer M
  clear b = record b { measurements = [] }

  abbrev pub pop_front : List M → List M
  pop_front [] = []
  pop_front (x ∷ xs) = xs

  unfoldable pub enforce_max_size :
      TimeOrderedBuffer M → BufferInsertResult → TimeOrderedBuffer M × BufferInsertResult
  enforce_max_size b result =
      if b.max_size == 0 || leb (length b.measurements) b.max_size
      then (b, result)
      else (record b { measurements = pop_front b.measurements }, inserted_and_dropped_oldest)

  unfoldable pub insert_older :
      TimeOrderedBuffer M → Option (List M) → TimeOrderedBuffer M × BufferInsertResult
  insert_older b none = (b, rejected_not_comparable)
  insert_older b (some ms) = enforce_max_size (record b { measurements = ms }) inserted

unfoldable pub should_pop : Bool → TimestampOrdering → Bool
should_pop include_equal before = true
should_pop include_equal equal = include_equal
should_pop include_equal _ = false

module _ {ℓ κ} {D : Type ℓ} ⦃d : Double D⦄ {M : Type κ} (get_timestamp : M → Timestamp D) where
  -- The `for` loop of `Insert`, which looks for the place of an older measurement; `none` where it
  -- meets a time stamp that cannot be compared.
  unfoldable pub place : M → List M → Option (List M)
  place m [] = some (m ∷ [])
  place m (x ∷ xs) =
      let rest = place m xs in
      elim (compare_timestamps (get_timestamp m) (get_timestamp x)) [
        | before ↦ some (m ∷ x ∷ xs)
        | equal ↦ some (m ∷ x ∷ xs)
        | after ↦ Option.map (λ ys. x ∷ ys) rest
        | not_comparable ↦ none
      ]

  unfoldable pub insert_after :
      TimeOrderedBuffer M
      → M
      → List M
      → TimestampOrdering
      → TimeOrderedBuffer M × BufferInsertResult
  unfolding insert_older
  insert_after b m xs before = enforce_max_size (record b { measurements = xs ++ m ∷ [] }) inserted
  insert_after b m xs equal = enforce_max_size (record b { measurements = xs ++ m ∷ [] }) inserted
  insert_after b m xs not_comparable = (b, rejected_not_comparable)
  insert_after b m xs after =
      if b.allow_out_of_order_insert
      then insert_older b (place m xs)
      else (b, rejected_out_of_order)

  unfoldable pub insert_into :
      TimeOrderedBuffer M → M → List M → TimeOrderedBuffer M × BufferInsertResult
  unfolding insert_after
  insert_into b m [] = (record b { measurements = m ∷ [] }, inserted)
  insert_into b m (x ∷ xs) =
      insert_after b m (x ∷ xs) (compare_timestamps (get_timestamp (last x xs)) (get_timestamp m))

  unfoldable pub insert : TimeOrderedBuffer M → M → TimeOrderedBuffer M × BufferInsertResult
  unfolding insert_into
  insert b m = insert_into b m b.measurements

  -- The `while` loop of `PopUntil`: what is popped, and what stays.
  unfoldable pub pop_while : Timestamp D → Bool → List M → List M × List M
  unfolding should_pop
  pop_while t include_equal [] = ([], [])
  pop_while t include_equal (x ∷ xs) =
      let rest = pop_while t include_equal xs in
      if should_pop include_equal (compare_timestamps (get_timestamp x) t)
      then (x ∷ rest.0, rest.1)
      else ([], x ∷ xs)

  unfoldable pub pop_until : TimeOrderedBuffer M → Timestamp D → Bool → List M × TimeOrderedBuffer M
  pop_until b t include_equal =
      let loop = pop_while t include_equal b.measurements in
      (loop.0, record b { measurements = loop.1 })
