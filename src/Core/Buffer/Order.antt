-- ===== src/Core/Buffer/Order.antt =====
-- The order of the buffered measurements.
use falcon_guide.Prelude.{
  ◌≡◌, refl, inl, inr, ◌⊎◌, some, List, [], ◌∷◌, ◌++◌, arith, subst, Option-cases, Bool-cases,
}
use mathlib.Core.Option.{some-injective}
use falcon_guide.Core.Double.{Double, IsOrdered}
use falcon_guide.Core.Time.{
  Timestamp, TimestampOrdering, before, equal, after, not_comparable, compare_timestamps,
}
use falcon_guide.Core.Time.Laws.{compare_timestamps-flip}
use falcon_guide.Core.Buffer.{
  TimeOrderedBuffer, BufferInsertResult, last, pop_front, enforce_max_size, place, insert_after,
  insert_into, insert,
}

abbrev pub IsInOrder : TimestampOrdering → Type 0
IsInOrder before = Unit
IsInOrder equal = Unit
IsInOrder after = ⊥
IsInOrder not_comparable = ⊥

pub ordering_cases : (o : TimestampOrdering) → IsInOrder o ⊎ ((o ≡ after) ⊎ (o ≡ not_comparable))
ordering_cases before = inl tt
ordering_cases equal = inl tt
ordering_cases after = inr (inl refl)
ordering_cases not_comparable = inr (inr refl)

module _ {ℓ κ} {D : Type ℓ} ⦃d : Double D⦄ {M : Type κ} (get_timestamp : M → Timestamp D) where
  -- `x` is timed no later than `y`, on a time basis that both have.
  infix 4 ◌≼◌
  abbrev pub ◌≼◌ : M → M → Type 0
  x ≼ y = IsInOrder (compare_timestamps (get_timestamp x) (get_timestamp y))

  -- Each measurement is timed no later than the next, from `p` on.
  abbrev pub Chain : M → List M → Type 0
  Chain p [] = Unit
  Chain p (x ∷ xs) = (p ≼ x) × Chain x xs

  abbrev pub IsSorted : List M → Type 0
  IsSorted [] = Unit
  IsSorted (x ∷ xs) = Chain x xs

  pub Chain-tail : (p : M) (xs : List M) → Chain p xs → IsSorted xs
  Chain-tail p [] c = tt
  Chain-tail p (x ∷ xs) c = c.1

  Chain-snoc : (p m : M) (xs : List M) → last p xs ≼ m → Chain p xs → Chain p (xs ++ m ∷ [])
  Chain-snoc p m [] h c = (h, tt)
  Chain-snoc p m (x ∷ xs) h c = (c.0, Chain-snoc x m xs h c.1)

  enforce_max_size-IsSorted :
      (b : TimeOrderedBuffer M) (r : BufferInsertResult)
      → IsSorted b.measurements
      → IsSorted (enforce_max_size b r).0.measurements
  unfolding enforce_max_size
  enforce_max_size-IsSorted b r s = grind (arith, pop_front-IsSorted b.measurements s)
    where
      pop_front-IsSorted : (xs : List M) → IsSorted xs → IsSorted (pop_front xs)
      pop_front-IsSorted [] h = tt
      pop_front-IsSorted (x ∷ xs) h = Chain-tail x xs h

  module _ (laws : IsOrdered D) where
    place-Chain :
        (p m : M) (xs : List M) {ys : List M}
        → place get_timestamp m xs ≡ some ys
        → p ≼ m
        → Chain p xs
        → Chain p ys
    unfolding place
    place-Chain p m [] e h c = subst (Chain p) (some-injective _ _ e) (h, tt)
    place-Chain p m (x ∷ xs) e h c = elim (Option-cases (place get_timestamp m xs)) [
      | inl n ↦ ground (arith, n)
      | inr (zs, n) ↦ ground (
        arith,
        n,
        place-Chain x m xs n,
        compare_timestamps-flip laws (get_timestamp m) (get_timestamp x),
      )
    ]

    place-IsSorted :
        (m : M) (xs : List M) {ys : List M}
        → place get_timestamp m xs ≡ some ys
        → IsSorted xs
        → IsSorted ys
    unfolding place
    place-IsSorted m [] e c = subst IsSorted (some-injective _ _ e) tt
    place-IsSorted m (x ∷ xs) e c = elim (Option-cases (place get_timestamp m xs)) [
      | inl n ↦ ground (arith, n)
      | inr (zs, n) ↦ ground (
        arith,
        n,
        place-Chain x m xs n,
        compare_timestamps-flip laws (get_timestamp m) (get_timestamp x),
      )
    ]

    insert_after-IsSorted :
        (b : TimeOrderedBuffer M) (m x : M) (xs : List M) (o : TimestampOrdering)
        → b.measurements ≡ x ∷ xs
        → compare_timestamps (get_timestamp (last x xs)) (get_timestamp m) ≡ o
        → Chain x xs
        → IsSorted (insert_after get_timestamp b m (x ∷ xs) o).0.measurements
    unfolding insert_after
    insert_after-IsSorted b m x xs before e h c =
        enforce_max_size-IsSorted _ _ (Chain-snoc x m xs (rw h tt) c)
    insert_after-IsSorted b m x xs equal e h c =
        enforce_max_size-IsSorted _ _ (Chain-snoc x m xs (rw h tt) c)
    insert_after-IsSorted b m x xs not_comparable e h c = rw e c
    insert_after-IsSorted b m x xs after e h c = elim (Bool-cases b.allow_out_of_order_insert) [
      | inr f ↦ rw (f, e) c
      | inl t ↦ elim (Option-cases (place get_timestamp m (x ∷ xs))) [
        | inl n ↦ rw (t, n, e) c
        | inr (zs, n) ↦ rw (t, n) (enforce_max_size-IsSorted _ _ (place-IsSorted m (x ∷ xs) n c))
      ]
    ]

    insert_into-IsSorted :
        (b : TimeOrderedBuffer M) (m : M) (xs : List M)
        → b.measurements ≡ xs
        → IsSorted xs
        → IsSorted (insert_into get_timestamp b m xs).0.measurements
    unfolding insert_into
    insert_into-IsSorted b m [] e c = tt
    insert_into-IsSorted b m (x ∷ xs) e c = insert_after-IsSorted b m x xs _ e refl c

    -- `Insert` keeps each measurement timed no later than the next one, on a time base that the two
    -- share, whatever bases they carry, whether it accepts the new one or not and whether or not it
    -- drops the oldest.
    pub insert-IsSorted :
        (b : TimeOrderedBuffer M) (m : M)
        → IsSorted b.measurements
        → IsSorted (insert get_timestamp b m).0.measurements
    unfolding insert
    insert-IsSorted b m c = insert_into-IsSorted b m b.measurements refl c
