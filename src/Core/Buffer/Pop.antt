-- ===== src/Core/Buffer/Pop.antt =====
-- `PopUntil` cuts the buffer in two.
use falcon_guide.Prelude.{
  ◌≡◌, ◌⊎◌, refl, inl, inr, Bool, true, false, List, [], ◌∷◌, ◌++◌, arith, All, Bool-cases,
}
use falcon_guide.Core.Double.{Double}
use falcon_guide.Core.Time.{
  Timestamp, TimestampOrdering, before, equal, after, not_comparable, compare_timestamps,
}
use falcon_guide.Core.Buffer.{TimeOrderedBuffer, should_pop, pop_while, pop_until}
use falcon_guide.Core.Buffer.Order.{IsSorted, Chain, Chain-tail}
use falcon_guide.Core.Buffer.Contents.{HasSteady}

due :
    (q : Bool) (o : TimestampOrdering)
    → should_pop q o ≡ true
    → (o ≡ before) ⊎ ((o ≡ equal) × (q ≡ true))
unfolding should_pop
due q before e = inl refl
due q equal e = inr (refl, e)
due q after e = absurd (cc e)
due q not_comparable e = absurd (cc e)

not_due :
    (q : Bool) (o : TimestampOrdering)
    → should_pop q o ≡ false
    → (o ≡ after) ⊎ ((o ≡ not_comparable) ⊎ ((o ≡ equal) × (q ≡ false)))
unfolding should_pop
not_due q before e = absurd (cc e)
not_due q equal e = inr (inr (refl, e))
not_due q after e = inl refl
not_due q not_comparable e = inr (inl refl)

module _ {ℓ κ} {D : Type ℓ} ⦃d : Double D⦄ {M : Type κ} (get_timestamp : M → Timestamp D) where
  -- Timed before the target, or with it where that counts.
  abbrev pub IsTimed : Timestamp D → Bool → M → Type 0
  IsTimed t include_equal x =
      let o = compare_timestamps (get_timestamp x) t in
      (o ≡ before) ⊎ ((o ≡ equal) × (include_equal ≡ true))

  -- No measurement, or first one that is after the target, or with it where that does not count, or on
  -- another time base.
  abbrev pub Past : Timestamp D → Bool → List M → Type 0
  Past t include_equal [] = Unit
  Past t include_equal (x ∷ xs) =
      let o = compare_timestamps (get_timestamp x) t in
      (o ≡ after) ⊎ ((o ≡ not_comparable) ⊎ ((o ≡ equal) × (include_equal ≡ false)))

  -- Timed after the target, or with it where that does not count.
  abbrev pub IsLater : Timestamp D → Bool → M → Type 0
  IsLater t include_equal x =
      let o = compare_timestamps (get_timestamp x) t in
      (o ≡ after) ⊎ ((o ≡ equal) × (include_equal ≡ false))

  abbrev IsKept : Timestamp D → Bool → M → Type 0
  IsKept t include_equal x =
      should_pop include_equal (compare_timestamps (get_timestamp x) t) ≡ false

  pop_while-append :
      (t : Timestamp D) (q : Bool) (xs : List M)
      → (pop_while get_timestamp t q xs).0 ++ (pop_while get_timestamp t q xs).1 ≡ xs
  unfolding pop_while
  pop_while-append t q [] = refl
  pop_while-append t q (x ∷ xs) = ground (arith, pop_while-append t q xs)

  pop_while-IsTimed :
      (t : Timestamp D) (q : Bool) (xs : List M)
      → All (IsTimed t q) (pop_while get_timestamp t q xs).0
  unfolding pop_while
  pop_while-IsTimed t q [] = tt
  pop_while-IsTimed t q (x ∷ xs) =
      elim (Bool-cases (should_pop q (compare_timestamps (get_timestamp x) t))) [
        | inl e ↦ rw e (due q _ e, pop_while-IsTimed t q xs)
        | inr e ↦ rw e tt
      ]

  IsKept-step :
      (t : Timestamp D) (q : Bool) (x y : M)
      → t.has_steady ≡ true
      → HasSteady get_timestamp x
      → HasSteady get_timestamp y
      → Chain get_timestamp x (y ∷ [])
      → IsKept t q x
      → IsKept t q y
  unfolding should_pop compare_timestamps
  IsKept-step t q x y ht hx hy c l = ground arith

  All-IsKept :
      (t : Timestamp D) (q : Bool) (x : M) (xs : List M)
      → t.has_steady ≡ true
      → All (HasSteady get_timestamp) (x ∷ xs)
      → Chain get_timestamp x xs
      → IsKept t q x
      → All (IsKept t q) (x ∷ xs)
  All-IsKept t q x [] ht h c l = (l, tt)
  All-IsKept t q x (y ∷ ys) ht h c l =
      (l, All-IsKept t q y ys ht h.1 c.1 (IsKept-step t q x y ht h.0 h.1.0 (c.0, tt) l))

  IsKept-IsLater :
      (t : Timestamp D) (q : Bool) (x : M)
      → t.has_steady ≡ true
      → HasSteady get_timestamp x
      → IsKept t q x
      → IsLater t q x
  unfolding compare_timestamps
  IsKept-IsLater t q x ht hx l = elim (not_due q _ l) [
    | inl late ↦ inl late
    | inr (inl never) ↦ absurd (ground arith)
    | inr (inr same) ↦ inr same
  ]

  All-IsLater :
      (t : Timestamp D) (q : Bool) (xs : List M)
      → t.has_steady ≡ true
      → All (HasSteady get_timestamp) xs
      → All (IsKept t q) xs
      → All (IsLater t q) xs
  All-IsLater t q [] ht h l = tt
  All-IsLater t q (x ∷ xs) ht h l = (IsKept-IsLater t q x ht h.0 l.0, All-IsLater t q xs ht h.1 l.1)

  pop_while-IsLater :
      (t : Timestamp D) (q : Bool) (xs : List M)
      → t.has_steady ≡ true
      → All (HasSteady get_timestamp) xs
      → IsSorted get_timestamp xs
      → All (IsLater t q) (pop_while get_timestamp t q xs).1
  unfolding pop_while
  pop_while-IsLater t q [] ht h c = tt
  pop_while-IsLater t q (x ∷ xs) ht h c =
      elim (Bool-cases (should_pop q (compare_timestamps (get_timestamp x) t))) [
        | inl e ↦ rw e (pop_while-IsLater t q xs ht h.1 (Chain-tail get_timestamp x xs c))
        | inr e ↦ rw e (All-IsLater t q (x ∷ xs) ht h (All-IsKept t q x xs ht h c e))
      ]

  pop_while-reaches :
      (t : Timestamp D) (q : Bool) (xs : List M) → Past t q (pop_while get_timestamp t q xs).1
  unfolding pop_while
  pop_while-reaches t q [] = tt
  pop_while-reaches t q (x ∷ xs) =
      elim (Bool-cases (should_pop q (compare_timestamps (get_timestamp x) t))) [
        | inl e ↦ rw e (pop_while-reaches t q xs)
        | inr e ↦ rw e (not_due q _ e)
      ]

  -- `PopUntil` cuts the buffer in two, with nothing lost and the settings kept: what it returns is timed
  -- before the target, or with it where `include_equal` is set, and what it leaves does not begin with
  -- such a measurement.
  pub pop_until_splits :
      (b : TimeOrderedBuffer M) (t : Timestamp D) (q : Bool)
      → let (popped, b') = pop_until get_timestamp b t q in
        (popped ++ b'.measurements ≡ b.measurements)
        × All (IsTimed t q) popped
        × Past t q b'.measurements
        × (b' ≡ record b { measurements = b'.measurements })
  unfolding pop_until
  pop_until_splits b t q = (
    pop_while-append t q b.measurements,
    pop_while-IsTimed t q b.measurements,
    pop_while-reaches t q b.measurements,
    refl,
  )

  -- On a steady clock and a sorted buffer, all that it leaves is timed after the target, or with it where
  -- `include_equal` is not set.
  pub pop_until-IsLater :
      (b : TimeOrderedBuffer M) (t : Timestamp D) (q : Bool)
      → t.has_steady ≡ true
      → All (HasSteady get_timestamp) b.measurements
      → IsSorted get_timestamp b.measurements
      → All (IsLater t q) (pop_until get_timestamp b t q).1.measurements
  unfolding pop_until
  pop_until-IsLater b t q = pop_while-IsLater t q b.measurements
