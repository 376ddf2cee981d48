-- ===== src/Core/Buffer/Contents.antt =====
-- What `Insert` does to the contents of the buffer, result by result.
use mathlib.Core.List.{Perm, perm_middle, append-nil}
use mathlib.Core.List.Perm
use mathlib.Core.Option.{some-injective}
use falcon_guide.Prelude.{
  ap, ◌+◌, ◌≤◌, ◌<◌, ◌≡◌, refl, inl, inr, ◌⊎◌, ◌≢◌, true, false, none, some, List, [], ◌∷◌, ◌++◌,
  arith, subst, sym, Option-cases, Bool-cases, length, length-append, All, ◌==◌, leb, ◌||◌,
}
use falcon_guide.Core.Double.{Double}
use falcon_guide.Core.Time.{
  Timestamp, TimestampOrdering, before, equal, after, not_comparable, compare_timestamps,
}
use falcon_guide.Core.Buffer.{
  TimeOrderedBuffer, BufferInsertResult, last, enforce_max_size, place, insert_after, insert_into,
  insert, inserted, inserted_and_dropped_oldest, rejected_out_of_order, rejected_not_comparable,
}

abbrev pub IsAccepted : BufferInsertResult → Type 0
IsAccepted inserted = Unit
IsAccepted inserted_and_dropped_oldest = Unit
IsAccepted rejected_out_of_order = ⊥
IsAccepted rejected_not_comparable = ⊥

module _ {ℓ} {M : Type ℓ} where
  -- The limit holds; zero means that there is none.
  abbrev pub IsBounded : TimeOrderedBuffer M → Type 0
  IsBounded b = (b.max_size ≡ 0) ⊎ (length b.measurements ≤ b.max_size)

  -- What a result promises of the buffer afterwards: a rejection changes nothing; an insertion adds
  -- exactly the new measurement; with a drop, exactly one entry `x` of them all is gone, and this
  -- only where the limit would have been exceeded.
  abbrev pub Outcome : TimeOrderedBuffer M → M → BufferInsertResult → TimeOrderedBuffer M → Type ℓ
  Outcome b m inserted b' =
      Perm b'.measurements (m ∷ b.measurements) × (b' ≡ record b { measurements = b'.measurements })
  Outcome b m inserted_and_dropped_oldest b' =
      ((x : M) × Perm (x ∷ b'.measurements) (m ∷ b.measurements))
      × (b' ≡ record b { measurements = b'.measurements })
      × (b.max_size < length b.measurements + 1)
      × (b.max_size ≢ 0)
  Outcome b m rejected_out_of_order b' = (b' ≡ b) × (b.allow_out_of_order_insert ≡ false)
  Outcome b m rejected_not_comparable b' = b' ≡ b

  abbrev Result : TimeOrderedBuffer M → M → TimeOrderedBuffer M × BufferInsertResult → Type ℓ
  Result b m r = Outcome b m r.1 r.0

  enforce-Outcome :
      (b : TimeOrderedBuffer M) (m : M) (ys : List M)
      → Perm ys (m ∷ b.measurements)
      → length ys ≡ length b.measurements + 1
      → Result b m (enforce_max_size (record b { measurements = ys }) inserted)
  unfolding enforce_max_size
  enforce-Outcome b m [] p n = absurd (omega arith)
  enforce-Outcome b m (y ∷ ys) p n =
      elim (Bool-cases (b.max_size == 0 || leb (length (y ∷ ys)) b.max_size)) [
        | inl t ↦ rw t (p, refl)
        | inr f ↦ rw f ((y, p), refl, ground arith, ground arith)
      ]

  enforce-IsBounded :
      (b : TimeOrderedBuffer M) (ys : List M)
      → IsBounded b
      → length ys ≡ length b.measurements + 1
      → IsBounded (enforce_max_size (record b { measurements = ys }) inserted).0
  unfolding enforce_max_size
  enforce-IsBounded b [] h n = absurd (omega arith)
  enforce-IsBounded b (y ∷ ys) h n = ground arith

module _ {ℓ κ} {D : Type ℓ} ⦃d : Double D⦄ {M : Type κ} (get_timestamp : M → Timestamp D) where
  -- `place` adds its argument, at some place.
  place-perm :
      (m : M) (xs : List M) {ys : List M}
      → place get_timestamp m xs ≡ some ys
      → Perm ys (m ∷ xs) × (length ys ≡ length xs + 1)
  unfolding place
  place-perm m [] e = subst Added (some-injective _ _ e) (Perm.refl _, omega arith)
    where
      Added : List M → Type κ
      Added ys = Perm ys (m ∷ []) × (length ys ≡ 1)
  place-perm m (x ∷ xs) e = elim (Option-cases (place get_timestamp m xs)) [
    | inl n ↦ ground (arith, n, Perm.refl (m ∷ x ∷ xs))
    | inr (zs, n) ↦
        let (p, l) = place-perm m xs n in
        ground (arith, n, Perm.refl (m ∷ x ∷ xs), Perm.trans (Perm.cons x p) (Perm.swap m x xs))
  ]

  snoc-perm : (m : M) (xs : List M) → Perm (xs ++ m ∷ []) (m ∷ xs)
  snoc-perm m xs = subst (λ zs. Perm (xs ++ m ∷ []) (m ∷ zs)) (append-nil xs) (perm_middle xs [])

  insert_after-some :
      (b : TimeOrderedBuffer M) (m : M) (zs : List M)
      → b.allow_out_of_order_insert ≡ true
      → place get_timestamp m b.measurements ≡ some zs
      → insert_after get_timestamp b m b.measurements after
        ≡ enforce_max_size (record b { measurements = zs }) inserted
  unfolding insert_after
  insert_after-some b m zs t n = ground arith

  -- Every way through `Insert`.
  module _ {ν} (P : TimeOrderedBuffer M × BufferInsertResult → Type ν) (b : TimeOrderedBuffer M)
      (m : M) (empty : b.measurements ≡ [] → P (record b { measurements = m ∷ [] }, inserted))
      (added : (ys : List M)
        → Perm ys (m ∷ b.measurements)
        → length ys ≡ length b.measurements + 1
        → P (enforce_max_size (record b { measurements = ys }) inserted))
      (refused : b.allow_out_of_order_insert ≡ false → P (b, rejected_out_of_order))
      (incomparable : P (b, rejected_not_comparable)) where
    insert_after_cases :
        (o : TimestampOrdering) → P (insert_after get_timestamp b m b.measurements o)
    unfolding insert_after
    insert_after_cases before =
        added _ (snoc-perm m b.measurements) (length-append b.measurements (m ∷ []))
    insert_after_cases equal =
        added _ (snoc-perm m b.measurements) (length-append b.measurements (m ∷ []))
    insert_after_cases not_comparable = incomparable
    insert_after_cases after = elim (Bool-cases b.allow_out_of_order_insert) [
      | inr f ↦ simp f (refused f)
      | inl t ↦ elim (Option-cases (place get_timestamp m b.measurements)) [
        | inl n ↦ simp (t, n) incomparable
        | inr (zs, n) ↦
            let (p, l) = place-perm m b.measurements n in
            rw (insert_after-some b m zs t n) (added zs p l)
      ]
    ]

    insert_into_cases : (xs : List M) → b.measurements ≡ xs → P (insert_into get_timestamp b m xs)
    unfolding insert_into
    insert_into_cases [] e = empty e
    insert_into_cases (x ∷ xs) e =
        let o = compare_timestamps (get_timestamp (last x xs)) (get_timestamp m) in
        subst (λ ys. P (insert_after get_timestamp b m ys o)) e (insert_after_cases o)

    insert_cases : P (insert get_timestamp b m)
    unfolding insert
    insert_cases = insert_into_cases b.measurements refl

  -- Whatever `Insert` returns, the buffer has changed as `Outcome` says of that result, and its
  -- settings have not.
  pub insert-Outcome :
      (b : TimeOrderedBuffer M) (m : M)
      → Outcome b m (insert get_timestamp b m).1 (insert get_timestamp b m).0
  insert-Outcome b m =
      insert_cases (Result b m) b m
        (λ e. (subst (λ zs. Perm (m ∷ []) (m ∷ zs)) (sym e) (Perm.refl _), refl))
        (enforce-Outcome b m) (λ f. (refl, f)) refl

  Outcome-settings :
      (b : TimeOrderedBuffer M) (m : M) (r : BufferInsertResult) (b' : TimeOrderedBuffer M)
      → Outcome b m r b'
      → (b'.max_size ≡ b.max_size) × (b'.allow_out_of_order_insert ≡ b.allow_out_of_order_insert)
  Outcome-settings b m inserted b' o =
      (ap (λ c. c.max_size) o.1, ap (λ c. c.allow_out_of_order_insert) o.1)
  Outcome-settings b m inserted_and_dropped_oldest b' o =
      (ap (λ c. c.max_size) o.1, ap (λ c. c.allow_out_of_order_insert) o.1)
  Outcome-settings b m rejected_out_of_order b' o =
      (ap (λ c. c.max_size) o.0, ap (λ c. c.allow_out_of_order_insert) o.0)
  Outcome-settings b m rejected_not_comparable b' o =
      (ap (λ c. c.max_size) o, ap (λ c. c.allow_out_of_order_insert) o)

  -- `Insert` leaves the settings of the buffer.
  pub insert-settings :
      (b : TimeOrderedBuffer M) (m : M)
      → let b' = (insert get_timestamp b m).0 in
        (b'.max_size ≡ b.max_size) × (b'.allow_out_of_order_insert ≡ b.allow_out_of_order_insert)
  insert-settings b m = Outcome-settings b m _ _ (insert-Outcome b m)

  -- `Insert` keeps the number of measurements within the limit, if there is one.
  pub insert-IsBounded :
      (b : TimeOrderedBuffer M) (m : M) → IsBounded b → IsBounded (insert get_timestamp b m).0
  insert-IsBounded b m h =
      insert_cases (λ r. IsBounded r.0) b m (λ e. ground arith) (λ ys p. enforce-IsBounded b ys h)
        (λ f. h) h

  abbrev pub HasSteady : M → Type 0
  HasSteady m = (get_timestamp m).has_steady ≡ true

  compare_steady-ne-not_comparable :
      (m x : M)
      → HasSteady m
      → HasSteady x
      → compare_timestamps (get_timestamp m) (get_timestamp x) ≢ not_comparable
  unfolding compare_timestamps
  compare_steady-ne-not_comparable m x h k = ground arith

  place-ne-none :
      (m : M) (xs : List M) → HasSteady m → All HasSteady xs → place get_timestamp m xs ≢ none
  unfolding place
  place-ne-none m [] h a e = cc
  place-ne-none m (x ∷ xs) h a e = elim (Option-cases (place get_timestamp m xs)) [
    | inl n ↦ absurd (place-ne-none m xs h a.1 n)
    | inr (zs, n) ↦ ground (arith, n, compare_steady-ne-not_comparable m x h a.0)
  ]

  enforce-IsAccepted : (b : TimeOrderedBuffer M) → IsAccepted (enforce_max_size b inserted).1
  unfolding enforce_max_size
  enforce-IsAccepted b = ground arith

  insert_after-IsAccepted :
      (b : TimeOrderedBuffer M) (m x : M) (xs : List M)
      → b.allow_out_of_order_insert ≡ true
      → HasSteady m
      → All HasSteady (x ∷ xs)
      → (o : TimestampOrdering) → o ≢ not_comparable
      → IsAccepted (insert_after get_timestamp b m (x ∷ xs) o).1
  unfolding insert_after
  insert_after-IsAccepted b m x xs t h a before n = enforce-IsAccepted _
  insert_after-IsAccepted b m x xs t h a equal n = enforce-IsAccepted _
  insert_after-IsAccepted b m x xs t h a not_comparable n = absurd (n refl)
  insert_after-IsAccepted b m x xs t h a after n =
      elim (Option-cases (place get_timestamp m (x ∷ xs))) [
        | inl e ↦ absurd (place-ne-none m (x ∷ xs) h a e)
        | inr (zs, e) ↦ rw (t, e) (enforce-IsAccepted _)
      ]

  last-HasSteady : (x : M) (xs : List M) → All HasSteady (x ∷ xs) → HasSteady (last x xs)
  last-HasSteady x [] a = a.0
  last-HasSteady x (y ∷ ys) a = last-HasSteady y ys a.1

  insert_into-IsAccepted :
      (b : TimeOrderedBuffer M) (m : M) (xs : List M)
      → b.allow_out_of_order_insert ≡ true
      → HasSteady m
      → All HasSteady xs
      → IsAccepted (insert_into get_timestamp b m xs).1
  unfolding insert_into
  insert_into-IsAccepted b m [] t h a = tt
  insert_into-IsAccepted b m (x ∷ xs) t h a =
      insert_after-IsAccepted b m x xs t h a _
        (compare_steady-ne-not_comparable (last x xs) m (last-HasSteady x xs a) h)

  -- On a steady clock nothing is refused: if the new measurement and all in the buffer carry
  -- monotonic time and late arrivals are allowed, `Insert` accepts.
  pub insert-IsAccepted :
      (b : TimeOrderedBuffer M) (m : M)
      → b.allow_out_of_order_insert ≡ true
      → HasSteady m
      → All HasSteady b.measurements
      → IsAccepted (insert get_timestamp b m).1
  unfolding insert
  insert-IsAccepted b m = insert_into-IsAccepted b m b.measurements
