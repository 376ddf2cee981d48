-- ===== src/Estimation/Ekf/Layout/Ranges.antt =====
-- The segments of a layout are ranges of the error state that do not meet.
use falcon_guide.Prelude.{
  ℕ, ◌+◌, ◌≤◌, ◌≡◌, refl, Bool, true, false, some, List, [], ◌∷◌, ◌⊎◌, inl, inr, arith, Bool-cases,
}
use falcon_guide.Estimation.Ekf.Layout.{
  StateSegmentId, position, velocity, attitude, accel_bias, gyro_bias, StateSegment, same_id,
  register, lookup, get, make_standard_layout, build_layout,
}

-- Each segment starts where the one before it ends, and the last ends at the total.
abbrev IsPacked : List (StateSegmentId × StateSegment) → ℕ → Type 0
IsPacked [] total = total ≡ 0
IsPacked ((id, s) ∷ rest) total = (s.offset + s.size ≡ total) × IsPacked rest s.offset

lookup_end :
    (ss : List (StateSegmentId × StateSegment)) (total : ℕ) (id : StateSegmentId) (s : StateSegment)
    → IsPacked ss total
    → lookup ss id ≡ some s
    → s.offset + s.size ≤ total
lookup_end [] total id s p e = ground (arith, e)
lookup_end ((key, t) ∷ rest) total id s p e = elim (Bool-cases (same_id key id)) [
  | inl y ↦ ground (arith, e, y)
  | inr n ↦
      let deeper : lookup rest id ≡ some s = ground (arith, e, n) in
      omega (arith, p.0, lookup_end rest t.offset id s p.1 deeper)
]

-- One range ends before the other begins.
abbrev pub Apart : StateSegment → StateSegment → Type 0
Apart s t = (s.offset + s.size ≤ t.offset) ⊎ (t.offset + t.size ≤ s.offset)

-- The first entry is one of the two.
lookup-Apart :
    (ss : List (StateSegmentId × StateSegment)) (total : ℕ) (a b : StateSegmentId)
    (s t : StateSegment)
    → IsPacked ss total
    → same_id a b ≡ false
    → lookup ss a ≡ some s
    → lookup ss b ≡ some t
    → Apart s t
lookup-Apart [] total a b s t p n e f = ground (arith, e)
lookup-Apart ((key, u) ∷ rest) total a b s t p n e f = elim (Bool-cases (same_id key a)) [
  | inl y ↦
      let here : u ≡ s = ground (arith, e, y) in
      let other : same_id key b ≡ false = ground (arith, y, n) in
      let below : lookup rest b ≡ some t = ground (arith, f, other) in
      inr (ground (arith, lookup_end rest u.offset b t p.1 below, here))
  | inr y ↦
      let above : lookup rest a ≡ some s = ground (arith, e, y) in
      elim (Bool-cases (same_id key b)) [
        | inl z ↦
            let here : u ≡ t = ground (arith, f, z) in
            inl (ground (arith, lookup_end rest u.offset a s p.1 above, here))
        | inr z ↦
            let below : lookup rest b ≡ some t = ground (arith, f, z) in
            lookup-Apart rest u.offset a b s t p.1 n above below
      ]
]

build_layout-IsPacked :
    (clock baro : Bool) → let l = build_layout clock baro in IsPacked l.segments l.total_size
unfolding build_layout register make_standard_layout
build_layout-IsPacked true true = (refl, (refl, (refl, (refl, (refl, (refl, (refl, refl)))))))
build_layout-IsPacked true false = (refl, (refl, (refl, (refl, (refl, (refl, refl))))))
build_layout-IsPacked false true = (refl, (refl, (refl, (refl, (refl, (refl, refl))))))
build_layout-IsPacked false false = (refl, (refl, (refl, (refl, (refl, refl)))))

-- In the layout of the filter, whatever the options, two different segments are ranges that do not meet,
-- and both lie within the error state.
pub segments-Apart :
    (clock baro : Bool) (a b : StateSegmentId) (s t : StateSegment)
    → same_id a b ≡ false
    → get (build_layout clock baro) a ≡ some s
    → get (build_layout clock baro) b ≡ some t
    → Apart s t × (s.offset + s.size ≤ (build_layout clock baro).total_size)
unfolding get
segments-Apart clock baro a b s t n e f =
    let l = build_layout clock baro in
    let p = build_layout-IsPacked clock baro in
    (
      lookup-Apart l.segments l.total_size a b s t p n e f,
      lookup_end l.segments l.total_size a s p e,
    )

abbrev pub three_at : ℕ → StateSegment
three_at offset = record { offset = offset; size = 3 }

-- The five standard segments take the first fifteen states, whatever the options: the core block of the
-- covariance is theirs.
pub core_block :
    (clock baro : Bool)
    → let l = build_layout clock baro in
      (get l position ≡ some (three_at 0))
      × (get l velocity ≡ some (three_at 3))
      × (get l attitude ≡ some (three_at 6))
      × (get l accel_bias ≡ some (three_at 9))
      × (get l gyro_bias ≡ some (three_at 12))
      × (15 ≤ l.total_size)
unfolding build_layout register make_standard_layout get
core_block true true = (refl, refl, refl, refl, refl, omega arith)
core_block true false = (refl, refl, refl, refl, refl, omega arith)
core_block false true = (refl, refl, refl, refl, refl, omega arith)
core_block false false = (refl, refl, refl, refl, refl, omega arith)
