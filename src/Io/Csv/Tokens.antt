-- ===== src/Io/Csv/Tokens.antt =====
-- Lines are split where their tokens were joined.
use falcon_guide.Prelude.{ℕ, ◌≡◌, ◌≢◌, refl, ap, ◌∙◌, List, [], ◌∷◌, ◌++◌, arith, All}
use falcon_guide.Prelude.Bytes.{IsFree}
use falcon_guide.Io.Csv.{cut, split}

-- Tokens with commas between them.
abbrev pub join : List ℕ → List (List ℕ) → List ℕ
join t [] = t
join t (u ∷ us) = t ++ b',' ∷ join u us

-- The last token is not empty.
abbrev pub Ends : List ℕ → List (List ℕ) → Type 0
Ends t [] = t ≢ []
Ends t (u ∷ us) = Ends u us

cut-last : (t : List ℕ) → IsFree b',' t → cut t ≡ (t, [])
unfolding cut
cut-last [] h = refl
cut-last (c ∷ cs) h = rw (h.0, cut-last cs h.1)

append-filled : (t : List ℕ) (c : ℕ) (cs : List ℕ) → (t ++ c ∷ cs) ≢ []
append-filled [] c cs e = ground (arith, e)
append-filled (d ∷ ds) c cs e = ground (arith, e)

join-filled : (t : List ℕ) (us : List (List ℕ)) → Ends t us → join t us ≢ []
join-filled t [] h = h
join-filled t (u ∷ us) h = append-filled t b',' (join u us)

cut-comma :
    (t rest : List ℕ) (u : List ℕ) (us : List (List ℕ))
    → IsFree b',' t
    → rest ≢ []
    → cut rest ≡ (u, us)
    → cut (t ++ b',' ∷ rest) ≡ (t, u ∷ us)
unfolding cut
cut-comma [] [] u us h n e = absurd (n refl)
cut-comma [] (c ∷ cs) u us h n e = ap (λ p. ([], p.0 ∷ p.1)) e
cut-comma (c ∷ cs) rest u us h n e = rw (h.0, cut-comma cs rest u us h.1 n e)

cut-join :
    (t : List ℕ) (us : List (List ℕ))
    → IsFree b',' t
    → All (IsFree b',') us
    → Ends t us
    → cut (join t us) ≡ (t, us)
cut-join t [] h hs n = cut-last t h
cut-join t (u ∷ us) h hs n =
    cut-comma t (join u us) u us h (join-filled u us n) (cut-join u us hs.0 hs.1 n)

split-cut : (line : List ℕ) → line ≢ [] → split line ≡ ((cut line).0 ∷ (cut line).1)
unfolding split
split-cut [] n = absurd (n refl)
split-cut (c ∷ cs) n = refl

-- Tokens without commas, of which the last is not empty, are what the line that joins them with commas
-- is split into; empty tokens within it are kept.
pub split-join :
    (t : List ℕ) (us : List (List ℕ))
    → IsFree b',' t
    → All (IsFree b',') us
    → Ends t us
    → split (join t us) ≡ t ∷ us
split-join t us h hs n =
    split-cut (join t us) (join-filled t us n) ∙ ap (λ p. p.0 ∷ p.1) (cut-join t us h hs n)
