-- ===== src/Io/Nmea/Sentence/Sound.antt =====
-- What a line that `ParseSentence` accepts looks like.
use mathlib.Core.List.{append-nil}
use mathlib.Core.Option
use falcon_guide.Prelude.{
  ℕ, zero, suc, ◌+◌, ◌-◌, ◌≤◌, ◌<◌, ◌≡◌, refl, sym, ap, ◌∙◌, subst, inl, inr, false, Option, none,
  some, List, [], ◌∷◌, ◌++◌, arith, length, All, take, drop, ◌==◌, Option-cases, list_cases,
  Bool-cases, ltb,
}
use falcon_guide.Prelude.Bytes.{find, IsFree, Found, find-Found}
use falcon_guide.Io.Nmea.Sentence.RoundTrip.{IsPlain}
use falcon_guide.Io.Nmea.Sentence.{
  NmeaSentence, compute_checksum, parse_hex_byte, trim_end, split_fields, join_fields, parse_header,
  parse_payload, check_payload, parse_marked, parse_sentence, build_payload,
}

module _ {ℓ} {A : Type ℓ} where
  take-append-drop : (n : ℕ) (xs : List A) → take n xs ++ drop n xs ≡ xs
  take-append-drop zero xs = refl
  take-append-drop (suc n) [] = refl
  take-append-drop (suc n) (x ∷ xs) = rw (take-append-drop n xs)

  length-take_le : (n : ℕ) (xs : List A) → n ≤ length xs → length (take n xs) ≡ n
  length-take_le zero xs h = refl
  length-take_le (suc n) [] h = absurd (omega arith)
  length-take_le (suc n) (x ∷ xs) h = omega (arith, length-take_le n xs (omega arith))

  length-drop : (n : ℕ) (xs : List A) → length (drop n xs) ≡ length xs - n
  length-drop zero xs = omega arith
  length-drop (suc n) [] = omega arith
  length-drop (suc n) (x ∷ xs) = omega (arith, length-drop n xs)

module _ {ℓ κ} {A : Type ℓ} (P : A → Type κ) where
  All-take : (n : ℕ) (xs : List A) → All P xs → All P (take n xs)
  All-take zero xs h = tt
  All-take (suc n) [] h = tt
  All-take (suc n) (x ∷ xs) h = (h.0, All-take n xs h.1)

  All-drop : (n : ℕ) (xs : List A) → All P xs → All P (drop n xs)
  All-drop zero xs h = h
  All-drop (suc n) [] h = tt
  All-drop (suc n) (x ∷ xs) h = All-drop n xs h.1

-- With fuel enough the fields put together are the text again, and no field holds a comma.
split_fields_lem :
    (fuel : ℕ) (rest : List ℕ)
    → length rest < fuel
    → (b',' ∷ rest ≡ join_fields (split_fields fuel rest))
      × All (IsFree b',') (split_fields fuel rest)
unfolding split_fields join_fields
split_fields_lem zero rest h = absurd (omega arith)
split_fields_lem (suc fuel) rest h = elim (Option-cases (find b',' rest)) [
  | inl e ↦
      let free : IsFree b',' rest = subst (Found b',' rest) e (find-Found b',' rest) in
      ground (arith, e, free, append-nil rest)
  | inr (i, e) ↦
      let cut : Found b',' rest (some i) = subst (Found b',' rest) e (find-Found b',' rest) in
      let short : length (drop (suc i) rest) < fuel =
        omega (arith, length-drop (suc i) rest, cut.3) in
      let tail = split_fields_lem fuel (drop (suc i) rest) short in
      ground (arith, e, cut.0, cut.1, tail)
]

-- A header that is accepted makes a plain sentence, whose talker and formatter are the header.
parse_header_sound :
    (header : List ℕ) (fields : List (List ℕ)) (s : NmeaSentence)
    → parse_header header fields ≡ some s
    → IsFree b',' header
    → All (IsFree b',') fields
    → IsPlain s × (s.talker ++ s.formatter ≡ header) × (s.fields ≡ fields)
unfolding parse_header
parse_header_sound header fields s e free fs = elim (Bool-cases (ltb (length header) 5)) [
  | inl short ↦ ground (arith, short)
  | inr long ↦
      let five : 5 ≤ length header = ground (arith, long) in
      let made : NmeaSentence = record {
        talker = take 2 header;
        formatter = drop 2 header;
        fields = fields;
      } in
      let same : made ≡ s = ground (arith, long) in
      subst (λ t. IsPlain t × (t.talker ++ t.formatter ≡ header) × (t.fields ≡ fields)) same
        (
          record {
            talker_two = length-take_le 2 header (omega arith);
            formatter_three = omega (arith, length-drop 2 header);
            talker_free = All-take (λ x. (x == b',') ≡ false) 2 header free;
            formatter_free = All-drop (λ x. (x == b',') ≡ false) 2 header free;
            fields_free = fs;
          },
          take-append-drop 2 header,
          refl,
        )
]

-- The payload of a sentence that is accepted is the payload that `BuildSentence` writes for it.
parse_payload_sound :
    (payload : List ℕ) (s : NmeaSentence)
    → parse_payload payload ≡ some s
    → IsPlain s × (payload ≡ build_payload s.talker s.formatter s.fields)
unfolding parse_payload build_payload join_fields
parse_payload_sound payload s e = elim (Option-cases (find b',' payload)) [
  | inl n ↦
      let free : IsFree b',' payload = subst (Found b',' payload) n (find-Found b',' payload) in
      let here : parse_header payload [] ≡ some s = ground (arith, n) in
      let (plain, header, fields) = parse_header_sound payload [] s here free tt in
      (plain, rw (header, fields) (sym (append-nil payload)))
  | inr (i, n) ↦
      let cut : Found b',' payload (some i) =
        subst (Found b',' payload) n (find-Found b',' payload) in
      let rest = drop (suc i) payload in
      let fields = split_fields (length payload) rest in
      let here : parse_header (take i payload) fields ≡ some s = ground (arith, n) in
      let tail =
        split_fields_lem (length payload) rest
          (omega (arith, length-drop (suc i) payload, cut.3)) in
      let (plain, header, same) = parse_header_sound (take i payload) fields s here cut.1 tail.1 in
      (plain, rw (header, same) (cut.0 ∙ ap (λ t. take i payload ++ t) tail.0))
]

check_payload_sound :
    (payload : List ℕ) (o : Option ℕ) (s : NmeaSentence)
    → check_payload payload o ≡ some s
    → (parse_payload payload ≡ some s) × (o ≡ some (compute_checksum payload))
unfolding check_payload
check_payload_sound payload none s e = cc
check_payload_sound payload (some v) s e = ground arith

take_all : (n : ℕ) (xs : List ℕ) → length xs ≡ n → take n xs ≡ xs
take_all zero [] h = refl
take_all zero (x ∷ xs) h = absurd (omega arith)
take_all (suc n) [] h = refl
take_all (suc n) (x ∷ xs) h = ap (λ ys. x ∷ ys) (take_all n xs (omega arith))

-- What is told of a line without its newlines and of its `$`.
abbrev pub IsSentence : List ℕ → NmeaSentence → Type 0
IsSentence r s =
    (digits : List ℕ) × (r ≡ build_payload s.talker s.formatter s.fields ++ b'*' ∷ digits)
    × (parse_hex_byte digits
        ≡ some (compute_checksum (build_payload s.talker s.formatter s.fields)))
    × IsPlain s

parse_marked-some :
    (r : List ℕ) (k : ℕ) (s : NmeaSentence)
    → parse_marked (b'$' ∷ r) (some (suc k)) ≡ some s
    → (k + 3 ≡ length r)
      × (check_payload (take k r) (parse_hex_byte (take 2 (drop (suc k) r))) ≡ some s)
unfolding parse_marked
parse_marked-some r k s e =
    let a : suc k - 1 ≡ k = omega arith in
    let b : suc k + 1 ≡ suc (suc k) = omega arith in ground arith

parse_marked-none : (line : List ℕ) → parse_marked line none ≡ none
unfolding parse_marked
parse_marked-none line = refl

parse_marked_sound :
    (r : List ℕ) (s : NmeaSentence)
    → parse_marked (b'$' ∷ r) (find b'*' (b'$' ∷ r)) ≡ some s
    → IsSentence r s
unfolding find
parse_marked_sound r s e = elim (Option-cases (find b'*' r)) [
  | inl n ↦
      let here : parse_marked (b'$' ∷ r) none ≡ some s =
        subst (λ o. parse_marked (b'$' ∷ r) (Option.map suc o) ≡ some s) n e in
      cc (parse_marked-none (b'$' ∷ r))
  | inr (k, n) ↦
      let cut : Found b'*' r (some k) = subst (Found b'*' r) n (find-Found b'*' r) in
      let here : parse_marked (b'$' ∷ r) (some (suc k)) ≡ some s =
        subst (λ o. parse_marked (b'$' ∷ r) (Option.map suc o) ≡ some s) n e in
      let (three, checked) = parse_marked-some r k s here in
      let two : length (drop (suc k) r) ≡ 2 = omega (arith, length-drop (suc k) r) in
      let (parsed, digits) = check_payload_sound (take k r) _ s checked in
      let (plain, same) = parse_payload_sound (take k r) s parsed in
      (
        drop (suc k) r,
        cut.0 ∙ ap (λ p. p ++ b'*' ∷ drop (suc k) r) same,
        subst (λ p. parse_hex_byte (drop (suc k) r) ≡ some (compute_checksum p)) same
            (subst (λ ds. parse_hex_byte ds ≡ some (compute_checksum (take k r)))
              (take_all 2 (drop (suc k) r) two) digits),
        plain,
      )
]

trim_end-dollar : (cs : List ℕ) → trim_end (b'$' ∷ cs) ≡ b'$' ∷ trim_end cs
unfolding trim_end
trim_end-dollar cs = elim (list_cases (trim_end cs)) [ inl e ↦ rw e | inr (x, xs, e) ↦ rw e ]

parse_sentence-cons :
    (c : ℕ) (cs : List ℕ) (s : NmeaSentence)
    → parse_sentence (c ∷ cs) ≡ some s
    → (c ≡ b'$') × (parse_marked (trim_end (c ∷ cs)) (find b'*' (trim_end (c ∷ cs))) ≡ some s)
unfolding parse_sentence
parse_sentence-cons c cs s e = ground arith

-- A line is accepted only if, without the newlines at its end, it is a `$`, the payload that
-- `BuildSentence` writes for the result, a `*`, and two digits that are read as the checksum of
-- that payload; and the result is plain.
pub parse_sentence_sound :
    (line : List ℕ) (s : NmeaSentence)
    → parse_sentence line ≡ some s
    → (r : List ℕ) × (trim_end line ≡ b'$' ∷ r) × IsSentence r s
unfolding parse_sentence
parse_sentence_sound [] s e = cc
parse_sentence_sound (c ∷ cs) s e =
    let (dollar, marked) = parse_sentence-cons c cs s e in
    let same : trim_end (c ∷ cs) ≡ b'$' ∷ trim_end cs =
      ap (λ x. trim_end (x ∷ cs)) dollar ∙ trim_end-dollar cs in
    (
      trim_end cs,
      same,
      parse_marked_sound (trim_end cs) s
          (subst (λ l. parse_marked l (find b'*' l) ≡ some s) same marked),
    )
