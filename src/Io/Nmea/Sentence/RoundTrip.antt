-- ===== src/Io/Nmea/Sentence/RoundTrip.antt =====
-- `ParseSentence` after `BuildSentence`.
use mathlib.Core.List.{append_assoc, append-nil}
use falcon_guide.Prelude.{
  ℕ, zero, suc, ◌+◌, ◌-◌, ◌/◌, ◌%◌, ◌≤◌, ◌<◌, ◌≡◌, refl, sym, ap, ◌∙◌, subst, false, Option, none,
  some, List, [], ◌∷◌, ◌++◌, arith, length, length-append, All, All-append, take, drop, take-append,
  drop-append, drop-suc-append, ap₂, ◌==◌,
}
use falcon_guide.Prelude.Bytes.{find, IsFree, find-append, find-none}
use falcon_guide.Io.Nmea.Sentence.Pieces.{
  IsEnding, parse_hex_byte-format_checksum, compute_checksum_lt, trim_end-append,
}
use falcon_guide.Io.Nmea.Sentence.{
  NmeaSentence, compute_checksum, hex_digit, format_checksum, parse_hex_byte, is_newline, trim_end,
  split_fields, parse_header, parse_payload, check_payload, parse_marked, parse_sentence,
  build_payload, build_sentence, join_fields,
}

split_fields-none :
    (fuel : ℕ) (rest : List ℕ) → find b',' rest ≡ none → split_fields (suc fuel) rest ≡ rest ∷ []
unfolding split_fields
split_fields-none fuel rest e = ground arith

split_fields-some :
    (fuel i : ℕ) (rest : List ℕ)
    → find b',' rest ≡ some i
    → split_fields (suc fuel) rest ≡ take i rest ∷ split_fields fuel (drop (suc i) rest)
unfolding split_fields
split_fields-some fuel i rest e = ground arith

split_fields-join_fields :
    (fuel : ℕ) (f : List ℕ) (fs : List (List ℕ))
    → All (IsFree b',') (f ∷ fs)
    → length (f ++ join_fields fs) < fuel
    → split_fields fuel (f ++ join_fields fs) ≡ f ∷ fs
unfolding join_fields
split_fields-join_fields zero f fs h k = absurd (omega arith)
split_fields-join_fields (suc fuel) f [] h k =
    rw (append-nil f) (split_fields-none fuel f (find-none b',' f h.0))
split_fields-join_fields (suc fuel) f (g ∷ gs) h k =
    let tail = g ++ join_fields gs in
    let short : length tail < fuel = omega (arith, length-append f (b',' ∷ tail)) in
    split_fields-some fuel (length f) _ (find-append b',' f tail h.0)
    ∙ ap₂ (λ x xs. x ∷ xs) (take-append f (b',' ∷ tail))
        (rw (drop-suc-append f b',' tail) (split_fields-join_fields fuel g gs h.1 short))

-- What `BuildSentence` is given, where `ParseSentence` gives it back: a talker of two characters, a
-- formatter of three or more, and no comma in these or in a field.
pub record IsPlain (s : NmeaSentence) : Type 0 where
  pub talker_two : length s.talker ≡ 2
  pub formatter_three : 3 ≤ length s.formatter
  pub talker_free : IsFree b',' s.talker
  pub formatter_free : IsFree b',' s.formatter
  pub fields_free : All (IsFree b',') s.fields

parse_header-append :
    (s : NmeaSentence) → IsPlain s → parse_header (s.talker ++ s.formatter) s.fields ≡ some s
unfolding parse_header
parse_header-append s h =
    let first : take 2 (s.talker ++ s.formatter) ≡ s.talker =
      subst (λ n. take n (s.talker ++ s.formatter) ≡ s.talker) h.talker_two
        (take-append s.talker s.formatter) in
    let rest : drop 2 (s.talker ++ s.formatter) ≡ s.formatter =
      subst (λ n. drop n (s.talker ++ s.formatter) ≡ s.formatter) h.talker_two
        (drop-append s.talker s.formatter) in
    ground (arith, length-append s.talker s.formatter)

parse_payload-none :
    (payload : List ℕ) → find b',' payload ≡ none → parse_payload payload ≡ parse_header payload []
unfolding parse_payload
parse_payload-none payload e = ground arith

parse_payload-some :
    (payload : List ℕ) (i : ℕ)
    → find b',' payload ≡ some i
    → parse_payload payload
      ≡ parse_header (take i payload) (split_fields (length payload) (drop (suc i) payload))
unfolding parse_payload
parse_payload-some payload i e = ground arith

module _ (s : NmeaSentence) (h : IsPlain s) where
  abbrev header : List ℕ
  header = s.talker ++ s.formatter

  header-IsFree : IsFree b',' header
  header-IsFree =
      All-append (λ x. (x == b',') ≡ false) s.talker s.formatter h.talker_free h.formatter_free

  parse_payload-join_fields :
      (fields : List (List ℕ))
      → s.fields ≡ fields
      → parse_payload (header ++ join_fields fields) ≡ some s
  unfolding join_fields
  parse_payload-join_fields [] e = rw (append-nil header) (
      parse_payload-none header (find-none b',' header header-IsFree)
      ∙ subst (λ fs. parse_header header fs ≡ some s) e (parse_header-append s h))
  parse_payload-join_fields (f ∷ fs) e =
      let tail = f ++ join_fields fs in
      let payload = header ++ b',' ∷ tail in
      let short : length tail < length payload =
        omega (arith, length-append header (b',' ∷ tail)) in
      let free : All (IsFree b',') (f ∷ fs) = subst (All (IsFree b',')) e h.fields_free in
      parse_payload-some payload (length header) (find-append b',' header tail header-IsFree)
      ∙ ap₂ parse_header (take-append header (b',' ∷ tail)) (
          rw (drop-suc-append header b',' tail)
            (split_fields-join_fields (length payload) f fs free short))
      ∙ subst (λ gs. parse_header header gs ≡ some s) e (parse_header-append s h)

  -- The payload of a plain sentence is read back.
  pub parse_payload-build_payload :
      parse_payload (build_payload s.talker s.formatter s.fields) ≡ some s
  unfolding build_payload
  parse_payload-build_payload = parse_payload-join_fields s.fields refl

-- The line between the `$` and the last digit.
abbrev marked : List ℕ → ℕ → ℕ → List ℕ
marked payload x y = b'$' ∷ (payload ++ b'*' ∷ x ∷ y ∷ [])

parse_marked-marked :
    (payload : List ℕ) (x y : ℕ)
    → parse_marked (marked payload x y) (some (suc (length payload)))
      ≡ check_payload payload (parse_hex_byte (x ∷ y ∷ []))
unfolding parse_marked
parse_marked-marked payload x y =
    let n = length payload in
    let rest : List ℕ = b'*' ∷ x ∷ y ∷ [] in
    let inner : take (suc n - 1) (payload ++ rest) ≡ payload =
      subst (λ k. take k (payload ++ rest) ≡ payload) (omega arith) (take-append payload rest) in
    let digits : drop (suc n + 1) (marked payload x y) ≡ x ∷ y ∷ [] =
      subst (λ k. drop k (marked payload x y) ≡ x ∷ y ∷ [])
        (let e : suc (suc n) ≡ suc n + 1 = omega arith in e)
        (drop-suc-append payload b'*' (x ∷ y ∷ [])) in
    ground (arith, length-append payload rest, inner, digits)

check_payload_self :
    (payload : List ℕ) (o : Option ℕ)
    → o ≡ some (compute_checksum payload)
    → check_payload payload o ≡ parse_payload payload
unfolding check_payload
check_payload_self payload none e = cc
check_payload_self payload (some v) e = ground arith

parse_sentence-trim :
    (line trimmed : List ℕ) (i : ℕ)
    → 9 ≤ length (b'$' ∷ line)
    → trim_end (b'$' ∷ line) ≡ trimmed
    → find b'*' trimmed ≡ some i
    → parse_sentence (b'$' ∷ line) ≡ parse_marked trimmed (some i)
unfolding parse_sentence
parse_sentence-trim line trimmed i long e f = ground arith

-- A line that is a `$`, a payload with no `*`, a `*`, two digits that are read as the payload's
-- checksum, and newlines, is read as its payload is.
pub parse_sentence-line :
    (payload : List ℕ) (x y : ℕ) (ending : List ℕ)
    → IsFree b'*' payload
    → 5 ≤ length payload
    → is_newline y ≡ false
    → parse_hex_byte (x ∷ y ∷ []) ≡ some (compute_checksum payload)
    → IsEnding ending
    → parse_sentence (b'$' ∷ (payload ++ b'*' ∷ x ∷ y ∷ ending)) ≡ parse_payload payload
parse_sentence-line payload x y ending free long last e newlines =
    let inner = b'$' ∷ payload in
    let trimmed : trim_end (inner ++ b'*' ∷ x ∷ y ∷ ending) ≡ marked payload x y =
      ap trim_end (sym (append_assoc inner (b'*' ∷ x ∷ []) (y ∷ ending)))
      ∙ trim_end-append (inner ++ b'*' ∷ x ∷ []) y ending last newlines
      ∙ append_assoc inner (b'*' ∷ x ∷ []) (y ∷ []) in
    parse_sentence-trim (payload ++ b'*' ∷ x ∷ y ∷ ending) (marked payload x y)
      (suc (length payload)) (omega (arith, length-append payload (b'*' ∷ x ∷ y ∷ ending))) trimmed
      (find-append b'*' inner (x ∷ y ∷ []) (refl, free))
    ∙ parse_marked-marked payload x y
    ∙ check_payload_self payload (parse_hex_byte (x ∷ y ∷ [])) e

join_fields-IsFree : (fs : List (List ℕ)) → All (IsFree b'*') fs → IsFree b'*' (join_fields fs)
unfolding join_fields
join_fields-IsFree [] h = tt
join_fields-IsFree (f ∷ fs) h =
    (refl, All-append (λ x. (x == b'*') ≡ false) f (join_fields fs) h.0 (join_fields-IsFree fs h.1))

build_payload-IsFree :
    (s : NmeaSentence)
    → IsFree b'*' s.talker
    → IsFree b'*' s.formatter
    → All (IsFree b'*') s.fields
    → IsFree b'*' (build_payload s.talker s.formatter s.fields)
unfolding build_payload
build_payload-IsFree s t f fs =
    All-append (λ x. (x == b'*') ≡ false) (s.talker ++ s.formatter) (join_fields s.fields)
      (All-append (λ x. (x == b'*') ≡ false) s.talker s.formatter t f)
      (join_fields-IsFree s.fields fs)

build_payload-long :
    (s : NmeaSentence) → IsPlain s → 5 ≤ length (build_payload s.talker s.formatter s.fields)
unfolding build_payload
build_payload-long s h = omega (
  arith,
  length-append (s.talker ++ s.formatter) (join_fields s.fields),
  length-append s.talker s.formatter,
)

hex_digit-is_newline : (n : ℕ) → is_newline (hex_digit n) ≡ false
hex_digit-is_newline n = ground arith

-- A plain sentence with no `*` in it, built by `BuildSentence` and followed by any newlines, is
-- read back by `ParseSentence` as it was.
pub parse_sentence-build_sentence :
    (s : NmeaSentence) (ending : List ℕ)
    → IsPlain s
    → IsFree b'*' s.talker
    → IsFree b'*' s.formatter
    → All (IsFree b'*') s.fields
    → IsEnding ending
    → parse_sentence (build_sentence s.talker s.formatter s.fields ++ ending) ≡ some s
unfolding build_sentence format_checksum
parse_sentence-build_sentence s ending h t f fs newlines =
    let payload = build_payload s.talker s.formatter s.fields in
    let c = compute_checksum payload in
    ap (λ line. parse_sentence (b'$' ∷ line))
      (append_assoc payload (b'*' ∷ hex_digit (c / 16) ∷ hex_digit (c % 16) ∷ []) ending)
    ∙ parse_sentence-line payload (hex_digit (c / 16)) (hex_digit (c % 16)) ending
        (build_payload-IsFree s t f fs) (build_payload-long s h) (hex_digit-is_newline (c % 16))
        (parse_hex_byte-format_checksum c (compute_checksum_lt payload)) newlines
    ∙ parse_payload-build_payload s h
