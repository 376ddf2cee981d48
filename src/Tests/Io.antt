-- ===== src/Tests/Io.antt =====
-- Tests of the NMEA sentences.
use falcon_guide.Prelude.{ℕ, ◌≡◌, refl, some, none, List, [], ◌∷◌, ◌++◌, arith}
use falcon_guide.Prelude.Bytes.{codes, find}
use falcon_guide.Io.Nmea.Sentence.{
  NmeaSentence, parse_sentence, build_sentence, parse_hex_byte, compute_checksum, trim_end,
  format_checksum, parse_payload, join_fields,
}
use falcon_guide.Io.Nmea.Sentence.RoundTrip.{IsPlain, parse_sentence-build_sentence}
use falcon_guide.Io.Nmea.Sentence.Sound.{IsSentence, parse_sentence_sound}

-- `$FGRMC,,A*` and its checksum.
abbrev void_fix : NmeaSentence
void_fix = record { talker = codes "FG"; formatter = codes "RMC"; fields = [] ∷ codes "A" ∷ [] }

abbrev void_line : List ℕ
void_line = codes "$FGRMC,,A*1C"

builds : build_sentence (codes "FG") (codes "RMC") ([] ∷ codes "A" ∷ []) ≡ void_line
unfolding build_sentence join_fields compute_checksum format_checksum
builds = refl

parses : parse_sentence (codes "$FGRMC,,A*1c") ≡ some void_fix
unfolding parse_sentence trim_end find parse_hex_byte compute_checksum parse_payload
parses = refl

-- One digit of the checksum is wrong.
refuses : parse_sentence (codes "$FGRMC,,A*1D") ≡ none
unfolding parse_sentence trim_end find parse_hex_byte compute_checksum parse_payload
refuses = refl

void_fix-IsPlain : IsPlain void_fix
void_fix-IsPlain = record {
  talker_two = refl;
  formatter_three = omega arith;
  talker_free = (refl, (refl, tt));
  formatter_free = (refl, (refl, (refl, tt)));
  fields_free = (tt, ((refl, tt), tt));
}

parse_sentence-build_sentence_example :
    parse_sentence
      (build_sentence void_fix.talker void_fix.formatter void_fix.fields ++ 13 ∷ 10 ∷ [])
    ≡ some void_fix
parse_sentence-build_sentence_example =
    parse_sentence-build_sentence void_fix (13 ∷ 10 ∷ []) void_fix-IsPlain (refl, (refl, tt))
      (refl, (refl, (refl, tt))) (tt, ((refl, tt), tt)) (refl, (refl, tt))

parse_sentence_sound_example :
    (r : List ℕ) × (trim_end (codes "$FGRMC,,A*1c") ≡ b'$' ∷ r) × IsSentence r void_fix
parse_sentence_sound_example = parse_sentence_sound (codes "$FGRMC,,A*1c") void_fix parses
