-- ===== src/Io/Nmea/Sentence.antt =====
-- src/io/include/falconguide/io/nmea/nmea_sentence.hpp. A text is the list of its bytes.
pub mod Pieces
pub mod RoundTrip
pub mod Sound
use Prim.Native.Nat.{bit_xor, bit_or}
use mathlib.Core.List.{foldl}
use falcon_guide.Prelude.{
  ℕ, zero, suc, ◌+◌, ◌-◌, ◌*◌, ◌/◌, ◌%◌, Bool, true, false, ◌&&◌, ◌||◌, not, Option, none, some,
  List, [], ◌∷◌, ◌++◌, length, take, drop, ltb, leb, ◌==◌, if◌then◌else◌,
}
use falcon_guide.Prelude.Bytes.{find, codes}

pub record NmeaSentence : Type 0 where
  pub talker : List ℕ
  pub formatter : List ℕ
  pub fields : List (List ℕ)

-- `uint8_t`.
unfoldable pub compute_checksum : List ℕ → ℕ
compute_checksum = foldl (λ checksum character. bit_xor checksum (character % 256) % 256) 0

abbrev hex_digit : ℕ → ℕ
hex_digit n = if ltb n 10 then b'0' + n else b'A' + (n - 10)

-- `std::uppercase`, `std::hex`, `setw(2)` and `setfill('0')`, for a byte.
unfoldable pub format_checksum : ℕ → List ℕ
format_checksum checksum = hex_digit (checksum / 16) ∷ hex_digit (checksum % 16) ∷ []

-- The digit that a character stands for.
abbrev parse_hex_digit : ℕ → Option ℕ
parse_hex_digit c =
    if leb b'0' c && leb c b'9'
    then some (c - b'0')
    else if leb b'A' c && leb c b'F'
    then some (c - b'A' + 10)
    else if leb b'a' c && leb c b'f'
    then some (c - b'a' + 10)
    else none

-- The loop, with `value` so far.
parse_hex_digits : ℕ → List ℕ → Option ℕ
parse_hex_digits value [] = some value
parse_hex_digits value (c ∷ cs) = elim (parse_hex_digit c) [
  | none ↦ none
  | some digit ↦ parse_hex_digits (bit_or (value * 16 % 256) digit) cs
]

unfoldable pub parse_hex_byte : List ℕ → Option ℕ
unfolding parse_hex_digits
parse_hex_byte text = if length text == 2 then parse_hex_digits 0 text else none

abbrev pub is_newline : ℕ → Bool
is_newline c = c == 10 || c == 13

abbrev trim_cons : ℕ → List ℕ → List ℕ
trim_cons c [] = if is_newline c then [] else c ∷ []
trim_cons c (x ∷ xs) = c ∷ x ∷ xs

-- The `while` loop with `remove_suffix`: the text without the newlines at its end.
unfoldable pub trim_end : List ℕ → List ℕ
trim_end [] = []
trim_end (c ∷ cs) = trim_cons c (trim_end cs)

-- The `while` loop over the fields, from `field_start` on: what is left of the payload there. Its
-- test always holds, since `field_end` lies inside the payload.
unfoldable pub split_fields : ℕ → List ℕ → List (List ℕ)
split_fields zero rest = []
split_fields (suc fuel) rest = elim (find b',' rest) [
  | none ↦ rest ∷ []
  | some field_end ↦ take field_end rest ∷ split_fields fuel (drop (suc field_end) rest)
]

unfoldable pub parse_header : List ℕ → List (List ℕ) → Option NmeaSentence
parse_header header fields =
    if ltb (length header) 5
    then none
    else some (record { talker = take 2 header; formatter = drop 2 header; fields = fields })

-- A payload whose checksum is right. A field takes at least the one comma before it, so the payload's
-- length is fuel enough.
unfoldable pub parse_payload : List ℕ → Option NmeaSentence
unfolding parse_header split_fields
parse_payload payload = elim (find b',' payload) [
  | none ↦ parse_header payload []
  | some first_comma ↦
      parse_header (take first_comma payload)
        (split_fields (length payload) (drop (suc first_comma) payload))
]

-- The payload, if the two digits are its checksum.
unfoldable pub check_payload : List ℕ → Option ℕ → Option NmeaSentence
check_payload payload none = none
check_payload payload (some expected) =
    if compute_checksum payload == expected then parse_payload payload else none

-- The line without its newlines, and the position of the first `*`. The payload stands between
-- the `$` and the `*`.
unfoldable pub parse_marked : List ℕ → Option ℕ → Option NmeaSentence
unfolding check_payload
parse_marked line none = none
parse_marked line (some checksum_marker) =
    if checksum_marker + 3 == length line
    then check_payload (take (checksum_marker - 1) (drop 1 line))
        (parse_hex_byte (take 2 (drop (checksum_marker + 1) line)))
    else none

abbrev front_is : ℕ → List ℕ → Bool
front_is c [] = false
front_is c (x ∷ xs) = x == c

unfoldable pub parse_sentence : List ℕ → Option NmeaSentence
unfolding parse_marked
parse_sentence line =
    if ltb (length line) 9 || not (front_is b'$' line)
    then none
    else parse_marked (trim_end line) (find b'*' (trim_end line))

-- The loop that writes the fields.
unfoldable pub join_fields : List (List ℕ) → List ℕ
join_fields [] = []
join_fields (field ∷ fields) = b',' ∷ (field ++ join_fields fields)

-- The text between the `$` and the `*`.
unfoldable pub build_payload : List ℕ → List ℕ → List (List ℕ) → List ℕ
build_payload talker formatter fields = (talker ++ formatter) ++ join_fields fields

unfoldable pub build_sentence : List ℕ → List ℕ → List (List ℕ) → List ℕ
unfolding build_payload
build_sentence talker formatter fields =
    let payload = build_payload talker formatter fields in
    b'$' ∷ (payload ++ b'*' ∷ format_checksum (compute_checksum payload))
