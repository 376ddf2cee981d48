-- ===== src/Tests/Json.antt =====
-- A JSON library for the tests: whole numbers stand for `double`, and a value for its text.
use falcon_guide.Prelude.{ℕ, ◌≡◌, refl, Bool, true, false, Option, none, some, List, [], ◌∷◌}
use falcon_guide.Prelude.Bytes.{codes}
use falcon_guide.Prelude.Int.{ℤ, pos_part}
use falcon_guide.Prelude.Result.{Result, ok, err}
use falcon_guide.Core.Double.{Literal}
use falcon_guide.App.Config.Json.{Json, IsJson, lookup}

mutual
  pub data Value : Type 0 where
    nothing : Value
    number : ℤ → Value
    boolean : Bool → Value
    text : List ℕ → Value
    items : Items → Value
    members : Members → Value

  pub data Items : Type 0 where
    nil : Items
    cons : Value → Items → Items

  pub data Members : Type 0 where
    end : Members
    member : List ℕ → Value → Members → Members

abbrev to_list : Items → List Value
to_list nil = []
to_list (cons v vs) = v ∷ to_list vs

abbrev of_list : List Value → Items
of_list [] = nil
of_list (v ∷ vs) = cons v (of_list vs)

abbrev to_pairs : Members → List (List ℕ × Value)
to_pairs end = []
to_pairs (member k v ms) = (k, v) ∷ to_pairs ms

abbrev of_pairs : List (List ℕ × Value) → Members
of_pairs [] = end
of_pairs ((k, v) ∷ ms) = member k v (of_pairs ms)

to_list-of_list : (vs : List Value) → to_list (of_list vs) ≡ vs
to_list-of_list [] = refl
to_list-of_list (v ∷ vs) = rw (to_list-of_list vs) refl

to_pairs-of_pairs : (ms : List (List ℕ × Value)) → to_pairs (of_pairs ms) ≡ ms
to_pairs-of_pairs [] = refl
to_pairs-of_pairs ((k, v) ∷ ms) = rw (to_pairs-of_pairs ms) refl

abbrev find : Value → List ℕ → Option Value
find (members ms) k = lookup k (to_pairs ms)
find _ k = none

abbrev is_object : Value → Bool
is_object (members ms) = true
is_object _ = false

abbrev is_null : Value → Bool
is_null nothing = true
is_null _ = false

abbrev elements : Value → Option (List Value)
elements (items vs) = some (to_list vs)
elements _ = none

abbrev pub wrong : List ℕ
wrong = codes "type_error"

abbrev get_number : Value → Result ℤ
get_number (number n) = ok n
get_number _ = err wrong

abbrev get_boolean : Value → Result Bool
get_boolean (boolean b) = ok b
get_boolean _ = err wrong

abbrev get_text : Value → Result (List ℕ)
get_text (text s) = ok s
get_text _ = err wrong

abbrev get_natural : Value → Result ℕ
get_natural (number n) = ok (pos_part n)
get_natural _ = err wrong

abbrev pub values : Json ℤ Value Value
values = record {
  find = find;
  is_object = is_object;
  is_null = is_null;
  elements = elements;
  get_double = get_number;
  get_bool = get_boolean;
  get_string = get_text;
  get_int = get_number;
  get_uint16 = get_natural;
  not_object = λ v. wrong;
  null = nothing;
  of_double = number;
  of_bool = boolean;
  of_string = text;
  of_int = number;
  of_array = λ vs. items (of_list vs);
  of_object = λ ms. members (of_pairs ms);
  parse = λ v. ok v;
  dump = λ v. ok v;
}

pub values-IsJson : IsJson values
values-IsJson = record {
  find-of_object = λ fs k. rw (to_pairs-of_pairs fs) refl;
  is_object-of_object = λ fs. refl;
  is_null-null = refl;
  is_null-of_double = λ x. refl;
  elements-of_array = λ xs. rw (to_list-of_list xs) refl;
  get_double-of_double = λ x. refl;
  get_bool-of_bool = λ b. refl;
  get_string-of_string = λ s. refl;
  get_int-of_int = λ n h. refl;
  get_uint16-of_int = λ n h. refl;
}

instance abbrev pub whole_literal : Literal ℤ
whole_literal = record { literal = λ m e. m }
