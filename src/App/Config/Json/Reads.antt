-- ===== src/App/Config/Json/Reads.antt =====
-- What the readers of members return on a member that the writers made.
use falcon_guide.Prelude.{◌≡◌, ◌∙◌, refl, Option, none, some, List, ℕ, ◌<◌, Bool}
use falcon_guide.Prelude.Result.{Result, ok}
use falcon_guide.Prelude.Int.{ℤ, pos}
use falcon_guide.Core.Double.{Literal}
use falcon_guide.Core.Vector.{Vec3, Mat3}
use falcon_guide.App.Config.Json.{
  Json, IsJson, IsInt, lookup, read_member, value, read_opt_double, write_opt_double, read_vec3,
  write_vec3, read_mat3, write_mat3,
}

module _ {ℓ} {D J W : Type ℓ} {json : Json D J W} (laws : IsJson json) where
  open json use {
    of_object, of_double, of_bool, of_string, of_int, get_double, get_bool, get_string, get_int,
    get_uint16,
  }

  module _ (fs : List (List ℕ × J)) (k : List ℕ) {v : J} (found : lookup k fs ≡ some v) where
    pub read_member-of_object {κ} :
        {A : Type κ} (get : J → Result A) (x : A) → read_member json get (of_object fs) k x ≡ get v
    unfolding read_member
    read_member-of_object get x = rw (laws.find-of_object fs k, found, read_member) refl

    -- A member whose value the reader reads.
    pub member_ok {κ} :
        {A : Type κ} (get : J → Result A) (x : A) {a : A}
        → get v ≡ ok a
        → read_member json get (of_object fs) k x ≡ ok a
    member_ok get x e = read_member-of_object get x ∙ e

    pub value-of_object {κ} :
        {A : Type κ} (get : J → Result A) (x : A) → value json get (of_object fs) k x ≡ get v
    unfolding value
    value-of_object get x = rw (laws.is_object-of_object fs) (read_member-of_object get x)

  -- A member of an object, as each reader reads it.
  module _ (fs : List (List ℕ × J)) (k : List ℕ) where
    pub read_double-of_double :
        {x : D} (def : D)
        → lookup k fs ≡ some (of_double x)
        → read_member json get_double (of_object fs) k def ≡ ok x
    read_double-of_double def found =
        rw (read_member-of_object fs k found get_double def) (laws.get_double-of_double _)

    pub read_bool-of_bool :
        {b : Bool} (def : Bool)
        → lookup k fs ≡ some (of_bool b)
        → read_member json get_bool (of_object fs) k def ≡ ok b
    read_bool-of_bool def found =
        rw (read_member-of_object fs k found get_bool def) (laws.get_bool-of_bool _)

    pub value_double-of_double :
        {x : D} (def : D)
        → lookup k fs ≡ some (of_double x)
        → value json get_double (of_object fs) k def ≡ ok x
    value_double-of_double def found =
        rw (value-of_object fs k found get_double def) (laws.get_double-of_double _)

    pub value_bool-of_bool :
        {b : Bool} (def : Bool)
        → lookup k fs ≡ some (of_bool b)
        → value json get_bool (of_object fs) k def ≡ ok b
    value_bool-of_bool def found =
        rw (value-of_object fs k found get_bool def) (laws.get_bool-of_bool _)

    pub value_string-of_string :
        {s : List ℕ} (def : List ℕ)
        → lookup k fs ≡ some (of_string s)
        → value json get_string (of_object fs) k def ≡ ok s
    value_string-of_string def found =
        rw (value-of_object fs k found get_string def) (laws.get_string-of_string _)

    pub value_int-of_int :
        {n : ℤ} (def : ℤ)
        → IsInt n
        → lookup k fs ≡ some (of_int n)
        → value json get_int (of_object fs) k def ≡ ok n
    value_int-of_int def h found =
        rw (value-of_object fs k found get_int def) (laws.get_int-of_int _ h)

    pub value_uint16-of_int :
        {n : ℕ} (def : ℕ)
        → n < 65536
        → lookup k fs ≡ some (of_int (pos n))
        → value json get_uint16 (of_object fs) k def ≡ ok n
    value_uint16-of_int def h found =
        rw (value-of_object fs k found get_uint16 def) (laws.get_uint16-of_int _ h)

    pub read_opt_double-write_opt_double :
        (o : Option D)
        → lookup k fs ≡ some (write_opt_double json o)
        → read_opt_double json (of_object fs) k ≡ ok o
    unfolding read_opt_double write_opt_double
    read_opt_double-write_opt_double none found =
        rw (laws.find-of_object fs k, found, laws.is_null-null, read_opt_double) refl
    read_opt_double-write_opt_double (some x) found =
        rw
          (
            laws.find-of_object fs k,
            found,
            laws.is_null-of_double x,
            laws.get_double-of_double x,
            read_opt_double,
          )
          refl

    pub read_vec3-write_vec3 :
        {v : Vec3 D} (def : Vec3 D)
        → lookup k fs ≡ some (write_vec3 json v)
        → read_vec3 json (of_object fs) k def ≡ ok v
    unfolding read_vec3 write_vec3
    read_vec3-write_vec3 def found =
        rw (laws.find-of_object fs k, found, laws.elements-of_array _, read_vec3)
          (simp laws.get_double-of_double)

    pub read_mat3-write_mat3 :
        ⦃n : Literal D⦄ {m : Mat3 D}
        → lookup k fs ≡ some (write_mat3 json m)
        → read_mat3 json (of_object fs) k ≡ ok m
    unfolding read_mat3 write_mat3
    read_mat3-write_mat3 found =
        rw (laws.find-of_object fs k, found, laws.elements-of_array _, read_mat3)
          (simp laws.get_double-of_double)
