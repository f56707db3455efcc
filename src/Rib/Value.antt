-- ===== src/Rib/Value.antt =====
-- src/rib.rs: the objects of the RIB, their values, and the changes that are sent to other processes.
use ari.Base.{
  ℕ, ◌-◌, ◌^◌, String, ◌≡◌, refl, Bool, Option, none, some, List, arith, ltb, if◌then◌else◌, ◌==◌,
  nat_key, string_key, ==_iff,
}

-- `negative n` is -(n + 1).
pub data ℤ : Type 0 where
  pos : ℕ → ℤ
  negsuc : ℕ → ℤ

-- `n as i64` of a u64.
abbrev pub as_i64 : ℕ → ℤ
as_i64 n = if ltb n (2 ^ 63) then pos n else negsuc (2 ^ 64 - n - 1)

-- `Struct` holds a `HashMap<String, Box<RibValue>>`, an association list here.
mutual
  pub data RibValue : Type 0 where
    string : String → RibValue
    integer : ℤ → RibValue
    boolean : Bool → RibValue
    bytes : List ℕ → RibValue
    struct : Fields → RibValue

  pub data Fields : Type 0 where
    no_fields : Fields
    field : String → RibValue → Fields → Fields

-- `fields.get(name)`.
unfoldable pub get_field : Fields → String → Option RibValue
get_field no_fields k = none
get_field (field j v fs) k = if j == k then some v else get_field fs k

-- `fields.insert(name, value)`.
unfoldable pub insert_field : Fields → String → RibValue → Fields
insert_field no_fields k v = field k v no_fields
insert_field (field j w fs) k v = if j == k then field k v fs else field j w (insert_field fs k v)

pub get_field-insert_field :
    (fs : Fields) (k j : String) (v : RibValue)
    → get_field (insert_field fs k v) j ≡ (if k == j then some v else get_field fs j)
unfolding get_field insert_field
get_field-insert_field no_fields k j v = refl
get_field-insert_field (field i w fs) k j v =
    ground (arith, ==_iff i k, ==_iff i j, ==_iff k j, get_field-insert_field fs k j v)

abbrev pub as_string : RibValue → Option String
as_string (string s) = some s
as_string _ = none

abbrev pub as_integer : RibValue → Option ℤ
as_integer (integer i) = some i
as_integer _ = none

abbrev pub as_boolean : RibValue → Option Bool
as_boolean (boolean b) = some b
as_boolean _ = none

pub record RibObject : Type 0 where
  pub name : String
  pub class : String
  pub value : RibValue
  pub version : ℕ
  pub last_modified : ℕ

pub data RibChange : Type 0 where
  created : RibObject → RibChange
  updated : RibObject → RibChange
  deleted : String → ℕ → ℕ → RibChange

abbrev pub version : RibChange → ℕ
version (created obj) = obj.version
version (updated obj) = obj.version
version (deleted name v timestamp) = v

abbrev pub object_name : RibChange → String
object_name (created obj) = obj.name
object_name (updated obj) = obj.name
object_name (deleted name v timestamp) = name

pub data RibError : Type 0 where
  already_exists not_found : String → RibError
  too_old : ℕ → ℕ → RibError
  deserialize_failed : RibError
