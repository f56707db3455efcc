-- ===== src/Rib/Store.antt =====
-- src/rib.rs: `Rib`, its operations as functions of the state, the time `now` an argument.
-- Each method runs alone here: the locks that it takes in turn are not interleaved with others.
use ari.Base.{
  ℕ, String, Option, none, some, List, [], map, if◌then◌else◌, inc64, length, retain, ◌==◌, nat_key,
  string_key, Result, ok, err,
}
use ari.Map.{Map, get, contains_key, insert, remove, keys, values}
use ari.Rib.Value.{
  RibValue, RibObject, RibChange, created, updated, deleted, RibError, already_exists, not_found,
}
use ari.Rib.ChangeLog
use ari.Rib.ChangeLog.{ChangeLog, log_change, update_version_marker}

pub record Rib : Type 0 where
  pub objects : Map String RibObject
  pub version_counter : ℕ
  pub change_log : ChangeLog

unfoldable pub with_change_log_size : ℕ → Rib
unfolding ChangeLog.new
with_change_log_size size = record {
  objects = [];
  version_counter = 0;
  change_log = ChangeLog.new size;
}

unfoldable pub new : Rib
unfolding with_change_log_size
new = with_change_log_size 1000

-- The state after an operation, and what it returns.
abbrev pub Outcome : Type 0 → Type 0
Outcome A = Rib × Result RibError A

abbrev pub new_object : Rib → String → String → RibValue → ℕ → RibObject
new_object r name class value now = record {
  name = name;
  class = class;
  value = value;
  version = inc64 r.version_counter;
  last_modified = now;
}

unfoldable pub add : Rib → RibObject → Rib
add r obj = record {
  objects = insert r.objects obj.name obj;
  version_counter = obj.version;
  change_log = log_change r.change_log (created obj);
}

unfoldable pub create : Rib → String → String → RibValue → ℕ → Outcome Unit
unfolding add
create r name class value now =
    if contains_key r.objects name
    then (r, err (already_exists name))
    else (add r (new_object r name class value now), ok tt)

unfoldable pub read : Rib → String → Option RibObject
read r name = get r.objects name

abbrev pub renewed : Rib → RibObject → RibValue → ℕ → RibObject
renewed r obj value now = record obj {
  value = value;
  version = inc64 r.version_counter;
  last_modified = now;
}

unfoldable pub replace : Rib → String → RibObject → Rib
replace r name obj = record {
  objects = insert r.objects name obj;
  version_counter = obj.version;
  change_log = log_change r.change_log (updated obj);
}

unfoldable pub update : Rib → String → RibValue → ℕ → Outcome Unit
unfolding replace
update r name value now = elim (get r.objects name) [
  | none ↦ (r, err (not_found name))
  | some obj ↦ (replace r name (renewed r obj value now), ok tt)
]

unfoldable pub drop_object : Rib → String → RibObject → ℕ → Rib
drop_object r name obj now = record {
  objects = remove r.objects name;
  version_counter = inc64 r.version_counter;
  change_log = log_change r.change_log (deleted obj.name (inc64 r.version_counter) now);
}

unfoldable pub delete : Rib → String → ℕ → Outcome Unit
unfolding drop_object
delete r name now = elim (get r.objects name) [
  | none ↦ (r, err (not_found name))
  | some obj ↦ (drop_object r name obj now, ok tt)
]

unfoldable pub list_by_class : Rib → String → List String
list_by_class r class = map (λ o. o.name) (retain (λ o. o.class == class) (values r.objects))

unfoldable pub list_all : Rib → List String
list_all r = keys r.objects

unfoldable pub count : Rib → ℕ
count r = length r.objects

unfoldable pub get_all_objects : Rib → List RibObject
get_all_objects r = values r.objects

unfoldable pub clear : Rib → Rib
clear r = record r { objects = [] }

unfoldable pub get_changes_since : Rib → ℕ → Result RibError (List RibChange)
unfolding ChangeLog.get_changes_since
get_changes_since r since = ChangeLog.get_changes_since r.change_log since

unfoldable pub current_version : Rib → ℕ
unfolding ChangeLog.current_version
current_version r = ChangeLog.current_version r.change_log
