-- ===== src/Rib/Receive.antt =====
-- src/rib.rs: the methods of `Rib` that take in objects and changes from another process.
use ari.Base.{
  ℕ, ◌+◌, String, Option, none, some, List, [], ◌∷◌, ltb, if◌then◌else◌, nat_key, string_key, ok,
  err,
}
use ari.Map.{Map, get, contains_key, insert, remove, values}
use ari.Rib.Value.{RibObject, RibChange, created, updated, deleted, version, deserialize_failed}
use ari.Rib.ChangeLog.{update_version_marker}
use ari.Rib.Store.{Rib, Outcome}

abbrev pub Objects : Type 0
Objects = Map String RibObject

-- The objects, and how many of them an incoming list has changed.
abbrev pub Tally : Type 0
Tally = Objects × ℕ

abbrev pub store : Objects → String → RibObject → ℕ → Tally
store os name obj n = (insert os name obj, n + 1)

-- One round of the loop of `merge_objects`: a newer object replaces the local one.
unfoldable pub merge_object : Tally → RibObject → Tally
merge_object (os, n) obj = elim (get os obj.name) [
  | some existing ↦ if ltb existing.version obj.version then store os obj.name obj n else (os, n)
  | none ↦ store os obj.name obj n
]

unfoldable pub merge_all : Tally → List RibObject → Tally
merge_all t [] = t
merge_all t (obj ∷ objs) = merge_all (merge_object t obj) objs

-- `if version > max_version { max_version = version }`.
abbrev pub higher : ℕ → ℕ → ℕ
higher m v = if ltb m v then v else m

unfoldable pub max_version : ℕ → List RibObject → ℕ
max_version m [] = m
max_version m (obj ∷ objs) = max_version (higher m obj.version) objs

-- The end of both methods: the counter and the log learn the highest version, if there is one.
unfoldable pub note_version : Rib → ℕ → ℕ → Rib
note_version r m now =
    if ltb 0 m
    then record r {
      version_counter = higher r.version_counter m;
      change_log = update_version_marker r.change_log m now;
    }
    else r

unfoldable pub merge_objects : Rib → List RibObject → ℕ → Rib × ℕ
unfolding merge_all max_version note_version
merge_objects r objs now =
    let (os, n) = merge_all (r.objects, 0) objs in
    (note_version (record r { objects = os }) (max_version 0 objs) now, n)

-- One round of the loop of `apply_changes`.
unfoldable pub apply_change : Tally → RibChange → Tally
apply_change (os, n) (created obj) =
    if contains_key os obj.name then (os, n) else store os obj.name obj n
apply_change (os, n) (updated obj) = elim (get os obj.name) [
  | some existing ↦ if ltb existing.version obj.version then store os obj.name obj n else (os, n)
  | none ↦ store os obj.name obj n
]
apply_change (os, n) (deleted name v timestamp) =
    if contains_key os name then (remove os name, n + 1) else (os, n)

unfoldable pub apply_all : Tally → List RibChange → Tally
apply_all t [] = t
apply_all t (c ∷ cs) = apply_all (apply_change t c) cs

unfoldable pub max_change : ℕ → List RibChange → ℕ
max_change m [] = m
max_change m (c ∷ cs) = max_change (higher m (version c)) cs

unfoldable pub apply_changes : Rib → List RibChange → ℕ → Outcome ℕ
unfolding apply_all max_change note_version
apply_changes r cs now =
    let (os, n) = apply_all (r.objects, 0) cs in
    (note_version (record r { objects = os }) (max_change 0 cs) now, ok n)

-- What the RIB relies on of postcard, for the values of one type.
pub record Codec (A : Type 0) : Type 0 where
  pub encode : A → Option (List ℕ)
  pub decode : List ℕ → Option A

-- `serialize`: an encoding that fails gives no bytes.
unfoldable pub serialize : Codec (List RibObject) → Rib → List ℕ
serialize codec r = elim (codec.encode (values r.objects)) [ none ↦ [] | some bs ↦ bs ]

abbrev pub counted : Rib × ℕ → Outcome ℕ
counted (r, n) = (r, ok n)

unfoldable pub deserialize : Codec (List RibObject) → Rib → List ℕ → ℕ → Outcome ℕ
unfolding merge_objects
deserialize codec r [] now = (r, ok 0)
deserialize codec r (b ∷ bs) now = elim (codec.decode (b ∷ bs)) [
  | none ↦ (r, err deserialize_failed)
  | some objs ↦ counted (merge_objects r objs now)
]
