-- ===== src/Examples/Rib.antt =====
-- Concrete RIBs: histories, merges and snapshots of a few objects.
use ari.Base.{
  ℕ, ◌+◌, ◌<◌, String, ◌≡◌, refl, sym, ◌≢◌, inl, inr, Bool, true, false, ◌&&◌, Option, none, some,
  List, [], ◌∷◌, ◌++◌, arith, eqb, if◌then◌else◌, Bool-cases, u64_mod, ◌==◌, nat_key, string_key,
  ==_iff, ok,
}
use ari.Map.{get, insert, contains_key}
use ari.Rib.Value.{
  RibObject, RibChange, RibValue, boolean, string, bytes, struct, integer, pos, created, updated,
  deleted,
}
use mathlib.Core.Option.{some-injective}
use ari.Rib.ChangeLog
use ari.Rib.ChangeLog.{newer}
use ari.Rib.Store.{
  Rib, with_change_log_size, get_changes_since, create, update, delete, add, replace, drop_object,
}
use ari.Rib.Receive.{
  Objects, merge_all, apply_all, merge_objects, apply_changes, max_version, max_change, higher,
  Codec,
}
use ari.Rib.History.{Op, creates, updates, deletes, step, run, IsCoherent, SameObjects}
use ari.Rib.Sync.{with_change_log_size-IsCoherent, run-IsCoherent, apply_all-get_changes_since}
use ari.Rib.Retention.{get_changes_since-run}
use ari.Rib.Merge.{get-merge_all, newest_of}
use ari.Rib.Intake.{merge_objects-IsCoherent, apply_changes-IsCoherent}
use ari.Rib.File.{Storage, start_snapshot_task}
use ari.Rib.Restart.{Reloaded, start_snapshot_task-Reloaded}
use ari.Rib.Snapshot.{IsCodec}

abbrev empty_rib : Rib
empty_rib = with_change_log_size 4

abbrev pub history : List Op
history =
    creates "/a" "flow" (boolean true) 10
    ∷ creates "/b" "flow" (integer (pos 7)) 11
    ∷ updates "/a" (boolean false) 12
    ∷ deletes "/b" 13
    ∷ []

abbrev pub object_a : ℕ → Bool → ℕ → RibObject
object_a v b t = record {
  name = "/a";
  class = "flow";
  value = boolean b;
  version = v;
  last_modified = t;
}

abbrev pub object_b : RibObject
object_b = record {
  name = "/b";
  class = "flow";
  value = integer (pos 7);
  version = 2;
  last_modified = 11;
}

abbrev changes : List RibChange
changes =
    created (object_a 1 true 10)
    ∷ created object_b
    ∷ updated (object_a 3 false 12)
    ∷ deleted "/b" 4 13
    ∷ []

changes_lem : get_changes_since (run empty_rib history) 0 ≡ ok changes
unfolding run step create update delete add replace drop_object with_change_log_size
    get_changes_since ChangeLog.new ChangeLog.log_change ChangeLog.drop_front ChangeLog.make_room
    ChangeLog.push_back ChangeLog.get_changes_since newer contains_key get insert
changes_lem = refl

empty-IsCoherent : IsCoherent empty_rib
empty-IsCoherent = with_change_log_size-IsCoherent 4

empty_room : (n : ℕ) → n < 100 → empty_rib.version_counter + n < u64_mod
unfolding with_change_log_size
empty_room n h = omega arith

history-IsCoherent : IsCoherent (run empty_rib history)
history-IsCoherent = run-IsCoherent empty_rib history empty-IsCoherent (empty_room 4 (omega arith))

run-IsCoherent_example : IsCoherent (run empty_rib history)
run-IsCoherent_example =
    run-IsCoherent empty_rib history empty-IsCoherent (empty_room 4 (omega arith))

apply_all-get_changes_since_example :
    SameObjects (apply_all ([], 0) changes).0 (run empty_rib history).objects
unfolding with_change_log_size
apply_all-get_changes_since_example =
    apply_all-get_changes_since empty_rib history [] changes empty-IsCoherent
      (empty_room 4 (omega arith)) (λ k. refl) changes_lem

get_changes_since-run_example :
    get_changes_since
      (run (with_change_log_size 5) history)
      (with_change_log_size 5).version_counter
    ≡ ok (
        newer
          (with_change_log_size 5).version_counter
          (run (with_change_log_size 5) history).change_log.changes)
unfolding with_change_log_size ChangeLog.new
get_changes_since-run_example =
    get_changes_since-run (with_change_log_size 5) history (with_change_log_size-IsCoherent 5)
      (inl refl) (omega arith) (omega arith)

-- The objects of a process that knows one of the two objects in an old version.
abbrev known : Objects
known = ("/a", object_a 1 true 10) ∷ []

abbrev received : List RibObject
received = object_a 3 false 12 ∷ object_b ∷ []

get-merge_all_example :
    get (merge_all (known, 0) received).0 "/a" ≡ newest_of "/a" (get known "/a") received
get-merge_all_example = get-merge_all (known, 0) received "/a"

merge_objects-IsCoherent_example :
    IsCoherent (merge_objects (run empty_rib history) received 20).0
    × ((merge_objects (run empty_rib history) received 20).0.version_counter
        ≡ higher (run empty_rib history).version_counter (max_version 0 received))
    × ((merge_objects (run empty_rib history) received 20).0.objects
        ≡ (merge_all ((run empty_rib history).objects, 0) received).0)
unfolding run step create update delete add replace drop_object with_change_log_size contains_key
    get insert
merge_objects-IsCoherent_example =
    merge_objects-IsCoherent (run empty_rib history) received 20 history-IsCoherent (omega arith)

apply_changes-IsCoherent_example :
    IsCoherent (apply_changes empty_rib changes 20).0
    × ((apply_changes empty_rib changes 20).0.version_counter
        ≡ higher empty_rib.version_counter (max_change 0 changes))
    × ((apply_changes empty_rib changes 20).0.objects
        ≡ (apply_all (empty_rib.objects, 0) changes).0)
apply_changes-IsCoherent_example =
    apply_changes-IsCoherent empty_rib changes 20 empty-IsCoherent (empty_room 1 (omega arith))

-- An encoding of no flag or one flag, all flags of one name and one class; it fails on other objects.
abbrev pub flag_code : String → String → RibValue → ℕ → ℕ → Option (List ℕ)
flag_code n c (boolean true) v t = if n == "/a" && c == "flow" then some (1 ∷ v ∷ t ∷ []) else none
flag_code n c (boolean false) v t = if n == "/a" && c == "flow" then some (0 ∷ v ∷ t ∷ []) else none
flag_code n c _ v t = none

abbrev pub encode_flag : List RibObject → Option (List ℕ)
encode_flag [] = some (0 ∷ [])
encode_flag (o ∷ []) = flag_code o.name o.class o.value o.version o.last_modified
encode_flag _ = none

abbrev pub decode_flag : List ℕ → Option (List RibObject)
decode_flag (n ∷ []) = some []
decode_flag (b ∷ v ∷ t ∷ []) = some (object_a v (eqb b 1) t ∷ [])
decode_flag _ = none

abbrev pub flag_codec : Codec (List RibObject)
flag_codec = record { encode = encode_flag; decode = decode_flag }

decode-flag_code :
    (n c : String) (b : RibValue) (v t : ℕ) (bs : List ℕ)
    → flag_code n c b v t ≡ some bs
    → decode_flag bs
      ≡ some (record { name = n; class = c; value = b; version = v; last_modified = t } ∷ [])
decode-flag_code n c (boolean true) v t bs h = elim (Bool-cases (n == "/a" && c == "flow")) [
  | inl named ↦
      let sent : 1 ∷ v ∷ t ∷ [] ≡ bs = some-injective _ _ (cc (named, h)) in
      let name : "/a" ≡ n = ground (arith, ==_iff n "/a") in
      let class : "flow" ≡ c = ground (arith, ==_iff c "flow") in
      rw (sym sent, sym name, sym class) refl
  | inr other ↦ absurd (cc (other, h))
]
decode-flag_code n c (boolean false) v t bs h = elim (Bool-cases (n == "/a" && c == "flow")) [
  | inl named ↦
      let sent : 0 ∷ v ∷ t ∷ [] ≡ bs = some-injective _ _ (cc (named, h)) in
      let name : "/a" ≡ n = ground (arith, ==_iff n "/a") in
      let class : "flow" ≡ c = ground (arith, ==_iff c "flow") in
      rw (sym sent, sym name, sym class) refl
  | inr other ↦ absurd (cc (other, h))
]
decode-flag_code n c (string x) v t bs h = cc
decode-flag_code n c (integer x) v t bs h = cc
decode-flag_code n c (bytes x) v t bs h = cc
decode-flag_code n c (struct x) v t bs h = cc

flag_code-sent : (n c : String) (b : RibValue) (v t : ℕ) → flag_code n c b v t ≢ some []
flag_code-sent n c (boolean true) v t h = ground arith
flag_code-sent n c (boolean false) v t h = ground arith
flag_code-sent n c (string x) v t h = cc
flag_code-sent n c (integer x) v t h = cc
flag_code-sent n c (bytes x) v t h = cc
flag_code-sent n c (struct x) v t h = cc

round_trip_flag :
    (objs : List RibObject) (bs : List ℕ) → encode_flag objs ≡ some bs → decode_flag bs ≡ some objs
round_trip_flag [] bs h = rw (sym (some-injective _ _ h)) refl
round_trip_flag (o ∷ []) bs h =
    decode-flag_code o.name o.class o.value o.version o.last_modified bs h
round_trip_flag (o ∷ p ∷ os) bs h = cc

encode_flag-sent : (objs : List RibObject) → encode_flag objs ≢ some []
encode_flag-sent [] h = cc
encode_flag-sent (o ∷ []) h = flag_code-sent o.name o.class o.value o.version o.last_modified h
encode_flag-sent (o ∷ p ∷ os) h = cc

abbrev flag_rib : Rib
flag_rib = run empty_rib (
    creates "/a" "flow" (boolean true) 10
    ∷ updates "/a" (integer (pos 1)) 11
    ∷ updates "/a" (boolean false) 12
    ∷ [])

pub flag_codec-IsCodec : IsCodec flag_codec
flag_codec-IsCodec = record { round_trip = round_trip_flag; not_empty = encode_flag-sent }

abbrev disk : Storage
disk = record { create_dir_all = none; write = λ bytes. none }

start_snapshot_task-Reloaded_example :
    Reloaded flag_codec flag_rib 8 30
      (start_snapshot_task flag_codec 60 (((empty_rib, disk) ∷ []) ++ (flag_rib, disk) ∷ []) none)
unfolding run step create update add replace with_change_log_size contains_key get insert
start_snapshot_task-Reloaded_example =
    start_snapshot_task-Reloaded flag_codec flag_codec-IsCodec 60 ((empty_rib, disk) ∷ []) flag_rib
      disk none 8 30 (0 ∷ 3 ∷ 12 ∷ []) (omega arith)
      (record { directories = refl; writes = λ bytes. refl })
      (run-IsCoherent empty_rib
        (creates "/a" "flow" (boolean true) 10
          ∷ updates "/a" (integer (pos 1)) 11
          ∷ updates "/a" (boolean false) 12
          ∷ [])
        empty-IsCoherent (empty_room 3 (omega arith)))
      refl
