-- ===== src/Rib/ChangeLog.antt =====
-- src/rib.rs: `RibChangeLog`, the bounded log of recent changes. The time is an argument.
pub mod Window
use Prim.Native.String.{◌++◌ as append}
use ari.Base.{
  ℕ, Bool, false, Option, none, some, List, [], ◌∷◌, ◌++◌, ltb, leb, eqb, if◌then◌else◌, inc64,
  length, retain, back, nat_key, string_key, Result, ok, err,
}
use ari.Text.{decimal}
use ari.Rib.Value.{RibChange, deleted, version, RibError, too_old}

pub record ChangeLog : Type 0 where
  pub changes : List RibChange
  pub max_size : ℕ
  pub oldest_version : ℕ

-- `RibChangeLog::new`.
unfoldable pub new : ℕ → ChangeLog
new max_size = record { changes = []; max_size = max_size; oldest_version = 0 }

-- `pop_front` at capacity: the front change goes, and the oldest version is the one after it.
unfoldable pub drop_front : ChangeLog → List RibChange → ChangeLog
drop_front l [] = l
drop_front l (removed ∷ rest) = record l {
  changes = rest;
  oldest_version = inc64 (version removed);
}

unfoldable pub make_room : ChangeLog → ChangeLog
unfolding drop_front
make_room l = if leb l.max_size (length l.changes) then drop_front l l.changes else l

unfoldable pub push_back : ChangeLog → RibChange → ChangeLog
push_back l c = record l { changes = l.changes ++ c ∷ [] }

unfoldable pub log_change : ChangeLog → RibChange → ChangeLog
unfolding make_room push_back
log_change l c = push_back (make_room l) c

unfoldable pub newer : ℕ → List RibChange → List RibChange
newer since = retain (λ c. ltb since (version c))

unfoldable pub get_changes_since : ChangeLog → ℕ → Result RibError (List RibChange)
unfolding newer
get_changes_since l since =
    if ltb since l.oldest_version
    then err (too_old since l.oldest_version)
    else ok (newer since l.changes)

abbrev pub version_or_zero : Option RibChange → ℕ
version_or_zero none = 0
version_or_zero (some c) = version c

-- The version of the latest change, 0 for an empty log.
unfoldable pub current_version : ChangeLog → ℕ
current_version l = version_or_zero (back l.changes)

unfoldable pub len : ChangeLog → ℕ
len l = length l.changes

unfoldable pub is_empty : ChangeLog → Bool
is_empty l = eqb (length l.changes) 0

unfoldable pub sync_marker : ℕ → ℕ → RibChange
sync_marker v now = deleted (append "__sync_marker_" (decimal v)) v now

-- Whether `changes.back()` is there and at least at the version.
abbrev pub reached : ℕ → Option RibChange → Bool
reached v none = false
reached v (some last) = leb v (version last)

unfoldable pub update_version_marker : ChangeLog → ℕ → ℕ → ChangeLog
unfolding log_change sync_marker
update_version_marker l v now =
    if reached v (back l.changes) then l else log_change l (sync_marker v now)
