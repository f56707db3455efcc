-- ===== src/Rib/File.antt =====
-- src/rib.rs: the snapshots of a RIB in a file, and the task that saves them at an interval.
use ari.Base.{
  ℕ, String, Option, none, some, List, [], ◌∷◌, eqb, if◌then◌else◌, nat_key, string_key, Result, ok,
  err,
}
use ari.Rib.Value.{RibObject, RibError}
use ari.Rib.Store.{Rib, Outcome, count}
use ari.Rib.Receive.{Codec, serialize, deserialize}

-- A file: none where there is none, an error where it cannot be read, and else its bytes.
abbrev pub File : Type 0
File = Option (Result String (List ℕ))

pub data FileError : Type 0 where
  file_not_found : FileError
  unreadable directory_not_created unwritable : String → FileError
  malformed : RibError → FileError

-- What the file system does: why a directory cannot be created, if it cannot, and for a write that
-- fails why, and what it leaves of the file.
pub record Storage : Type 0 where
  pub create_dir_all : Option String
  pub write : List ℕ → Option (String × File)

abbrev pub taken_in : Outcome ℕ → Rib × Result FileError ℕ
taken_in (r, ok n) = (r, ok n)
taken_in (r, err e) = (r, err (malformed e))

unfoldable pub load_snapshot_from_file :
    Codec (List RibObject) → Rib → File → ℕ → Rib × Result FileError ℕ
load_snapshot_from_file codec r none now = (r, err file_not_found)
load_snapshot_from_file codec r (some (err why)) now = (r, err (unreadable why))
load_snapshot_from_file codec r (some (ok [])) now = (r, ok 0)
load_snapshot_from_file codec r (some (ok (b ∷ bs))) now =
    taken_in (deserialize codec r (b ∷ bs) now)

abbrev pub Saved : Type 0
Saved = File × Result FileError ℕ

abbrev pub written : List ℕ → ℕ → Option (String × File) → Saved
written bytes n none = (some (ok bytes), ok n)
written bytes n (some (why, left)) = (left, err (unwritable why))

abbrev pub saved_in : Storage → File → List ℕ → ℕ → Option String → Saved
saved_in st file bytes n none = written bytes n (st.write bytes)
saved_in st file bytes n (some why) = (file, err (directory_not_created why))

abbrev pub saved : Storage → File → ℕ → List ℕ → Saved
saved st file n [] = (file, ok 0)
saved st file n (b ∷ bs) = saved_in st file (b ∷ bs) n st.create_dir_all

-- The file afterwards, and the number of objects in it.
unfoldable pub save_snapshot_to_file : Codec (List RibObject) → Storage → Rib → File → Saved
save_snapshot_to_file codec st r file = saved st file (count r) (serialize codec r)

-- The RIB and the file system at a tick of the task.
abbrev pub Tick : Type 0
Tick = Rib × Storage

-- The loop; a failure is only printed.
unfoldable pub snapshot_ticks : Codec (List RibObject) → List Tick → File → File
snapshot_ticks codec [] file = file
snapshot_ticks codec ((r, st) ∷ ticks) file =
    snapshot_ticks codec ticks (save_snapshot_to_file codec st r file).0

unfoldable pub start_snapshot_task : Codec (List RibObject) → ℕ → List Tick → File → File
unfolding snapshot_ticks
start_snapshot_task codec interval_seconds ticks file =
    if eqb interval_seconds 0 then file else snapshot_ticks codec ticks file
