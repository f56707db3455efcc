-- ===== src/Rib/Restart.antt =====
-- A process that starts again from the snapshot file of the process before.
use ari.Base.{
  ℕ, ◌≤◌, ◌<◌, ◌≡◌, refl, sym, ap, ◌∙◌, ◌≢◌, true, false, none, some, List, [], ◌∷◌, ◌++◌, arith,
  eqb, nat_key, string_key, Result, ok, err, is_ok,
}
use mathlib.Core.Path.{subst}
use ari.Map.{values}
use ari.Rib.Value.{RibObject}
use ari.Rib.Store.{Rib, Outcome, count, with_change_log_size}
use ari.Rib.Receive.{Codec, deserialize}
use ari.Rib.History.{IsCoherent, SameObjects}
use ari.Rib.Snapshot.{IsCodec, deserialize-serialize, serialize_lem, restored}
use ari.Rib.File.{
  File, FileError, Storage, Tick, Saved, taken_in, load_snapshot_from_file, saved, saved_in,
  written, save_snapshot_to_file, snapshot_ticks, start_snapshot_task,
}

-- A file system on which nothing fails.
pub record Works (st : Storage) : Type 0 where
  pub directories : st.create_dir_all ≡ none
  pub writes : (bytes : List ℕ) → st.write bytes ≡ none

-- A new RIB that was loaded from a file has the objects of another one.
pub record Reloaded (codec : Codec (List RibObject)) (r : Rib) (size now : ℕ) (file : File)
    : Type 0 where
  pub loaded : is_ok (load_snapshot_from_file codec (with_change_log_size size) file now).1 ≡ true
  pub same :
      SameObjects
        (load_snapshot_from_file codec (with_change_log_size size) file now).0.objects
        r.objects
  pub coherent : IsCoherent (load_snapshot_from_file codec (with_change_log_size size) file now).0
  pub counter :
      (load_snapshot_from_file codec (with_change_log_size size) file now).0.version_counter
      ≤ r.version_counter

saved_lem :
    (st : Storage) (file : File) (n : ℕ) (bytes : List ℕ)
    → Works st
    → bytes ≢ []
    → saved st file n bytes ≡ (some (ok bytes), ok n)
saved_lem st file n [] w some_bytes = absurd (some_bytes refl)
saved_lem st file n (b ∷ bs) w some_bytes =
    ap (saved_in st file (b ∷ bs) n) w.directories ∙ ap (written (b ∷ bs) n) (w.writes (b ∷ bs))

taken_in_ok : (o : Outcome ℕ) → is_ok o.1 ≡ true → is_ok (taken_in o).1 ≡ true
taken_in_ok (r, ok n) h = h
taken_in_ok (r, err e) h = absurd (ground arith)

taken_in_rib : (o : Outcome ℕ) → (taken_in o).0 ≡ o.0
taken_in_rib (r, ok n) = refl
taken_in_rib (r, err e) = refl

load_lem :
    (codec : Codec (List RibObject)) (r : Rib) (bytes : List ℕ) (now : ℕ)
    → bytes ≢ []
    → load_snapshot_from_file codec r (some (ok bytes)) now
      ≡ taken_in (deserialize codec r bytes now)
unfolding load_snapshot_from_file
load_lem codec r [] now some_bytes = absurd (some_bytes refl)
load_lem codec r (b ∷ bs) now some_bytes = refl

module _ (codec : Codec (List RibObject)) (laws : IsCodec codec) where
  -- What a save leaves in the file is read back.
  load_snapshot_from_file-save :
      (r : Rib) (st : Storage) (file : File) (size now : ℕ) (bs : List ℕ)
      → Works st
      → IsCoherent r
      → codec.encode (values r.objects) ≡ some bs
      → ((save_snapshot_to_file codec st r file).1 ≡ ok (count r))
        × Reloaded codec r size now (save_snapshot_to_file codec st r file).0
  unfolding save_snapshot_to_file
  load_snapshot_from_file-save r st file size now bs w v e =
      let some_bytes : bs ≢ [] =
        λ none_left. laws.not_empty (values r.objects) (e ∙ ap some none_left) in
      let whole = serialize_lem codec r bs e in
      let stored =
        ap (saved st file (count r)) whole ∙ saved_lem st file (count r) bs w some_bytes in
      let read : load_snapshot_from_file codec (with_change_log_size size) (some (ok bs)) now
          ≡ taken_in (restored codec r size now) =
        load_lem codec (with_change_log_size size) bs now some_bytes
        ∙ ap (λ (b : List ℕ). taken_in (deserialize codec (with_change_log_size size) b now))
            (sym whole) in
      let (fine, same, coherent, counter) = deserialize-serialize codec r size now bs laws v e in
      let rib : (load_snapshot_from_file codec (with_change_log_size size) (some (ok bs)) now).0
          ≡ (restored codec r size now).0 =
        ap (λ (o : Rib × Result FileError ℕ). o.0) read
        ∙ taken_in_rib (restored codec r size now) in
      (
        ap (λ (o : Saved). o.1) stored,
        subst (Reloaded codec r size now) (sym (ap (λ (o : Saved). o.0) stored)) (record {
          loaded = ap (λ (o : Rib × Result FileError ℕ). is_ok o.1) read ∙ taken_in_ok _ fine;
          same = subst (λ (x : Rib). SameObjects x.objects r.objects) (sym rib) same;
          coherent = subst IsCoherent (sym rib) coherent;
          counter = subst (λ (x : Rib). x.version_counter ≤ r.version_counter) (sym rib) counter;
        }),
      )

  snapshot_ticks-snoc :
      (earlier : List Tick) (r : Rib) (st : Storage) (file : File)
      → snapshot_ticks codec (earlier ++ (r, st) ∷ []) file
        ≡ (save_snapshot_to_file codec st r (snapshot_ticks codec earlier file)).0
  unfolding snapshot_ticks
  snapshot_ticks-snoc [] r st file = refl
  snapshot_ticks-snoc ((s, at) ∷ earlier) r st file =
      snapshot_ticks-snoc earlier r st (save_snapshot_to_file codec at s file).0

  -- A new RIB that loads the file that the snapshot task left at its last tick, whatever the
  -- ticks before and the file at first were, succeeds, has the objects of the RIB of that tick,
  -- is coherent and counts versions no further. The interval is not 0, nothing fails on the file
  -- system at the last tick, the RIB is coherent then, and the encoding decodes what it encodes,
  -- encodes no list as no bytes, and does not fail.
  pub start_snapshot_task-Reloaded :
      (interval : ℕ) (earlier : List Tick) (r : Rib) (st : Storage) (file : File) (size now : ℕ)
      (bs : List ℕ)
      → 0 < interval
      → Works st
      → IsCoherent r
      → codec.encode (values r.objects) ≡ some bs
      → Reloaded codec r size now
          (start_snapshot_task codec interval (earlier ++ (r, st) ∷ []) file)
  unfolding start_snapshot_task
  start_snapshot_task-Reloaded interval earlier r st file size now bs on w v e =
      let running : eqb interval 0 ≡ false = ground arith in
      rw running (
        subst (Reloaded codec r size now) (sym (snapshot_ticks-snoc earlier r st file))
          (load_snapshot_from_file-save r st (snapshot_ticks codec earlier file) size now bs w v
            e).1)
