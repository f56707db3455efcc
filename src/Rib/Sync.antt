-- ===== src/Rib/Sync.antt =====
-- Incremental synchronisation: the changes since a version bring a copy of that version up to date.
use mathlib.Core.Path.{subst}
use ari.Base.{
  ℕ, ◌+◌, ◌≤◌, ◌<◌, ◌≡◌, refl, sym, inl, inr, List, [], ◌∷◌, ◌++◌, arith, u64_mod, length, nat_key,
  string_key, ok,
}
use ari.Map.{get}
use ari.Rib.Value.{RibChange}
use ari.Rib.ChangeLog
use ari.Rib.ChangeLog.{newer}
use ari.Rib.ChangeLog.Window.{log_change-newer, newer_none}
use ari.Rib.Store.{Rib, get_changes_since, with_change_log_size}
use ari.Rib.Receive.{Objects, Tally, apply_change, apply_all}
use ari.Rib.History.{
  Op, step, run, IsCoherent, SameObjects, Stepped, step-Stepped, Stepped-IsCoherent,
}

-- A new RIB is coherent.
pub with_change_log_size-IsCoherent : (size : ℕ) → IsCoherent (with_change_log_size size)
unfolding with_change_log_size ChangeLog.current_version get
with_change_log_size-IsCoherent size = record {
  within = omega arith;
  current = refl;
  named = λ k o h. cc;
  distinct = tt;
}

-- The counter grows by one at most.
pub Stepped-counter :
    (r r' : Rib)
    → Stepped r r'
    → (r'.version_counter ≤ r.version_counter + 1) × (r.version_counter ≤ r'.version_counter)
Stepped-counter r r' (inl same) = rw same (omega arith, omega arith)
Stepped-counter r r' (inr (c, l)) =
    (omega (arith, l.counter, l.next), omega (arith, l.counter, l.next))

-- Any history of creations, updates and deletions keeps a coherent RIB so, while the version
-- counter does not wrap: its log holds the latest changes in version order up to the counter,
-- and every object stands once, under its own name, with a version that was given out.
pub run-IsCoherent :
    (r : Rib) (ops : List Op)
    → IsCoherent r
    → r.version_counter + length ops < u64_mod
    → IsCoherent (run r ops)
unfolding run
run-IsCoherent r [] v room = v
run-IsCoherent r (op ∷ ops) v room =
    let free : r.version_counter + 1 < u64_mod = omega arith in
    let stepped : Stepped r (step r op) = step-Stepped r v free op in
    let (up, _) = Stepped-counter r (step r op) stepped in
    run-IsCoherent (step r op) ops (Stepped-IsCoherent r v free (step r op) stepped) (omega arith)

apply_all-append :
    (t : Tally) (cs ds : List RibChange) → apply_all t (cs ++ ds) ≡ apply_all (apply_all t cs) ds
unfolding apply_all
apply_all-append t [] ds = refl
apply_all-append t (c ∷ cs) ds = apply_all-append (apply_change t c) cs ds

-- What the log still answers for the version `since` brings the copy to the state of the RIB.
abbrev CatchesUp : Objects → ℕ → Rib → Type 0
CatchesUp m since r =
    r.change_log.oldest_version ≤ since
    → SameObjects (apply_all (m, 0) (newer since r.change_log.changes)).0 r.objects

Stepped-CatchesUp :
    (m : Objects) (since : ℕ) (r r' : Rib)
    → IsCoherent r
    → r.version_counter + 1 < u64_mod
    → since ≤ r.version_counter
    → Stepped r r'
    → CatchesUp m since r
    → CatchesUp m since r'
unfolding apply_all
Stepped-CatchesUp m since r r' v room le (inl same) caught old =
    subst (CatchesUp m since) (sym same) caught old
Stepped-CatchesUp m since r r' v room le (inr (c, l)) caught old =
    let (before, grown) =
      log_change-newer r.change_log c r.version_counter since room v.within le
        (omega (arith, l.next)) (rw l.log at old) in
    rw (l.log, grown, apply_all-append (m, 0) (newer since r.change_log.changes) (c ∷ []))
      (l.follows (apply_all (m, 0) (newer since r.change_log.changes)) (caught before))

run-CatchesUp :
    (m : Objects) (since : ℕ) (r : Rib) (ops : List Op)
    → IsCoherent r
    → r.version_counter + length ops < u64_mod
    → since ≤ r.version_counter
    → CatchesUp m since r
    → CatchesUp m since (run r ops)
unfolding run
run-CatchesUp m since r [] v room le caught = caught
run-CatchesUp m since r (op ∷ ops) v room le caught =
    let free : r.version_counter + 1 < u64_mod = omega arith in
    let stepped : Stepped r (step r op) = step-Stepped r v free op in
    let (up, down) = Stepped-counter r (step r op) stepped in
    run-CatchesUp m since (step r op) ops (Stepped-IsCoherent r v free (step r op) stepped)
      (omega arith) (omega arith) (Stepped-CatchesUp m since r (step r op) v free le stepped caught)

answered :
    (l : ChangeLog.ChangeLog) (since : ℕ) (cs : List RibChange)
    → ChangeLog.get_changes_since l since ≡ ok cs
    → (l.oldest_version ≤ since) × (newer since l.changes ≡ cs)
unfolding ChangeLog.get_changes_since
answered l since cs h = ground arith

-- A copy that holds the objects of a coherent RIB at some version, and applies what
-- get_changes_since answers for that version after any history of creations, updates and
-- deletions, holds the objects that the RIB has then, while the version counter does not wrap.
pub apply_all-get_changes_since :
    (r : Rib) (ops : List Op) (m : Objects) (cs : List RibChange)
    → IsCoherent r
    → r.version_counter + length ops < u64_mod
    → SameObjects m r.objects
    → get_changes_since (run r ops) r.version_counter ≡ ok cs
    → SameObjects (apply_all (m, 0) cs).0 (run r ops).objects
unfolding get_changes_since apply_all
apply_all-get_changes_since r ops m cs v room same answer =
    let since : ℕ = r.version_counter in
    let (old, same_changes) = answered (run r ops).change_log since cs answer in
    rw (sym same_changes) (run-CatchesUp m since r ops v room (omega arith) start old)
  where
    start : CatchesUp m r.version_counter r
    start old = rw (newer_none _ r.change_log.changes r.version_counter v.within) same
