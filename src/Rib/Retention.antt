-- ===== src/Rib/Retention.antt =====
-- How long the change log can answer: for as many operations as it holds changes, less one.
use ari.Base.{
  ℕ, ◌+◌, ◌≤◌, ◌<◌, ◌≡◌, refl, ◌∙◌, ◌⊎◌, inl, inr, List, [], ◌∷◌, arith, leb, le→ltb_false, leb→le,
  Bool-cases, u64_mod, length, length-snoc, nat_key, string_key, ok,
}
use ari.Rib.Value.{RibChange, version}
use ari.Rib.ChangeLog.{ChangeLog, drop_front, log_change, newer}
use ari.Rib.ChangeLog.Window.{Span}
use ari.Rib.Store.{Rib, get_changes_since}
use ari.Rib.History.{Op, step, run, IsCoherent, Stepped, step-Stepped, Stepped-IsCoherent}
use ari.Rib.Sync.{Stepped-counter}

-- Nothing was dropped yet, or the log is full.
abbrev pub IsRetaining : ChangeLog → Type 0
IsRetaining l = (l.oldest_version ≡ 0) ⊎ (l.max_size ≤ length l.changes)

drop_front-room :
    (l : ChangeLog) (cs : List RibChange)
    → l.max_size ≤ length cs
    → l.changes ≡ cs
    → l.max_size ≤ length (drop_front l cs).changes + 1
unfolding drop_front
drop_front-room l [] h e = omega arith
drop_front-room l (c ∷ cs) h e = omega arith

drop_front_max : (l : ChangeLog) (cs : List RibChange) → (drop_front l cs).max_size ≡ l.max_size
unfolding drop_front
drop_front_max l [] = refl
drop_front_max l (c ∷ cs) = refl

pub log_change-IsRetaining :
    (l : ChangeLog) (c : RibChange)
    → IsRetaining l
    → IsRetaining (log_change l c) × ((log_change l c).max_size ≡ l.max_size)
unfolding log_change
log_change-IsRetaining l c h = elim (Bool-cases (leb l.max_size (length l.changes))) [
  | inl full ↦ rw full (
    inr (
        omega (
          arith,
          drop_front_max l l.changes,
          drop_front-room l l.changes (leb→le _ _ full) refl,
          length-snoc (drop_front l l.changes).changes c,
        )),
    drop_front_max l l.changes,
  )
  | inr spare ↦ rw spare (ground (arith, length-snoc l.changes c), refl)
]

-- The versions are distinct, so that a span is at least as wide as its list is long.
Span-length : (lo : ℕ) (cs : List RibChange) (hi : ℕ) → Span lo cs hi → lo + length cs ≤ hi + 1
Span-length lo [] hi s = omega arith
Span-length lo (c ∷ cs) hi s = omega (arith, Span-length (version c + 1) cs hi s.1)

Stepped-IsRetaining :
    (r r' : Rib)
    → Stepped r r'
    → IsRetaining r.change_log
    → IsRetaining r'.change_log × (r'.change_log.max_size ≡ r.change_log.max_size)
Stepped-IsRetaining r r' (inl same) h = rw same (h, refl)
Stepped-IsRetaining r r' (inr (c, l)) h = rw l.log (log_change-IsRetaining r.change_log c h)

abbrev pub Kept : Rib → Rib → ℕ → Type 0
Kept r r' n =
    IsCoherent r'
    × IsRetaining r'.change_log
    × (r'.change_log.max_size ≡ r.change_log.max_size)
    × (r'.version_counter ≤ r.version_counter + n)

pub run-Kept :
    (r : Rib) (ops : List Op)
    → IsCoherent r
    → IsRetaining r.change_log
    → r.version_counter + length ops < u64_mod
    → Kept r (run r ops) (length ops)
unfolding run
run-Kept r [] v h room = (v, h, refl, omega arith)
run-Kept r (op ∷ ops) v h room =
    let free : r.version_counter + 1 < u64_mod = omega arith in
    let stepped : Stepped r (step r op) = step-Stepped r v free op in
    let (up, down) = Stepped-counter r (step r op) stepped in
    let (h', size) = Stepped-IsRetaining r (step r op) stepped h in
    let (v'', h'', size'', up'') =
      run-Kept (step r op) ops (Stepped-IsCoherent r v free (step r op) stepped) h' (omega arith) in
    (v'', h'', size'' ∙ size, omega arith)

-- A coherent RIB whose log is at its start or full still answers get_changes_since for its
-- version after fewer operations than its log holds, with exactly the logged changes of a
-- greater version, while the counter does not wrap.
pub get_changes_since-run :
    (r : Rib) (ops : List Op)
    → IsCoherent r
    → IsRetaining r.change_log
    → r.version_counter + length ops < u64_mod
    → length ops < r.change_log.max_size
    → get_changes_since (run r ops) r.version_counter
      ≡ ok (newer r.version_counter (run r ops).change_log.changes)
unfolding get_changes_since newer
get_changes_since-run r ops v h room few =
    let (v', h', size, up) = run-Kept r ops v h room in
    let l : ChangeLog = (run r ops).change_log in
    let wide : l.oldest_version + length l.changes ≤ (run r ops).version_counter + 1 =
      Span-length l.oldest_version l.changes (run r ops).version_counter v'.within in
    let old : l.oldest_version ≤ r.version_counter = omega arith in
    rw (le→ltb_false r.version_counter l.oldest_version old)
