-- ===== src/Enrollment/Rounds.antt =====
-- The handlers of a member and a bootstrap process, in rounds, without the messages between them.
use mathlib.Core.Path.{subst}
use ari.Base.{
  ℕ, ◌+◌, ◌<◌, ◌≡◌, refl, sym, ap, ◌∙◌, none, some, List, [], ◌∷◌, arith, u64_mod, length, All,
  nat_key, string_key, ok,
}
use ari.Rib.Value.{RibObject, RibChange}
use ari.Rib.ChangeLog.{newer}
use ari.Rib.Store.{Rib, get_changes_since, current_version}
use ari.Rib.Receive.{Codec, apply_changes, apply_all, note_version}
use ari.Rib.History.{Op, run, IsCoherent, SameObjects}
use ari.Rib.Sync.{run-IsCoherent, apply_all-get_changes_since}
use ari.Rib.Retention.{IsRetaining, get_changes_since-run, run-Kept}
use ari.Cdap.{CdapMessage, new_sync_request, new_sync_response}
use ari.Enrollment.{
  EnrollmentManager, Synced, handle_sync_request, sync_response_for, process_sync_response, take_in,
  answered, name_or_empty,
}

-- A member has the objects that the bootstrap's RIB has, and notes its version.
pub record InSync (m : EnrollmentManager) (r : Rib) : Type 0 where
  pub same : SameObjects m.rib.objects r.objects
  pub synced : m.last_synced_version ≡ r.version_counter

-- The member asks for what it is missing, and takes in what the handler of the bootstrap process `b`
-- makes. Nothing is said of the messages between the two, which the encoding loses.
abbrev pub handed_over : Codec (List RibObject) → EnrollmentManager → EnrollmentManager → ℕ → Synced
handed_over codec b m now = answered codec m now (
    handle_sync_request codec b
      (new_sync_request 1 m.last_synced_version (name_or_empty m.ipcp_name)))

apply_changes_objects :
    (r : Rib) (cs : List RibChange) (now : ℕ)
    → ((apply_changes r cs now).0.objects ≡ (apply_all (r.objects, 0) cs).0)
      × ((apply_changes r cs now).1 ≡ ok (apply_all (r.objects, 0) cs).1)
unfolding apply_changes note_version
apply_changes_objects r cs now = (ground arith, refl)

-- A response with changes is taken in: the objects are what the changes make of them.
take_in_changes :
    (codec : Codec (List RibObject)) (m : EnrollmentManager) (v : ℕ) (cs : List RibChange) (now : ℕ)
    → take_in codec m
        (record { current_version = v; changes = some cs; full_snapshot = none; error = none })
        now
      ≡ (record m { rib = (apply_changes m.rib cs now).0; last_synced_version = v }, ok tt)
unfolding take_in
take_in_changes codec m v cs now = rw (apply_changes_objects m.rib cs now).1 refl

-- What is handed over when the bootstrap's log reaches back to the member's version.
handed_over_changes :
    (codec : Codec (List RibObject)) (m b : EnrollmentManager) (now : ℕ) (cs : List RibChange)
    → get_changes_since b.rib m.last_synced_version ≡ ok cs
    → handed_over codec b m now ≡ (
      record m {
        rib = (apply_changes m.rib cs now).0;
        last_synced_version = current_version b.rib;
      },
      ok tt,
    )
unfolding handle_sync_request sync_response_for process_sync_response
handed_over_changes codec m b now cs e =
    let response : sync_response_for codec b.rib 1 m.last_synced_version
        ≡ new_sync_response 1 (current_version b.rib) (some cs) none none =
      rw (e, sync_response_for) refl in
    ap (λ (r : CdapMessage). process_sync_response codec m r now) response
    ∙ take_in_changes codec m (current_version b.rib) cs now

-- The bootstrap process after some operations on its RIB.
abbrev pub after : EnrollmentManager → List Op → EnrollmentManager
after b ops = record b { rib = run b.rib ops }

-- A member that is up to date with a bootstrap process is up to date again after any fewer
-- operations on its RIB than the log holds changes, and one handing over, which succeeds. The
-- bootstrap's RIB is coherent, its log at its start or full, and its version counter does not wrap.
handed_over-InSync :
    (codec : Codec (List RibObject)) (m b : EnrollmentManager) (ops : List Op) (now : ℕ)
    → InSync m b.rib
    → IsCoherent b.rib
    → IsRetaining b.rib.change_log
    → b.rib.version_counter + length ops < u64_mod
    → length ops < b.rib.change_log.max_size
    → ((handed_over codec (after b ops) m now).1 ≡ ok tt)
      × InSync (handed_over codec (after b ops) m now).0 (run b.rib ops)
handed_over-InSync codec m b ops now s v h room few =
    let cs : List RibChange = newer b.rib.version_counter (run b.rib ops).change_log.changes in
    let told : get_changes_since (run b.rib ops) b.rib.version_counter ≡ ok cs =
      get_changes_since-run b.rib ops v h room few in
    let told' : get_changes_since (run b.rib ops) m.last_synced_version ≡ ok cs =
      rw s.synced told in
    let v' : IsCoherent (run b.rib ops) = run-IsCoherent b.rib ops v room in
    let objects : (apply_changes m.rib cs now).0.objects ≡ (apply_all (m.rib.objects, 0) cs).0 =
      (apply_changes_objects m.rib cs now).0 in
    rw (handed_over_changes codec m (after b ops) now cs told') (
      refl,
      record {
        same =
            rw objects (apply_all-get_changes_since b.rib ops m.rib.objects cs v room s.same told);
        synced = unfold current_version in v'.current;
      },
    )

-- Some operations at the bootstrap process, then a handing over at a time, again and again.
unfoldable pub rounds :
    Codec (List RibObject)
    → EnrollmentManager
    → EnrollmentManager
    → List (List Op × ℕ)
    → EnrollmentManager × EnrollmentManager
rounds codec m b [] = (m, b)
rounds codec m b ((ops, now) ∷ rs) =
    rounds codec (handed_over codec (after b ops) m now).0 (after b ops) rs

abbrev pub operations : List (List Op × ℕ) → ℕ
operations [] = 0
operations ((ops, now) ∷ rs) = length ops + operations rs

-- After any number of rounds, each of fewer operations at the bootstrap's RIB than its log holds
-- changes and then one handing over, the member has the bootstrap's objects and notes its version, if
-- that was so at first, the bootstrap's RIB was coherent with its log at its start or full, and its
-- version counter does not wrap.
rounds-InSync :
    (codec : Codec (List RibObject)) (m b : EnrollmentManager) (rs : List (List Op × ℕ))
    → InSync m b.rib
    → IsCoherent b.rib
    → IsRetaining b.rib.change_log
    → b.rib.version_counter + operations rs < u64_mod
    → All (λ (r : List Op × ℕ). length r.0 < b.rib.change_log.max_size) rs
    → InSync (rounds codec m b rs).0 (rounds codec m b rs).1.rib
unfolding rounds
rounds-InSync codec m b [] s v h room few = s
rounds-InSync codec m b ((ops, now) ∷ rs) s v h room few =
    let free : b.rib.version_counter + length ops < u64_mod = omega arith in
    let (v', h', size, up) = run-Kept b.rib ops v h free in
    let (done, s') = handed_over-InSync codec m b ops now s v h free few.0 in
    let still : All (λ (r : List Op × ℕ). length r.0 < (run b.rib ops).change_log.max_size) rs =
      subst (λ (n : ℕ). All (λ (r : List Op × ℕ). length r.0 < n) rs) (sym size) few.1 in
    rounds-InSync codec (handed_over codec (after b ops) m now).0 (after b ops) rs s' v' h'
      (omega arith) still
