-- ===== src/Enrollment/Full.antt =====
-- What the bootstrap's handler gives the member's when the log no longer reaches back far enough.
use ari.Base.{
  ℕ, String, ◌≡◌, refl, ap, ◌∙◌, ◌≢◌, none, some, List, [], arith, nat_key, string_key, ok, err,
}
use ari.Map.{get, values}
use ari.Rib.Value.{RibObject, RibError}
use ari.Rib.Store.{Rib, get_changes_since, current_version}
use ari.Rib.Receive.{Codec, serialize, deserialize, merge_objects, merge_all, note_version, Objects}
use ari.Rib.History.{IsCoherent}
use ari.Rib.Merge.{merged, get-merge_all-values}
use ari.Rib.Snapshot.{IsCodec, Named-Labelled, serialize_lem, deserialize-merge}
use ari.Cdap.{CdapMessage, new_sync_response}
use ari.Enrollment.{
  EnrollmentManager, handle_sync_request, sync_response_for, process_sync_response, take_in, noted,
}
use ari.Enrollment.Rounds.{handed_over}

merge_objects_objects :
    (r : Rib) (objs : List RibObject) (now : ℕ)
    → (merge_objects r objs now).0.objects ≡ (merge_all (r.objects, 0) objs).0
unfolding merge_objects note_version
merge_objects_objects r objs now = ground arith

-- What is handed over when the bootstrap's log does not reach back to the member's version.
handed_over_snapshot :
    (codec : Codec (List RibObject)) (m b : EnrollmentManager) (now : ℕ) (e : RibError)
    → get_changes_since b.rib m.last_synced_version ≡ err e
    → handed_over codec b m now
      ≡ noted m (current_version b.rib) (deserialize codec m.rib (serialize codec b.rib) now)
unfolding handle_sync_request sync_response_for process_sync_response take_in
handed_over_snapshot codec m b now e old =
    let response : sync_response_for codec b.rib 1 m.last_synced_version
        ≡ new_sync_response 1 (current_version b.rib) none (some (serialize codec b.rib)) none =
      rw (old, sync_response_for) refl in
    ap (λ (r : CdapMessage). process_sync_response codec m r now) response

-- When the log of a coherent bootstrap does not reach back to the member's version, what is handed
-- over is taken in, notes the bootstrap's version, and makes each object of the member the newer one of
-- its own and the bootstrap's; one that the bootstrap does not have stays. The snapshot can be
-- encoded, what is encoded is decoded, and no list is encoded as no bytes.
handed_over_full :
    (codec : Codec (List RibObject)) (m b : EnrollmentManager) (now : ℕ) (e : RibError)
    (bs : List ℕ)
    → IsCodec codec
    → IsCoherent b.rib
    → get_changes_since b.rib m.last_synced_version ≡ err e
    → codec.encode (values b.rib.objects) ≡ some bs
    → ((handed_over codec b m now).1 ≡ ok tt)
      × ((handed_over codec b m now).0.last_synced_version ≡ b.rib.version_counter)
      × ((k : String)
          → get (handed_over codec b m now).0.rib.objects k
            ≡ merged (get m.rib.objects k) (get b.rib.objects k))
handed_over_full codec m b now e bs laws v old sent =
    let objs : List RibObject = values b.rib.objects in
    let some_bytes : bs ≢ [] = λ none_left. laws.not_empty objs (sent ∙ ap some none_left) in
    let labelled = Named-Labelled b.rib.objects b.rib.version_counter v.named v.distinct in
    rw
      (
        handed_over_snapshot codec m b now e old,
        serialize_lem codec b.rib bs sent,
        deserialize-merge codec m.rib objs bs now some_bytes (laws.round_trip objs bs sent),
      )
      (
        refl,
        unfold current_version in v.current,
        λ k.
            ap (λ (os : Objects). get os k) (merge_objects_objects m.rib objs now)
            ∙ get-merge_all-values (m.rib.objects, 0) b.rib.objects k labelled v.distinct,
      )
