-- ===== src/Rmt/Processing.antt =====
-- What `process_outgoing`, `process_incoming` and `dequeue_for_next_hop` do, on every branch.
use mathlib.Core.Path.{subst}
use ari.Base.{
  ℕ, ◌+◌, ◌≤◌, ◌≡◌, refl, ◌∙◌, ◌≢◌, ◌⊎◌, inl, inr, Option, none, some, List, [], ◌∷◌, arith, eqb,
  if◌then◌else◌, eqb_iff, Bool-cases, Option-cases, length, ◌==◌, nat_key, string_key, ==_iff,
  Result, ok, err,
}
use ari.Map.{Map, get, insert}
use ari.Map.Laws.{get-insert, get-remove}
use ari.Pdu.{Pdu}
use ari.Rmt.{
  Rmt, PduQueue, ForwardingEntry, RmtError, local_destination, kept, forward, process_outgoing,
  process_incoming, dequeue_for_next_hop, dequeue, add_forwarding_entry, ensure_queue,
  remove_forwarding_entry, new, new_queue,
}
use ari.Rmt.Queues.{IsRouted, Forwards, forward-Forwards, waiting, replaced}

abbrev pub Outgoing : Rmt → Pdu → Rmt × Result RmtError ℕ → Type 0
Outgoing r pdu (r', ok hop) = (pdu.dst_addr ≢ r.local_addr) × Forwards r pdu (ok (r', hop))
Outgoing r pdu (r', err e) =
    (r' ≡ r)
    × (((pdu.dst_addr ≡ r.local_addr) × (e ≡ local_destination))
        ⊎ ((pdu.dst_addr ≢ r.local_addr) × Forwards r pdu (err e)))

abbrev pub Incoming : Rmt → Pdu → Rmt × Result RmtError (Option ℕ) → Type 0
Incoming r pdu (r', ok none) = (pdu.dst_addr ≡ r.local_addr) × (r' ≡ r)
Incoming r pdu (r', ok (some hop)) = (pdu.dst_addr ≢ r.local_addr) × Forwards r pdu (ok (r', hop))
Incoming r pdu (r', err e) = (r' ≡ r) × (pdu.dst_addr ≢ r.local_addr) × Forwards r pdu (err e)

kept-Outgoing :
    (r : Rmt) (pdu : Pdu) (res : Result RmtError (Rmt × ℕ))
    → pdu.dst_addr ≢ r.local_addr
    → Forwards r pdu res
    → Outgoing r pdu (kept r (λ hop. hop) res)
kept-Outgoing r pdu (ok (r', hop)) ne f = (ne, f)
kept-Outgoing r pdu (err e) ne f = (refl, inr (ne, f))

kept-Incoming :
    (r : Rmt) (pdu : Pdu) (res : Result RmtError (Rmt × ℕ))
    → pdu.dst_addr ≢ r.local_addr
    → Forwards r pdu res
    → Incoming r pdu (kept r some res)
kept-Incoming r pdu (ok (r', hop)) ne f = (ne, f)
kept-Incoming r pdu (err e) ne f = (refl, ne, f)

-- In a routed task an outgoing PDU joins the end of the queue of its next hop and no other queue
-- changes, or the task is unchanged and the error says that the PDU is for this process, has no
-- route or meets a full queue.
pub process_outgoing-Outgoing :
    (r : Rmt) (pdu : Pdu) → IsRouted r → Outgoing r pdu (process_outgoing r pdu)
unfolding process_outgoing
process_outgoing-Outgoing r pdu v = elim (Bool-cases (eqb pdu.dst_addr r.local_addr)) [
  | inl local ↦ rw local (refl, inl ((eqb_iff _ _).0 local, refl))
  | inr remote ↦
      rw remote (kept-Outgoing r pdu (forward r pdu) (λ e. ground arith) (forward-Forwards r pdu v))
]

-- In a routed task an incoming PDU for this process is answered with no next hop and changes
-- nothing; any other is queued for its next hop, or refused with no change.
pub process_incoming-Incoming :
    (r : Rmt) (pdu : Pdu) → IsRouted r → Incoming r pdu (process_incoming r pdu)
unfolding process_incoming
process_incoming-Incoming r pdu v = elim (Bool-cases (eqb pdu.dst_addr r.local_addr)) [
  | inl local ↦ rw local ((eqb_iff _ _).0 local, refl)
  | inr remote ↦
      rw remote (kept-Incoming r pdu (forward r pdu) (λ e. ground arith) (forward-Forwards r pdu v))
]

dequeue_cases :
    (q : PduQueue) (l : List Pdu)
    → q.queue ≡ l
    → ((q.queue ≡ []) × (dequeue q ≡ (q, none)))
      ⊎ ((pdu : Pdu) × (rest : List Pdu) × (q.queue ≡ pdu ∷ rest)
          × (dequeue q ≡ (record q { queue = rest }, some pdu)))
unfolding dequeue
dequeue_cases q [] e = inl (e, ground arith)
dequeue_cases q (pdu ∷ rest) e = inr (pdu, rest, e, ground arith)

abbrev pub Dequeues : Rmt → ℕ → Rmt × Option Pdu → Type 0
Dequeues r hop (r', none) = (waiting r hop ≡ []) × ((h : ℕ) → waiting r' h ≡ waiting r h)
Dequeues r hop (r', some pdu) =
    (rest : List Pdu) × (waiting r hop ≡ pdu ∷ rest)
    × ((h : ℕ) → waiting r' h ≡ (if hop == h then rest else waiting r h))

waiting-found :
    (r : Rmt) (hop : ℕ) (q : PduQueue) → get r.output_queues hop ≡ some q → waiting r hop ≡ q.queue
unfolding waiting
waiting-found r hop q e = rw (e, waiting)

waiting-missing : (r : Rmt) (hop : ℕ) → get r.output_queues hop ≡ none → waiting r hop ≡ []
unfolding waiting
waiting-missing r hop e = rw (e, waiting)

waiting-insert :
    (r : Rmt) (hop h : ℕ) (q : PduQueue)
    → waiting (record r { output_queues = insert r.output_queues hop q }) h
      ≡ (if hop == h then q.queue else waiting r h)
unfolding waiting
waiting-insert r hop h q = ground (arith, get-insert r.output_queues hop h q)

from_queue :
    (r : Rmt) (hop : ℕ) (q : PduQueue)
    → get r.output_queues hop ≡ some q
    → IsRouted r
    → let r' = record r { output_queues = insert r.output_queues hop (dequeue q).0 } in
      Dequeues r hop (r', (dequeue q).1) × IsRouted r'
from_queue r hop q found v = elim (dequeue_cases q q.queue refl) [
  | inl (empty, e) ↦ rw e (
    (
      waiting-found r hop q found ∙ empty,
      λ h. ground (arith, waiting-insert r hop h q, ==_iff hop h, waiting-found r hop q found),
    ),
    replaced r hop q q found (v.bounded hop q found) v,
  )
  | inr (pdu, rest, full, e) ↦
      let q' : PduQueue = record q { queue = rest } in
      let shorter : length rest + 1 ≡ length q.queue = rw full (omega arith) in
      rw e (
        (rest, waiting-found r hop q found ∙ full, λ h. waiting-insert r hop h q'),
        replaced r hop q q' found (omega (arith, v.bounded hop q found)) v,
      )
]

-- In a routed task, what waits for a next hop comes out oldest first, no other queue changes,
-- and the task stays routed.
pub dequeue_for_next_hop-Dequeues :
    (r : Rmt) (hop : ℕ)
    → IsRouted r
    → Dequeues r hop (dequeue_for_next_hop r hop) × IsRouted (dequeue_for_next_hop r hop).0
unfolding dequeue_for_next_hop
dequeue_for_next_hop-Dequeues r hop v = elim (Option-cases (get r.output_queues hop)) [
  | inl missing ↦ rw (missing, dequeue_for_next_hop) ((waiting-missing r hop missing, λ h. refl), v)
  | inr (q, found) ↦ rw (found, dequeue_for_next_hop) (from_queue r hop q found v)
]

pub new-IsRouted : (local : ℕ) → IsRouted (new local)
unfolding new get
new-IsRouted local = record { bounded = λ hop q e. cc; served = λ dst e h. cc }

ensured :
    (qs : Map ℕ PduQueue) (hop size : ℕ)
    → ((h : ℕ) (q : PduQueue) → get qs h ≡ some q → length q.queue ≤ q.max_size)
    → ((h : ℕ) (q : PduQueue)
        → get (ensure_queue qs hop size) h ≡ some q
        → length q.queue ≤ q.max_size)
      × ((q : PduQueue) × (get (ensure_queue qs hop size) hop ≡ some q))
      × ((h : ℕ) (q : PduQueue) → get qs h ≡ some q → get (ensure_queue qs hop size) h ≡ some q)
unfolding ensure_queue
ensured qs hop size b = elim (Option-cases (get qs hop)) [
  | inl missing ↦
      rw (missing, ensure_queue)
        (
          λ h q e. ground (arith, get-insert qs hop h (new_queue size), b h q),
          (new_queue size, ground (arith, get-insert qs hop hop (new_queue size))),
          λ h q e. ground (arith, missing, ==_iff hop h, get-insert qs hop h (new_queue size)),
        )
  | inr (q, found) ↦ rw (found, ensure_queue) (b, (q, found), λ h p e. e)
]

-- Adding a forwarding entry, also over an old one, leaves a queue for every route.
pub add_forwarding_entry-IsRouted :
    (r : Rmt) (entry : ForwardingEntry) → IsRouted r → IsRouted (add_forwarding_entry r entry)
unfolding add_forwarding_entry
add_forwarding_entry-IsRouted r entry v = record {
  bounded =
      λ hop q h. (ensured r.output_queues entry.next_hop r.default_queue_size v.bounded).0 hop q h;
  served = λ dst e h.
      let (bounded, there, more) =
        ensured r.output_queues entry.next_hop r.default_queue_size v.bounded in
      elim (Bool-cases (entry.dst_addr == dst)) [
        | inl hit ↦
            let same : entry ≡ e =
              ground (arith, get-insert r.forwarding_table entry.dst_addr dst entry) in
            subst
              (λ (x : ForwardingEntry).
                (q : PduQueue) × (get
                    (ensure_queue r.output_queues entry.next_hop r.default_queue_size) x.next_hop
                  ≡ some q))
              same there
        | inr miss ↦
            let (q, old) =
              v.served dst e
                (ground (arith, get-insert r.forwarding_table entry.dst_addr dst entry)) in
            (q, more e.next_hop q old)
      ];
}

pub remove_forwarding_entry-IsRouted :
    (r : Rmt) (dst : ℕ) → IsRouted r → IsRouted (remove_forwarding_entry r dst)
unfolding remove_forwarding_entry
remove_forwarding_entry-IsRouted r dst v = record {
  bounded = v.bounded;
  served = λ d e h. v.served d e (ground (arith, get-remove r.forwarding_table dst d));
}
