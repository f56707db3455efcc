-- ===== src/Rmt/Queues.antt =====
-- The output queues: bounded, first in first out, and there for every route.
use ari.Base.{
  ℕ, ◌≤◌, ◌<◌, ◌≡◌, refl, ◌⊎◌, inl, inr, none, some, List, [], ◌∷◌, ◌++◌, arith, leb, if◌then◌else◌,
  leb→le, Bool-cases, Option-cases, length, length-snoc, ◌==◌, nat_key, string_key, ==_iff, Result,
  ok, err,
}
use ari.Map.{get, insert}
use ari.Map.Laws.{get-insert}
use ari.Pdu.{Pdu}
use ari.Rmt.{Rmt, PduQueue, ForwardingEntry, RmtError, queue_full, no_route, lookup, forward}

-- What waits for a next hop, oldest first.
unfoldable pub waiting : Rmt → ℕ → List Pdu
waiting r hop = elim (get r.output_queues hop) [ none ↦ [] | some q ↦ q.queue ]

-- No queue is over its size, and every next hop of the forwarding table has a queue.
pub record IsRouted (r : Rmt) : Type 0 where
  pub bounded :
      (hop : ℕ) (q : PduQueue) → get r.output_queues hop ≡ some q → length q.queue ≤ q.max_size
  pub served :
      (dst : ℕ) (e : ForwardingEntry)
      → get r.forwarding_table dst ≡ some e
      → (q : PduQueue) × (get r.output_queues e.next_hop ≡ some q)

-- A forwarded PDU goes to the end of the queue of its next hop and nowhere else; without a route, or
-- with a full queue, nothing changes. That a queue is missing cannot happen.
abbrev pub Forwards : Rmt → Pdu → Result RmtError (Rmt × ℕ) → Type 0
Forwards r pdu (ok (r', hop)) =
    (lookup r pdu.dst_addr ≡ some hop)
    × ((h : ℕ) → waiting r' h ≡ (if hop == h then waiting r h ++ pdu ∷ [] else waiting r h))
    × IsRouted r'
Forwards r pdu (err e) =
    ((lookup r pdu.dst_addr ≡ none) × (e ≡ no_route pdu.dst_addr))
    ⊎ ((hop : ℕ) × (q : PduQueue) × (lookup r pdu.dst_addr ≡ some hop)
        × (get r.output_queues hop ≡ some q)
        × (q.max_size ≤ length q.queue)
        × (e ≡ queue_full))

pub replaced :
    (r : Rmt) (hop : ℕ) (q q' : PduQueue)
    → get r.output_queues hop ≡ some q
    → length q'.queue ≤ q'.max_size
    → IsRouted r
    → IsRouted (record r { output_queues = insert r.output_queues hop q' })
replaced r hop q q' found fits v = record {
  bounded = λ h p e. ground (arith, get-insert r.output_queues hop h q', v.bounded h p);
  served = λ dst e h.
      let (p, there) = v.served dst e h in
      (
        if hop == e.next_hop then q' else p,
        ground (arith, there, get-insert r.output_queues hop e.next_hop q'),
      );
}

enqueued :
    (r : Rmt) (hop : ℕ) (q : PduQueue) (pdu : Pdu)
    → get r.output_queues hop ≡ some q
    → length q.queue < q.max_size
    → lookup r pdu.dst_addr ≡ some hop
    → IsRouted r
    → Forwards r pdu (
        ok (
          record r {
            output_queues = insert r.output_queues hop (record q { queue = q.queue ++ pdu ∷ [] });
          },
          hop,
        ))
unfolding waiting
enqueued r hop q pdu found space route v =
    let q' : PduQueue = record q { queue = q.queue ++ pdu ∷ [] } in
    (
      route,
      λ h. ground (arith, found, ==_iff hop h, get-insert r.output_queues hop h q'),
      replaced r hop q q' found (omega (arith, length-snoc q.queue pdu)) v,
    )

route_of :
    (r : Rmt) (dst : ℕ)
    → ((lookup r dst ≡ none)
        ⊎ ((e : ForwardingEntry) × (get r.forwarding_table dst ≡ some e)
            × (lookup r dst ≡ some e.next_hop)))
unfolding lookup
route_of r dst = elim (Option-cases (get r.forwarding_table dst)) [
  | inl missing ↦ inl (rw (missing, lookup))
  | inr (e, found) ↦ inr (e, found, rw (found, lookup))
]

pub forward-Forwards : (r : Rmt) (pdu : Pdu) → IsRouted r → Forwards r pdu (forward r pdu)
unfolding forward
forward-Forwards r pdu v = elim (route_of r pdu.dst_addr) [
  | inl missing ↦ rw (missing, forward) (inl (missing, refl))
  | inr (e, entry, route) ↦
      let (q, found) = v.served pdu.dst_addr e entry in
      elim (Bool-cases (leb q.max_size (length q.queue))) [
        | inl full ↦
            rw (route, forward)
              (rw found (rw full (inr (e.next_hop, q, route, found, leb→le _ _ full, refl))))
        | inr space ↦
            rw (route, forward)
              (rw found (rw space (enqueued r e.next_hop q pdu found (ground arith) route v)))
      ]
]
