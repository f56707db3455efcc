-- ===== src/Rmt/Reach.antt =====
-- Every state that a relaying and multiplexing task comes to.
use ari.Base.{ℕ, ◌≢◌, inl, inr, Option, none, some, nat_key, string_key, Result, ok, err}
use ari.Pdu.{Pdu}
use ari.Rmt.{
  Rmt, ForwardingEntry, RmtError, no_output_queue, new, set_default_queue_size,
  add_forwarding_entry, remove_forwarding_entry, process_outgoing, process_incoming,
  dequeue_for_next_hop,
}
use ari.Rmt.Queues.{IsRouted}
use ari.Rmt.Processing.{
  Outgoing, Incoming, process_outgoing-Outgoing, process_incoming-Incoming,
  dequeue_for_next_hop-Dequeues, add_forwarding_entry-IsRouted, remove_forwarding_entry-IsRouted,
  new-IsRouted,
}

-- One call of a method that changes the task.
pub data Step : Rmt → Rmt → Type 0 where
  resizes : {r : Rmt} → (size : ℕ) → Step r (set_default_queue_size r size)
  adds : {r : Rmt} → (entry : ForwardingEntry) → Step r (add_forwarding_entry r entry)
  removes : {r : Rmt} → (dst : ℕ) → Step r (remove_forwarding_entry r dst)
  sends : {r : Rmt} → (pdu : Pdu) → Step r (process_outgoing r pdu).0
  receives : {r : Rmt} → (pdu : Pdu) → Step r (process_incoming r pdu).0
  drains : {r : Rmt} → (hop : ℕ) → Step r (dequeue_for_next_hop r hop).0

-- What a new task of an address comes to.
pub data Reachable (local : ℕ) : Rmt → Type 0 where
  start : Reachable local (new local)
  then_step : {r r' : Rmt} → Reachable local r → Step r r' → Reachable local r'

Outgoing-IsRouted :
    (r : Rmt) (pdu : Pdu) (x : Rmt × Result RmtError ℕ)
    → IsRouted r
    → Outgoing r pdu x
    → IsRouted x.0
Outgoing-IsRouted r pdu (r', ok hop) v h = h.1.2
Outgoing-IsRouted r pdu (r', err e) v h = rw h.0 v

Incoming-IsRouted :
    (r : Rmt) (pdu : Pdu) (x : Rmt × Result RmtError (Option ℕ))
    → IsRouted r
    → Incoming r pdu x
    → IsRouted x.0
Incoming-IsRouted r pdu (r', ok none) v h = rw h.1 v
Incoming-IsRouted r pdu (r', ok (some hop)) v h = h.1.2
Incoming-IsRouted r pdu (r', err e) v h = rw h.0 v

Step-IsRouted : (r r' : Rmt) → IsRouted r → Step r r' → IsRouted r'
unfolding set_default_queue_size
Step-IsRouted r _ v (resizes size) = record { bounded = v.bounded; served = v.served }
Step-IsRouted r _ v (adds entry) = add_forwarding_entry-IsRouted r entry v
Step-IsRouted r _ v (removes dst) = remove_forwarding_entry-IsRouted r dst v
Step-IsRouted r _ v (sends pdu) =
    Outgoing-IsRouted r pdu (process_outgoing r pdu) v (process_outgoing-Outgoing r pdu v)
Step-IsRouted r _ v (receives pdu) =
    Incoming-IsRouted r pdu (process_incoming r pdu) v (process_incoming-Incoming r pdu v)
Step-IsRouted r _ v (drains hop) = (dequeue_for_next_hop-Dequeues r hop v).1

-- In every state that the methods of a new task lead to, no output queue is over its size and
-- every next hop of the forwarding table has a queue.
pub Reachable-IsRouted : (local : ℕ) (r : Rmt) → Reachable local r → IsRouted r
Reachable-IsRouted local _ start = new-IsRouted local
Reachable-IsRouted local r' (then_step {r = r} reach step) =
    Step-IsRouted r r' (Reachable-IsRouted local r reach) step

refused :
    (r : Rmt) (pdu : Pdu) (x : Rmt × Result RmtError ℕ) (hop : ℕ)
    → Outgoing r pdu x
    → x.1 ≢ err (no_output_queue hop)
refused r pdu (r', ok h) hop o e = cc
refused r pdu (r', err er) hop (same, inl (at, it)) e = cc
refused r pdu (r', err er) hop (same, inr (ne, inl (lost, it))) e = cc
refused r pdu (r', err er) hop (same, inr (ne, inr (h, q, way, there, full, it))) e = cc

-- In a reachable state an outgoing PDU never meets a route without a queue: the error for that is
-- never answered.
pub process_outgoing_served :
    (local : ℕ) (r : Rmt) (pdu : Pdu) (hop : ℕ)
    → Reachable local r
    → (process_outgoing r pdu).1 ≢ err (no_output_queue hop)
process_outgoing_served local r pdu hop reach =
    refused r pdu (process_outgoing r pdu) hop
      (process_outgoing-Outgoing r pdu (Reachable-IsRouted local r reach))
