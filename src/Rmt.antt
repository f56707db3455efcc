-- ===== src/Rmt.antt =====
-- src/rmt.rs: the forwarding table and the output queues of the relaying and multiplexing task.
pub mod Queues
pub mod Processing
pub mod Reach
use ari.Base.{
  ℕ, ◌+◌, Bool, false, not, Option, none, some, List, [], ◌∷◌, ◌++◌, leb, eqb, if◌then◌else◌,
  length, nat_key, string_key, Result, ok, err, ◌>>=◌, ok_or,
}
use ari.Map
use ari.Map.{Map, get, insert, remove, values}
use ari.Pdu.{Pdu}

pub record ForwardingEntry : Type 0 where
  pub dst_addr : ℕ
  pub next_hop : ℕ
  pub cost : ℕ

pub record PduQueue : Type 0 where
  pub queue : List Pdu
  pub max_size : ℕ

pub data RmtError : Type 0 where
  queue_full local_destination : RmtError
  no_route no_output_queue : ℕ → RmtError

-- `PduQueue::new`.
abbrev pub new_queue : ℕ → PduQueue
new_queue max_size = record { queue = []; max_size = max_size }

unfoldable pub enqueue : PduQueue → Pdu → Result RmtError PduQueue
enqueue q pdu =
    if leb q.max_size (length q.queue)
    then err queue_full
    else ok (record q { queue = q.queue ++ pdu ∷ [] })

abbrev pub pop_front : List Pdu → Option (Pdu × List Pdu)
pop_front [] = none
pop_front (pdu ∷ rest) = some (pdu, rest)

unfoldable pub dequeue : PduQueue → PduQueue × Option Pdu
dequeue q = elim (pop_front q.queue) [
  | none ↦ (q, none)
  | some (pdu, rest) ↦ (record q { queue = rest }, some pdu)
]

pub record Rmt : Type 0 where
  pub local_addr : ℕ
  pub forwarding_table : Map ℕ ForwardingEntry
  pub output_queues : Map ℕ PduQueue
  pub default_queue_size : ℕ

unfoldable pub new : ℕ → Rmt
new local = record {
  local_addr = local;
  forwarding_table = [];
  output_queues = [];
  default_queue_size = 100;
}

unfoldable pub set_default_queue_size : Rmt → ℕ → Rmt
set_default_queue_size r size = record r { default_queue_size = size }

-- `entry(next_hop).or_insert_with(..)`.
unfoldable pub ensure_queue : Map ℕ PduQueue → ℕ → ℕ → Map ℕ PduQueue
ensure_queue qs hop size = elim (get qs hop) [ none ↦ insert qs hop (new_queue size) | some q ↦ qs ]

unfoldable pub add_forwarding_entry : Rmt → ForwardingEntry → Rmt
unfolding ensure_queue
add_forwarding_entry r entry = record r {
  forwarding_table = insert r.forwarding_table entry.dst_addr entry;
  output_queues = ensure_queue r.output_queues entry.next_hop r.default_queue_size;
}

unfoldable pub remove_forwarding_entry : Rmt → ℕ → Rmt
remove_forwarding_entry r dst = record r { forwarding_table = remove r.forwarding_table dst }

unfoldable pub lookup : Rmt → ℕ → Option ℕ
lookup r dst = elim (get r.forwarding_table dst) [ none ↦ none | some e ↦ some e.next_hop ]

-- The queue of a next hop takes the PDU; a refusal changes nothing.
unfoldable pub enqueue_for : Rmt → ℕ → Pdu → Result RmtError Rmt
unfolding enqueue
enqueue_for r hop pdu = do
  queue ← ok_or (get r.output_queues hop) (no_output_queue hop)
  queue' ← enqueue queue pdu
  ok (record r { output_queues = insert r.output_queues hop queue' })

-- A PDU that is not for this process goes to the queue of its next hop.
unfoldable pub forward : Rmt → Pdu → Result RmtError (Rmt × ℕ)
unfolding lookup enqueue_for
forward r pdu = do
  hop ← ok_or (lookup r pdu.dst_addr) (no_route pdu.dst_addr)
  r' ← enqueue_for r hop pdu
  ok (r', hop)

abbrev pub kept {ℓ} :
    {A : Type ℓ} → Rmt → (ℕ → A) → Result RmtError (Rmt × ℕ) → Rmt × Result RmtError A
kept r f (ok (r', hop)) = (r', ok (f hop))
kept r f (err e) = (r, err e)

unfoldable pub process_outgoing : Rmt → Pdu → Rmt × Result RmtError ℕ
unfolding forward
process_outgoing r pdu =
    if eqb pdu.dst_addr r.local_addr
    then (r, err local_destination)
    else kept r (λ hop. hop) (forward r pdu)

unfoldable pub process_incoming : Rmt → Pdu → Rmt × Result RmtError (Option ℕ)
unfolding forward
process_incoming r pdu =
    if eqb pdu.dst_addr r.local_addr then (r, ok none) else kept r some (forward r pdu)

unfoldable pub dequeue_for_next_hop : Rmt → ℕ → Rmt × Option Pdu
unfolding dequeue
dequeue_for_next_hop r hop = elim (get r.output_queues hop) [
  | none ↦ (r, none)
  | some q ↦ (record r { output_queues = insert r.output_queues hop (dequeue q).0 }, (dequeue q).1)
]

unfoldable pub queue_length : Rmt → ℕ → ℕ
queue_length r hop = elim (get r.output_queues hop) [ none ↦ 0 | some q ↦ length q.queue ]

unfoldable pub has_queued_pdus : Rmt → ℕ → Bool
has_queued_pdus r hop = elim (get r.output_queues hop) [
  | none ↦ false
  | some q ↦ not (eqb (length q.queue) 0)
]

unfoldable pub total_length : List PduQueue → ℕ
total_length [] = 0
total_length (q ∷ qs) = length q.queue + total_length qs

unfoldable pub total_queued : Rmt → ℕ
unfolding total_length
total_queued r = total_length (values r.output_queues)

unfoldable pub forwarding_table_size : Rmt → ℕ
forwarding_table_size r = length r.forwarding_table
