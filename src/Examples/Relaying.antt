-- ===== src/Examples/Relaying.antt =====
-- Concrete relaying: a task with two routes, and schedulers of a few PDUs.
use ari.Base.{◌≤◌, ◌<◌, ◌≡◌, [], ◌∷◌, arith, nat_key, string_key}
use ari.Pdu.{Pdu, new_data, new_data_with_qos, default_qos}
use ari.Rmt
use ari.Rmt.{
  Rmt, ForwardingEntry, add_forwarding_entry, process_outgoing, process_incoming,
  dequeue_for_next_hop, no_output_queue,
}
use ari.Rmt.Queues.{IsRouted}
use ari.Rmt.Processing.{Outgoing, Incoming, process_outgoing-Outgoing, process_incoming-Incoming}
use ari.Rmt.Reach.{Reachable, start, then_step, adds, sends, Reachable-IsRouted}
use ari.Policies.Priority
use ari.Policies.Priority.{
  PriorityScheduling, priority_to_queue_index, queue_at, push_at, priority_queue_full,
}
use ari.Policies.Priority.Order.{
  IsSorted, PopsFirst, priority_to_queue_index_bounds, enqueue-IsSorted, dequeue-PopsFirst,
}
use ari.Policies.Priority.Output.{new-IsSorted}
use ari.Policies.Fifo
use ari.Policies.Fifo.{enqueue_all, dequeue_all, take, dequeue_all-enqueue_all}

abbrev route : ForwardingEntry
route = record { dst_addr = 3; next_hop = 2; cost = 1 }

abbrev pdu : Pdu
pdu = new_data 1 3 10 11 0 (5 ∷ [])

abbrev router : Rmt
router = add_forwarding_entry (Rmt.new 1) route

abbrev loaded : Rmt
loaded = (process_outgoing router pdu).0

router-Reachable : Reachable 1 router
router-Reachable = then_step start (adds route)

Reachable-IsRouted_example : IsRouted loaded
Reachable-IsRouted_example = Reachable-IsRouted 1 loaded (then_step router-Reachable (sends pdu))

router-IsRouted : IsRouted router
router-IsRouted = Reachable-IsRouted 1 router router-Reachable

process_outgoing-Outgoing_example : Outgoing router pdu (process_outgoing router pdu)
process_outgoing-Outgoing_example = process_outgoing-Outgoing router pdu router-IsRouted

process_incoming-Incoming_example : Incoming router pdu (process_incoming router pdu)
process_incoming-Incoming_example = process_incoming-Incoming router pdu router-IsRouted

-- A scheduler with four classes of two PDUs each.
abbrev four_classes : PriorityScheduling
four_classes = Priority.new 4 2

four_classes-IsSorted : IsSorted four_classes
four_classes-IsSorted = new-IsSorted 4 2 (omega arith) (omega arith)

abbrev urgent : Pdu
urgent = new_data_with_qos 1 3 10 11 1 (6 ∷ []) (record default_qos { priority = 255 })

priority_to_queue_index_bounds_example :
    (priority_to_queue_index four_classes 255 < 4)
    × (priority_to_queue_index four_classes 255 ≤ priority_to_queue_index four_classes 128)
unfolding Priority.new
priority_to_queue_index_bounds_example =
    priority_to_queue_index_bounds four_classes 128 255 (omega arith) (omega arith) (omega arith)
      (omega arith)

abbrev two_waiting : PriorityScheduling
two_waiting = (Priority.enqueue (Priority.enqueue four_classes pdu).0 urgent).0

two_waiting-IsSorted : IsSorted two_waiting
two_waiting-IsSorted =
    let s : PriorityScheduling = (Priority.enqueue four_classes pdu).0 in
    (enqueue-IsSorted s urgent
      (enqueue-IsSorted four_classes pdu four_classes-IsSorted (omega arith)).3 (omega arith)).3

dequeue-PopsFirst_example :
    PopsFirst two_waiting 0 two_waiting.queues
      ((Priority.dequeue two_waiting).0.queues, (Priority.dequeue two_waiting).1)
    × IsSorted (Priority.dequeue two_waiting).0
dequeue-PopsFirst_example = dequeue-PopsFirst two_waiting two_waiting-IsSorted

dequeue_all-enqueue_all_example :
    dequeue_all 3 (enqueue_all (Fifo.new 2) (pdu ∷ urgent ∷ pdu ∷ [])) ≡ pdu ∷ urgent ∷ []
dequeue_all-enqueue_all_example = dequeue_all-enqueue_all 2 3 (pdu ∷ urgent ∷ pdu ∷ [])
