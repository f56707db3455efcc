-- ===== src/Policies/Priority.antt =====
-- src/policies/scheduling.rs: `PriorityScheduling`. A failed index of a vector, a panic in the
-- source, is `panic`.
pub mod Order
pub mod Output
use ari.Base.{
  ℕ, zero, suc, ◌+◌, ◌-◌, ◌*◌, ◌/◌, ◌%◌, min, not, Option, none, some, List, [], ◌∷◌, ◌++◌, leb,
  if◌then◌else◌, u64_mod, length, nat_key, string_key, Result, ok, err,
}
use ari.Pdu.{Pdu}

pub data SchedulingError : Type 0 where
  panic : SchedulingError
  priority_queue_full : ℕ → SchedulingError

pub record PriorityScheduling : Type 0 where
  pub queues : List (List Pdu)
  pub max_size_per_queue : ℕ
  pub num_priorities : ℕ

unfoldable pub empty_queues : ℕ → List (List Pdu)
empty_queues zero = []
empty_queues (suc n) = [] ∷ empty_queues n

-- `PriorityScheduling::new`.
unfoldable pub new : ℕ → ℕ → PriorityScheduling
unfolding empty_queues
new num_priorities max_size = record {
  queues = empty_queues num_priorities;
  max_size_per_queue = max_size;
  num_priorities = num_priorities;
}

-- The difference of two usizes, which wraps.
abbrev pub sub64 : ℕ → ℕ → ℕ
sub64 a b = (a + u64_mod - b) % u64_mod

-- Higher priorities get lower indices.
unfoldable pub priority_to_queue_index : PriorityScheduling → ℕ → ℕ
priority_to_queue_index s priority =
    let normalized = priority * s.num_priorities % u64_mod / 256 in
    let last = sub64 s.num_priorities 1 in sub64 last (min normalized last)

-- `self.queues[index]`, if the index is in range.
unfoldable pub queue_at : List (List Pdu) → ℕ → Option (List Pdu)
queue_at [] i = none
queue_at (q ∷ qs) zero = some q
queue_at (q ∷ qs) (suc i) = queue_at qs i

unfoldable pub push_at : List (List Pdu) → ℕ → Pdu → List (List Pdu)
push_at [] i pdu = []
push_at (q ∷ qs) zero pdu = (q ++ pdu ∷ []) ∷ qs
push_at (q ∷ qs) (suc i) pdu = q ∷ push_at qs i pdu

abbrev pub Enqueued : Type 0
Enqueued = PriorityScheduling × Result SchedulingError (Unit {0})

unfoldable pub enqueue_at : PriorityScheduling → ℕ → Pdu → Option (List Pdu) → Enqueued
enqueue_at s i pdu none = (s, err panic)
enqueue_at s i pdu (some q) =
    if leb s.max_size_per_queue (length q)
    then (s, err (priority_queue_full i))
    else (record s { queues = push_at s.queues i pdu }, ok tt)

unfoldable pub enqueue : PriorityScheduling → Pdu → Enqueued
unfolding enqueue_at
enqueue s pdu =
    let i = priority_to_queue_index s pdu.qos.priority in enqueue_at s i pdu (queue_at s.queues i)

-- The first queue that is not empty gives its front.
unfoldable pub pop_first : List (List Pdu) → List (List Pdu) × Option Pdu
pop_first [] = ([], none)
pop_first ((pdu ∷ rest) ∷ qs) = (rest ∷ qs, some pdu)
pop_first ([] ∷ qs) = let (qs', found) = pop_first qs in ([] ∷ qs', found)

unfoldable pub dequeue : PriorityScheduling → PriorityScheduling × Option Pdu
unfolding pop_first
dequeue s = let (qs, found) = pop_first s.queues in (record s { queues = qs }, found)

unfoldable pub total_length : List (List Pdu) → ℕ
total_length [] = 0
total_length (q ∷ qs) = length q + total_length qs

unfoldable pub queue_length : PriorityScheduling → ℕ
unfolding total_length
queue_length s = total_length s.queues
