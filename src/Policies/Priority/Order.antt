-- ===== src/Policies/Priority/Order.antt =====
-- Priority scheduling serves the more important PDUs first, and its indices are in range.
use mathlib.Core.Path.{subst}
use ari.Base.{
  ℕ, zero, suc, ◌+◌, ◌*◌, ◌≤◌, ◌<◌, ◌≡◌, refl, sym, ap, ◌∙◌, inl, inr, Option, none, some, List, [],
  ◌∷◌, arith, leb, if◌then◌else◌, Bool-cases, u64_mod, length, All, length-snoc, All-append,
  All-map, nat_key, string_key, ok, err,
}
use ari.Pdu.{Pdu}
use ari.Policies.Priority.{
  PriorityScheduling, priority_queue_full, priority_to_queue_index, queue_at, push_at, enqueue_at,
  enqueue, pop_first, dequeue, total_length,
}

-- One queue for each priority class, none over its size, and every PDU in the queue of its class.
abbrev pub Sorted : PriorityScheduling → ℕ → List (List Pdu) → Type 0
Sorted s i [] = Unit
Sorted s i (q ∷ qs) =
    (length q ≤ s.max_size_per_queue)
    × All (λ (p : Pdu). priority_to_queue_index s p.qos.priority ≡ i) q
    × Sorted s (i + 1) qs

pub record IsSorted (s : PriorityScheduling) : Type 0 where
  pub classes : 0 < s.num_priorities
  pub small : s.num_priorities * 256 < u64_mod
  pub one_each : length s.queues ≡ s.num_priorities
  pub sorted : Sorted s 0 s.queues

mul_mono : (a b n : ℕ) → a ≤ b → a * n ≤ b * n
mul_mono a b n h = grind arith

-- With at least one class, and few enough that the product does not wrap, the index of every
-- 8-bit priority is in range, and a higher priority never has a higher index.
pub priority_to_queue_index_bounds :
    (s : PriorityScheduling) (low high : ℕ)
    → 0 < s.num_priorities
    → s.num_priorities * 256 < u64_mod
    → low ≤ high
    → high < 256
    → (priority_to_queue_index s high < s.num_priorities)
      × (priority_to_queue_index s high ≤ priority_to_queue_index s low)
unfolding priority_to_queue_index
priority_to_queue_index_bounds s low high pos small le byte =
    let n : ℕ = s.num_priorities in
    let lower : low * n ≤ high * n = mul_mono low high n le in
    let upper : high * n ≤ 256 * n = mul_mono high 256 n (omega arith) in (omega arith, omega arith)

-- The classes do not depend on what waits.
Sorted-requeue :
    (s : PriorityScheduling) (qs' : List (List Pdu)) (k : ℕ) (qs : List (List Pdu))
    → Sorted s k qs
    → Sorted (record s { queues = qs' }) k qs
unfolding priority_to_queue_index
Sorted-requeue s qs' k [] h = tt
Sorted-requeue s qs' k (q ∷ qs) h = (h.0, h.1, Sorted-requeue s qs' (k + 1) qs h.2)

queue_at-found :
    (qs : List (List Pdu)) (i : ℕ) → i < length qs → (q : List Pdu) × (queue_at qs i ≡ some q)
unfolding queue_at
queue_at-found [] i h = elim h [ ]
queue_at-found (q ∷ qs) zero h = (q, refl)
queue_at-found (q ∷ qs) (suc i) h = queue_at-found qs i (omega arith)

length-push_at : (qs : List (List Pdu)) (i : ℕ) (pdu : Pdu) → length (push_at qs i pdu) ≡ length qs
unfolding push_at
length-push_at [] i pdu = refl
length-push_at (q ∷ qs) zero pdu = refl
length-push_at (q ∷ qs) (suc i) pdu = ap suc (length-push_at qs i pdu)

push_at-Sorted :
    (s : PriorityScheduling) (k : ℕ) (qs : List (List Pdu)) (i : ℕ) (pdu : Pdu) (q : List Pdu)
    → queue_at qs i ≡ some q
    → length q < s.max_size_per_queue
    → priority_to_queue_index s pdu.qos.priority ≡ k + i
    → Sorted s k qs
    → Sorted s k (push_at qs i pdu)
unfolding queue_at push_at
push_at-Sorted s k [] i pdu q at space e h = cc
push_at-Sorted s k (x ∷ qs) zero pdu q at space e h =
    let here : x ≡ q = ground arith in
    (
      rw here (omega (arith, length-snoc q pdu)),
      All-append _ x (pdu ∷ []) h.1 (omega arith, tt),
      h.2,
    )
push_at-Sorted s k (x ∷ qs) (suc i) pdu q at space e h =
    (h.0, h.1, push_at-Sorted s (k + 1) qs i pdu q at space (omega arith) h.2)

pushed :
    (s : PriorityScheduling) (pdu : Pdu) (q : List Pdu)
    → IsSorted s
    → queue_at s.queues (priority_to_queue_index s pdu.qos.priority) ≡ some q
    → length q < s.max_size_per_queue
    → IsSorted
        (record s { queues = push_at s.queues (priority_to_queue_index s pdu.qos.priority) pdu })
pushed s pdu q v at space =
    let i : ℕ = priority_to_queue_index s pdu.qos.priority in
    let sorted : Sorted s 0 (push_at s.queues i pdu) =
      push_at-Sorted s 0 s.queues i pdu q at space (omega arith) v.sorted in
    record {
      classes = v.classes;
      small = v.small;
      one_each = length-push_at s.queues i pdu ∙ v.one_each;
      sorted = Sorted-requeue s (push_at s.queues i pdu) 0 (push_at s.queues i pdu) sorted;
    }

stays :
    (s : PriorityScheduling) (pdu : Pdu) (q : List Pdu)
    → IsSorted s
    → queue_at s.queues (priority_to_queue_index s pdu.qos.priority) ≡ some q
    → IsSorted (enqueue_at s (priority_to_queue_index s pdu.qos.priority) pdu (some q)).0
unfolding enqueue_at
stays s pdu q v at = elim (Bool-cases (leb s.max_size_per_queue (length q))) [
  | inl full ↦ rw full v
  | inr space ↦ rw space (pushed s pdu q v at (ground arith))
]

-- A PDU with an 8-bit priority joins the queue of its class in a sorted scheduler, or that queue
-- is full and nothing changes; the scheduler stays sorted.
pub enqueue-IsSorted :
    (s : PriorityScheduling) (pdu : Pdu)
    → IsSorted s
    → pdu.qos.priority < 256
    → let i = priority_to_queue_index s pdu.qos.priority in
      (q : List Pdu) × (queue_at s.queues i ≡ some q)
      × (enqueue s pdu ≡ (
          if leb s.max_size_per_queue (length q)
          then (s, err (priority_queue_full i))
          else (record s { queues = push_at s.queues i pdu }, ok tt)))
      × IsSorted (enqueue s pdu).0
unfolding enqueue
enqueue-IsSorted s pdu v byte =
    let i : ℕ = priority_to_queue_index s pdu.qos.priority in
    let (in_range, _) =
      priority_to_queue_index_bounds s pdu.qos.priority pdu.qos.priority v.classes v.small
        (omega arith) byte in
    let (q, at) = queue_at-found s.queues i (omega (arith, v.one_each)) in
    (q, at, rw at refl, rw at (stays s pdu q v at))

-- Nothing waits.
abbrev pub AllEmpty : List (List Pdu) → Type 0
AllEmpty = All (λ (q : List Pdu). q ≡ [])

-- What comes out is of the first class that waits: every PDU left has at least its index.
abbrev pub PopsFirst :
    PriorityScheduling → ℕ → List (List Pdu) → List (List Pdu) × Option Pdu → Type 0
PopsFirst s k qs (qs', none) = AllEmpty qs × (qs' ≡ qs)
PopsFirst s k qs (qs', some pdu) =
    (k ≤ priority_to_queue_index s pdu.qos.priority)
    × Sorted s k qs'
    × All
        (All (λ (p : Pdu).
          priority_to_queue_index s pdu.qos.priority ≤ priority_to_queue_index s p.qos.priority))
        qs'
    × (total_length qs ≡ total_length qs' + 1)
    × (length qs' ≡ length qs)

Sorted-above :
    (s : PriorityScheduling) (b k : ℕ) (qs : List (List Pdu))
    → b ≤ k
    → Sorted s k qs
    → All (All (λ (p : Pdu). b ≤ priority_to_queue_index s p.qos.priority)) qs
Sorted-above s b k [] le h = tt
Sorted-above s b k (q ∷ qs) le h =
    (All-map _ _ q (λ p e. omega arith) h.1, Sorted-above s b (k + 1) qs (omega arith) h.2)

after_empty :
    (s : PriorityScheduling) (k : ℕ) (qs : List (List Pdu)) (r : List (List Pdu) × Option Pdu)
    → PopsFirst s (k + 1) qs r
    → PopsFirst s k ([] ∷ qs) ([] ∷ r.0, r.1)
unfolding total_length
after_empty s k qs (qs', none) h = ((refl, h.0), ap (λ (l : List (List Pdu)). [] ∷ l) h.1)
after_empty s k qs (qs', some pdu) h =
    (omega arith, (omega arith, tt, h.1), (tt, h.2), omega arith, omega arith)

pop_first-PopsFirst :
    (s : PriorityScheduling) (k : ℕ) (qs : List (List Pdu))
    → Sorted s k qs
    → PopsFirst s k qs (pop_first qs)
unfolding pop_first total_length
pop_first-PopsFirst s k [] h = (tt, refl)
pop_first-PopsFirst s k ((pdu ∷ rest) ∷ qs) h =
    let (here, others) = h.1 in
    (
      omega arith,
      (omega (arith, h.0), others, h.2),
      (
        All-map _ _ rest (λ p e. omega arith) others,
        Sorted-above s (priority_to_queue_index s pdu.qos.priority) (k + 1) qs (omega arith) h.2,
      ),
      omega arith,
      omega arith,
    )
pop_first-PopsFirst s k ([] ∷ qs) h =
    after_empty s k qs (pop_first qs) (pop_first-PopsFirst s (k + 1) qs h.2)

popped-IsSorted :
    (s : PriorityScheduling) (r : List (List Pdu) × Option Pdu)
    → IsSorted s
    → PopsFirst s 0 s.queues r
    → IsSorted (record s { queues = r.0 })
popped-IsSorted s (qs', none) v h = record {
  classes = v.classes;
  small = v.small;
  one_each = ap length h.1 ∙ v.one_each;
  sorted = Sorted-requeue s qs' 0 qs' (subst (Sorted s 0) (sym h.1) v.sorted);
}
popped-IsSorted s (qs', some pdu) v h = record {
  classes = v.classes;
  small = v.small;
  one_each = h.4 ∙ v.one_each;
  sorted = Sorted-requeue s qs' 0 qs' h.1;
}

-- A sorted scheduler gives out a PDU such that no PDU left has a lower class index, one PDU less
-- waits and it stays sorted; it gives out none only when nothing waits.
pub dequeue-PopsFirst :
    (s : PriorityScheduling)
    → IsSorted s
    → PopsFirst s 0 s.queues ((dequeue s).0.queues, (dequeue s).1) × IsSorted (dequeue s).0
unfolding dequeue
dequeue-PopsFirst s v =
    let pops : PopsFirst s 0 s.queues (pop_first s.queues) =
      pop_first-PopsFirst s 0 s.queues v.sorted in
    (pops, popped-IsSorted s (pop_first s.queues) v pops)
