-- ===== src/Policies/Priority/Output.antt =====
-- What a priority scheduler gives out, and the state it begins in.
use ari.Base.{
  ℕ, zero, suc, ◌+◌, ◌*◌, ◌<◌, ◌≡◌, refl, Option, none, some, List, [], ◌∷◌, ◌++◌, arith, u64_mod,
  length, nat_key, string_key,
}
use ari.Pdu.{Pdu}
use ari.Policies.Priority.{PriorityScheduling, pop_first, dequeue, empty_queues, new}
use ari.Policies.Priority.Order.{Sorted, IsSorted}

-- All that waits, the lowest index first.
pub flat : List (List Pdu) → List Pdu
flat [] = []
flat (q ∷ qs) = q ++ flat qs

abbrev pub in_front : Option Pdu → List Pdu → List Pdu
in_front none pdus = pdus
in_front (some pdu) pdus = pdu ∷ pdus

flat-pop_first :
    (qs : List (List Pdu)) → flat qs ≡ in_front (pop_first qs).1 (flat (pop_first qs).0)
unfolding flat pop_first
flat-pop_first [] = refl
flat-pop_first ((pdu ∷ rest) ∷ qs) = refl
flat-pop_first ([] ∷ qs) = flat-pop_first qs

-- What the priority scheduler gives out is the head of all that waits, class after class and in
-- order of arrival in each, and the rest of it waits on.
flat-dequeue :
    (s : PriorityScheduling) → flat s.queues ≡ in_front (dequeue s).1 (flat (dequeue s).0.queues)
unfolding dequeue
flat-dequeue s = flat-pop_first s.queues

Sorted-empty_queues : (s : PriorityScheduling) (k n : ℕ) → Sorted s k (empty_queues n)
unfolding empty_queues
Sorted-empty_queues s k zero = tt
Sorted-empty_queues s k (suc n) = (omega arith, tt, Sorted-empty_queues s (k + 1) n)

length-empty_queues : (n : ℕ) → length (empty_queues n) ≡ n
unfolding empty_queues
length-empty_queues zero = refl
length-empty_queues (suc n) = ground (arith, length-empty_queues n)

-- A new scheduler with some classes is sorted.
pub new-IsSorted : (n size : ℕ) → 0 < n → n * 256 < u64_mod → IsSorted (new n size)
unfolding new
new-IsSorted n size pos small = record {
  classes = pos;
  small = small;
  one_each = length-empty_queues n;
  sorted = Sorted-empty_queues (new n size) 0 n;
}
