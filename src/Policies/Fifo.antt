-- ===== src/Policies/Fifo.antt =====
-- src/policies/scheduling.rs: `FifoScheduling`.
use ari.Base.{
  ℕ, zero, suc, ◌+◌, ◌-◌, ◌≤◌, ◌≡◌, refl, sym, ap, ◌∙◌, inl, inr, Option, none, some, List, [], ◌∷◌,
  ◌++◌, append_assoc, append-nil, arith, leb, if◌then◌else◌, Bool-cases, length, length-snoc,
  nat_key, string_key, Result, ok, err,
}
use ari.Pdu.{Pdu}

pub data FifoError : Type 0 where
  queue_full : FifoError

pub record FifoScheduling : Type 0 where
  pub queue : List Pdu
  pub max_size : ℕ

abbrev pub new : ℕ → FifoScheduling
new max_size = record { queue = []; max_size = max_size }

unfoldable pub enqueue : FifoScheduling → Pdu → FifoScheduling × Result FifoError (Unit {0})
enqueue s pdu =
    if leb s.max_size (length s.queue)
    then (s, err queue_full)
    else (record s { queue = s.queue ++ pdu ∷ [] }, ok tt)

abbrev pub popped : FifoScheduling → List Pdu → FifoScheduling × Option Pdu
popped s [] = (s, none)
popped s (pdu ∷ rest) = (record s { queue = rest }, some pdu)

unfoldable pub dequeue : FifoScheduling → FifoScheduling × Option Pdu
dequeue s = popped s s.queue

unfoldable pub queue_length : FifoScheduling → ℕ
queue_length s = length s.queue

-- The PDUs offered in turn to the scheduler, whatever it answers.
pub enqueue_all : FifoScheduling → List Pdu → FifoScheduling
unfolding enqueue
enqueue_all s [] = s
enqueue_all s (pdu ∷ pdus) = enqueue_all (enqueue s pdu).0 pdus

-- What `n` calls of dequeue hand out.
pub dequeue_all : ℕ → FifoScheduling → List Pdu
unfolding dequeue
dequeue_all zero s = []
dequeue_all (suc n) s =
    let (s', answer) = dequeue s in elim answer [ none ↦ [] | some pdu ↦ pdu ∷ dequeue_all n s' ]

abbrev pub take : ℕ → List Pdu → List Pdu
take zero pdus = []
take (suc n) [] = []
take (suc n) (pdu ∷ pdus) = pdu ∷ take n pdus

take-nil : (n : ℕ) → take n [] ≡ []
take-nil zero = refl
take-nil (suc n) = refl

-- What is offered to a scheduler that holds PDUs already: they stay in front.
queue-enqueue_all :
    (s : FifoScheduling) (pdus : List Pdu)
    → length s.queue ≤ s.max_size
    → ((enqueue_all s pdus).queue ≡ s.queue ++ take (s.max_size - length s.queue) pdus)
      × ((enqueue_all s pdus).max_size ≡ s.max_size)
unfolding enqueue_all enqueue
queue-enqueue_all s [] h =
    (sym (append-nil s.queue) ∙ ap (λ r. s.queue ++ r) (sym (take-nil _)), refl)
queue-enqueue_all s (pdu ∷ pdus) h = elim (Bool-cases (leb s.max_size (length s.queue))) [
  | inl full ↦
      let none_left : s.max_size - length s.queue ≡ 0 = ground arith in
      let kept : (enqueue s pdu).0 ≡ s = rw full refl in
      let (q, m) = queue-enqueue_all s pdus h in
      let step : enqueue_all s (pdu ∷ pdus) ≡ enqueue_all s pdus =
        ap (λ t. enqueue_all t pdus) kept in
      rw (step, none_left) (q ∙ ap (λ n. s.queue ++ take n pdus) none_left, m)
  | inr room ↦
      let s' : FifoScheduling = record s { queue = s.queue ++ pdu ∷ [] } in
      let added : (enqueue s pdu).0 ≡ s' = rw room refl in
      let more : s.max_size - length s.queue ≡ suc (s.max_size - (length s.queue + 1)) =
        ground arith in
      let long : length s'.queue ≡ length s.queue + 1 = length-snoc s.queue pdu in
      let (q, m) = queue-enqueue_all s' pdus (ground arith) in
      let step : enqueue_all s (pdu ∷ pdus) ≡ enqueue_all s' pdus =
        ap (λ t. enqueue_all t pdus) added in
      rw (step, more)
        (
          q
              ∙ append_assoc s.queue (pdu ∷ []) (take (s.max_size - length s'.queue) pdus)
              ∙ ap (λ n. s.queue ++ pdu ∷ take (s.max_size - n) pdus) long,
          m,
        )
]

dequeue_all-record :
    (n max : ℕ) (q : List Pdu) → dequeue_all n (record { queue = q; max_size = max }) ≡ take n q
unfolding dequeue_all dequeue
dequeue_all-record zero max q = refl
dequeue_all-record (suc n) max [] = refl
dequeue_all-record (suc n) max (pdu ∷ rest) = ap (λ r. pdu ∷ r) (dequeue_all-record n max rest)

dequeue_all-queue : (n : ℕ) (s : FifoScheduling) → dequeue_all n s ≡ take n s.queue
dequeue_all-queue n s = dequeue_all-record n s.max_size s.queue

-- Of the PDUs offered to an empty FIFO scheduler, it hands out the first ones that it has room
-- for, in the order in which they came, and no more, however often it is asked.
pub dequeue_all-enqueue_all :
    (max n : ℕ) (pdus : List Pdu)
    → dequeue_all n (enqueue_all (new max) pdus) ≡ take n (take max pdus)
dequeue_all-enqueue_all max n pdus =
    let (q, m) = queue-enqueue_all (new max) pdus (omega arith) in
    let all_room : max - 0 ≡ max = omega arith in
    dequeue_all-queue n (enqueue_all (new max) pdus)
    ∙ ap (take n) (q ∙ ap (λ room. take room pdus) all_room)
