-- ===== src/Directory/Pool/Allocation.antt =====
-- What allocation and release of addresses do, on every branch.
use ari.Base.{
  ℕ, zero, suc, ◌+◌, ◌≤◌, ◌<◌, ◌≡◌, refl, ◌⊎◌, inl, inr, true, false, ◌||◌, Option, none, some,
  arith, ltb, eqb, if◌then◌else◌, eqb_iff, Bool-cases, ◌==◌, nat_key, string_key, Result, ok, err,
  is_ok,
}
use ari.Map.{Map, contains_key, insert, remove}
use ari.Map.Laws.{
  contains_key_lem, get-insert, get-remove, Distinct, insert-Distinct, length-insert, length-remove,
  remove-Distinct,
}
use ari.Directory.Pool.{
  AddressPool, PoolError, exhausted, out_of_range, not_allocated, first_free, range_size,
  taken_from, allocate, release, is_allocated, allocated_count,
}

-- The least address of a range that is free, or every address of the range is taken.
abbrev FirstFree : Map ℕ (Unit {0}) → ℕ → ℕ → Option ℕ → Type 0
FirstFree assigned n addr none = (a : ℕ) → addr ≤ a → a < addr + n → contains_key assigned a ≡ true
FirstFree assigned n addr (some free) =
    (contains_key assigned free ≡ false)
    × (addr ≤ free)
    × (free < addr + n)
    × ((a : ℕ) → addr ≤ a → a < free → contains_key assigned a ≡ true)

past :
    (assigned : Map ℕ (Unit {0})) (n addr : ℕ)
    → contains_key assigned addr ≡ true
    → (r : Option ℕ) → FirstFree assigned n (addr + 1) r
    → FirstFree assigned (suc n) addr r
past assigned n addr taken none h = λ a low high. elim (Bool-cases (eqb a addr)) [
  | inl same ↦ rw ((eqb_iff a addr).0 same) taken
  | inr other ↦ h a (ground arith) (omega arith)
]
past assigned n addr taken (some free) h = (
  h.0,
  omega (arith, h.1),
  omega (arith, h.2),
  λ a low high. elim (Bool-cases (eqb a addr)) [
    | inl same ↦ rw ((eqb_iff a addr).0 same) taken
    | inr other ↦ h.3 a (ground arith) high
  ],
)

first_free-FirstFree :
    (assigned : Map ℕ (Unit {0})) (n addr : ℕ)
    → FirstFree assigned n addr (first_free assigned n addr)
unfolding first_free
first_free-FirstFree assigned zero addr = λ a low high. absurd (omega arith)
first_free-FirstFree assigned (suc n) addr = elim (Bool-cases (contains_key assigned addr)) [
  | inl taken ↦ rw taken (past assigned n addr taken _ (first_free-FirstFree assigned n (addr + 1)))
  | inr free ↦ rw free (free, omega arith, omega arith, λ a low high. absurd (omega arith))
]

-- Every assigned address is in the range, and each stands once.
pub record IsPool (p : AddressPool) : Type 0 where
  pub distinct : Distinct p.assigned
  pub in_range : (a : ℕ) → is_allocated p a ≡ true → (p.start ≤ a) × (a ≤ p.end)

-- What allocation does: it gives the least free address of the range, or says that none is free.
abbrev pub Allocates : AddressPool → AddressPool × Result PoolError ℕ → Type 0
Allocates p (p', ok addr) =
    (is_allocated p addr ≡ false)
    × (p.start ≤ addr)
    × (addr ≤ p.end)
    × ((a : ℕ) → p.start ≤ a → a < addr → is_allocated p a ≡ true)
    × ((a : ℕ) → is_allocated p' a ≡ (if addr == a then true else is_allocated p a))
    × (allocated_count p' ≡ allocated_count p + 1)
    × IsPool p'
Allocates p (p', err e) =
    (p' ≡ p) × (e ≡ exhausted) × ((a : ℕ) → p.start ≤ a → a ≤ p.end → is_allocated p a ≡ true)

contains_key-insert :
    (m : Map ℕ (Unit {0})) (k j : ℕ)
    → contains_key (insert m k tt) j ≡ (if k == j then true else contains_key m j)
contains_key-insert m k j =
    ground (arith, contains_key_lem (insert m k tt) j, contains_key_lem m j, get-insert m k j tt)

contains_key-remove :
    (m : Map ℕ (Unit {0})) (k j : ℕ)
    → contains_key (remove m k) j ≡ (if k == j then false else contains_key m j)
contains_key-remove m k j =
    ground (arith, contains_key_lem (remove m k) j, contains_key_lem m j, get-remove m k j)

allocated :
    (p : AddressPool) (r : Option ℕ)
    → IsPool p
    → FirstFree p.assigned (range_size p.start p.end) p.start r
    → Allocates p (taken_from p r)
unfolding is_allocated allocated_count
allocated p none v h = (refl, refl, λ a low high. h a low (omega arith))
allocated p (some addr) v h = (
  h.0,
  h.1,
  omega (arith, h.2),
  h.3,
  contains_key-insert p.assigned addr,
  ground (arith, h.0, length-insert p.assigned addr tt),
  record {
    distinct = insert-Distinct p.assigned addr tt v.distinct;
    in_range = λ a e. ground (arith, h.2, contains_key-insert p.assigned addr a, v.in_range a);
  },
)

-- In a well-formed pool, allocation takes the least free address of the range and no other, or
-- changes nothing and says that the pool is exhausted when every address of the range is taken.
pub allocate-Allocates : (p : AddressPool) → IsPool p → Allocates p (allocate p)
unfolding allocate
allocate-Allocates p v =
    allocated p (first_free p.assigned (range_size p.start p.end) p.start) v
      (first_free-FirstFree p.assigned (range_size p.start p.end) p.start)

-- What release does.
abbrev pub Releases : AddressPool → ℕ → AddressPool × Result PoolError (Unit {0}) → Type 0
Releases p address (p', ok _) =
    (is_allocated p address ≡ true)
    × ((a : ℕ) → is_allocated p' a ≡ (if address == a then false else is_allocated p a))
    × (allocated_count p ≡ allocated_count p' + 1)
    × IsPool p'
Releases p address (p', err e) =
    (p' ≡ p)
    × (is_allocated p address ≡ false)
    × (((e ≡ out_of_range) × ((address < p.start) ⊎ (p.end < address))) ⊎ (e ≡ not_allocated))

outside_free :
    (p : AddressPool) (address : ℕ)
    → IsPool p
    → (address < p.start) ⊎ (p.end < address)
    → is_allocated p address ≡ false
outside_free p address v side = elim (Bool-cases (is_allocated p address)) [
  | inl taken ↦ absurd (omega (arith, v.in_range address taken))
  | inr free ↦ free
]

-- In a well-formed pool, release frees one address that is taken, or changes nothing when the
-- address is not taken.
pub release-Releases :
    (p : AddressPool) (address : ℕ) → IsPool p → Releases p address (release p address)
unfolding release is_allocated allocated_count
release-Releases p address v = elim (Bool-cases (ltb address p.start || ltb p.end address)) [
  | inl outside ↦
      let side : (address < p.start) ⊎ (p.end < address) = ground arith in
      rw outside (refl, outside_free p address v side, inl (refl, side))
  | inr inside ↦ elim (Bool-cases (contains_key p.assigned address)) [
    | inl taken ↦
        rw (inside, taken)
          (
            taken,
            contains_key-remove p.assigned address,
            ground (arith, taken, length-remove p.assigned address v.distinct),
            record {
              distinct = remove-Distinct p.assigned address v.distinct;
              in_range =
                  λ a e. ground (arith, contains_key-remove p.assigned address a, v.in_range a);
            },
          )
    | inr free ↦ rw (inside, free) (refl, free, inr refl)
  ]
]

not_exhausted :
    (p : AddressPool) (address : ℕ) (r : AddressPool × Result PoolError ℕ)
    → is_allocated p address ≡ false
    → p.start ≤ address
    → address ≤ p.end
    → Allocates p r
    → is_ok r.1 ≡ true
not_exhausted p address (p', ok a) free low high h = refl
not_exhausted p address (p', err e) free low high h = cc (free, h.2 address low high)

freed :
    (p : AddressPool) (address : ℕ) (r : AddressPool × Result PoolError (Unit {0}))
    → IsPool p
    → r.1 ≡ ok tt
    → ((r.0.start ≡ p.start) × (r.0.end ≡ p.end))
    → Releases p address r
    → is_ok (allocate r.0).1 ≡ true
freed p address (p', ok _) v h same (was, now, fewer, v') =
    let (low, high) = v.in_range address was in
    not_exhausted p' address (allocate p') (ground (arith, now address)) (omega arith) (omega arith)
      (allocate-Allocates p' v')
freed p address (p', err e) v h same rel = cc

release_range :
    (p : AddressPool) (address : ℕ)
    → ((release p address).0.start ≡ p.start) × ((release p address).0.end ≡ p.end)
unfolding release
release_range p address = ground arith

-- After a release that succeeds, in a well-formed pool, allocation does not fail.
pub allocate_after_release :
    (p : AddressPool) (address : ℕ)
    → IsPool p
    → (release p address).1 ≡ ok tt
    → is_ok (allocate (release p address).0).1 ≡ true
allocate_after_release p address v h =
    freed p address (release p address) v h (release_range p address) (release-Releases p address v)
