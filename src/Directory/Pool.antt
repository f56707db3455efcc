-- ===== src/Directory/Pool.antt =====
-- src/directory.rs: `AddressPool`, the addresses that a bootstrap process gives out.
pub mod Allocation
use ari.Base.{
  ℕ, zero, suc, ◌+◌, ◌-◌, ◌%◌, Bool, ◌||◌, not, Option, none, some, [], map, ltb, if◌then◌else◌,
  u64_mod, length, nat_key, string_key, Result, ok, err,
}
use ari.Map.{Map, contains_key, insert, remove}

pub data PoolError : Type 0 where
  exhausted out_of_range not_allocated : PoolError

-- The set of assigned addresses is a map to the unit type.
pub record AddressPool : Type 0 where
  pub start : ℕ
  pub end : ℕ
  pub assigned : Map ℕ (Unit {0})

unfoldable pub new : ℕ → ℕ → AddressPool
new start end = record { start = start; end = end; assigned = [] }

-- The first address from `addr` on that is not assigned, among `n` addresses.
unfoldable pub first_free : Map ℕ (Unit {0}) → ℕ → ℕ → Option ℕ
first_free assigned zero addr = none
first_free assigned (suc n) addr =
    let next = first_free assigned n (addr + 1) in
    if contains_key assigned addr then next else some addr

-- `start..=end` has as many addresses as this, none if it is empty.
abbrev pub range_size : ℕ → ℕ → ℕ
range_size start end = end + 1 - start

abbrev pub taken_from : AddressPool → Option ℕ → AddressPool × Result PoolError ℕ
taken_from p none = (p, err exhausted)
taken_from p (some addr) = (record p { assigned = insert p.assigned addr tt }, ok addr)

unfoldable pub allocate : AddressPool → AddressPool × Result PoolError ℕ
unfolding first_free
allocate p = taken_from p (first_free p.assigned (range_size p.start p.end) p.start)

unfoldable pub release : AddressPool → ℕ → AddressPool × Result PoolError (Unit {0})
release p address =
    if ltb address p.start || ltb p.end address
    then (p, err out_of_range)
    else if contains_key p.assigned address
    then (record p { assigned = remove p.assigned address }, ok tt)
    else (p, err not_allocated)

unfoldable pub is_allocated : AddressPool → ℕ → Bool
is_allocated p address = contains_key p.assigned address

unfoldable pub allocated_count : AddressPool → ℕ
allocated_count p = length p.assigned

-- u64 arithmetic, which wraps.
unfoldable pub capacity : AddressPool → ℕ
capacity p = (p.end + u64_mod - p.start + 1) % u64_mod

unfoldable pub available_count : AddressPool → ℕ
unfolding capacity allocated_count
available_count p = (capacity p + u64_mod - allocated_count p) % u64_mod
