-- ===== src/Enrollment/Bootstrap/Given.antt =====
-- What becomes of the address pool of a bootstrap process, and of the addresses that its responses give.
use ari.Base.{
  ℕ, ◌≡◌, refl, sym, ap, ◌∙◌, ◌⊎◌, inl, inr, true, false, Option, none, some, List, [], ◌∷◌, arith,
  Bool-cases, ◌==◌, nat_key, string_key, ==_iff, ==_refl, Result, ok, err, elem,
}
use mathlib.Core.Path.{subst}
use mathlib.Core.Option.{some-injective}
use ari.Directory.Pool.{AddressPool, PoolError, allocate, is_allocated}
use ari.Directory.Pool.Allocation.{IsPool, Allocates, allocate-Allocates}
use ari.Enrollment.{EnrollmentManager}
use ari.Enrollment.Joining.{EnrollmentRequest, Grant, grant, granted, from_pool}

-- A pool, if there is one, gives out no address twice and none out of its range.
abbrev pub HasPool : Option AddressPool → Type 0
HasPool none = Unit
HasPool (some p) = IsPool p

-- What a handler does to the pool, and the address that its response gives, if it gives one: the
-- pool is unchanged and no address is given, or the least free address of the range is taken, and
-- no other one is given.
abbrev pub Gives : Option AddressPool → Option AddressPool → Option ℕ → Type 0
Gives before after x =
    ((after ≡ before) × (x ≡ none))
    ⊎ ((p : AddressPool) × (p' : AddressPool) × (a : ℕ) × (before ≡ some p)
        × (after ≡ some p')
        × Allocates p (p', ok a)
        × ((x ≡ none) ⊎ (x ≡ some a)))

-- The address in a grant.
abbrev pub granted_address : Grant → Option ℕ
granted_address (ok (ok assigned)) = assigned
granted_address _ = none

granted-Gives :
    (m : EnrollmentManager) (p : AddressPool) (o : AddressPool × Result PoolError ℕ)
    → Allocates p o
    → Gives (some p) (granted m o).0.address_pool (granted_address (granted m o).1)
granted-Gives m p (p', ok addr) h = inr (p, p', addr, refl, refl, h, inr refl)
granted-Gives m p (p', err e) h = inl (ap (λ (q : AddressPool). some q) h.0, refl)

from_pool-Gives :
    (m : EnrollmentManager) (o : Option AddressPool)
    → m.address_pool ≡ o
    → HasPool o
    → Gives o (from_pool m o).0.address_pool (granted_address (from_pool m o).1)
from_pool-Gives m none at v = inl (at, refl)
from_pool-Gives m (some p) at v = granted-Gives m p (allocate p) (allocate-Allocates p v)

pub grant-Gives :
    (m : EnrollmentManager) (req : EnrollmentRequest)
    → HasPool m.address_pool
    → Gives m.address_pool (grant m req).0.address_pool (granted_address (grant m req).1)
unfolding grant
grant-Gives m req v = elim (Bool-cases req.request_address) [
  | inl asks ↦ rw asks (from_pool-Gives m m.address_pool refl v)
  | inr quiet ↦ rw quiet (inl (refl, refl))
]

-- A response that could not be sent gives no address.
pub Gives-unsent :
    (before after : Option AddressPool) (x y : Option ℕ)
    → Gives before after x
    → (y ≡ none) ⊎ (y ≡ x)
    → Gives before after y
Gives-unsent before after x y (inl (same, quiet)) (inl lost) = inl (same, lost)
Gives-unsent before after x y (inl (same, quiet)) (inr told) = inl (same, told ∙ quiet)
Gives-unsent before after x y (inr (p, p', a, was, is, h, given)) (inl lost) =
    inr (p, p', a, was, is, h, inl lost)
Gives-unsent before after x y (inr (p, p', a, was, is, h, inl quiet)) (inr told) =
    inr (p, p', a, was, is, h, inl (told ∙ quiet))
Gives-unsent before after x y (inr (p, p', a, was, is, h, inr given)) (inr told) =
    inr (p, p', a, was, is, h, inr (told ∙ given))

-- Each address of the list stands in it once.
abbrev pub NoRepeat : List ℕ → Type 0
NoRepeat [] = Unit
NoRepeat (a ∷ rest) = (elem a rest ≡ false) × NoRepeat rest

-- What has become of the pool `p` when responses have given the addresses `told`.
pub record Given (p : AddressPool) (told : List ℕ) (o : Option AddressPool) : Type 0 where
  pub pool : AddressPool
  pub kept : o ≡ some pool
  pub well_formed : IsPool pool
  pub distinct : NoRepeat told
  pub fresh : (a : ℕ) → elem a told ≡ true → is_allocated p a ≡ false
  pub taken : (a : ℕ) → elem a told ≡ true → is_allocated pool a ≡ true
  pub stays : (a : ℕ) → is_allocated p a ≡ true → is_allocated pool a ≡ true

abbrev pub added : Option ℕ → List ℕ → List ℕ
added none told = told
added (some a) told = a ∷ told

-- One more address was taken before the others, and given or not.
next_taken :
    (p p' : AddressPool) (a : ℕ) (told : List ℕ) (o : Option AddressPool)
    → Allocates p (p', ok a)
    → Given p' told o
    → Given p told o
next_taken p p' a told o h g = record {
  pool = g.pool;
  kept = g.kept;
  well_formed = g.well_formed;
  distinct = g.distinct;
  fresh = λ b e. ground (arith, g.fresh b e, h.4 b);
  taken = g.taken;
  stays = λ b e. ground (arith, g.stays b, h.4 b);
}

next_told :
    (p p' : AddressPool) (a : ℕ) (told : List ℕ) (o : Option AddressPool)
    → Allocates p (p', ok a)
    → Given p' told o
    → Given p (a ∷ told) o
next_told p p' a told o h g = record {
  pool = g.pool;
  kept = g.kept;
  well_formed = g.well_formed;
  distinct = (
    elim (Bool-cases (elem a told)) [
      | inl again ↦ absurd (ground (arith, g.fresh a again, h.4 a, ==_refl a))
      | inr new ↦ new
    ],
    g.distinct,
  );
  fresh = λ b e. elim (Bool-cases (a == b)) [
    | inl same ↦ subst (λ (c : ℕ). is_allocated p c ≡ false) ((==_iff a b).0 same) h.0
    | inr other ↦ ground (arith, g.fresh b, h.4 b)
  ];
  taken = λ b e. elim (Bool-cases (a == b)) [
    | inl same ↦ ground (arith, g.stays b, h.4 b)
    | inr other ↦ ground (arith, g.taken b)
  ];
  stays = λ b e. ground (arith, g.stays b, h.4 b);
}

pub Gives-Given :
    (p : AddressPool) (after o : Option AddressPool) (x : Option ℕ) (told : List ℕ)
    → IsPool p
    → Gives (some p) after x
    → ((q : AddressPool) → after ≡ some q → IsPool q → Given q told o)
    → Given p (added x told) o
Gives-Given p after o x told v (inl (same, quiet)) later =
    subst (λ (y : Option ℕ). Given p (added y told) o) (sym quiet) (later p same v)
Gives-Given p after o x told v (inr (q, q', a, was, is, h, given)) later =
    let it : q ≡ p = some-injective _ _ (sym was) in
    let h' : Allocates p (q', ok a) = subst (λ (y : AddressPool). Allocates y (q', ok a)) it h in
    elim given [
      | inl quiet ↦
          subst (λ (y : Option ℕ). Given p (added y told) o) (sym quiet)
            (next_taken p q' a told o h' (later q' is h'.6))
      | inr said ↦
          subst (λ (y : Option ℕ). Given p (added y told) o) (sym said)
            (next_told p q' a told o h' (later q' is h'.6))
    ]
