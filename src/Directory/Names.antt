-- ===== src/Directory/Names.antt =====
-- The names that the directory resolves, and the addresses that they resolve to.
use ari.Base.{
  ℕ, String, ◌≡◌, refl, sym, inl, inr, Bool, true, false, ◌&&◌, ◌||◌, not, Option, none, some, List,
  [], ◌∷◌, ◌++◌, arith, eqb, Bool-cases, Option-cases, ◌==◌, nat_key, string_key, ==_iff,
}
use ari.Map.{get, insert, remove}
use ari.Map.Laws.{get-insert, get-remove}
use mathlib.Core.Option.{some-injective}
use ari.Directory.{
  Directory, DirectoryEntry, contains, modified, register, unregister, resolve, without, is_empty,
}

-- The addresses of a name, none if it is not there.
abbrev addresses_of : Option (List ℕ) → List ℕ
addresses_of none = []
addresses_of (some addresses) = addresses

-- `address` is resolved for `name`, as a test.
unfoldable pub resolves : Directory → String → ℕ → Bool
unfolding resolve
resolves d name address = contains (addresses_of (resolve d name)) address

contains-append :
    (xs ys : List ℕ) (a : ℕ) → contains (xs ++ ys) a ≡ (contains xs a || contains ys a)
contains-append [] ys a = refl
contains-append (x ∷ xs) ys a = ground (arith, contains-append xs ys a)

contains-without :
    (xs : List ℕ) (a b : ℕ) → contains (without xs a) b ≡ (contains xs b && not (eqb b a))
contains-without [] a b = refl
contains-without (x ∷ xs) a b = ground (arith, contains-without xs a b)

empty_none : (xs : List ℕ) (a : ℕ) → is_empty xs ≡ true → contains xs a ≡ false
empty_none [] a h = refl
empty_none (x ∷ xs) a h = cc

-- After a registration the name resolves to the address and to what it resolved to before, and
-- every other name to what it did.
resolves-register :
    (d : Directory) (name n : String) (address a now : ℕ)
    → resolves (register d name address now).0 n a
      ≡ ((name == n && eqb address a) || resolves d n a)
unfolding register resolves
resolves-register d name n address a now = elim (Option-cases (get d.entries name)) [
  | inl missing ↦
      let e : DirectoryEntry = record { name = name; addresses = address ∷ []; timestamp = now } in
      rw (missing, register) (ground (arith, missing, ==_iff name n, get-insert d.entries name n e))
  | inr (e, found) ↦
      rw (found, register)
        (ground (
          arith,
          found,
          ==_iff name n,
          get-insert d.entries name n (modified e address now),
          contains-append e.addresses (address ∷ []) a,
        ))
]

-- After an unregistration the name does not resolve to the address, and everything else resolves
-- as before.
resolves-unregister :
    (d : Directory) (name n : String) (address a : ℕ)
    → resolves (unregister d name address).0 n a
      ≡ (resolves d n a && not (name == n && eqb a address))
unfolding unregister resolves
resolves-unregister d name n address a = elim (Option-cases (get d.entries name)) [
  | inl missing ↦ rw (missing, unregister) (ground (arith, missing, ==_iff name n))
  | inr (e, found) ↦
      let left : List ℕ = without e.addresses address in
      elim (Bool-cases (is_empty left)) [
        | inl empty ↦
            rw (found, unregister)
              (rw empty (
                ground (
                  arith,
                  found,
                  ==_iff name n,
                  empty_none left a empty,
                  contains-without e.addresses address a,
                  get-remove d.entries name n,
                )))
        | inr more ↦
            rw (found, unregister)
              (rw more (
                ground (
                  arith,
                  found,
                  ==_iff name n,
                  contains-without e.addresses address a,
                  get-insert d.entries name n (record e { addresses = left }),
                )))
      ]
]

-- No address stands twice.
abbrev pub Once : List ℕ → Type 0
Once [] = Unit
Once (x ∷ xs) = (contains xs x ≡ false) × Once xs

-- Each name of the directory has an address, and none twice.
unfoldable pub IsTidy : Directory → Type 0
IsTidy d =
    (name : String) (e : DirectoryEntry)
    → get d.entries name ≡ some e
    → (is_empty e.addresses ≡ false) × Once e.addresses

Once-append : (xs : List ℕ) (a : ℕ) → contains xs a ≡ false → Once xs → Once (xs ++ a ∷ [])
Once-append [] a new once = (refl, tt)
Once-append (x ∷ xs) a new once = (
  ground (arith, contains-append xs (a ∷ []) x, new, once.0),
  Once-append xs a (ground (arith, new)) once.1,
)

Once-without : (xs : List ℕ) (a : ℕ) → Once xs → Once (without xs a)
Once-without [] a once = tt
Once-without (x ∷ xs) a once = elim (Bool-cases (eqb x a)) [
  | inl same ↦ rw same (Once-without xs a once.1)
  | inr other ↦ rw other (ground (arith, contains-without xs a x, once.0), Once-without xs a once.1)
]

is_empty-contains : (xs : List ℕ) (a : ℕ) → contains xs a ≡ true → is_empty xs ≡ false
is_empty-contains [] a h = sym h
is_empty-contains (x ∷ xs) a h = refl

is_empty-append : (xs : List ℕ) (a : ℕ) → is_empty (xs ++ a ∷ []) ≡ false
is_empty-append [] a = refl
is_empty-append (x ∷ xs) a = refl

-- What a tidy directory asks of an entry.
abbrev EntryTidy : DirectoryEntry → Type 0
EntryTidy e = (is_empty e.addresses ≡ false) × Once e.addresses

modified-tidy : (e : DirectoryEntry) (a now : ℕ) → EntryTidy e → EntryTidy (modified e a now)
unfolding modified
modified-tidy e a now tidy = elim (Bool-cases (contains e.addresses a)) [
  | inl there ↦ rw there tidy
  | inr new ↦ rw new (is_empty-append e.addresses a, Once-append e.addresses a new tidy.1)
]

insert-IsTidy :
    (d : Directory) (name : String) (e : DirectoryEntry)
    → IsTidy d
    → EntryTidy e
    → IsTidy (record { entries = insert d.entries name e })
unfolding IsTidy
insert-IsTidy d name e tidy it = λ n e' h. elim (Bool-cases (name == n)) [
  | inl here ↦
      let same : some e ≡ some e' = cc (here, get-insert d.entries name n e, h) in
      rw (sym (some-injective _ _ same)) it
  | inr other ↦ tidy n e' (ground (arith, get-insert d.entries name n e))
]

remove-IsTidy :
    (d : Directory) (name : String) → IsTidy d → IsTidy (record { entries = remove d.entries name })
unfolding IsTidy
remove-IsTidy d name tidy = λ n e h. tidy n e (ground (arith, get-remove d.entries name n))

-- Registration and unregistration keep a tidy directory so: every name that it holds has an
-- address, and none twice.
register-IsTidy :
    (d : Directory) (name : String) (address now : ℕ)
    → IsTidy d
    → IsTidy (register d name address now).0 × IsTidy (unregister d name address).0
unfolding register unregister IsTidy
register-IsTidy d name address now tidy = elim (Option-cases (get d.entries name)) [
  | inl missing ↦
      let e : DirectoryEntry = record { name = name; addresses = address ∷ []; timestamp = now } in
      rw (missing, register, unregister) (insert-IsTidy d name e tidy (refl, (refl, tt)), tidy)
  | inr (e, found) ↦
      let it : EntryTidy e = tidy name e found in
      let left : List ℕ = without e.addresses address in
      let first : IsTidy (record { entries = insert d.entries name (modified e address now) }) =
        insert-IsTidy d name (modified e address now) tidy (modified-tidy e address now it) in
      elim (Bool-cases (is_empty left)) [
        | inl empty ↦ rw (found, register, unregister) (rw empty (first, remove-IsTidy d name tidy))
        | inr more ↦
            rw (found, register, unregister)
              (rw more (
                first,
                insert-IsTidy d name (record e { addresses = left }) tidy
                    (more, Once-without e.addresses address it.1),
              ))
      ]
]
