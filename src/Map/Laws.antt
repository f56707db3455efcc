-- ===== src/Map/Laws.antt =====
-- The laws of the maps, in the form of a conditional, and the invariant of distinct keys.
use ari.Base.{
  ◌+◌, ◌≡◌, refl, sym, inl, inr, Bool, Option, none, some, [], ◌∷◌, arith, if◌then◌else◌,
  Bool-cases, is_some, length, Key, ◌==◌, nat_key, string_key, ==_iff, ==_refl, elem,
}
use ari.Map.{Map, keys, get, contains_key, insert, remove, retain}

module _ {ℓ κ} {K : Type ℓ} {V : Type κ} ⦃e : Key K⦄ where
  pub get-insert :
      (m : Map K V) (k j : K) (v : V) → get (insert m k v) j ≡ (if k == j then some v else get m j)
  unfolding get insert
  get-insert [] k j v = refl
  get-insert ((i, w) ∷ m) k j v =
      ground (arith, ==_iff i k, ==_iff i j, ==_iff k j, get-insert m k j v)

  pub get-remove : (m : Map K V) (k j : K) → get (remove m k) j ≡ (if k == j then none else get m j)
  unfolding get remove
  get-remove [] k j = ground arith
  get-remove ((i, w) ∷ m) k j = ground (arith, ==_iff i k, ==_iff i j, ==_iff k j, get-remove m k j)

  pub contains_key_lem : (m : Map K V) (k : K) → contains_key m k ≡ is_some (get m k)
  unfolding get contains_key
  contains_key_lem [] k = refl
  contains_key_lem ((i, w) ∷ m) k = ground (arith, contains_key_lem m k)

  pub elem-keys : (m : Map K V) (k : K) → elem k (keys m) ≡ is_some (get m k)
  unfolding get
  elem-keys [] k = refl
  elem-keys ((i, w) ∷ m) k = ground (arith, elem-keys m k)

  pub get-insert_self : (m : Map K V) (k : K) (v : V) → get (insert m k v) k ≡ some v
  get-insert_self m k v = rw (get-insert, ==_refl k)

  pub get-remove_self : (m : Map K V) (k : K) → get (remove m k) k ≡ none
  get-remove_self m k = rw (get-remove, ==_refl k)

  -- Every key stands once.
  abbrev pub Distinct : Map K V → Type κ
  Distinct [] = Unit
  Distinct ((j, v) ∷ m) = (get m j ≡ none) × Distinct m

  pub remove_absent : (m : Map K V) (k : K) → get m k ≡ none → remove m k ≡ m
  unfolding get remove
  remove_absent [] k h = refl
  remove_absent ((i, w) ∷ m) k h = ground (arith, remove_absent m k)

  pub insert-Distinct : (m : Map K V) (k : K) (v : V) → Distinct m → Distinct (insert m k v)
  unfolding get insert
  insert-Distinct [] k v d = (refl, tt)
  insert-Distinct ((i, w) ∷ m) k v d =
      ground (arith, ==_iff i k, ==_iff k i, get-insert m k i v, insert-Distinct m k v d.1)

  pub remove-Distinct : (m : Map K V) (k : K) → Distinct m → Distinct (remove m k)
  unfolding remove
  remove-Distinct [] k d = tt
  remove-Distinct ((i, w) ∷ m) k d = ground (arith, get-remove m k i, remove-Distinct m k d.1)

  -- `len()` after an insertion and after a removal.
  pub length-insert :
      (m : Map K V) (k : K) (v : V)
      → length (insert m k v) ≡ (if contains_key m k then length m else length m + 1)
  unfolding insert contains_key
  length-insert [] k v = omega arith
  length-insert ((i, w) ∷ m) k v = ground (arith, length-insert m k v)

  pub length-remove :
      (m : Map K V) (k : K)
      → Distinct m
      → length m ≡ (if contains_key m k then length (remove m k) + 1 else length (remove m k))
  unfolding remove contains_key
  length-remove [] k d = refl
  length-remove ((i, w) ∷ m) k d =
      ground (arith, ==_iff i k, length-remove m k d.1, remove_absent m k, contains_key_lem m k)

  pub get-retain_absent :
      (p : K → V → Bool) (m : Map K V) (k : K) → get m k ≡ none → get (retain p m) k ≡ none
  unfolding get retain
  get-retain_absent p [] k h = refl
  get-retain_absent p ((i, w) ∷ m) k h = ground (arith, get-retain_absent p m k)

  abbrev pub keep_if : (K → V → Bool) → K → Option V → Option V
  keep_if p k none = none
  keep_if p k (some v) = if p k v then some v else none

  pub get-retain :
      (p : K → V → Bool) (m : Map K V) (k : K)
      → Distinct m
      → get (retain p m) k ≡ keep_if p k (get m k)
  unfolding get retain
  get-retain p [] k d = refl
  get-retain p ((i, w) ∷ m) k d = elim (Bool-cases (i == k)) [
    | inl hit ↦
        let same = (==_iff i k).0 hit in
        rw (sym same) (ground (arith, ==_refl i, get-retain_absent p m i d.0))
    | inr miss ↦ ground (arith, get-retain p m k d.1)
  ]

  pub retain-Distinct : (p : K → V → Bool) (m : Map K V) → Distinct m → Distinct (retain p m)
  unfolding retain
  retain-Distinct p [] d = tt
  retain-Distinct p ((i, w) ∷ m) d =
      ground (arith, get-retain_absent p m i d.0, retain-Distinct p m d.1)

pub ruleset map_laws = (get-insert, get-remove, contains_key_lem, get-insert_self, get-remove_self)
