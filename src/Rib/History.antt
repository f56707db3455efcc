-- ===== src/Rib/History.antt =====
-- Histories of a RIB that is changed by `create`, `update` and `delete`, as the bootstrap's is.
use ari.Base.{
  ℕ, ◌+◌, ◌≤◌, ◌<◌, String, ◌≡◌, refl, ◌⊎◌, inl, inr, false, some, List, [], ◌∷◌, arith, Bool-cases,
  Option-cases, u64_mod, inc64, nat_key, string_key, ==_iff,
}
use ari.Map.{get, contains_key, insert}
use ari.Map.Laws.{
  Distinct, insert-Distinct, remove-Distinct, get-insert, get-remove, contains_key_lem,
}
use ari.Rib.Value.{RibValue, RibObject, RibChange, created, updated, deleted, version}
use ari.Rib.ChangeLog
use ari.Rib.ChangeLog.{log_change}
use ari.Rib.ChangeLog.Window.{Within, log_change-Within, current_version-log_change}
use ari.Rib.Store.{Rib, new_object, renewed, create, update, delete, add, replace, drop_object}
use ari.Rib.Receive.{Objects, Tally, apply_change}

pub data Op : Type 0 where
  creates : String → String → RibValue → ℕ → Op
  updates : String → RibValue → ℕ → Op
  deletes : String → ℕ → Op

unfoldable pub step : Rib → Op → Rib
step r (creates name class value now) = (create r name class value now).0
step r (updates name value now) = (update r name value now).0
step r (deletes name now) = (delete r name now).0

unfoldable pub run : Rib → List Op → Rib
run r [] = r
run r (op ∷ ops) = run (step r op) ops

-- Every object stands under its own name, with a version that was given out.
abbrev pub Named : Objects → ℕ → Type 0
Named os counter =
    (k : String) (o : RibObject) → get os k ≡ some o → (o.name ≡ k) × (o.version ≤ counter)

-- The log holds the latest changes up to the version counter.
pub record IsCoherent (r : Rib) : Type 0 where
  pub within : Within r.change_log r.version_counter
  pub current : ChangeLog.current_version r.change_log ≡ r.version_counter
  pub named : Named r.objects r.version_counter
  pub distinct : Distinct r.objects

abbrev pub SameObjects : Objects → Objects → Type 0
SameObjects a b = (k : String) → get a k ≡ get b k

-- What a successful operation logs, and that whoever applies it follows.
pub record Logs (r r' : Rib) (c : RibChange) : Type 0 where
  pub log : r'.change_log ≡ log_change r.change_log c
  pub counter : r'.version_counter ≡ version c
  pub next : version c ≡ r.version_counter + 1
  pub named : Named r'.objects r'.version_counter
  pub distinct : Distinct r'.objects
  pub follows :
      (t : Tally) → SameObjects t.0 r.objects → SameObjects (apply_change t c).0 r'.objects

abbrev pub Stepped : Rib → Rib → Type 0
Stepped r r' = (r' ≡ r) ⊎ ((c : RibChange) × Logs r r' c)

module _ (r : Rib) (v : IsCoherent r) (room : r.version_counter + 1 < u64_mod) where
  insert-Named :
      (name : String) (obj : RibObject)
      → obj.name ≡ name
      → obj.version ≡ r.version_counter + 1
      → Named (insert r.objects name obj) obj.version
  insert-Named name obj same next k o h =
      ground (arith, get-insert r.objects name k obj, ==_iff name k, v.named k o)

  create-Logs :
      (name class : String) (value : RibValue) (now : ℕ)
      → contains_key r.objects name ≡ false
      → Logs r
          (add r (new_object r name class value now))
          (created (new_object r name class value now))
  unfolding add apply_change
  create-Logs name class value now absent = record {
    log = refl;
    counter = refl;
    next = omega arith;
    named = insert-Named name (new_object r name class value now) refl (omega arith);
    distinct = insert-Distinct r.objects name (new_object r name class value now) v.distinct;
    follows = λ t same k. ground (
      arith,
      absent,
      contains_key_lem r.objects name,
      contains_key_lem t.0 name,
      same name,
      same k,
      get-insert t.0 name k (new_object r name class value now),
      get-insert r.objects name k (new_object r name class value now),
    );
  }

  update-Logs :
      (name : String) (obj : RibObject) (value : RibValue) (now : ℕ)
      → get r.objects name ≡ some obj
      → Logs r (replace r name (renewed r obj value now)) (updated (renewed r obj value now))
  unfolding replace apply_change
  update-Logs name obj value now found =
      let obj' : RibObject = renewed r obj value now in
      let (named, old) = v.named name obj found in
      record {
        log = refl;
        counter = refl;
        next = omega arith;
        named = insert-Named name obj' named (omega arith);
        distinct = insert-Distinct r.objects name obj' v.distinct;
        follows = λ t same k. ground (
          arith,
          named,
          old,
          found,
          same name,
          same k,
          get-insert t.0 name k obj',
          get-insert r.objects name k obj',
          get-insert t.0 obj.name k obj',
        );
      }

  delete-Logs :
      (name : String) (obj : RibObject) (now : ℕ)
      → get r.objects name ≡ some obj
      → Logs r (drop_object r name obj now) (deleted obj.name (inc64 r.version_counter) now)
  unfolding drop_object apply_change
  delete-Logs name obj now found =
      let (named, old) = v.named name obj found in
      record {
        log = refl;
        counter = refl;
        next = omega arith;
        named = λ k o h. ground (arith, get-remove r.objects name k, v.named k o);
        distinct = remove-Distinct r.objects name v.distinct;
        follows = λ t same k. ground (
          arith,
          named,
          found,
          same name,
          same k,
          get-remove t.0 name k,
          get-remove r.objects name k,
          get-remove t.0 obj.name k,
          contains_key_lem t.0 name,
          contains_key_lem t.0 obj.name,
        );
      }

  -- Each operation is refused and changes nothing, or logs one change with the next version.
  pub step-Stepped : (op : Op) → Stepped r (step r op)
  unfolding step create update delete
  step-Stepped (creates name class value now) = elim (Bool-cases (contains_key r.objects name)) [
    | inl there ↦ rw (there, step, create) (inl refl)
    | inr absent ↦ rw (absent, step, create) (inr (_, create-Logs name class value now absent))
  ]
  step-Stepped (updates name value now) = elim (Option-cases (get r.objects name)) [
    | inl missing ↦ rw (missing, step, update) (inl refl)
    | inr (obj, found) ↦ rw (found, step, update) (inr (_, update-Logs name obj value now found))
  ]
  step-Stepped (deletes name now) = elim (Option-cases (get r.objects name)) [
    | inl missing ↦ rw (missing, step, delete) (inl refl)
    | inr (obj, found) ↦ rw (found, step, delete) (inr (_, delete-Logs name obj now found))
  ]

  -- So each operation keeps the RIB coherent.
  pub Stepped-IsCoherent : (r' : Rib) → Stepped r r' → IsCoherent r'
  Stepped-IsCoherent r' (inl same) = rw same v
  Stepped-IsCoherent r' (inr (c, l)) = record {
    within =
        rw (l.log, l.counter)
          (log_change-Within r.change_log c r.version_counter room v.within
            (omega (arith, l.next)));
    current = rw (l.log, l.counter) (current_version-log_change r.change_log c);
    named = l.named;
    distinct = l.distinct;
  }
