-- ===== src/Rib/Intake.antt =====
-- Merging objects and applying changes keep a RIB coherent, and a snapshot copies it.
use mathlib.Core.Path.{subst}
use ari.Base.{
  ℕ, ◌+◌, ◌≤◌, ◌<◌, String, ◌≡◌, refl, inl, inr, List, [], ◌∷◌, arith, ltb, ltb→lt, Bool-cases,
  Option-cases, u64_mod, All, All-map, nat_key, string_key, ==_iff,
}
use ari.Map.{get, contains_key, insert, remove}
use ari.Map.Laws.{get-insert, get-remove, Distinct, insert-Distinct, remove-Distinct}
use ari.Rib.Value.{RibObject, RibChange, created, updated, deleted, version}
use ari.Rib.ChangeLog.Window.{update_version_marker-Within}
use ari.Rib.Store.{Rib}
use ari.Rib.Receive.{
  Objects, Tally, merge_object, merge_all, higher, max_version, note_version, merge_objects,
  apply_change, apply_all, max_change, apply_changes,
}
use ari.Rib.History.{IsCoherent, Named}

-- Objects under their names, each once, with versions up to a bound.
abbrev Tidy : Objects → ℕ → Type 0
Tidy os b = Named os b × Distinct os

insert-Tidy :
    (os : Objects) (o : RibObject) (b : ℕ) → o.version ≤ b → Tidy os b → Tidy (insert os o.name o) b
insert-Tidy os o b h t = (
  λ k x e. ground (arith, get-insert os o.name k o, ==_iff o.name k, t.0 k x),
  insert-Distinct os o.name o t.1,
)

remove-Tidy : (os : Objects) (name : String) (b : ℕ) → Tidy os b → Tidy (remove os name) b
remove-Tidy os name b t =
    (λ k x e. ground (arith, get-remove os name k, t.0 k x), remove-Distinct os name t.1)

Tidy-mono : (os : Objects) (a b : ℕ) → a ≤ b → Tidy os a → Tidy os b
Tidy-mono os a b h t = ((λ k x e. let (same, le) = t.0 k x e in (same, omega arith)), t.1)

merge_object-Tidy :
    (t : Tally) (x : RibObject) (b : ℕ) → x.version ≤ b → Tidy t.0 b → Tidy (merge_object t x).0 b
unfolding merge_object
merge_object-Tidy t x b h tidy = elim (Option-cases (get t.0 x.name)) [
  | inl missing ↦ rw (missing, merge_object) (insert-Tidy t.0 x b h tidy)
  | inr (o, found) ↦ elim (Bool-cases (ltb o.version x.version)) [
    | inl newer ↦ rw (found, merge_object) (rw newer (insert-Tidy t.0 x b h tidy))
    | inr old ↦ rw (found, merge_object) (rw old tidy)
  ]
]

merge_all-Tidy :
    (t : Tally) (objs : List RibObject) (b : ℕ)
    → All (λ (x : RibObject). x.version ≤ b) objs
    → Tidy t.0 b
    → Tidy (merge_all t objs).0 b
unfolding merge_all
merge_all-Tidy t [] b h tidy = tidy
merge_all-Tidy t (x ∷ xs) b h tidy =
    merge_all-Tidy (merge_object t x) xs b h.1 (merge_object-Tidy t x b h.0 tidy)

apply_change-Tidy :
    (t : Tally) (c : RibChange) (b : ℕ) → version c ≤ b → Tidy t.0 b → Tidy (apply_change t c).0 b
unfolding apply_change
apply_change-Tidy t (created o) b h tidy = elim (Bool-cases (contains_key t.0 o.name)) [
  | inl there ↦ rw there tidy
  | inr absent ↦ rw absent (insert-Tidy t.0 o b h tidy)
]
apply_change-Tidy t (updated x) b h tidy = elim (Option-cases (get t.0 x.name)) [
  | inl missing ↦ rw (missing, apply_change) (insert-Tidy t.0 x b h tidy)
  | inr (o, found) ↦ elim (Bool-cases (ltb o.version x.version)) [
    | inl newer ↦ rw (found, apply_change) (rw newer (insert-Tidy t.0 x b h tidy))
    | inr old ↦ rw (found, apply_change) (rw old tidy)
  ]
]
apply_change-Tidy t (deleted name v at) b h tidy = elim (Bool-cases (contains_key t.0 name)) [
  | inl there ↦ rw there (remove-Tidy t.0 name b tidy)
  | inr absent ↦ rw absent tidy
]

apply_all-Tidy :
    (t : Tally) (cs : List RibChange) (b : ℕ)
    → All (λ (c : RibChange). version c ≤ b) cs
    → Tidy t.0 b
    → Tidy (apply_all t cs).0 b
unfolding apply_all
apply_all-Tidy t [] b h tidy = tidy
apply_all-Tidy t (c ∷ cs) b h tidy =
    apply_all-Tidy (apply_change t c) cs b h.1 (apply_change-Tidy t c b h.0 tidy)

max_version_bounds :
    (m : ℕ) (objs : List RibObject)
    → (m ≤ max_version m objs) × All (λ (x : RibObject). x.version ≤ max_version m objs) objs
unfolding max_version
max_version_bounds m [] = (omega arith, tt)
max_version_bounds m (x ∷ xs) =
    let (up, rest) = max_version_bounds (higher m x.version) xs in
    (ground arith, (ground arith, rest))

max_change_bounds :
    (m : ℕ) (cs : List RibChange)
    → (m ≤ max_change m cs) × All (λ (c : RibChange). version c ≤ max_change m cs) cs
unfolding max_change
max_change_bounds m [] = (omega arith, tt)
max_change_bounds m (c ∷ cs) =
    let (up, rest) = max_change_bounds (higher m (version c)) cs in
    (ground arith, (ground arith, rest))

-- The version counter rises to the highest version that came in, and the log with it.
note_version-IsCoherent :
    (r : Rib) (os : Objects) (m now : ℕ)
    → IsCoherent r
    → r.version_counter + 1 < u64_mod
    → Tidy os (higher r.version_counter m)
    → IsCoherent (note_version (record r { objects = os }) m now)
      × ((note_version (record r { objects = os }) m now).version_counter
          ≡ higher r.version_counter m)
      × ((note_version (record r { objects = os }) m now).objects ≡ os)
unfolding note_version
note_version-IsCoherent r os m now v room tidy = elim (Bool-cases (ltb 0 m)) [
  | inl pos ↦
      let (within, current) =
        update_version_marker-Within r.change_log m now r.version_counter room v.within v.current
          (ltb→lt 0 m pos) in
      rw pos (
        record { within = within; current = current; named = tidy.0; distinct = tidy.1 },
        refl,
        refl,
      )
  | inr nothing ↦
      let same : higher r.version_counter m ≡ r.version_counter = ground arith in
      let tidy' : Tidy os r.version_counter = subst (Tidy os) same tidy in
      rw (nothing, same)
        (
          record { within = v.within; current = v.current; named = tidy'.0; distinct = tidy'.1 },
          refl,
          refl,
        )
]

-- Merging received objects keeps a RIB coherent, raises its version counter to their highest
-- version, and merges them into its objects, while the counter does not wrap.
pub merge_objects-IsCoherent :
    (r : Rib) (objs : List RibObject) (now : ℕ)
    → IsCoherent r
    → r.version_counter + 1 < u64_mod
    → IsCoherent (merge_objects r objs now).0
      × ((merge_objects r objs now).0.version_counter
          ≡ higher r.version_counter (max_version 0 objs))
      × ((merge_objects r objs now).0.objects ≡ (merge_all (r.objects, 0) objs).0)
unfolding merge_objects
merge_objects-IsCoherent r objs now v room =
    let m : ℕ = max_version 0 objs in
    let bound : ℕ = higher r.version_counter m in
    note_version-IsCoherent r (merge_all (r.objects, 0) objs).0 m now v room (
      merge_all-Tidy (r.objects, 0) objs bound
        (All-map _ _ objs (λ x h. ground arith) (max_version_bounds 0 objs).1)
        (Tidy-mono r.objects r.version_counter bound (ground arith) (v.named, v.distinct)))

-- Applying received changes keeps a RIB coherent, raises its version counter to their highest
-- version, and changes its objects as the changes say in turn, while the counter does not wrap.
pub apply_changes-IsCoherent :
    (r : Rib) (cs : List RibChange) (now : ℕ)
    → IsCoherent r
    → r.version_counter + 1 < u64_mod
    → IsCoherent (apply_changes r cs now).0
      × ((apply_changes r cs now).0.version_counter ≡ higher r.version_counter (max_change 0 cs))
      × ((apply_changes r cs now).0.objects ≡ (apply_all (r.objects, 0) cs).0)
unfolding apply_changes
apply_changes-IsCoherent r cs now v room =
    let m : ℕ = max_change 0 cs in
    let bound : ℕ = higher r.version_counter m in
    note_version-IsCoherent r (apply_all (r.objects, 0) cs).0 m now v room (
      apply_all-Tidy (r.objects, 0) cs bound
        (All-map _ _ cs (λ c h. ground arith) (max_change_bounds 0 cs).1)
        (Tidy-mono r.objects r.version_counter bound (ground arith) (v.named, v.distinct)))
