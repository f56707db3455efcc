-- ===== src/Rib/Merge.antt =====
-- Merging the objects of another RIB: for each name the newest object wins.
use mathlib.Core.Path.{subst}
use ari.Base.{
  ℕ, ◌≤◌, String, ◌≡◌, refl, sym, ap, ◌∙◌, ◌⊎◌, inl, inr, true, Option, none, some, List, [], ◌∷◌,
  arith, ltb, if◌then◌else◌, Bool-cases, All, All-map, ◌==◌, nat_key, string_key, ==_iff, ==_refl,
}
use ari.Map.{get, values}
use ari.Map.Laws.{get-insert, Distinct}
use ari.Rib.Value.{RibObject}
use ari.Rib.Receive.{Objects, Tally, merge_object, merge_all}
use ari.Rib.History.{SameObjects}

-- What stands under one name after an object with that name comes in.
abbrev pub newest : Option RibObject → RibObject → Option RibObject
newest none obj = some obj
newest (some existing) obj = if ltb existing.version obj.version then some obj else some existing

-- The objects of one name, in their order, merged into what stands under it.
unfoldable pub newest_of : String → Option RibObject → List RibObject → Option RibObject
newest_of k cur [] = cur
newest_of k cur (obj ∷ objs) = newest_of k (if obj.name == k then newest cur obj else cur) objs

get-merge_object :
    (t : Tally) (obj : RibObject) (k : String)
    → get (merge_object t obj).0 k ≡ (if obj.name == k then newest (get t.0 k) obj else get t.0 k)
unfolding merge_object
get-merge_object t obj k = elim (Bool-cases (obj.name == k)) [
  | inl hit ↦
      let same : obj.name ≡ k = (==_iff obj.name k).0 hit in
      ground (arith, same, ==_refl k, get-insert t.0 k k obj)
  | inr miss ↦ ground (arith, get-insert t.0 obj.name k obj)
]

-- What a merge leaves under a name is decided by the object that was there and the incoming
-- objects of that name alone: each in turn goes where there is none, or replaces one of a
-- smaller version.
pub get-merge_all :
    (t : Tally) (objs : List RibObject) (k : String)
    → get (merge_all t objs).0 k ≡ newest_of k (get t.0 k) objs
unfolding merge_all newest_of
get-merge_all t [] k = refl
get-merge_all t (obj ∷ objs) k =
    get-merge_all (merge_object t obj) objs k
    ∙ ap (λ (o : Option RibObject). newest_of k o objs) (get-merge_object t obj k)

-- An object is at least as new as a version: `none` is not.
abbrev pub IsAtLeast : ℕ → Option RibObject → Type 0
IsAtLeast v none = ⊥
IsAtLeast v (some o) = v ≤ o.version

-- The local object or one of the incoming ones.
abbrev pub IsOneOf : Option RibObject → List RibObject → Option RibObject → Type 0
IsOneOf cur [] o = o ≡ cur
IsOneOf cur (x ∷ xs) o = (o ≡ some x) ⊎ IsOneOf cur xs o

newest_of_keeps :
    (k : String) (v : ℕ) (cur : Option RibObject) (objs : List RibObject)
    → IsAtLeast v cur
    → IsAtLeast v (newest_of k cur objs)
unfolding newest_of
newest_of_keeps k v none objs h = absurd h
newest_of_keeps k v (some o) [] h = h
newest_of_keeps k v (some o) (x ∷ xs) h =
    newest_of_keeps k v (if x.name == k then newest (some o) x else some o) xs (ground arith)

newest_of_reaches :
    (cur : String → Option RibObject) (objs : List RibObject)
    → All (λ (x : RibObject). IsAtLeast x.version (newest_of x.name (cur x.name) objs)) objs
unfolding newest_of
newest_of_reaches cur [] = tt
newest_of_reaches cur (x ∷ xs) = (
  newest_of_keeps x.name x.version (if x.name == x.name then newest (cur x.name) x else cur x.name)
      xs (ground (arith, ==_refl x.name)),
  newest_of_reaches (λ k. if x.name == k then newest (cur k) x else cur k) xs,
)

merge_object_old :
    (t : Tally) (x : RibObject) → IsAtLeast x.version (get t.0 x.name) → merge_object t x ≡ t
unfolding merge_object
merge_object_old t x h = ground arith

merge_all_old :
    (t : Tally) (objs : List RibObject)
    → All (λ (x : RibObject). IsAtLeast x.version (get t.0 x.name)) objs
    → merge_all t objs ≡ t
unfolding merge_all
merge_all_old t [] h = refl
merge_all_old t (x ∷ xs) h =
    ap (λ (s : Tally). merge_all s xs) (merge_object_old t x h.0) ∙ merge_all_old t xs h.1

-- Merging the same objects a second time changes no object and counts none as merged.
merge_all_idem :
    (os : Objects) (n m : ℕ) (objs : List RibObject)
    → merge_all ((merge_all (os, n) objs).0, m) objs ≡ ((merge_all (os, n) objs).0, m)
merge_all_idem os n m objs =
    merge_all_old ((merge_all (os, n) objs).0, m) objs
      (reaches objs (newest_of_reaches (get os) objs))
  where
    reaches :
        (xs : List RibObject)
        → All (λ (x : RibObject). IsAtLeast x.version (newest_of x.name (get os x.name) objs)) xs
        → All (λ (x : RibObject). IsAtLeast x.version (get (merge_all (os, n) objs).0 x.name)) xs
    reaches xs =
        All-map _ _ xs
          (λ x h. subst (IsAtLeast x.version) (sym (get-merge_all (os, n) objs x.name)) h)

-- Each object stands under its name.
abbrev pub Labelled : Objects → Type 0
Labelled os = All (λ (e : String × RibObject). e.1.name ≡ e.0) os

newest_of_absent :
    (k : String) (cur : Option RibObject) (os : Objects)
    → Labelled os
    → get os k ≡ none
    → newest_of k cur (values os) ≡ cur
unfolding newest_of get
newest_of_absent k cur [] n h = refl
newest_of_absent k cur ((j, o) ∷ os) n h = ground (arith, n.0, newest_of_absent k cur os n.1)

newest_of-values :
    (k : String) (os : Objects)
    → Labelled os
    → Distinct os
    → newest_of k none (values os) ≡ get os k
unfolding newest_of get
newest_of-values k [] n d = refl
newest_of-values k ((j, o) ∷ os) n d = elim (Bool-cases (j == k)) [
  | inl hit ↦
      let same : j ≡ k = (==_iff j k).0 hit in
      ground (arith, n.0, same, newest_of_absent k (some o) os n.1, d.0)
  | inr miss ↦ ground (arith, n.0, newest_of-values k os n.1 d.1)
]

-- What a merge makes of the object under a name and the one that comes for it, if there is one.
abbrev pub merged : Option RibObject → Option RibObject → Option RibObject
merged cur none = cur
merged cur (some o) = newest cur o

newest_of-merged :
    (k : String) (cur : Option RibObject) (os : Objects)
    → Labelled os
    → Distinct os
    → newest_of k cur (values os) ≡ merged cur (get os k)
unfolding newest_of get
newest_of-merged k cur [] n d = refl
newest_of-merged k cur ((j, o) ∷ os) n d = elim (Bool-cases (j == k)) [
  | inl hit ↦
      let same : j ≡ k = (==_iff j k).0 hit in
      let rest : newest_of k (newest cur o) (values os) ≡ newest cur o =
        newest_of_absent k (newest cur o) os n.1 (rw (sym same) d.0) in
      let named : (o.name == k) ≡ true = rw (n.0) hit in rw (hit, get) (rw (named, newest_of) rest)
  | inr miss ↦ ground (arith, n.0, newest_of-merged k cur os n.1 d.1)
]

-- Merging all objects of another RIB, name by name.
pub get-merge_all-values :
    (t : Tally) (os : Objects) (k : String)
    → Labelled os
    → Distinct os
    → get (merge_all t (values os)).0 k ≡ merged (get t.0 k) (get os k)
get-merge_all-values t os k n d =
    get-merge_all t (values os) k ∙ newest_of-merged k (get t.0 k) os n d

-- Merging all objects of a RIB into nothing gives those objects.
pub merge_all-values :
    (os : Objects) → Labelled os → Distinct os → SameObjects (merge_all ([], 0) (values os)).0 os
unfolding get
merge_all-values os n d k = get-merge_all ([], 0) (values os) k ∙ newest_of-values k os n d
