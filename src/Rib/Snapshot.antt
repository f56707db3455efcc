-- ===== src/Rib/Snapshot.antt =====
-- A snapshot that one RIB serializes and an empty one deserializes: the transfer at enrollment.
use mathlib.Core.Path.{subst}
use ari.Base.{
  ℕ, ◌≤◌, String, ◌≡◌, refl, sym, ap, ◌∙◌, ◌≢◌, true, some, List, [], ◌∷◌, arith, All, nat_key,
  string_key, ==_iff, ==_refl, Result, ok, is_ok,
}
use ari.Map.{get, values}
use ari.Map.Laws.{Distinct}
use ari.Rib.Value.{RibObject, RibError}
use ari.Rib.Store.{Rib, with_change_log_size}
use ari.Rib.Receive.{Objects, Codec, serialize, deserialize, max_version, higher, merge_objects}
use ari.Rib.History.{IsCoherent, Named, SameObjects}
use ari.Rib.Sync.{with_change_log_size-IsCoherent}
use ari.Rib.Merge.{Labelled, merge_all-values}
use ari.Rib.Intake.{merge_objects-IsCoherent}

-- What is documented of postcard: it decodes what it encodes, and a sequence begins with its
-- length, so that no encoding of one is empty.
pub record IsCodec (codec : Codec (List RibObject)) : Type 0 where
  pub round_trip :
      (objs : List RibObject) (bs : List ℕ)
      → codec.encode objs ≡ some bs
      → codec.decode bs ≡ some objs
  pub not_empty : (objs : List RibObject) → codec.encode objs ≢ some []

pub Named-Labelled : (os : Objects) (b : ℕ) → Named os b → Distinct os → Labelled os
unfolding get
Named-Labelled [] b n d = tt
Named-Labelled ((j, o) ∷ os) b n d = (
  (n j o (ground (arith, ==_refl j))).0,
  Named-Labelled os b (λ k x e. n k x (ground (arith, ==_iff j k, d.0))) d.1,
)

max_version-le :
    (m b : ℕ) (os : Objects)
    → m ≤ b
    → All (λ (e : String × RibObject). e.1.version ≤ b) os
    → max_version m (values os) ≤ b
unfolding max_version
max_version-le m b [] h a = h
max_version-le m b ((j, o) ∷ os) h a = max_version-le (higher m o.version) b os (ground arith) a.1

Named-bounded :
    (os : Objects) (b : ℕ)
    → Named os b
    → Distinct os
    → All (λ (e : String × RibObject). e.1.version ≤ b) os
unfolding get
Named-bounded [] b n d = tt
Named-bounded ((j, o) ∷ os) b n d = (
  (n j o (ground (arith, ==_refl j))).1,
  Named-bounded os b (λ k x e. n k x (ground (arith, ==_iff j k, d.0))) d.1,
)

pub deserialize-merge :
    (codec : Codec (List RibObject)) (r : Rib) (objs : List RibObject) (bs : List ℕ) (now : ℕ)
    → bs ≢ []
    → codec.decode bs ≡ some objs
    → deserialize codec r bs now ≡ ((merge_objects r objs now).0, ok (merge_objects r objs now).1)
unfolding deserialize
deserialize-merge codec r objs [] now ne e = absurd (ne refl)
deserialize-merge codec r objs (b ∷ bs) now ne e = rw (e, deserialize)

pub serialize_lem :
    (codec : Codec (List RibObject)) (r : Rib) (bs : List ℕ)
    → codec.encode (values r.objects) ≡ some bs
    → serialize codec r ≡ bs
unfolding serialize
serialize_lem codec r bs e = rw (e, serialize)

-- A new RIB that takes in what another has serialized.
abbrev pub restored : Codec (List RibObject) → Rib → ℕ → ℕ → Rib × Result RibError ℕ
restored codec r size now = deserialize codec (with_change_log_size size) (serialize codec r) now

merged-serialize :
    (r : Rib) (size now : ℕ)
    → IsCoherent r
    → let copy = (merge_objects (with_change_log_size size) (values r.objects) now).0 in
      SameObjects copy.objects r.objects
      × IsCoherent copy
      × (copy.version_counter ≤ r.version_counter)
merged-serialize r size now v =
    let fresh : Rib = with_change_log_size size in
    let (coherent, counter, objects) =
      merge_objects-IsCoherent fresh (values r.objects) now (with_change_log_size-IsCoherent size)
        (unfold with_change_log_size in omega arith) in
    let labelled : Labelled r.objects =
      Named-Labelled r.objects r.version_counter v.named v.distinct in
    let bounded : max_version 0 (values r.objects) ≤ r.version_counter =
      max_version-le 0 r.version_counter r.objects (omega arith)
        (Named-bounded r.objects r.version_counter v.named v.distinct) in
    (
      subst (λ (os : Objects). SameObjects os r.objects) (sym objects)
          (unfold with_change_log_size in merge_all-values r.objects labelled v.distinct),
      coherent,
      subst (λ (n : ℕ). n ≤ r.version_counter) (sym counter)
          (unfold with_change_log_size in ground arith),
    )

-- A new RIB that deserializes the snapshot of a coherent RIB succeeds, holds the same objects,
-- is coherent and counts versions no further, for an encoding that decodes what it encodes,
-- encodes no list as no bytes, and does not fail.
pub deserialize-serialize :
    (codec : Codec (List RibObject)) (r : Rib) (size now : ℕ) (bs : List ℕ)
    → IsCodec codec
    → IsCoherent r
    → codec.encode (values r.objects) ≡ some bs
    → (is_ok (restored codec r size now).1 ≡ true)
      × SameObjects (restored codec r size now).0.objects r.objects
      × IsCoherent (restored codec r size now).0
      × ((restored codec r size now).0.version_counter ≤ r.version_counter)
deserialize-serialize codec r size now bs laws v e =
    let (same, coherent, counter) = merged-serialize r size now v in
    rw
      (
        serialize_lem codec r bs e,
        deserialize-merge codec (with_change_log_size size) (values r.objects) bs now
            (λ none_left. laws.not_empty (values r.objects) (e ∙ ap some none_left))
            (laws.round_trip (values r.objects) bs e),
      )
      (refl, same, coherent, counter)
