-- ===== src/Policies/ShortestPath/Walks.antt =====
-- Walks along the links of a topology, with the sum of their costs.
use ari.Base.{
  ℕ, ◌+◌, ◌≡◌, refl, sym, ◌⊎◌, inl, inr, true, [], ◌∷◌, arith, Bool-cases, back, ◌==◌, nat_key,
  string_key, elem, pair_key,
}
use mathlib.Core.List.{Memᴰ}
use mathlib.Core.Path.{subst}
use mathlib.Core.List.Memᴰ
use ari.Map.{Map, get, keys}
use ari.Policies.ShortestPath.{NetworkTopology, get_neighbors, Links, or_empty}

-- There is a link from `u` to `v` of the cost `w`.
abbrev pub Link : NetworkTopology → ℕ → ℕ → ℕ → Type 0
Link t u v w = Memᴰ (v, w) (get_neighbors t u)

pub data Walk (t : NetworkTopology) (u : ℕ) : ℕ → ℕ → Type 0 where
  here : Walk t u u 0
  step : {v w c d e : ℕ} → Walk t u v c → Link t v w d → e ≡ c + d → Walk t u w e

-- Of a map to lists, only a key has an element.
elem-keys :
    (m : Map ℕ Links) (u : ℕ) (x : ℕ × ℕ) → Memᴰ x (or_empty (get m u)) → elem u (keys m) ≡ true
unfolding get
elem-keys [] u x there = absurd (Memᴰ.not-nil there)
elem-keys ((k, links) ∷ m) u x there = elim (Bool-cases (k == u)) [
  | inl hit ↦ rw hit refl
  | inr miss ↦ rw miss (elem-keys m u x (rw miss at there))
]

module _ (t : NetworkTopology) where
  -- A link before a walk.
  pub prepend : {u v w c d : ℕ} → Link t u v d → Walk t v w c → Walk t u w (d + c)
  prepend {d = d} first Walk.here = Walk.step Walk.here first (omega arith)
  prepend first (Walk.step rest last sum) = Walk.step (prepend first rest) last (omega (arith, sum))

  -- Only a node of the topology has links.
  pub Link-elem : (u v w : ℕ) → Link t u v w → elem u (keys t.adjacency) ≡ true
  unfolding get_neighbors
  Link-elem u v w link = elem-keys t.adjacency u (v, w) link

  -- A walk to another node begins at a node of the topology.
  pub Walk-elem : {u v c : ℕ} → Walk t u v c → (u ≡ v) ⊎ (elem u (keys t.adjacency) ≡ true)
  Walk-elem Walk.here = inl refl
  Walk-elem {u = u} (Walk.step {w = w} {d = d} before last sum) = elim (Walk-elem before) [
    | inl back ↦ inr (Link-elem u w d (subst (λ (x : ℕ). Link t x w d) (sym back) last))
    | inr key ↦ inr key
  ]
