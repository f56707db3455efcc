-- ===== src/Policies/ShortestPath/Correct.antt =====
-- What the routing policy promises: `update` ends, and what `compute_next_hop` then answers.
use ari.Base.{
  ℕ, ◌<◌, ◌≡◌, sym, ap, ◌∙◌, ◌≢◌, inl, inr, true, none, some, arith, Option-cases, is_some, nat_key,
  string_key, pair_key,
}
use mathlib.Core.Option.{some-injective}
use mathlib.Core.Path.{subst}
use ari.Policies.ShortestPath.{
  NetworkTopology, ShortestPathRouting, update, compute_next_hop, unreached,
}
use ari.Policies.ShortestPath.Walks.{Walk}
use ari.Policies.ShortestPath.Tables.{IsFirstHop, update_lem}

module _ (t : NetworkTopology) (p : ShortestPathRouting) where
  -- Updating the routing policy from any topology ends: neither the search over the unvisited
  -- nodes nor the trace back along the previous nodes runs on for ever.
  pub update_terminates : update p t ≢ none
  update_terminates ran_out = let (p', ends, _, _) = update_lem t p in ground (arith, ends)

  module _ (p' : ShortestPathRouting) (ends : update p t ≡ some p') where
    -- A next hop that the updated policy answers is the first node of a walk from the source to
    -- the destination, and no walk between them costs less.
    pub compute_next_hop-update :
        (src dst hop : ℕ) → compute_next_hop p' src dst ≡ some hop → IsFirstHop t src dst hop
    compute_next_hop-update src dst hop e =
        let (q, ends', sound, _) = update_lem t p in
        let same : q ≡ p' = some-injective _ _ (sym ends' ∙ ends) in
        sound src dst hop (ap (λ (r : ShortestPathRouting). compute_next_hop r src dst) same ∙ e)

    -- If a walk leads from a source to another node at a cost below the greatest 32-bit number,
    -- the updated policy answers a next hop for them, and that is the first node of a walk of
    -- least cost.
    pub compute_next_hop_complete :
        (src dst cost : ℕ)
        → Walk t src dst cost
        → cost < unreached
        → src ≢ dst
        → (hop : ℕ) × (compute_next_hop p' src dst ≡ some hop) × IsFirstHop t src dst hop
    compute_next_hop_complete src dst cost walk small apart =
        let (q, ends', _, complete) = update_lem t p in
        let same : q ≡ p' = some-injective _ _ (sym ends' ∙ ends) in
        let there =
          subst (λ (r : ShortestPathRouting). is_some (compute_next_hop r src dst) ≡ true) same
            (complete src dst cost walk small apart) in
        elim (Option-cases (compute_next_hop p' src dst)) [
          | inl missing ↦ absurd (ground (arith, missing, there))
          | inr (hop, found) ↦ (hop, found, compute_next_hop-update src dst hop found)
        ]
