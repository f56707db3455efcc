-- ===== src/Policies/ShortestPath/Traces.antt =====
-- The traces back from the destinations: each ends at the source, and the node that it gives is the
-- first one of a shortest walk.
use ari.Base.{
  ℕ, zero, suc, ◌+◌, ◌<◌, ◌≡◌, refl, ◌⊎◌, inl, inr, true, false, some, List, [], ◌∷◌, arith,
  Bool-cases, Option-cases, length, ◌==◌, nat_key, string_key, ==_iff, elem, pair_key,
}
use mathlib.Core.Path.{subst}
use ari.Map.{get}
use ari.Policies.ShortestPath.{
  NetworkTopology, Search, distance_of, unreached, Trace, first_hop, trace,
}
use ari.Policies.ShortestPath.Walks.{Link, Walk}
use ari.Policies.ShortestPath.Steps.{Steady, Ordered}

-- The trace from `n` gives the first node of a walk whose cost is the distance of `n`.
pub record IsTraced (t : NetworkTopology) (source : ℕ) (s : Search) (n : ℕ) (o : Trace)
    : Type 0 where
  pub hop : ℕ
  pub ends : o ≡ first_hop hop
  pub first_cost : ℕ
  pub first : Link t source hop first_cost
  pub rest_cost : ℕ
  pub rest : Walk t hop n rest_cost
  pub sum : distance_of s n ≡ first_cost + rest_cost

module _ (t : NetworkTopology) (source : ℕ) (V U : List ℕ) (near : ℕ) (s : Search)
    (i : Steady t source V U near s) where
  -- A node that has a distance and is not the source has a previous one.
  previous_of :
      (n : ℕ) → distance_of s n < unreached → (n ≡ source) ⊎ ((p : ℕ) × (get s.previous n ≡ some p))
  previous_of n near_enough = elim (Option-cases (get s.distances n)) [
    | inl missing ↦ absurd (ground arith)
    | inr (d, there) ↦ i.reached n d there
  ]

  -- One step back.
  trace_one :
      (fuel n p : ℕ)
      → get s.previous n ≡ some p
      → (p == source) ≡ true
      → IsTraced t source s n (trace (suc fuel) s.previous source n)
  unfolding trace
  trace_one fuel n p prev_of hit =
      let is : p ≡ source = (==_iff p source).0 hit in
      let (seen, (w, link, sum)) = i.linked n p prev_of in
      record {
        hop = n;
        ends = rw (prev_of, trace) (rw hit refl);
        first_cost = w;
        first = subst (λ (x : ℕ). Link t x n w) is link;
        rest_cost = 0;
        rest = Walk.here;
        sum = ground (arith, i.rooted);
      }

  further :
      (fuel n p : ℕ)
      → get s.previous n ≡ some p
      → (p == source) ≡ false
      → IsTraced t source s p (trace fuel s.previous source p)
      → IsTraced t source s n (trace (suc fuel) s.previous source n)
  unfolding trace
  further fuel n p prev_of miss h =
      let (seen, (w, link, sum)) = i.linked n p prev_of in
      record {
        hop = h.hop;
        ends = rw (prev_of, trace) (rw miss h.ends);
        first_cost = h.first_cost;
        first = h.first;
        rest_cost = h.rest_cost + w;
        rest = Walk.step h.rest link refl;
        sum = omega (arith, sum, h.sum);
      }

  -- With more fuel than there are visited nodes from the previous one on, the trace ends.
  trace_back :
      (fuel : ℕ) (vs : List ℕ) (n p : ℕ)
      → length vs < fuel
      → Ordered s.previous vs
      → distance_of s n < unreached
      → get s.previous n ≡ some p
      → elem p vs ≡ true
      → IsTraced t source s n (trace fuel s.previous source n)
  trace_back zero vs n p enough o reached prev_of seen = absurd (omega arith)
  trace_back (suc fuel) [] n p enough o reached prev_of seen = absurd (ground arith)
  trace_back (suc fuel) (v ∷ vs) n p enough o reached prev_of seen = elim (Bool-cases (v == p)) [
    | inr miss ↦ trace_back (suc fuel) vs n p (omega arith) o.1 reached prev_of (rw miss at seen)
    | inl hit ↦ elim (Bool-cases (p == source)) [
      | inl last ↦ trace_one fuel n p prev_of last
      | inr more ↦
          let (_, (w, link, sum)) = i.linked n p prev_of in
          elim (previous_of p (omega (arith, sum))) [
            | inl is ↦ absurd (ground (arith, ==_iff p source))
            | inr (q, before) ↦ further fuel n p prev_of more (
                trace_back fuel vs p q (omega arith) o.1 (omega (arith, sum)) before
                  (o.0 q (rw ((==_iff v p).0 hit) before)))
          ]
    ]
  ]

  -- The trace from a node that has a distance ends.
  pub trace_ends :
      (fuel n d : ℕ)
      → length V < fuel
      → get s.distances n ≡ some d
      → (n == source) ≡ false
      → IsTraced t source s n (trace fuel s.previous source n)
  trace_ends fuel n d enough there other = elim (i.reached n d there) [
    | inl is ↦ absurd (ground (arith, ==_iff n source))
    | inr (p, prev_of) ↦
        trace_back fuel V n p enough i.ordered (ground (arith, i.bounded n d)) prev_of
          (i.linked n p prev_of).0
  ]
