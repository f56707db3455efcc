-- ===== src/Examples/Topology.antt =====
-- Runs of the routing policy.
use ari.Base.{ℕ, ◌≡◌, refl, ◌≢◌, none, some, [], ◌∷◌, arith, nat_key, string_key}
use mathlib.Core.List.Memᴰ
use ari.Map.{get, insert}
use ari.Policies.ShortestPath.{
  NetworkTopology, new_topology, add_link, get_neighbors, ShortestPathRouting, new_routing, update,
  compute_next_hop, compute_all, compute_shortest_paths, search, closest, relax, relax_all,
  record_hop, record_hops, trace,
}
use ari.Policies.ShortestPath.Walks.{Walk}
use ari.Policies.ShortestPath.Tables.{IsFirstHop}
use ari.Policies.ShortestPath.Correct.{
  update_terminates, compute_next_hop-update, compute_next_hop_complete,
}

-- A triangle whose direct link is the longer way.
abbrev triangle : NetworkTopology
triangle = add_link (add_link (add_link new_topology 1 2 1) 2 3 1) 1 3 10

abbrev routed : ShortestPathRouting
routed = record { routing_table = ((1, 2), 2) ∷ ((1, 3), 2) ∷ ((2, 3), 3) ∷ [] }

routed_lem : update new_routing triangle ≡ some routed
unfolding add_link update compute_all compute_shortest_paths search closest relax relax_all get
    insert get_neighbors record_hop record_hops trace
routed_lem = refl

update_terminates_example : update new_routing triangle ≢ none
update_terminates_example = update_terminates triangle new_routing

through_two : compute_next_hop routed 1 3 ≡ some 2
unfolding compute_next_hop get
through_two = refl

compute_next_hop-update_example : IsFirstHop triangle 1 3 2
compute_next_hop-update_example =
    compute_next_hop-update triangle new_routing routed routed_lem 1 3 2 through_two

direct : Walk triangle 1 3 10
unfolding add_link get_neighbors get insert
direct = Walk.step Walk.here (Memᴰ.tail (Memᴰ.head refl)) (omega arith)

compute_next_hop_complete_example :
    (hop : ℕ) × (compute_next_hop routed 1 3 ≡ some hop) × IsFirstHop triangle 1 3 hop
compute_next_hop_complete_example =
    compute_next_hop_complete triangle new_routing routed routed_lem 1 3 10 direct (omega arith)
      (λ e. absurd (omega (arith, e)))
