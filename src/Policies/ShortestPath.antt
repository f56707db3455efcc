-- ===== src/Policies/ShortestPath.antt =====
-- src/policies/routing.rs: `NetworkTopology` and `ShortestPathRouting`, Dijkstra's algorithm and the
-- routing table that the traces back along the previous nodes give. The two `while` loops run on
-- fuel; `none` and `unfinished` say that it ran out.
pub mod Walks
pub mod Steps
pub mod Rounds
pub mod Traces
pub mod Tables
pub mod Correct
use ari.Base.{
  ℕ, zero, suc, ◌+◌, ◌-◌, min, not, Option, none, some, List, [], ◌∷◌, ◌++◌, ltb, eqb,
  if◌then◌else◌, u32_mod, length, retain, nat_key, string_key, pair_key,
}
use ari.Map.{Map, get, insert, keys}

abbrev pub Links : Type 0
Links = List (ℕ × ℕ)

-- Of a node, the neighbours and the costs of the links to them.
pub record NetworkTopology : Type 0 where
  pub adjacency : Map ℕ Links

abbrev pub new_topology : NetworkTopology
new_topology = record { adjacency = [] }

-- `unwrap_or_default` and `or_default`.
abbrev pub or_empty : Option Links → Links
or_empty none = []
or_empty (some links) = links

unfoldable pub add_link : NetworkTopology → ℕ → ℕ → ℕ → NetworkTopology
add_link t from to cost = record {
  adjacency = insert t.adjacency from (or_empty (get t.adjacency from) ++ (to, cost) ∷ []);
}

unfoldable pub get_neighbors : NetworkTopology → ℕ → Links
get_neighbors t node = or_empty (get t.adjacency node)

-- `u32::MAX`, the distance of a node that has none.
abbrev pub unreached : ℕ
unreached = u32_mod - 1

abbrev pub saturating_add : ℕ → ℕ → ℕ
saturating_add a b = min (a + b) unreached

abbrev pub or_unreached : Option ℕ → ℕ
or_unreached none = unreached
or_unreached (some d) = d

pub record Search : Type 0 where
  pub distances : Map ℕ ℕ
  pub previous : Map ℕ ℕ

abbrev pub distance_of : Search → ℕ → ℕ
distance_of s node = or_unreached (get s.distances node)

-- `min_by_key` of a list that is not empty: the first of the nodes with the least distance.
unfoldable pub closest : Search → ℕ → List ℕ → ℕ
closest s x [] = x
closest s x (y ∷ ys) = closest s (if ltb (distance_of s y) (distance_of s x) then y else x) ys

-- One neighbour of the current node.
unfoldable pub relax : ℕ → ℕ → Search → ℕ × ℕ → Search
relax current current_distance s (neighbor, cost) =
    if ltb (saturating_add current_distance cost) (distance_of s neighbor)
    then record {
      distances = insert s.distances neighbor (saturating_add current_distance cost);
      previous = insert s.previous neighbor current;
    }
    else s

unfoldable pub relax_all : ℕ → ℕ → Search → Links → Search
relax_all current current_distance s [] = s
relax_all current current_distance s (link ∷ links) =
    relax_all current current_distance (relax current current_distance s link) links

abbrev pub without : ℕ → List ℕ → List ℕ
without current = retain λ x. not (eqb x current)

-- The `while` loop over the unvisited nodes.
unfoldable pub search : NetworkTopology → ℕ → List ℕ → Search → Option Search
unfolding closest
search t fuel [] s = some s
search t zero (x ∷ xs) s = none
search t (suc fuel) (x ∷ xs) s =
    let current = closest s x xs in
    let current_distance = distance_of s current in
    let rest =
      search t fuel (without current (x ∷ xs))
        (relax_all current current_distance s (get_neighbors t current)) in
    if eqb current_distance unreached then some s else rest

abbrev pub start : ℕ → Search
start source = record { distances = (source, 0) ∷ []; previous = [] }

-- How the trace from a destination back to the source ends.
pub data Trace : Type 0 where
  first_hop : ℕ → Trace
  no_hop unfinished : Trace

unfoldable pub trace : ℕ → Map ℕ ℕ → ℕ → ℕ → Trace
trace zero previous source node = unfinished
trace (suc fuel) previous source node = elim (get previous node) [
  | none ↦ no_hop
  | some prev ↦ if eqb prev source then first_hop node else trace fuel previous source prev
]

abbrev pub RoutingTable : Type 0
RoutingTable = Map (ℕ × ℕ) ℕ

-- What the trace of one destination adds.
abbrev pub recorded : RoutingTable → ℕ → ℕ → Trace → Option RoutingTable
recorded table source dest (first_hop node) = some (insert table (source, dest) node)
recorded table source dest no_hop = some table
recorded table source dest unfinished = none

module _ (fuel source : ℕ) (previous : Map ℕ ℕ) where
  unfoldable pub record_hop : ℕ → RoutingTable → Option RoutingTable
  record_hop dest table =
      if eqb dest source
      then some table
      else recorded table source dest (trace fuel previous source dest)

  -- The `for` loop over the destinations.
  unfoldable pub record_hops : List ℕ → RoutingTable → Option RoutingTable
  record_hops [] table = some table
  record_hops (dest ∷ rest) table = elim (record_hop dest table) [
    | none ↦ none
    | some after ↦ record_hops rest after
  ]

unfoldable pub compute_shortest_paths : NetworkTopology → ℕ → RoutingTable → Option RoutingTable
compute_shortest_paths t source table =
    let nodes = keys t.adjacency in
    elim (search t (length nodes) nodes (start source)) [
      | none ↦ none
      | some s ↦ record_hops (suc (length nodes)) source s.previous (keys s.distances) table
    ]

-- `update`, for the sources that are left.
unfoldable pub compute_all : NetworkTopology → List ℕ → RoutingTable → Option RoutingTable
compute_all t [] table = some table
compute_all t (source ∷ rest) table = elim (compute_shortest_paths t source table) [
  | none ↦ none
  | some after ↦ compute_all t rest after
]

pub record ShortestPathRouting : Type 0 where
  pub routing_table : RoutingTable

abbrev pub new_routing : ShortestPathRouting
new_routing = record { routing_table = [] }

abbrev pub with_table : Option RoutingTable → Option ShortestPathRouting
with_table none = none
with_table (some table) = some (record { routing_table = table })

unfoldable pub update : ShortestPathRouting → NetworkTopology → Option ShortestPathRouting
update p t = with_table (compute_all t (keys t.adjacency) [])

unfoldable pub compute_next_hop : ShortestPathRouting → ℕ → ℕ → Option ℕ
compute_next_hop p src dst = get p.routing_table (src, dst)
