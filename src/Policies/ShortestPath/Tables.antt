-- ===== src/Policies/ShortestPath/Tables.antt =====
-- The routing table: its entries are the first hops of shortest walks, and every reachable node has
-- one.
use ari.Base.{
  ℕ, suc, ◌+◌, ◌≤◌, ◌<◌, ◌≡◌, refl, sym, ap, ◌≢◌, inl, inr, true, false, some, List, [], ◌∷◌, arith,
  Bool-cases, Option-cases, is_some, length, ◌==◌, nat_key, string_key, ==_iff, elem, pair_key,
}
use mathlib.Core.Option.{some-injective}
use mathlib.Core.Path.{subst}
use ari.Map.{keys, get, insert}
use ari.Map.Laws.{elem-keys, get-insert}
use ari.Policies.ShortestPath.{
  NetworkTopology, Search, unreached, Trace, RoutingTable, record_hop, record_hops,
  compute_shortest_paths, compute_all, update, compute_next_hop, ShortestPathRouting, with_table,
  start,
}
use ari.Policies.ShortestPath.Walks.{Link, Walk, Walk-elem}
use ari.Policies.ShortestPath.Rounds.{Found, search_ends, start-Searching, distance_le-Walk}
use ari.Policies.ShortestPath.Traces.{IsTraced, trace_ends}

-- `hop` is the first node of a walk from `source` to `dest`, and no walk costs less.
pub record IsFirstHop (t : NetworkTopology) (source dest hop : ℕ) : Type 0 where
  pub first_cost : ℕ
  pub first : Link t source hop first_cost
  pub rest_cost : ℕ
  pub rest : Walk t hop dest rest_cost
  pub shortest : (c : ℕ) → Walk t source dest c → first_cost + rest_cost ≤ c

module _ (t : NetworkTopology) where
  abbrev pub Sound : RoutingTable → Type 0
  Sound table = (a b hop : ℕ) → get table (a, b) ≡ some hop → IsFirstHop t a b hop

  -- Nothing is lost.
  abbrev pub Grows : RoutingTable → RoutingTable → Type 0
  Grows before after =
      (a b : ℕ) → is_some (get before (a, b)) ≡ true → is_some (get after (a, b)) ≡ true

  insert-Sound :
      (table : RoutingTable) (a b hop : ℕ)
      → Sound table
      → IsFirstHop t a b hop
      → Sound (insert table (a, b) hop)
  insert-Sound table a b hop sound new c d hop' e =
      let at : ℕ × ℕ = (a, b) in
      let asked : ℕ × ℕ = (c, d) in
      elim (Bool-cases (at == asked)) [
        | inl hit ↦
            let same = (==_iff at asked).0 hit in
            let is : some hop ≡ some hop' = ground (arith, get-insert table at asked hop) in
            subst (λ (x : ℕ). IsFirstHop t c d x) (some-injective _ _ is)
              (subst (λ (x : ℕ × ℕ). IsFirstHop t x.0 x.1 hop) same new)
        | inr miss ↦ sound c d hop' (ground (arith, get-insert table at asked hop))
      ]

  module _ (source : ℕ) (V : List ℕ) (s : Search) (found : Found t source V s) (fuel : ℕ)
      (enough : length V < fuel) where
    traced-IsFirstHop :
        (n : ℕ) (o : Trace) (h : IsTraced t source s n o) → IsFirstHop t source n h.hop
    traced-IsFirstHop n o h = record {
      first_cost = h.first_cost;
      first = h.first;
      rest_cost = h.rest_cost;
      rest = h.rest;
      shortest = λ c walk. omega (arith, h.sum, distance_le-Walk t source V s found walk);
    }

    record_hop_ends :
        (dest d : ℕ) (table : RoutingTable)
        → get s.distances dest ≡ some d
        → Sound table
        → (after : RoutingTable) × (record_hop fuel source s.previous dest table ≡ some after)
          × Sound after
          × Grows table after
          × ((dest == source) ≡ false → is_some (get after (source, dest)) ≡ true)
    unfolding record_hop
    record_hop_ends dest d table there sound = elim (Bool-cases (dest == source)) [
      | inl self ↦ (table, rw self refl, sound, λ a b h. h, λ other. absurd (ground arith))
      | inr other ↦
          let o =
            trace_ends t source V found.left found.near s found.steady fuel dest d enough there
              other in
          let at : ℕ × ℕ = (source, dest) in
          (
            insert table (source, dest) o.hop,
            rw other (rw o.ends refl),
            insert-Sound table source dest o.hop sound (traced-IsFirstHop dest _ o),
            λ a b h. let asked : ℕ × ℕ = (a, b) in ground (arith, get-insert table at asked o.hop),
            λ h. ground (arith, get-insert table at at o.hop, ==_iff at at),
          )
    ]

    -- The loop over destinations that have a distance.
    record_hops_end :
        (dests : List ℕ) (table : RoutingTable)
        → ((n : ℕ) → elem n dests ≡ true → is_some (get s.distances n) ≡ true)
        → Sound table
        → (after : RoutingTable) × (record_hops fuel source s.previous dests table ≡ some after)
          × Sound after
          × Grows table after
          × ((n : ℕ)
              → elem n dests ≡ true
              → (n == source) ≡ false
              → is_some (get after (source, n)) ≡ true)
    unfolding record_hops
    record_hops_end [] table there sound =
        (table, refl, sound, λ a b h. h, λ n none_left. absurd (ground arith))
    record_hops_end (dest ∷ rest) table there sound = elim (Option-cases (get s.distances dest)) [
      | inl missing ↦ absurd (ground (arith, there dest, ==_iff dest dest))
      | inr (d, at) ↦
          let (next, one, sound', grows, new) = record_hop_ends dest d table at sound in
          let (after, all, sound'', grows', news) =
            record_hops_end rest next (λ n h. there n (ground arith)) sound' in
          (
            after,
            rw (one, record_hops) all,
            sound'',
            λ a b h. grows' a b (grows a b h),
            λ n listed other. elim (Bool-cases (dest == n)) [
              | inl hit ↦
                  let is : dest ≡ n = (==_iff dest n).0 hit in
                  rw (sym is) (grows' source dest (new (rw is other)))
              | inr miss ↦ news n (rw miss at listed) other
            ],
          )
    ]

  -- What a source adds to the table.
  compute_ends :
      (source : ℕ) (table : RoutingTable)
      → Sound table
      → (after : RoutingTable) × (compute_shortest_paths t source table ≡ some after)
        × Sound after
        × Grows table after
        × ((n c : ℕ)
            → Walk t source n c
            → c < unreached
            → (n == source) ≡ false
            → is_some (get after (source, n)) ≡ true)
  unfolding compute_shortest_paths
  compute_ends source table sound =
      let nodes : List ℕ = keys t.adjacency in
      let (s, V, ends, found) =
        search_ends t source (length nodes) [] nodes 0 (start source) (omega arith)
          (start-Searching t source) in
      let (after, all, sound', grows, news) =
        record_hops_end source V s found (suc (length nodes)) (omega (arith, found.counted))
          (keys s.distances) table (λ n h. ground (arith, elem-keys s.distances n)) sound in
      (
        after,
        rw (ends, compute_shortest_paths) all,
        sound',
        grows,
        λ n c walk small other.
            news n
              (ground (arith, elem-keys s.distances n, distance_le-Walk t source V s found walk))
              other,
      )

  compute_all_ends :
      (sources : List ℕ) (table : RoutingTable)
      → Sound table
      → (after : RoutingTable) × (compute_all t sources table ≡ some after)
        × Sound after
        × Grows table after
        × ((a n c : ℕ)
            → elem a sources ≡ true
            → Walk t a n c
            → c < unreached
            → (n == a) ≡ false
            → is_some (get after (a, n)) ≡ true)
  unfolding compute_all
  compute_all_ends [] table sound =
      (table, refl, sound, λ a b h. h, λ a n c listed. absurd (ground arith))
  compute_all_ends (source ∷ rest) table sound =
      let (next, one, sound', grows, new) = compute_ends source table sound in
      let (after, all, sound'', grows', news) = compute_all_ends rest next sound' in
      (
        after,
        rw (one, compute_all) all,
        sound'',
        λ a b h. grows' a b (grows a b h),
        λ a n c listed walk small other. elim (Bool-cases (source == a)) [
          | inl hit ↦
              let is : source ≡ a = (==_iff source a).0 hit in
              rw (sym is) (
                grows' source n
                  (new n c (subst (λ (x : ℕ). Walk t x n c) (sym is) walk) small (rw is other)))
          | inr miss ↦ news a n c (rw miss at listed) walk small other
        ],
      )

  pub update_lem :
      (p : ShortestPathRouting)
      → (p' : ShortestPathRouting) × (update p t ≡ some p')
        × ((a b hop : ℕ) → compute_next_hop p' a b ≡ some hop → IsFirstHop t a b hop)
        × ((a b c : ℕ)
            → Walk t a b c
            → c < unreached
            → a ≢ b
            → is_some (compute_next_hop p' a b) ≡ true)
  unfolding update compute_next_hop get
  update_lem p =
      let (table, ends, sound, grows, news) =
        compute_all_ends (keys t.adjacency) [] (λ a b hop e. absurd (ground arith)) in
      (
        record { routing_table = table },
        ap with_table ends,
        sound,
        λ a b c walk small apart. elim (Walk-elem t walk) [
          | inl same ↦ absurd (apart same)
          | inr key ↦ news a b c key walk small (ground arith)
        ],
      )
