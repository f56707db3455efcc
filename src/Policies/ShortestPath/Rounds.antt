-- ===== src/Policies/ShortestPath/Rounds.antt =====
-- The rounds of the search: each visits the closest unvisited node, so there are at most as many as
-- nodes, and at the end no walk is shorter than the distance found.
use ari.Base.{
  ℕ, zero, suc, ◌+◌, ◌≤◌, ◌<◌, ◌≡◌, refl, sym, ◌⊎◌, inl, inr, true, false, not, some, List, [], ◌∷◌,
  arith, ltb, eqb, if◌then◌else◌, Bool-cases, length, length-retain-le, ◌==◌, nat_key, string_key,
  ==_iff, elem, pair_key,
}
use mathlib.Core.Path.{subst}
use ari.Map.{get, keys}
use ari.Policies.ShortestPath.{
  NetworkTopology, Search, get_neighbors, distance_of, unreached, relax_all, closest, without,
  search, start,
}
use ari.Policies.ShortestPath.Walks.{Link, Link-elem, Walk}
use ari.Policies.ShortestPath.Steps.{Steady, relax_all-Steady, distance_le}

-- `closest` gives one of the nodes, and none is nearer.
elem-closest : (s : Search) (x : ℕ) (xs : List ℕ) → elem (closest s x xs) (x ∷ xs) ≡ true
unfolding closest
elem-closest s x [] = ground (arith, ==_iff x x)
elem-closest s x (y ∷ ys) =
    ground (arith, elem-closest s (if ltb (distance_of s y) (distance_of s x) then y else x) ys)

closest_le_first :
    (s : Search) (x : ℕ) (xs : List ℕ) → distance_of s (closest s x xs) ≤ distance_of s x
unfolding closest
closest_le_first s x [] = omega arith
closest_le_first s x (y ∷ ys) =
    ground (arith, closest_le_first s (if ltb (distance_of s y) (distance_of s x) then y else x) ys)

closest_le :
    (s : Search) (x : ℕ) (xs : List ℕ) (n : ℕ)
    → elem n (x ∷ xs) ≡ true
    → distance_of s (closest s x xs) ≤ distance_of s n
unfolding closest
closest_le s x [] n there = ground (arith, ==_iff x n)
closest_le s x (y ∷ ys) n there =
    let next : ℕ = if ltb (distance_of s y) (distance_of s x) then y else x in
    ground (arith, ==_iff x n, ==_iff y n, closest_le s next ys n, closest_le_first s next ys)

elem-without :
    (c : ℕ) (xs : List ℕ) (n : ℕ) → elem n (without c xs) ≡ (if c == n then false else elem n xs)
elem-without c [] n = ground arith
elem-without c (x ∷ xs) n = ground (arith, elem-without c xs n, ==_iff x n, ==_iff c n)

length-without_le : (c : ℕ) (xs : List ℕ) → length (without c xs) ≤ length xs
length-without_le c xs = length-retain-le (λ x. not (eqb x c)) xs

length-without : (c : ℕ) (xs : List ℕ) → elem c xs ≡ true → length (without c xs) < length xs
length-without c [] there = ground arith
length-without c (x ∷ xs) there =
    ground (arith, length-without c xs, length-without_le c xs, ==_iff x c)

module _ (t : NetworkTopology) (source : ℕ) where
  -- Before a round.
  pub record Searching (V U : List ℕ) (near : ℕ) (s : Search) : Type 0 where
    pub steady : Steady t source V U near s
    pub relaxed :
        (u v w : ℕ) → elem u V ≡ true → Link t u v w → distance_of s v ≤ distance_of s u + w
    pub known : (u v w : ℕ) → Link t u v w → (elem u V ≡ true) ⊎ (elem u U ≡ true)
    pub counted : length V + length U ≤ length (keys t.adjacency)

  -- At the end.
  pub record Found (V : List ℕ) (s : Search) : Type 0 where
    pub left : List ℕ
    pub near : ℕ
    pub steady : Steady t source V left near s
    pub shortest : (u v w : ℕ) → Link t u v w → distance_of s v ≤ distance_of s u + w
    pub counted : length V ≤ length (keys t.adjacency)

  -- The closest node is visited.
  visit :
      (V : List ℕ) (near : ℕ) (s : Search) (x : ℕ) (xs : List ℕ)
      → Steady t source V (x ∷ xs) near s
      → let current = closest s x xs in
        Steady t source (current ∷ V) (without current (x ∷ xs)) (distance_of s current) s
  visit V near s x xs i =
      let current = closest s x xs in
      record {
        bounded = i.bounded;
        rooted = i.rooted;
        unlinked = i.unlinked;
        linked =
            λ n p e. let (seen, (w, link, sum)) = i.linked n p e in (ground arith, (w, link, sum));
        reached = i.reached;
        below = λ n seen.
            ground (arith, i.below n, i.above current (elem-closest s x xs), ==_iff current n);
        above = λ n there. closest_le s x xs n (ground (arith, elem-without current (x ∷ xs) n));
        ordered = (λ p e. (i.linked current p e).0, i.ordered);
      }

  round :
      (V : List ℕ) (near : ℕ) (s : Search) (x : ℕ) (xs : List ℕ)
      → Searching V (x ∷ xs) near s
      → let current = closest s x xs in
        Searching
          (current ∷ V)
          (without current (x ∷ xs))
          (distance_of s current)
          (relax_all current (distance_of s current) s (get_neighbors t current))
  round V near s x xs i =
      let current : ℕ = closest s x xs in
      let (steady, better, links) =
        relax_all-Steady t source (current ∷ V) (without current (x ∷ xs)) (distance_of s current)
          current s (get_neighbors t current) (ground (arith, ==_iff current current)) refl
          (λ v w link. link) (visit V near s x xs i.steady) in
      record {
        steady = steady;
        relaxed = λ u v w seen link. elim (Bool-cases (current == u)) [
          | inl hit ↦
              let is : current ≡ u = (==_iff current u).0 hit in
              let first = links v w (subst (λ (y : ℕ). Link t y v w) (sym is) link) in
              rw (sym is)
                (omega (arith, first, better.kept current (ground (arith, ==_iff current current))))
          | inr miss ↦
              omega
                (arith, i.relaxed u v w (ground arith) link, better.nearer v, better.kept u seen)
        ];
        known = λ u v w link. ground (arith, i.known u v w link, elem-without current (x ∷ xs) u);
        counted = omega (arith, i.counted, length-without current (x ∷ xs) (elem-closest s x xs));
      }

  -- Where the loop ends, the unvisited nodes have no distance.
  stop :
      (V U : List ℕ) (near : ℕ) (s : Search)
      → Searching V U near s
      → ((u : ℕ) → elem u U ≡ true → distance_of s u ≡ unreached)
      → Found V s
  stop V U near s i far = record {
    left = U;
    near = near;
    steady = i.steady;
    shortest = λ u v w link. elim (i.known u v w link) [
      | inl seen ↦ i.relaxed u v w seen link
      | inr there ↦ omega (arith, far u there, distance_le t source V U near 0 s i.steady v)
    ];
    counted = omega (arith, i.counted);
  }

  -- With as much fuel as there are unvisited nodes, the loop ends.
  pub search_ends :
      (fuel : ℕ) (V U : List ℕ) (near : ℕ) (s : Search)
      → length U ≤ fuel
      → Searching V U near s
      → (s' : Search) × (V' : List ℕ) × (search t fuel U s ≡ some s') × Found V' s'
  unfolding search
  search_ends fuel V [] near s enough i =
      (s, V, refl, stop V [] near s i (λ u there. absurd (ground arith)))
  search_ends zero V (x ∷ xs) near s enough i = absurd (omega arith)
  search_ends (suc fuel) V (x ∷ xs) near s enough i =
      let current : ℕ = closest s x xs in
      let i' = round V near s x xs i in
      elim (Bool-cases (eqb (distance_of s current) unreached)) [
        | inl far ↦ (
          s,
          V,
          rw far refl,
          stop V (x ∷ xs) near s i (λ u there. ground (
            arith,
            closest_le s x xs u there,
            distance_le t source V (x ∷ xs) near 0 s i.steady u,
          )),
        )
        | inr reached ↦
            let (s', V', ends, found) =
              search_ends fuel (current ∷ V) (without current (x ∷ xs)) (distance_of s current)
                (relax_all current (distance_of s current) s (get_neighbors t current))
                (omega (arith, length-without current (x ∷ xs) (elem-closest s x xs))) i' in
            (s', V', rw (reached, search) ends, found)
      ]

  pub start-Searching : Searching [] (keys t.adjacency) 0 (start source)
  unfolding get
  start-Searching = record {
    steady = record {
      bounded = λ n d e. ground (arith, ==_iff source n);
      rooted = ground (arith, ==_iff source source);
      unlinked = refl;
      linked = λ n p e. absurd (ground arith);
      reached = λ n d e. inl (ground (arith, ==_iff source n));
      below = λ n seen. absurd (ground arith);
      above = λ n there. omega arith;
      ordered = tt;
    };
    relaxed = λ u v w seen link. absurd (ground arith);
    known = λ u v w link. inr (Link-elem t u v w link);
    counted = omega arith;
  }

  -- No walk is shorter than the distance found.
  pub distance_le-Walk :
      (V : List ℕ) (s : Search) → Found V s → {v c : ℕ} → Walk t source v c → distance_of s v ≤ c
  distance_le-Walk V s found Walk.here = ground (arith, found.steady.rooted)
  distance_le-Walk V s found (Walk.step {v = v} {w = w} {d = d} before last sum) =
      omega (arith, distance_le-Walk V s found before, found.shortest v w d last)
