-- ===== src/Policies/ShortestPath/Steps.antt =====
-- The invariant of the search, and that relaxing the links of the current node keeps it.
use ari.Base.{
  ℕ, ◌+◌, ◌≤◌, ◌<◌, ◌≡◌, refl, ap, ◌∙◌, ◌⊎◌, inl, inr, true, false, none, some, List, [], ◌∷◌,
  arith, ltb, if◌then◌else◌, ltb→lt, Bool-cases, Option-cases, ◌==◌, nat_key, string_key, ==_iff,
  elem, pair_key,
}
use mathlib.Core.Path.{subst}
use mathlib.Core.List.{Memᴰ}
use mathlib.Core.List.Memᴰ
use ari.Map.{Map, get, insert}
use ari.Map.Laws.{get-insert}
use ari.Policies.ShortestPath.{
  NetworkTopology, Search, Links, distance_of, unreached, relax, relax_all, saturating_add,
}
use ari.Policies.ShortestPath.Walks.{Link}

-- The previous node of a visited one was visited before it; the last one visited stands first.
abbrev pub Ordered : Map ℕ ℕ → List ℕ → Type 0
Ordered previous [] = Unit
Ordered previous (v ∷ vs) =
    ((p : ℕ) → get previous v ≡ some p → elem p vs ≡ true) × Ordered previous vs

-- What a link to `n` that costs `d` from the source on leaves.
abbrev pub settled : Search → ℕ → ℕ → ℕ → Search
settled s current n d = record {
  distances = insert s.distances n d;
  previous = insert s.previous n current;
}

-- No distance grows, and those of the visited nodes stay.
pub record Improves (V : List ℕ) (s s' : Search) : Type 0 where
  pub nearer : (n : ℕ) → distance_of s' n ≤ distance_of s n
  pub kept : (n : ℕ) → elem n V ≡ true → distance_of s' n ≡ distance_of s n

module _ (t : NetworkTopology) (source : ℕ) where
  -- Of the visited nodes `V`, the last of which is `near` away, and the unvisited ones `U`.
  pub record Steady (V U : List ℕ) (near : ℕ) (s : Search) : Type 0 where
    pub bounded : (n d : ℕ) → get s.distances n ≡ some d → d < unreached
    pub rooted : get s.distances source ≡ some 0
    pub unlinked : get s.previous source ≡ none
    pub linked :
        (n p : ℕ)
        → get s.previous n ≡ some p
        → (elem p V ≡ true) × ((w : ℕ) × Link t p n w × (distance_of s n ≡ distance_of s p + w))
    pub reached :
        (n d : ℕ)
        → get s.distances n ≡ some d
        → (n ≡ source) ⊎ ((p : ℕ) × (get s.previous n ≡ some p))
    pub below : (n : ℕ) → elem n V ≡ true → distance_of s n ≤ near
    pub above : (n : ℕ) → elem n U ≡ true → near ≤ distance_of s n
    pub ordered : Ordered s.previous V

relax-cases :
    (current near : ℕ) (s : Search) (n w : ℕ)
    → (relax current near s (n, w) ≡ s) × (distance_of s n ≤ saturating_add near w)
      ⊎ (relax current near s (n, w) ≡ settled s current n (saturating_add near w))
        × (saturating_add near w < distance_of s n)
unfolding relax
relax-cases current near s n w = elim (Bool-cases (ltb (saturating_add near w) (distance_of s n))) [
  | inl less ↦ inr (rw less refl, ltb→lt _ _ less)
  | inr more ↦ inl (rw more refl, ground arith)
]

distance_of-settled :
    (s : Search) (current n d k : ℕ)
    → distance_of (settled s current n d) k ≡ (if n == k then d else distance_of s k)
distance_of-settled s current n d k = ground (arith, get-insert s.distances n k d)

Ordered-settled :
    (previous : Map ℕ ℕ) (current n : ℕ) (V : List ℕ)
    → elem n V ≡ false
    → Ordered previous V
    → Ordered (insert previous n current) V
Ordered-settled previous current n [] out o = tt
Ordered-settled previous current n (v ∷ vs) out o = elim (Bool-cases (v == n)) [
  | inl hit ↦ absurd (ground arith)
  | inr miss ↦ (
    λ p e. o.0 p (ground (arith, get-insert previous n v current, ==_iff n v, ==_iff v n)),
    Ordered-settled previous current n vs (ground arith) o.1,
  )
]

module _ (t : NetworkTopology) (source : ℕ) (V U : List ℕ) (near current : ℕ) where
  pub distance_le :
      (s : Search) → Steady t source V U near s → (n : ℕ) → distance_of s n ≤ unreached
  distance_le s i n = elim (Option-cases (get s.distances n)) [
    | inl missing ↦ rw missing (omega arith)
    | inr (d, found) ↦ rw found (omega (arith, i.bounded n d found))
  ]

  module _ (s : Search) (n w : ℕ) (visited : elem current V ≡ true)
      (here : distance_of s current ≡ near) (link : Link t current n w)
      (less : near + w < distance_of s n) (i : Steady t source V U near s) where
    abbrev after : Search
    after = settled s current n (near + w)

    not_visited : elem n V ≡ false
    not_visited = ground (arith, i.below n)

    not_source : (n == source) ≡ false
    not_source = ground (arith, ==_iff n source, i.rooted)

    unmoved : (k : ℕ) → elem k V ≡ true → distance_of after k ≡ distance_of s k
    unmoved k seen =
        ground (arith, distance_of-settled s current n (near + w) k, i.below k seen, ==_iff n k)

    settled-linked :
        (k p : ℕ)
        → get after.previous k ≡ some p
        → (elem p V ≡ true)
          × ((w' : ℕ) × Link t p k w' × (distance_of after k ≡ distance_of after p + w'))
    settled-linked k p e = elim (Bool-cases (n == k)) [
      | inl hit ↦
          let n_k = (==_iff n k).0 hit in
          let c_p : current ≡ p = ground (arith, get-insert s.previous n k current) in
          subst
            (λ (x : ℕ).
              (elem x V ≡ true)
              × ((w' : ℕ) × Link t x k w' × (distance_of after k ≡ distance_of after x + w')))
            c_p
            (
              visited,
              (
                w,
                subst (λ (x : ℕ). Link t current x w) n_k link,
                ground
                    (arith, distance_of-settled s current n (near + w) k, unmoved current visited),
              ),
            )
      | inr miss ↦
          let old : get s.previous k ≡ some p = ground (arith, get-insert s.previous n k current) in
          let (seen, (w', l, sum)) = i.linked k p old in
          (
            seen,
            (w', l, ground (arith, distance_of-settled s current n (near + w) k, unmoved p seen)),
          )
    ]

    settled-reached :
        (k d : ℕ)
        → get after.distances k ≡ some d
        → (k ≡ source) ⊎ ((p : ℕ) × (get after.previous k ≡ some p))
    settled-reached k d e = elim (Bool-cases (n == k)) [
      | inl hit ↦ inr (current, ground (arith, get-insert s.previous n k current))
      | inr miss ↦ elim (i.reached k d (ground (arith, get-insert s.distances n k (near + w)))) [
        | inl root ↦ inl root
        | inr (p, old) ↦ inr (p, ground (arith, get-insert s.previous n k current))
      ]
    ]

    settled-Steady : Steady t source V U near after
    settled-Steady = record {
      bounded = λ k d e.
          ground (arith, get-insert s.distances n k (near + w), i.bounded k d, distance_le s i n);
      rooted = ground (arith, get-insert s.distances n source (near + w), not_source, i.rooted);
      unlinked = ground (arith, get-insert s.previous n source current, not_source, i.unlinked);
      linked = settled-linked;
      reached = settled-reached;
      below = λ k seen. omega (arith, unmoved k seen, i.below k seen);
      above =
          λ k left. ground (arith, distance_of-settled s current n (near + w) k, i.above k left);
      ordered = Ordered-settled s.previous current n V not_visited i.ordered;
    }

    settled-Improves : Improves V s after
    settled-Improves = record {
      nearer = λ k. ground (arith, distance_of-settled s current n (near + w) k, ==_iff n k);
      kept = unmoved;
    }

  -- One link of the current node.
  relax-Steady :
      (s : Search) (n w : ℕ)
      → elem current V ≡ true
      → distance_of s current ≡ near
      → Link t current n w
      → Steady t source V U near s
      → Steady t source V U near (relax current near s (n, w))
        × Improves V s (relax current near s (n, w))
        × (distance_of (relax current near s (n, w)) n ≤ near + w)
  relax-Steady s n w visited here link i = elim (relax-cases current near s n w) [
    | inl (same, far) ↦
        rw same (i, record { nearer = λ k. omega arith; kept = λ k seen. refl }, omega arith)
    | inr (new, less) ↦
        let fits : saturating_add near w ≡ near + w = omega (arith, distance_le s i n) in
        let less' : near + w < distance_of s n = omega arith in
        rw (new, fits)
          (
            settled-Steady s n w visited here link less' i,
            settled-Improves s n w visited here link less' i,
            ground (arith, distance_of-settled s current n (near + w) n, ==_iff n n),
          )
  ]

  abbrev pub Relaxed : Search → Links → Type 0
  Relaxed s links = (v w : ℕ) → Memᴰ (v, w) links → distance_of s v ≤ near + w

  Relaxed-cons :
      (s : Search) (n w : ℕ) (links : Links)
      → distance_of s n ≤ near + w
      → Relaxed s links
      → Relaxed s ((n, w) ∷ links)
  Relaxed-cons s n w links first rest v c (Memᴰ.head e) =
      rw (ap (λ (p : ℕ × ℕ). p.0) e, ap (λ (p : ℕ × ℕ). p.1) e) first
  Relaxed-cons s n w links first rest v c (Memᴰ.tail there) = rest v c there

  -- All the links of the current node.
  pub relax_all-Steady :
      (s : Search) (links : Links)
      → elem current V ≡ true
      → distance_of s current ≡ near
      → ((v w : ℕ) → Memᴰ (v, w) links → Link t current v w)
      → Steady t source V U near s
      → Steady t source V U near (relax_all current near s links)
        × Improves V s (relax_all current near s links)
        × Relaxed (relax_all current near s links) links
  unfolding relax_all
  relax_all-Steady s [] visited here are i = (
    i,
    record { nearer = λ k. omega arith; kept = λ k seen. refl },
    λ v w there. absurd (Memᴰ.not-nil there),
  )
  relax_all-Steady s ((n, w) ∷ links) visited here are i =
      let (i', better, first) = relax-Steady s n w visited here (are n w (Memᴰ.head refl)) i in
      let (i'', better', rest) =
        relax_all-Steady (relax current near s (n, w)) links visited
          (better.kept current visited ∙ here) (λ v c there. are v c (Memᴰ.tail there)) i' in
      (
        i'',
        record {
          nearer = λ k. omega (arith, better.nearer k, better'.nearer k);
          kept = λ k seen. better'.kept k seen ∙ better.kept k seen;
        },
        Relaxed-cons (relax_all current near s ((n, w) ∷ links)) n w links
            (omega (arith, first, better'.nearer n)) rest,
      )
