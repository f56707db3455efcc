-- ===== src/Routing/Persistence/Restored.antt =====
-- What loading a snapshot of routes restores.
use ari.Base.{
  ℕ, suc, ◌+◌, String, ◌≡◌, refl, sym, ap, ◌∙◌, inl, inr, Bool, true, false, ◌&&◌, Option, some,
  List, [], ◌∷◌, arith, ltb, if◌then◌else◌, Bool-cases, ◌==◌, nat_key, string_key, Result, ok, err,
}
use mathlib.Core.Path.{subst}
use ari.Map.{get}
use ari.Map.Laws.{get-insert}
use ari.Routing.{
  RouteMetadata, RouteSnapshot, RouteResolver, RouteError, remaining_ttl, filter_valid,
  add_dynamic_route,
}
use ari.Routing.Lifetime.{add_dynamic_route_lem}
use ari.Routing.Persistence.{Loaded, after_add, load_one, load_routes, load_file, load_snapshot}

module _ {A : Type 0} (parse : String → Option A) (show : A → String) (now : ℕ) where
  -- The route as it is cached when it is loaded: it lives on for what was left.
  abbrev pub aged : RouteMetadata → A → RouteMetadata
  aged m hop = record {
    destination = m.destination;
    next_hop_address = show hop;
    created_at = now;
    ttl_seconds = remaining_ttl m now;
  }

  abbrev pub is_live : RouteMetadata → Bool
  is_live m = ltb 0 (remaining_ttl m now)

  abbrev pub Parses : List RouteMetadata → Type 0
  Parses [] = Unit
  Parses (m ∷ ms) = ((hop : A) × (parse m.next_hop_address ≡ some hop)) × Parses ms

  -- What the cache has of a destination: its last live route.
  abbrev pub restored :
      (ms : List RouteMetadata) → Parses ms → ℕ → Option RouteMetadata → Option RouteMetadata
  restored [] ps dst o = o
  restored (m ∷ ms) ps dst o =
      restored ms ps.1 dst (if is_live m && (m.destination == dst) then some (aged m ps.0.0) else o)

  abbrev pub live_count : List RouteMetadata → ℕ
  live_count [] = 0
  live_count (m ∷ ms) = let rest = live_count ms in if is_live m then suc rest else rest

  abbrev pub Restores : (ms : List RouteMetadata) → Parses ms → ℕ → RouteResolver → Loaded → Type 0
  Restores ms ps count r o =
      (o.1 ≡ ok (count + live_count ms))
      × ((dst : ℕ) → get o.0.metadata_cache dst ≡ restored ms ps dst (get r.metadata_cache dst))

  after_add_ok :
      (f : RouteResolver → Loaded) (o : RouteResolver × Result RouteError (Unit {0}))
      → o.1 ≡ ok tt
      → after_add parse show now f o ≡ f o.0
  after_add_ok f (r', ok done) e = refl
  after_add_ok f (r', err why) e = absurd (ground arith)

  module _ (m : RouteMetadata) (ms : List RouteMetadata) (count : ℕ) (r : RouteResolver) (hop : A)
      (parses : parse m.next_hop_address ≡ some hop) where
    abbrev with_route : RouteResolver
    with_route = (add_dynamic_route show r m.destination hop (some (remaining_ttl m now)) now).0

    load_routes_live :
        is_live m ≡ true
        → load_routes parse show now (m ∷ ms) count r
          ≡ load_routes parse show now ms (count + 1) with_route
    unfolding load_routes
    load_routes_live live =
        let added =
          add_dynamic_route_lem show r m.destination hop (some (remaining_ttl m now)) now in
        ap
          (load_one parse show now m r (λ r'. load_routes parse show now ms (count + 1) r')
            (λ r'. load_routes parse show now ms count r'))
          parses
        ∙ rw live (
            after_add_ok (λ r'. load_routes parse show now ms (count + 1) r')
              (add_dynamic_route show r m.destination hop (some (remaining_ttl m now)) now)
              (ap (λ (o : RouteResolver × Result RouteError (Unit {0})). o.1) added))

    load_routes_gone :
        is_live m ≡ false
        → load_routes parse show now (m ∷ ms) count r ≡ load_routes parse show now ms count r
    unfolding load_routes
    load_routes_gone gone =
        ap
          (load_one parse show now m r (λ r'. load_routes parse show now ms (count + 1) r')
            (λ r'. load_routes parse show now ms count r'))
          parses
        ∙ rw gone refl

    cached_route :
        (dst : ℕ)
        → get with_route.metadata_cache dst
          ≡ (if m.destination == dst then some (aged m hop) else get r.metadata_cache dst)
    cached_route dst =
        ap (λ (o : RouteResolver × Result RouteError (Unit {0})). get o.0.metadata_cache dst)
          (add_dynamic_route_lem show r m.destination hop (some (remaining_ttl m now)) now)
        ∙ get-insert r.metadata_cache m.destination dst (aged m hop)

  load_routes-Restores :
      (ms : List RouteMetadata) (ps : Parses ms) (count : ℕ) (r : RouteResolver)
      → Restores ms ps count r (load_routes parse show now ms count r)
  unfolding load_routes
  load_routes-Restores [] ps count r = (ap (λ (n : ℕ). ok n) (omega arith), λ dst. refl)
  load_routes-Restores (m ∷ ms) ((hop, parses), ps) count r = elim (Bool-cases (is_live m)) [
    | inl live ↦
        let (all, cache) =
          load_routes-Restores ms ps (count + 1) (with_route m ms count r hop parses) in
        let sum : count + 1 + live_count ms ≡ count + live_count (m ∷ ms) = ground (arith, live) in
        subst (λ (o : Loaded). Restores (m ∷ ms) ((hop, parses), ps) count r o)
          (sym (load_routes_live m ms count r hop parses live))
          (
            all ∙ ap (λ (n : ℕ). ok n) sum,
            λ dst.
                cache dst
                ∙ ap (restored ms ps dst) (
                    cached_route m ms count r hop parses dst
                    ∙ ap
                        (λ (b : Bool).
                          if b && (m.destination == dst)
                          then some (aged m hop)
                          else get r.metadata_cache dst)
                        (sym live)),
          )
    | inr gone ↦
        let (all, cache) = load_routes-Restores ms ps count r in
        let sum : count + live_count ms ≡ count + live_count (m ∷ ms) = ground (arith, gone) in
        subst (λ (o : Loaded). Restores (m ∷ ms) ((hop, parses), ps) count r o)
          (sym (load_routes_gone m ms count r hop parses gone))
          (
            all ∙ ap (λ (n : ℕ). ok n) sum,
            λ dst.
                cache dst
                ∙ ap
                    (λ (b : Bool). restored ms ps dst (
                      if b && (m.destination == dst)
                      then some (aged m hop)
                      else get r.metadata_cache dst))
                    (sym gone),
          )
  ]

  -- With persistence enabled, loading a snapshot whose unexpired routes have readable addresses
  -- answers how many of them have time left, and leaves in the cache for each destination the
  -- last such route, from now on for the time left, or what the cache had.
  pub load_snapshot-Restores :
      (r : RouteResolver) (snapshot : RouteSnapshot) (ps : Parses (filter_valid snapshot now))
      → r.config.enable_persistence ≡ true
      → Restores
          (filter_valid snapshot now)
          ps
          0
          r
          (load_snapshot parse show now r (some (ok snapshot)))
  unfolding load_snapshot
  load_snapshot-Restores r snapshot ps persistent =
      subst (λ (o : Loaded). Restores (filter_valid snapshot now) ps 0 r o)
        (sym (
          ap
            (λ (b : Bool). if b then load_file parse show now r (some (ok snapshot)) else (r, ok 0))
            persistent))
        (load_routes-Restores (filter_valid snapshot now) ps 0 r)
