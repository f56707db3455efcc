-- ===== src/Routing/Lifetime.antt =====
-- A dynamic route resolves to its next hop for its lifetime, and is gone after that.
use ari.Base.{
  ℕ, String, ◌≡◌, refl, ap, ◌∙◌, true, false, Option, none, some, back, nat_key, string_key, ok,
  err, ok_or,
}
use ari.Map.{get, insert}
use ari.Map.Laws.{get-insert_self, get-remove_self}
use ari.Rib.Value.{RibObject, Fields}
use ari.Rib.Store.{Rib, read, Outcome, delete, drop_object}
use ari.Routing.{
  RouteMetadata, RouteResolver, route_not_found, is_expired, static_name, dynamic_name, fields_of,
  address_in, put_route, add_dynamic_route, resolve_next_hop, resolve_with, resolve_dynamic,
  remove_dynamic_route, get_or, cached, then_not_found, removed, expired_at, address_or_not_found,
  route_fields, invalid_socket_address, struct_of,
}
use ari.Routing.Objects.{names_apart, put_route_lem, address_in-route_fields}

-- What is cached of a route that is added.
abbrev pub metadata_for :
    {A : Type 0} → (A → String) → RouteResolver → ℕ → A → Option ℕ → ℕ → RouteMetadata
metadata_for show r dst hop ttl now = record {
  destination = dst;
  next_hop_address = show hop;
  created_at = now;
  ttl_seconds = get_or ttl r.config.default_ttl_seconds;
}

cached_ok :
    (r : RouteResolver) (m : RouteMetadata) (o : Outcome (Unit {0}))
    → o.1 ≡ ok tt
    → cached r m o
      ≡ (record r { rib = o.0; metadata_cache = insert r.metadata_cache m.destination m }, ok tt)
cached_ok r m (rib, ok done) e = refl
cached_ok r m (rib, err why) e = cc

module _ {A : Type 0} (show : A → String) (r : RouteResolver) (dst : ℕ) (hop : A) (ttl : Option ℕ)
    (now : ℕ) where
  abbrev pub route : RouteMetadata
  route = metadata_for show r dst hop ttl now

  -- The state that adding a route leaves: it succeeds, and the RIB is the one of `put_route`.
  pub add_dynamic_route_lem : add_dynamic_route show r dst hop ttl now ≡ (
    record r {
      rib = (put_route r.rib dst (show hop) now).0;
      metadata_cache = insert r.metadata_cache dst route;
    },
    ok tt,
  )
  unfolding add_dynamic_route
  add_dynamic_route_lem =
      cached_ok r route (put_route r.rib dst (show hop) now)
        (put_route_lem r.rib dst (show hop) now).0

delete_found :
    (rib : Rib) (name : String) (o : RibObject) (now : ℕ)
    → get rib.objects name ≡ some o
    → delete rib name now ≡ (drop_object rib name o now, ok tt)
unfolding delete
delete_found rib name o now found = rw (found, delete) refl

module _ {A : Type 0} (parse : String → Option A) (r : RouteResolver) (dst now : ℕ)
    (fields : Fields) where
  -- A dynamic route whose time has not passed.
  resolve_live :
      (text : String) (hop : A)
      → address_in (fields_of (read r.rib (static_name dst))) ≡ none
      → fields_of (read r.rib (dynamic_name dst)) ≡ some fields
      → address_in (some fields) ≡ some text
      → parse text ≡ some hop
      → expired_at (get r.metadata_cache dst) now ≡ false
      → resolve_next_hop parse r dst now ≡ (r, ok hop)
  unfolding resolve_next_hop
  resolve_live text hop unshadowed there says back live =
      ap (resolve_with parse r dst now) unshadowed
      ∙ ap (resolve_dynamic parse r dst now) there
      ∙ rw live (
          ap (λ (t : Option String). (r, address_or_not_found parse dst t)) says
          ∙ ap (λ (o : Option A). (r, ok_or o (invalid_socket_address text))) back)

  -- One whose time has passed.
  resolve_expired :
      (o : RibObject)
      → address_in (fields_of (read r.rib (static_name dst))) ≡ none
      → fields_of (read r.rib (dynamic_name dst)) ≡ some fields
      → get r.rib.objects (dynamic_name dst) ≡ some o
      → expired_at (get r.metadata_cache dst) now ≡ true
      → ((resolve_next_hop parse r dst now).1 ≡ err (route_not_found dst))
        × (read (resolve_next_hop parse r dst now).0.rib (dynamic_name dst) ≡ none)
  unfolding resolve_next_hop
  resolve_expired o unshadowed there found late =
      let step : resolve_next_hop parse r dst now
          ≡ then_not_found dst (remove_dynamic_route r dst now) =
        ap (resolve_with parse r dst now) unshadowed
        ∙ ap (resolve_dynamic parse r dst now) there
        ∙ rw late refl in
      let gone : remove_dynamic_route r dst now
          ≡ removed r dst (drop_object r.rib (dynamic_name dst) o now, ok tt) =
        unfold remove_dynamic_route in
        ap (removed r dst) (delete_found r.rib (dynamic_name dst) o now found) in
      rw (step, gone)
        (refl, unfold read drop_object in get-remove_self r.rib.objects (dynamic_name dst))

-- What the resolver knows after it has added a route that no static one overrides.
record IsAdded {A : Type 0} (show : A → String) (r r' : RouteResolver) (dst : ℕ) (hop : A)
    (m : RouteMetadata) : Type 0 where
  object : RibObject
  found : get r'.rib.objects (dynamic_name dst) ≡ some object
  there : fields_of (read r'.rib (dynamic_name dst)) ≡ some (route_fields (show hop) dst)
  unshadowed : address_in (fields_of (read r'.rib (static_name dst))) ≡ none
  cache : get r'.metadata_cache dst ≡ some m

added :
    {A : Type 0} (show : A → String) (r : RouteResolver) (dst : ℕ) (hop : A) (ttl : Option ℕ)
    (now : ℕ)
    → address_in (fields_of (read r.rib (static_name dst))) ≡ none
    → IsAdded show r
        (add_dynamic_route show r dst hop ttl now).0
        dst
        hop
        (metadata_for show r dst hop ttl now)
added show r dst hop ttl now unshadowed =
    let (done, (obj, held, holds), others) = put_route_lem r.rib dst (show hop) now in
    rw (add_dynamic_route_lem show r dst hop ttl now) (record {
      object = obj;
      found = unfold read in held;
      there = ap fields_of held ∙ ap struct_of holds;
      unshadowed =
          ap (λ (o : Option RibObject). address_in (fields_of o))
            (others (static_name dst) (names_apart dst dst))
          ∙ unshadowed;
      cache = get-insert_self r.metadata_cache dst (metadata_for show r dst hop ttl now);
    })

-- Until its lifetime has passed, a dynamic route that was added and that no static one overrides
-- resolves to its next hop, whose text is parsed back, and resolving changes nothing.
pub resolve_next_hop-add_dynamic_route :
    {A : Type 0} (parse : String → Option A) (show : A → String)
    → (r : RouteResolver) (dst : ℕ) (hop : A) (ttl : Option ℕ) (now later : ℕ)
    → parse (show hop) ≡ some hop
    → address_in (fields_of (read r.rib (static_name dst))) ≡ none
    → is_expired (metadata_for show r dst hop ttl now) later ≡ false
    → resolve_next_hop parse (add_dynamic_route show r dst hop ttl now).0 dst later
      ≡ ((add_dynamic_route show r dst hop ttl now).0, ok hop)
resolve_next_hop-add_dynamic_route parse show r dst hop ttl now later back unshadowed live =
    let v = added show r dst hop ttl now unshadowed in
    let r' : RouteResolver = (add_dynamic_route show r dst hop ttl now).0 in
    resolve_live parse r' dst later (route_fields (show hop) dst) (show hop) hop v.unshadowed
      v.there (address_in-route_fields (show hop) dst) back
      (ap (λ (c : Option RouteMetadata). expired_at c later) v.cache ∙ live)

-- When the lifetime of an added dynamic route that no static one overrides has passed, resolving
-- answers that there is no route, and afterwards the RIB has no dynamic route of that
-- destination.
pub resolve_next_hop_expired :
    {A : Type 0} (parse : String → Option A) (show : A → String)
    → (r : RouteResolver) (dst : ℕ) (hop : A) (ttl : Option ℕ) (now later : ℕ)
    → address_in (fields_of (read r.rib (static_name dst))) ≡ none
    → is_expired (metadata_for show r dst hop ttl now) later ≡ true
    → ((resolve_next_hop parse (add_dynamic_route show r dst hop ttl now).0 dst later).1
        ≡ err (route_not_found dst))
      × (read
            (resolve_next_hop parse (add_dynamic_route show r dst hop ttl now).0 dst later).0.rib
            (dynamic_name dst)
          ≡ none)
resolve_next_hop_expired parse show r dst hop ttl now later unshadowed late =
    let v = added show r dst hop ttl now unshadowed in
    let r' : RouteResolver = (add_dynamic_route show r dst hop ttl now).0 in
    resolve_expired parse r' dst later (route_fields (show hop) dst) v.object v.unshadowed v.there
      v.found (ap (λ (c : Option RouteMetadata). expired_at c later) v.cache ∙ late)
