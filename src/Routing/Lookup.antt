-- ===== src/Routing/Lookup.antt =====
-- What the inter-IPCP flow allocator makes of the routes of the resolver.
use ari.Base.{ℕ, String, ◌≡◌, refl, ap, ◌∙◌, Option, some, back, Key, nat_key, string_key, ok}
use ari.Rib.Value.{get_field, insert_field}
use ari.Rib.Store.{read}
use ari.Routing.{
  RouteResolver, add_dynamic_route, dynamic_name, route_data, route_fields, put_route,
}
use ari.Routing.Objects.{put_route_lem}
use ari.Routing.Lifetime.{add_dynamic_route_lem}
use ari.InterIpcpFal.{lookup_route, next_hop_of, next_hop_in}

next_hop_in-route_data : (text : String) (dst : ℕ) → next_hop_in (route_data text dst) ≡ some text
unfolding route_fields insert_field get_field
next_hop_in-route_data text dst = refl

-- After a dynamic route is added, the inter-IPCP flow allocator finds its next hop, whose text
-- is parsed back, whether or not there is a static route and whatever the route's lifetime is.
pub lookup_route-add_dynamic_route :
    {A : Type 0} ⦃key : Key A⦄ (parse : String → Option A) (show : A → String)
    → (r : RouteResolver) (dst : ℕ) (hop : A) (ttl : Option ℕ) (now : ℕ)
    → parse (show hop) ≡ some hop
    → lookup_route parse (add_dynamic_route show r dst hop ttl now).0.rib dst ≡ ok hop
unfolding lookup_route
lookup_route-add_dynamic_route parse show r dst hop ttl now back =
    let (done, (obj, held, holds), others) = put_route_lem r.rib dst (show hop) now in
    let text : next_hop_of (read (put_route r.rib dst (show hop) now).0 (dynamic_name dst))
        ≡ some (show hop) =
      ap next_hop_of held ∙ ap next_hop_in holds ∙ next_hop_in-route_data (show hop) dst in
    rw (add_dynamic_route_lem show r dst hop ttl now) (rw text (rw back refl))
