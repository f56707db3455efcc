-- ===== src/Examples/Routes.antt =====
-- A socket address that is a port, with one text, and routes to it.
use ari.Base.{
  ℕ, String, ◌≡◌, refl, Option, none, some, [], ◌∷◌, if◌then◌else◌, ◌==◌, nat_key, string_key, ok,
  err,
}
use ari.Map.{get}
use ari.Pdu.{Pdu, new_data}
use ari.Rib.Store.{with_change_log_size, read}
use ari.Routing
use ari.Routing.{
  RouteResolver, add_dynamic_route, resolve_next_hop, route_not_found, dynamic_name, default_config,
}
use ari.Routing.Lifetime.{resolve_next_hop-add_dynamic_route, resolve_next_hop_expired}
use ari.InterIpcpFal
use ari.InterIpcpFal.{
  peer_registered, InterIpcpFlowAllocator, lookup_route, send_pdu, update_peer_address,
}
use ari.InterIpcpFal.Mapped.{IsMapped}
use ari.InterIpcpFal.Reach.{start, then_step, moves, registers, Reachable-IsMapped}
use ari.InterIpcpFal.Sending.{Sends, send_pdu-Sends}

abbrev show : ℕ → String
show port = "127.0.0.1:7000"

abbrev parse : String → Option ℕ
parse text = if text == "127.0.0.1:7000" then some 7000 else none

abbrev resolver : RouteResolver
resolver = Routing.new (with_change_log_size 8) default_config

resolve_next_hop-add_dynamic_route_example :
    resolve_next_hop parse (add_dynamic_route show resolver 5 7000 (some 60) 100).0 5 160
    ≡ ((add_dynamic_route show resolver 5 7000 (some 60) 100).0, ok 7000)
unfolding Routing.is_expired read with_change_log_size get
resolve_next_hop-add_dynamic_route_example =
    resolve_next_hop-add_dynamic_route parse show resolver 5 7000 (some 60) 100 160 refl refl refl

resolve_next_hop_expired_example :
    ((resolve_next_hop parse (add_dynamic_route show resolver 5 7000 (some 60) 100).0 5 161).1
      ≡ err (route_not_found 5))
    × (read
          (resolve_next_hop parse
            (add_dynamic_route show resolver 5 7000 (some 60) 100).0
            5
            161).0.rib
          (dynamic_name 5)
        ≡ none)
unfolding Routing.is_expired read with_change_log_size get
resolve_next_hop_expired_example =
    resolve_next_hop_expired parse show resolver 5 7000 (some 60) 100 161 refl refl

-- A socket that takes everything.
abbrev transmit : ℕ → Pdu → Option String
transmit port pdu = none

abbrev idle : InterIpcpFlowAllocator ℕ
idle = InterIpcpFal.new (with_change_log_size 8) []

abbrev met : InterIpcpFlowAllocator ℕ
met = update_peer_address idle 5 7000 1

Reachable-IsMapped_example : IsMapped (6 ∷ []) (peer_registered met 6 7001)
Reachable-IsMapped_example =
    Reachable-IsMapped parse transmit (6 ∷ []) (peer_registered met 6 7001) (
      then_step (then_step (start (with_change_log_size 8) []) (moves 5 7000 1)) (registers 6 7001))

send_pdu-Sends_example :
    Sends transmit met 5
      (new_data 1 5 0 0 0 (9 ∷ []))
      2
      (send_pdu transmit met 5 (new_data 1 5 0 0 0 (9 ∷ [])) 2)
send_pdu-Sends_example = send_pdu-Sends transmit met 5 (new_data 1 5 0 0 0 (9 ∷ [])) 2
