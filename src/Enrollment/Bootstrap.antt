-- ===== src/Enrollment/Bootstrap.antt =====
-- src/enrollment.rs: the handlers of a bootstrap process.
pub mod Admission
pub mod Given
pub mod Invariant
use text.Mathlib.Text.{starts_with}
use Prim.Native.String.{◌++◌ as append}
use ari.Base.{
  ℕ, String, true, false, ◌&&◌, Option, none, some, List, ◌++◌, eqb, if◌then◌else◌, is_some, Key,
  nat_key, string_key, Result, ok, err,
}
use ari.Map.{Map, insert}
use ari.Pdu.{Pdu}
use ari.Rib.Value.{RibObject, RibValue, struct, no_fields}
use ari.Rib.Store.{Rib}
use ari.Rib.Receive.{serialize}
use ari.Cdap.{CdapMessage, read_op, new_request}
use ari.Directory.Pool.{PoolError}
use ari.Routing.{RouteResolver, RouteError, add_dynamic_route}
use ari.Enrollment.{
  EnrollmentManager, EnrollmentError, deserialization_failed, route_not_added, handle_sync_request,
}
use ari.Enrollment.Joining.{
  EnrollmentRequest, EnrollmentResponse, Services, Node, Handled, pool_reason, is_class, is_read,
  asks_to_enroll, understood, Grant, grant, send_back, send_enroll_response, concluded,
}

-- Clones of a RIB share one store.
abbrev pub sharing : EnrollmentManager → RouteResolver → RouteResolver
sharing m r = record r { rib = m.rib }

-- The response to a request that is refused for want of an address.
abbrev pub rejection : String → PoolError → EnrollmentResponse
rejection dif e = record {
  accepted = false;
  error = some (append "Address allocation failed: " (pool_reason e));
  assigned_address = none;
  dif_name = dif;
  rib_snapshot = none;
}

abbrev pub acceptance : String → Option ℕ → List ℕ → EnrollmentResponse
acceptance dif assigned snapshot = record {
  accepted = true;
  error = none;
  assigned_address = assigned;
  dif_name = dif;
  rib_snapshot = some snapshot;
}

abbrev pub or_sender : Option ℕ → Pdu → ℕ
or_sender none pdu = pdu.src_addr
or_sender (some addr) pdu = addr

module _ {A : Type 0} ⦃key : Key A⦄ (s : Services A) where
  unfoldable pub register_peer : Node A → ℕ → A → Node A
  register_peer n addr socket = record n { peers = insert n.peers addr socket }

  -- `if let Some(new_addr) = assigned_address { .. }`.
  abbrev pub register_assigned : Node A → Option ℕ → A → Node A
  register_assigned n none socket = n
  register_assigned n (some addr) socket = register_peer n addr socket

  abbrev pub route_added :
      Node A → Option (A × Pdu) → RouteResolver × Result RouteError (Unit {0}) → Handled A
  route_added n out (r, ok done) = record {
    node = record n { manager = record n.manager { rib = r.rib; route_resolver = some r } };
    sent = out;
    answer = ok tt;
  }
  route_added n out (r, err e) = record {
    node = record n { manager = record n.manager { rib = r.rib; route_resolver = some r } };
    sent = out;
    answer = err (route_not_added e);
  }

  -- The route to a new member, if there is a resolver.
  abbrev pub add_member_route :
      Node A → Option RouteResolver → ℕ → A → Option (A × Pdu) → ℕ → Handled A
  add_member_route n none member socket out now = record { node = n; sent = out; answer = ok tt }
  add_member_route n (some r) member socket out now =
      route_added n out (add_dynamic_route s.show (sharing n.manager r) member socket none now)

  -- What follows the response to an accepted request.
  unfoldable pub welcome :
      Node A → Pdu → A → Option ℕ → ℕ → Result EnrollmentError (A × Pdu) → Handled A
  unfolding register_peer
  welcome n pdu socket assigned now (err e) = record { node = n; sent = none; answer = err e }
  welcome n pdu socket assigned now (ok out) =
      if eqb (or_sender assigned pdu) 0
      then record { node = n; sent = some out; answer = ok tt }
      else add_member_route (register_assigned n assigned socket) n.manager.route_resolver
          (or_sender assigned pdu) socket (some out) now

  -- The response, by what the address pool gave.
  abbrev pub respond : Pdu → A → ℕ → CdapMessage → String → Node A → Grant → Handled A
  respond pdu socket now msg dif n (err e) = record { node = n; sent = none; answer = err e }
  respond pdu socket now msg dif n (ok (err e)) =
      concluded s n (send_enroll_response s n pdu (rejection dif e) msg)
  respond pdu socket now msg dif n (ok (ok assigned)) = welcome n pdu socket assigned now (
      send_enroll_response s n pdu (acceptance dif assigned (serialize s.objects n.manager.rib))
        msg)

  abbrev pub admit :
      Node A
      → Pdu
      → A
      → ℕ
      → Result EnrollmentError (CdapMessage × EnrollmentRequest × String)
      → Handled A
  admit n pdu socket now (err e) = record { node = n; sent = none; answer = err e }
  admit n pdu socket now (ok (msg, req, dif)) =
      respond pdu socket now msg dif (record n { manager = (grant n.manager req).0 })
        (grant n.manager req).1

  unfoldable pub handle_enrollment_request : Node A → Pdu → A → ℕ → Handled A
  unfolding register_peer welcome understood grant
  handle_enrollment_request n pdu socket now =
      let known : Node A = register_peer n pdu.src_addr socket in
      admit known pdu socket now (understood s known.manager.rib pdu now)

  unfoldable pub handle_routing_read_request : Node A → Pdu → CdapMessage → Handled A
  unfolding send_back
  handle_routing_read_request n pdu request = concluded s n (
      send_back s n pdu (
        new_request read_op request.obj_name request.obj_class (some (struct no_fields))
          request.invoke_id))

  abbrev pub sync_answered : Node A → Pdu → Result EnrollmentError CdapMessage → Handled A
  sync_answered n pdu (err e) = record { node = n; sent = none; answer = err e }
  sync_answered n pdu (ok response) = concluded s n (send_back s n pdu response)

  -- Where a message goes.
  abbrev pub dispatched : Node A → Pdu → A → ℕ → CdapMessage → Handled A
  dispatched n pdu socket now msg =
      if asks_to_enroll msg
      then handle_enrollment_request n pdu socket now
      else if is_read msg.op_code && starts_with msg.obj_name "/routing/"
      then handle_routing_read_request n pdu msg
      else if is_some msg.sync_request
      then sync_answered n pdu (handle_sync_request s.objects n.manager msg)
      else record { node = n; sent = none; answer = ok tt }

  abbrev pub dispatched_if : Node A → Pdu → A → ℕ → Option CdapMessage → Handled A
  dispatched_if n pdu socket now none = record {
    node = n;
    sent = none;
    answer = err deserialization_failed;
  }
  dispatched_if n pdu socket now (some msg) = dispatched n pdu socket now msg

  unfoldable pub handle_cdap_message : Node A → Pdu → A → ℕ → Handled A
  unfolding handle_enrollment_request handle_routing_read_request
  handle_cdap_message n pdu socket now =
      dispatched_if n pdu socket now (s.message.decode pdu.payload)
