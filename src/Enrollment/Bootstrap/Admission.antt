-- ===== src/Enrollment/Bootstrap/Admission.antt =====
-- What a bootstrap process has done for a member that it admits.
use ari.Base.{
  ℕ, String, ◌≡◌, refl, sym, ap, ◌∙◌, ◌≢◌, true, false, Option, none, some, arith, eqb, Key,
  nat_key, string_key, Result, ok, err,
}
use mathlib.Core.Path.{subst}
use ari.Map.{get}
use ari.Map.Laws.{get-insert_self}
use ari.Pdu.{Pdu}
use ari.Rib.Receive.{serialize}
use ari.Cdap.{CdapMessage}
use ari.Directory.Pool.{AddressPool, allocate}
use ari.Routing.{RouteResolver}
use ari.Routing.Lifetime.{add_dynamic_route_lem}
use ari.Routing.Lookup.{lookup_route-add_dynamic_route}
use ari.InterIpcpFal.{lookup_route}
use ari.Enrollment.{EnrollmentManager, EnrollmentError}
use ari.Enrollment.Joining.{
  EnrollmentRequest, Services, Node, Handled, understood, Grant, grant, granted, from_pool,
  send_enroll_response,
}
use ari.Enrollment.Bootstrap.{
  sharing, acceptance, register_peer, add_member_route, welcome, respond, admit,
  handle_enrollment_request,
}

-- The pool after the address `a` was given out, and if the request is answered, how `a` is reached.
pub record Welcomed {A : Type 0} ⦃key : Key A⦄ (parse : String → Option A) (p : AddressPool) (a : ℕ)
    (socket : A) (r : Handled A) : Type 0 where
  pub pool : r.node.manager.address_pool ≡ some p
  pub answered : (x : A × Pdu) → r.sent ≡ some x → r.answer ≡ ok tt
  pub reachable :
      r.answer ≡ ok tt
      → (get r.node.peers a ≡ some socket) × (lookup_route parse r.node.manager.rib a ≡ ok socket)

module _ {A : Type 0} ⦃key : Key A⦄ (s : Services A) (parse : String → Option A) (socket : A)
    (readable : parse (s.show socket) ≡ some socket) where
  add_member_route-Welcomed :
      (n : Node A) (resolver : RouteResolver) (p : AddressPool) (a : ℕ) (out : Option (A × Pdu))
      (now : ℕ)
      → n.manager.address_pool ≡ some p
      → Welcomed parse p a socket
          (add_member_route s (register_peer s n a socket) (some resolver) a socket out now)
  unfolding register_peer
  add_member_route-Welcomed n resolver p a out now pool =
      let r : RouteResolver = sharing n.manager resolver in
      let found =
        rw (add_dynamic_route_lem s.show r a socket none now) at
          (lookup_route-add_dynamic_route parse s.show r a socket none now readable) in
      rw (add_dynamic_route_lem s.show r a socket none now) (record {
        pool = pool;
        answered = λ x e. refl;
        reachable = λ fine. (get-insert_self n.peers a socket, found);
      })

  welcome-Welcomed :
      (n : Node A) (resolver : RouteResolver) (pdu : Pdu) (p : AddressPool) (a now : ℕ)
      (o : Result EnrollmentError (A × Pdu))
      → n.manager.address_pool ≡ some p
      → n.manager.route_resolver ≡ some resolver
      → a ≢ 0
      → Welcomed parse p a socket (welcome s n pdu socket (some a) now o)
  unfolding welcome
  welcome-Welcomed n resolver pdu p a now (err e) pool routes fresh = record {
    pool = pool;
    answered = λ x e. absurd (ground arith);
    reachable = λ fine. absurd (ground arith);
  }
  welcome-Welcomed n resolver pdu p a now (ok out) pool routes fresh =
      let other : eqb a 0 ≡ false = ground arith in
      rw other (
        subst
          (λ (o : Option RouteResolver).
            Welcomed parse p a socket
              (add_member_route s (register_peer s n a socket) o a socket (some out) now))
          (sym routes) (add_member_route-Welcomed n resolver p a (some out) now pool))

  -- The address that is given out to a member that asks for one.
  grant_lem :
      (m : EnrollmentManager) (req : EnrollmentRequest) (p p' : AddressPool) (a : ℕ)
      → m.address_pool ≡ some p
      → req.request_address ≡ true
      → allocate p ≡ (p', ok a)
      → grant m req ≡ (record m { address_pool = some p' }, ok (ok (some a)))
  unfolding grant
  grant_lem m req p p' a pool asks gives = rw asks (ap (from_pool m) pool ∙ ap (granted m) gives)

  module _ (n : Node A) (pdu : Pdu) (now : ℕ) (msg : CdapMessage) (req : EnrollmentRequest)
      (dif : String) (p p' : AddressPool) (a : ℕ)
      (reads : understood s n.manager.rib pdu now ≡ ok (msg, req, dif))
      (asks : req.request_address ≡ true) (pool : n.manager.address_pool ≡ some p)
      (gives : allocate p ≡ (p', ok a)) where
    -- The process after it has given out the address, before it answers.
    abbrev pub granting : Node A
    granting = record (register_peer s n pdu.src_addr socket) {
      manager = record n.manager { address_pool = some p' };
    }

    abbrev pub acceptance_sent : Result EnrollmentError (A × Pdu)
    acceptance_sent =
        send_enroll_response s granting pdu
          (acceptance dif (some a) (serialize s.objects n.manager.rib)) msg

    pub handle_enrollment_request-welcome :
        handle_enrollment_request s n pdu socket now
        ≡ welcome s granting pdu socket (some a) now acceptance_sent
    unfolding handle_enrollment_request register_peer
    handle_enrollment_request-welcome =
        let known : Node A = register_peer s n pdu.src_addr socket in
        ap (admit s known pdu socket now) reads
        ∙ ap
            (λ (g : EnrollmentManager × Grant).
              respond s pdu socket now msg dif (record known { manager = g.0 }) g.1)
            (grant_lem n.manager req p p' a pool asks gives)

    -- What a bootstrap process has made of an accepted request for an address that is not 0.
    pub handle_enrollment_request-Welcomed :
        (resolver : RouteResolver)
        → n.manager.route_resolver ≡ some resolver
        → a ≢ 0
        → Welcomed parse p' a socket (handle_enrollment_request s n pdu socket now)
    handle_enrollment_request-Welcomed resolver routes fresh =
        rw handle_enrollment_request-welcome
          (welcome-Welcomed granting resolver pdu p' a now acceptance_sent refl routes fresh)
