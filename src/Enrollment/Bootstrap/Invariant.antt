-- ===== src/Enrollment/Bootstrap/Invariant.antt =====
-- src/enrollment.rs: the addresses in the responses of a bootstrap process, and its address pool.
use ari.Base.{
  ℕ, String, ◌≡◌, refl, sym, ap, ◌∙◌, ◌⊎◌, inl, inr, Bool, false, ◌&&◌, Option, none, some, List,
  [], ◌∷◌, arith, eqb, if◌then◌else◌, Bool-cases, Option-cases, is_some, Key, nat_key, string_key,
  Result, ok, err, ok_or,
}
use mathlib.Core.Path.{subst}
use text.Mathlib.Text.{starts_with}
use ari.Pdu.{Pdu}
use ari.Rib.Receive.{serialize}
use ari.Cdap.{CdapMessage, new_request, read_op}
use ari.Rib.Value.{struct, no_fields}
use ari.Directory.Pool.{AddressPool}
use ari.Directory.Pool.Allocation.{IsPool}
use ari.Routing.{RouteResolver, RouteError, add_dynamic_route}
use ari.Enrollment.{EnrollmentManager, EnrollmentError, deserialization_failed, handle_sync_request}
use ari.Enrollment.Joining.{
  EnrollmentRequest, EnrollmentResponse, enroll_answer, Services, Node, Handled, understood, Grant,
  grant, send_enroll_response, concluded, asks_to_enroll, is_read, send_back,
}
use ari.Enrollment.Member.{response_in}
use ari.Enrollment.Joined.Answer.{
  RoundTrips, RoundTripsPlain, welcome-sent, send_enroll_response-encode,
}
use ari.Enrollment.Bootstrap.{
  sharing, rejection, acceptance, register_peer, register_assigned, route_added, add_member_route,
  welcome, respond, admit, or_sender, handle_enrollment_request, handle_routing_read_request,
  sync_answered, dispatched_if, handle_cdap_message,
}
use ari.Enrollment.Bootstrap.Given.{
  HasPool, Gives, granted_address, grant-Gives, Gives-unsent, Given, added, Gives-Given,
}

module _ {A : Type 0} ⦃key : Key A⦄ (s : Services A) where
  -- What a handler leaves.
  abbrev Keeps : Node A → Handled A → Type 0
  Keeps n r = r.node.manager.address_pool ≡ n.manager.address_pool

  concluded-Keeps : (n : Node A) (o : Result EnrollmentError (A × Pdu)) → Keeps n (concluded s n o)
  concluded-Keeps n (ok out) = refl
  concluded-Keeps n (err e) = refl

  route_added-Keeps :
      (n : Node A) (out : Option (A × Pdu)) (o : RouteResolver × Result RouteError (Unit {0}))
      → Keeps n (route_added s n out o)
  route_added-Keeps n out (r, ok done) = refl
  route_added-Keeps n out (r, err e) = refl

  add_member_route-Keeps :
      (n : Node A) (o : Option RouteResolver) (member : ℕ) (socket : A) (out : Option (A × Pdu))
      (now : ℕ)
      → Keeps n (add_member_route s n o member socket out now)
  add_member_route-Keeps n none member socket out now = refl
  add_member_route-Keeps n (some r) member socket out now =
      route_added-Keeps n out
        (add_dynamic_route s.show (sharing n.manager r) member socket none now)

  register_assigned-Keeps :
      (n : Node A) (assigned : Option ℕ) (socket : A)
      → (register_assigned s n assigned socket).manager ≡ n.manager
  unfolding register_peer
  register_assigned-Keeps n none socket = refl
  register_assigned-Keeps n (some addr) socket = refl

  welcome-Keeps :
      (n : Node A) (pdu : Pdu) (socket : A) (assigned : Option ℕ) (now : ℕ)
      (o : Result EnrollmentError (A × Pdu))
      → Keeps n (welcome s n pdu socket assigned now o)
  unfolding welcome
  welcome-Keeps n pdu socket assigned now (err e) = refl
  welcome-Keeps n pdu socket assigned now (ok out) =
      elim (Bool-cases (eqb (or_sender assigned pdu) 0)) [
        | inl nowhere ↦ rw nowhere refl
        | inr other ↦ rw other (
            add_member_route-Keeps (register_assigned s n assigned socket) n.manager.route_resolver
              (or_sender assigned pdu) socket (some out) now
            ∙ ap (λ (m : EnrollmentManager). m.address_pool)
                (register_assigned-Keeps n assigned socket))
      ]

  respond-Keeps :
      (pdu : Pdu) (socket : A) (now : ℕ) (msg : CdapMessage) (dif : String) (n : Node A) (g : Grant)
      → Keeps n (respond s pdu socket now msg dif n g)
  respond-Keeps pdu socket now msg dif n (err e) = refl
  respond-Keeps pdu socket now msg dif n (ok (err e)) =
      concluded-Keeps n (send_enroll_response s n pdu (rejection dif e) msg)
  respond-Keeps pdu socket now msg dif n (ok (ok assigned)) =
      welcome-Keeps n pdu socket assigned now (
        send_enroll_response s n pdu (acceptance dif assigned (serialize s.objects n.manager.rib))
          msg)

  sync_answered-Keeps :
      (n : Node A) (pdu : Pdu) (o : Result EnrollmentError CdapMessage)
      → Keeps n (sync_answered s n pdu o)
  sync_answered-Keeps n pdu (err e) = refl
  sync_answered-Keeps n pdu (ok response) = concluded-Keeps n (send_back s n pdu response)

  -- The address in the response of a PDU.
  abbrev assigned_by : Result EnrollmentError EnrollmentResponse → Option ℕ
  assigned_by (ok response) = response.assigned_address
  assigned_by (err e) = none

  abbrev assigned_in_message : Option CdapMessage → Option ℕ
  assigned_in_message none = none
  assigned_in_message (some msg) = assigned_by (response_in s.response msg.obj_value)

  abbrev assigned_in : Option (A × Pdu) → Option ℕ
  assigned_in none = none
  assigned_in (some (to, out)) = assigned_in_message (s.message.decode out.payload)

  abbrev enrols : Option CdapMessage → Bool
  enrols none = false
  enrols (some msg) = asks_to_enroll msg

  -- The address that the answer to a PDU gives, if that asks for enrollment.
  abbrev told_by : Pdu → Handled A → Option ℕ
  told_by pdu r = if enrols (s.message.decode pdu.payload) then assigned_in r.sent else none

  -- The PDUs that arrive, each with the socket address that it came from and the time.
  abbrev pub Arrivals : Type 0
  Arrivals = List (Pdu × A × ℕ)

  abbrev pub handle_all : Node A → Arrivals → Node A
  handle_all n [] = n
  handle_all n ((pdu, socket, now) ∷ rest) =
      handle_all (handle_cdap_message s n pdu socket now).node rest

  -- The addresses that the answers give.
  abbrev pub told : Node A → Arrivals → List ℕ
  told n [] = []
  told n ((pdu, socket, now) ∷ rest) =
      added (told_by pdu (handle_cdap_message s n pdu socket now))
        (told (handle_cdap_message s n pdu socket now).node rest)

  module _ (messages : RoundTripsPlain s.message) (responses : RoundTrips s.response) where
    assigned_in-sent :
        (n : Node A) (pdu : Pdu) (response : EnrollmentResponse) (msg : CdapMessage) (x : A × Pdu)
        → send_enroll_response s n pdu response msg ≡ ok x
        → assigned_in (some x) ≡ response.assigned_address
    unfolding response_in
    assigned_in-sent n pdu response msg (to, out) sent =
        let (bs, inner, outer) = send_enroll_response-encode s n pdu out to response msg sent in
        ap assigned_in_message (messages (enroll_answer s response msg bs) out.payload refl outer)
        ∙ ap (λ (o : Option EnrollmentResponse). assigned_by (ok_or o deserialization_failed))
            (responses response bs inner)

    assigned_in-concluded :
        (n : Node A) (pdu : Pdu) (response : EnrollmentResponse) (msg : CdapMessage)
        (o : Result EnrollmentError (A × Pdu))
        → send_enroll_response s n pdu response msg ≡ o
        → (assigned_in (concluded s n o).sent ≡ none)
          ⊎ (assigned_in (concluded s n o).sent ≡ response.assigned_address)
    assigned_in-concluded n pdu response msg (ok x) e =
        inr (assigned_in-sent n pdu response msg x e)
    assigned_in-concluded n pdu response msg (err why) e = inl refl

    assigned_in-welcome :
        (n : Node A) (pdu : Pdu) (socket : A) (assigned : Option ℕ) (now : ℕ)
        (response : EnrollmentResponse) (msg : CdapMessage)
        → let r = welcome s n pdu socket assigned now (send_enroll_response s n pdu response msg) in
          (assigned_in r.sent ≡ none) ⊎ (assigned_in r.sent ≡ response.assigned_address)
    assigned_in-welcome n pdu socket assigned now response msg =
        let o = send_enroll_response s n pdu response msg in
        let r : Handled A = welcome s n pdu socket assigned now o in
        elim (Option-cases r.sent) [
          | inl quiet ↦ inl (ap assigned_in quiet)
          | inr (x, sent) ↦ inr (
              ap assigned_in sent
              ∙ assigned_in-sent n pdu response msg x
                  (welcome-sent s n pdu socket assigned now o x sent))
        ]

    respond-assigned :
        (pdu : Pdu) (socket : A) (now : ℕ) (msg : CdapMessage) (dif : String) (n : Node A)
        (g : Grant)
        → (assigned_in (respond s pdu socket now msg dif n g).sent ≡ none)
          ⊎ (assigned_in (respond s pdu socket now msg dif n g).sent ≡ granted_address g)
    respond-assigned pdu socket now msg dif n (err e) = inl refl
    respond-assigned pdu socket now msg dif n (ok (err e)) =
        assigned_in-concluded n pdu (rejection dif e) msg
          (send_enroll_response s n pdu (rejection dif e) msg) refl
    respond-assigned pdu socket now msg dif n (ok (ok assigned)) =
        assigned_in-welcome n pdu socket assigned now
          (acceptance dif assigned (serialize s.objects n.manager.rib)) msg

    admit-Gives :
        (n : Node A) (pdu : Pdu) (socket : A) (now : ℕ)
        (o : Result EnrollmentError (CdapMessage × EnrollmentRequest × String))
        → HasPool n.manager.address_pool
        → Gives n.manager.address_pool
            (admit s n pdu socket now o).node.manager.address_pool
            (assigned_in (admit s n pdu socket now o).sent)
    admit-Gives n pdu socket now (err e) v = inl (refl, refl)
    admit-Gives n pdu socket now (ok (msg, req, dif)) v =
        let next : Node A = record n { manager = (grant n.manager req).0 } in
        let g : Grant = (grant n.manager req).1 in
        Gives-unsent n.manager.address_pool
          (respond s pdu socket now msg dif next g).node.manager.address_pool (granted_address g)
          (assigned_in (respond s pdu socket now msg dif next g).sent)
          (subst
            (λ (after : Option AddressPool). Gives n.manager.address_pool after (granted_address g))
            (sym (respond-Keeps pdu socket now msg dif next g)) (grant-Gives n.manager req v))
          (respond-assigned pdu socket now msg dif next g)

    dispatched-Gives :
        (n : Node A) (pdu : Pdu) (socket : A) (now : ℕ) (o : Option CdapMessage)
        → HasPool n.manager.address_pool
        → let r = dispatched_if s n pdu socket now o in
          Gives n.manager.address_pool r.node.manager.address_pool
            (if enrols o then assigned_in r.sent else none)
    unfolding handle_enrollment_request handle_routing_read_request register_peer
    dispatched-Gives n pdu socket now none v = inl (refl, refl)
    dispatched-Gives n pdu socket now (some msg) v = elim (Bool-cases (asks_to_enroll msg)) [
      | inl asks ↦
          let known : Node A = register_peer s n pdu.src_addr socket in
          rw asks (admit-Gives known pdu socket now (understood s known.manager.rib pdu now) v)
      | inr other ↦
          elim (Bool-cases (is_read msg.op_code && starts_with msg.obj_name "/routing/")) [
            | inl reads ↦ rw other (
                rw reads (
                  inl (
                    concluded-Keeps n (
                        send_back s n pdu (
                          new_request read_op msg.obj_name msg.obj_class (some (struct no_fields))
                            msg.invoke_id)),
                    refl,
                  )))
            | inr more ↦ elim (Bool-cases (is_some msg.sync_request)) [
              | inl syncs ↦ rw other (
                  rw more (
                    rw syncs (
                      inl (
                        sync_answered-Keeps n pdu (handle_sync_request s.objects n.manager msg),
                        refl,
                      ))))
              | inr nothing ↦ rw other (rw more (rw nothing (inl (refl, refl))))
            ]
          ]
    ]

    -- Whatever PDUs a bootstrap process with a well-formed pool handles in turn, no address
    -- stands twice in its responses to requests for enrollment, each was free at first and is
    -- taken at the end, what was taken at first stays so, and the pool stays well formed.
    -- Responses to enrollment, and messages without a response to a synchronisation, are decoded
    -- from what they are encoded as.
    pub told-Given :
        (arrivals : Arrivals) (n : Node A) (p : AddressPool)
        → n.manager.address_pool ≡ some p
        → IsPool p
        → Given p (told n arrivals) (handle_all n arrivals).manager.address_pool
    unfolding handle_cdap_message
    told-Given [] n p at v = record {
      pool = p;
      kept = at;
      well_formed = v;
      distinct = tt;
      fresh = λ a h. absurd (ground arith);
      taken = λ a h. absurd (ground arith);
      stays = λ a h. h;
    }
    told-Given ((pdu, socket, now) ∷ rest) n p at v =
        let r : Handled A = handle_cdap_message s n pdu socket now in
        let step =
          dispatched-Gives n pdu socket now (s.message.decode pdu.payload)
            (subst HasPool (sym at) v) in
        Gives-Given p r.node.manager.address_pool (handle_all r.node rest).manager.address_pool
          (told_by pdu r) (told r.node rest) v
          (subst
            (λ (before : Option AddressPool).
              Gives before r.node.manager.address_pool (told_by pdu r))
            at step)
          (λ q is w. told-Given rest r.node q is w)
