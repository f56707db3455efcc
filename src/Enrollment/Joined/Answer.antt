-- ===== src/Enrollment/Joined/Answer.antt =====
-- The response of a bootstrap process, as it comes out of the PDU that was sent.
use mathlib.Core.Option.{some-injective}
use ari.Base.{
  ℕ, suc, String, ◌≡◌, refl, sym, ap, ◌∙◌, inl, inr, Bool, true, Option, none, some, List, ◌∷◌,
  arith, eqb, if◌then◌else◌, Bool-cases, Option-cases, Key, nat_key, string_key, Result, ok, err,
  ok-injective,
}
use ari.Pdu.{Pdu, new_data}
use ari.Rib.Value.{pos}
use ari.Rib.Receive.{Codec}
use ari.Cdap.{CdapMessage, is_success, is_zero}
use ari.Routing.{RouteResolver, RouteError, add_dynamic_route}
use ari.InterIpcpFal.{shim_send}
use ari.Enrollment.{EnrollmentError}
use ari.Enrollment.Joining.{
  EnrollmentResponse, Services, Node, sent_to, send_back, send_enroll_response, enroll_answer,
}
use ari.Enrollment.Bootstrap.{
  sharing, register_assigned, route_added, add_member_route, welcome, or_sender,
}
use ari.Enrollment.Member.{Poll, message, receive_cdap_response, polled, accept}

-- What is decoded is what was encoded.
abbrev pub RoundTrips : {A : Type 0} → Codec A → Type 0
RoundTrips {A = A} codec =
    (x : A) (bs : List ℕ) → codec.encode x ≡ some bs → codec.decode bs ≡ some x

-- The same for the messages that carry no response to a synchronisation: the fields that such a
-- response leaves out when it is encoded are missing when it is decoded.
abbrev pub RoundTripsPlain : Codec CdapMessage → Type 0
RoundTripsPlain codec =
    (msg : CdapMessage) (bs : List ℕ)
    → msg.sync_response ≡ none
    → codec.encode msg ≡ some bs
    → codec.decode bs ≡ some msg

accept_lem :
    (msg : CdapMessage) (rest : List Poll)
    → is_success msg ≡ true
    → accept msg rest ≡ message msg rest
accept_lem msg rest fine = rw fine refl

module _ {A : Type 0} ⦃key : Key A⦄ (s : Services A) where
  sent_to_lem :
      (r : Result String A) (pdu out : Pdu) (to : A) → sent_to s pdu r ≡ ok (to, out) → pdu ≡ out
  sent_to_lem (ok addr) pdu out to e = ap (λ (x : A × Pdu). x.1) (ok-injective _ _ e)
  sent_to_lem (err why) pdu out to e = absurd (ground arith)

  pub send_back-encode :
      (n : Node A) (pdu out : Pdu) (to : A) (msg : CdapMessage)
      → send_back s n pdu msg ≡ ok (to, out)
      → s.message.encode msg ≡ some out.payload
  unfolding send_back
  send_back-encode n pdu out to msg e = elim (Option-cases (s.message.encode msg)) [
    | inl missing ↦ absurd (ground (arith, rw missing at e))
    | inr (bs, made) ↦
        let answer : Pdu = new_data n.manager.local_addr pdu.src_addr 0 0 0 bs in
        let same = sent_to_lem (shim_send s.transmit n.peers answer) answer out to (rw made at e) in
        made ∙ ap (λ (p : Pdu). some p.payload) same
  ]

  -- Both encodings of a response that was sent.
  pub send_enroll_response-encode :
      (n : Node A) (pdu out : Pdu) (to : A) (response : EnrollmentResponse) (msg : CdapMessage)
      → send_enroll_response s n pdu response msg ≡ ok (to, out)
      → (bs : List ℕ) × (s.response.encode response ≡ some bs)
        × (s.message.encode (enroll_answer s response msg bs) ≡ some out.payload)
  unfolding send_enroll_response
  send_enroll_response-encode n pdu out to response msg e =
      elim (Option-cases (s.response.encode response)) [
        | inl missing ↦ absurd (ground (arith, rw missing at e))
        | inr (bs, made) ↦ (
          bs,
          made,
          send_back-encode n pdu out to (enroll_answer s response msg bs) (rw made at e),
        )
      ]

  route_added-sent :
      (n : Node A) (out : Option (A × Pdu)) (o : RouteResolver × Result RouteError (Unit {0}))
      → (route_added s n out o).sent ≡ out
  route_added-sent n out (r, ok done) = refl
  route_added-sent n out (r, err e) = refl

  add_member_route-sent :
      (n : Node A) (r : Option RouteResolver) (member : ℕ) (socket : A) (out : Option (A × Pdu))
      (now : ℕ)
      → (add_member_route s n r member socket out now).sent ≡ out
  add_member_route-sent n none member socket out now = refl
  add_member_route-sent n (some r) member socket out now =
      route_added-sent n out (add_dynamic_route s.show (sharing n.manager r) member socket none now)

  pub welcome-sent :
      (n : Node A) (pdu : Pdu) (socket : A) (assigned : Option ℕ) (now : ℕ)
      (o : Result EnrollmentError (A × Pdu)) (x : A × Pdu)
      → (welcome s n pdu socket assigned now o).sent ≡ some x
      → o ≡ ok x
  unfolding welcome
  welcome-sent n pdu socket assigned now (err e) x h = absurd (ground arith)
  welcome-sent n pdu socket assigned now (ok out) x h =
      elim (Bool-cases (eqb (or_sender assigned pdu) 0)) [
        | inl none_given ↦ ap (λ (y : A × Pdu). ok y) (some-injective _ _ (rw none_given at h))
        | inr other ↦
            ap (λ (y : A × Pdu). ok y)
              (some-injective _ _ (
                sym (
                  add_member_route-sent (register_assigned s n assigned socket)
                    n.manager.route_resolver (or_sender assigned pdu) socket (some out) now)
                ∙ (rw other at h)))
      ]

  -- What a member receives of a response that was sent.
  pub receive-sent :
      (out : Pdu) (rest : List Poll) (response : EnrollmentResponse) (request : CdapMessage)
      (bs : List ℕ) (polls : ℕ)
      → s.message.decode out.payload ≡ some (enroll_answer s response request bs)
      → response.accepted ≡ true
      → receive_cdap_response s.message (some "enrollment") (suc polls) (ok (some out) ∷ rest)
        ≡ message (enroll_answer s response request bs) rest
  unfolding receive_cdap_response is_success
  receive-sent out rest response request bs polls decodes agreed =
      ap
        (polled (some "enrollment") rest
          (receive_cdap_response s.message (some "enrollment") polls rest))
        decodes
      ∙ accept_lem (enroll_answer s response request bs) rest
          (ap (λ (b : Bool). is_zero (if b then pos 0 else pos 1)) agreed)
