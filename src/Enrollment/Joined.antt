-- ===== src/Enrollment/Joined.antt =====
-- src/enrollment.rs: a member and a bootstrap process, and what the response to the member's
-- request makes of both.
pub mod Answer
use ari.Base.{ℕ, String, ◌≡◌, not, Option, some, List, Key, nat_key, string_key, ok}
use ari.Map.{Map, get}
use ari.Pdu.{Pdu, new_data}
use ari.Rib.Value.{RibValue, bytes}
use ari.Rib.Store.{Rib, read}
use ari.Cdap.{CdapMessage, create_op, new_request}
use ari.Directory.Pool.{AddressPool, is_allocated}
use ari.InterIpcpFal.{lookup_route}
use ari.Enrollment.{EnrollmentManager, enrolled}
use ari.Enrollment.Joining.{EnrollmentRequest, Services, Handled, send_enroll_response}
use ari.Enrollment.Bootstrap.{register_peer}
use ari.Enrollment.Member.{
  message, Attempt, joined, refused, timed_out, decided, enrollment_request,
}
use ari.Enrollment.Joined.Answer.{RoundTrips, RoundTripsPlain}

-- What a member has that was given the address `a`.
pub record Admitted (a : ℕ) (m : EnrollmentManager) : Type 0 where
  pub addressed : m.local_addr ≡ a
  pub enrolled_state : m.state ≡ enrolled

-- The bootstrap process has given out the address `a`, and reaches it at `socket`.
pub record Reached {A : Type 0} ⦃key : Key A⦄ (parse : String → Option A) (p : AddressPool) (a : ℕ)
    (socket : A) (r : Handled A) : Type 0 where
  pub answered : r.answer ≡ ok tt
  pub pool : r.node.manager.address_pool ≡ some p
  pub peer : get r.node.peers a ≡ some socket
  pub routed : lookup_route parse r.node.manager.rib a ≡ ok socket

module _ {A : Type 0} ⦃key : Key A⦄ (s : Services A) (peers : Map ℕ A) (now : ℕ) where
  -- The message and the PDU of a member's request.
  abbrev pub request_message : String → List ℕ → CdapMessage
  request_message name bs = new_request create_op name (some "enrollment") (some (bytes bs)) 1

  module _ (m : EnrollmentManager) (addr : ℕ) (name : String) (rb mb : List ℕ)
      (unaddressed : m.local_addr ≡ 0)
      (encodes_request : s.request.encode (enrollment_request s peers now m name) ≡ some rb)
      (encodes : s.message.encode (request_message name rb) ≡ some mb)
      (messages : RoundTripsPlain s.message) (requests : RoundTrips s.request) where
    abbrev pub request_pdu : Pdu
    request_pdu = new_data m.local_addr addr 0 0 0 mb
