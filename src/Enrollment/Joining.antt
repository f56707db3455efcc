-- ===== src/Enrollment/Joining.antt =====
-- src/enrollment.rs: what a bootstrap process reads of a request to enroll, the address that it gives,
-- and the response that it sends. A socket address is a parameter `A`; what became of a PDU is the
-- address it was sent to.
use ari.Base.{
  ℕ, String, Bool, true, false, ◌&&◌, Option, none, some, List, if◌then◌else◌, Key, ◌==◌, nat_key,
  string_key, Result, ok, err, ◌>>=◌, ok_or,
}
use ari.Map.{Map}
use ari.Pdu.{Pdu, new_data}
use ari.Rib.Value.{RibObject, RibValue, string, bytes, pos, as_string}
use ari.Rib.Store.{Rib, read}
use ari.Rib.Receive.{Codec}
use ari.Cdap.{CdapMessage, CdapOpCode, create_op, read_op, new_request}
use ari.Directory.Pool.{AddressPool, PoolError, allocate, exhausted, out_of_range, not_allocated}
use ari.InterIpcpFal.{shim_send}
use ari.Enrollment.{
  EnrollmentManager, EnrollmentError, serialization_failed, deserialization_failed, send_failed,
  invalid_response, invalid_state, address_assignment_failed,
}

pub record EnrollmentRequest : Type 0 where
  pub ipcp_name : String
  pub ipcp_address : ℕ
  pub dif_name : String
  pub timestamp : ℕ
  pub request_address : Bool

pub record EnrollmentResponse : Type 0 where
  pub accepted : Bool
  pub error : Option String
  pub assigned_address : Option ℕ
  pub dif_name : String
  pub rib_snapshot : Option (List ℕ)

-- postcard for each kind of value, the socket, and the text of a socket address.
pub record Services (A : Type 0) : Type 0 where
  pub message : Codec CdapMessage
  pub request : Codec EnrollmentRequest
  pub response : Codec EnrollmentResponse
  pub objects : Codec (List RibObject)
  pub transmit : A → Pdu → Option String
  pub show : A → String

-- The manager with the table of peers of its shim.
pub record Node (A : Type 0) : Type 0 where
  pub manager : EnrollmentManager
  pub peers : Map ℕ A

pub record Handled (A : Type 0) : Type 0 where
  pub node : Node A
  pub sent : Option (A × Pdu)
  pub answer : Result EnrollmentError (Unit {0})

-- The text of an error of the address pool.
abbrev pub pool_reason : PoolError → String
pool_reason exhausted = "Address pool exhausted"
pool_reason out_of_range = "Address out of pool range"
pool_reason not_allocated = "Address was not allocated"

abbrev pub is_class : Option String → String → Bool
is_class none class = false
is_class (some c) class = c == class

abbrev pub is_create : CdapOpCode → Bool
is_create create_op = true
is_create _ = false

abbrev pub is_read : CdapOpCode → Bool
is_read read_op = true
is_read _ = false

-- Whether a message asks for enrollment.
abbrev pub asks_to_enroll : CdapMessage → Bool
asks_to_enroll msg = is_class msg.obj_class "enrollment" && is_create msg.op_code

-- The request in the value of a message; a text is the request of an older process.
abbrev pub request_in :
    Codec EnrollmentRequest → ℕ → ℕ → Option RibValue → Result EnrollmentError EnrollmentRequest
request_in codec src now (some (bytes bs)) = ok_or (codec.decode bs) deserialization_failed
request_in codec src now (some (string name)) = ok (record {
  ipcp_name = name;
  ipcp_address = src;
  dif_name = "";
  timestamp = now;
  request_address = false;
})
request_in codec src now _ = err (invalid_response "Invalid enrollment request format")

abbrev pub dif_name_of : Rib → Result EnrollmentError String
dif_name_of r = do
  obj ← ok_or (read r "/dif/name") (invalid_state "DIF name configured" "DIF name not set in RIB")
  ok_or (as_string obj.value) (invalid_response "DIF name is not a string")

abbrev pub checked : CdapMessage → Result EnrollmentError (Unit {0})
checked msg =
    if asks_to_enroll msg then ok tt else err (invalid_response "Not an enrollment request")

-- What is read of a request before an address is given out: the message, the request, the DIF.
unfoldable pub understood :
    {A : Type 0}
    → Services A
    → Rib
    → Pdu
    → ℕ
    → Result EnrollmentError (CdapMessage × EnrollmentRequest × String)
understood s rib pdu now = do
  msg ← ok_or (s.message.decode pdu.payload) deserialization_failed
  fits ← checked msg
  req ← request_in s.request pdu.src_addr now msg.obj_value
  dif ← dif_name_of rib
  ok (msg, req, dif)

abbrev pub Grant : Type 0
Grant = Result EnrollmentError (Result PoolError (Option ℕ))

abbrev pub granted :
    EnrollmentManager → AddressPool × Result PoolError ℕ → EnrollmentManager × Grant
granted m (p, ok addr) = (record m { address_pool = some p }, ok (ok (some addr)))
granted m (p, err e) = (record m { address_pool = some p }, ok (err e))

abbrev pub from_pool : EnrollmentManager → Option AddressPool → EnrollmentManager × Grant
from_pool m none = (m, err (address_assignment_failed "Bootstrap has no address pool"))
from_pool m (some p) = granted m (allocate p)

-- The address for a member: none if it asks for none.
unfoldable pub grant : EnrollmentManager → EnrollmentRequest → EnrollmentManager × Grant
grant m req = if req.request_address then from_pool m m.address_pool else (m, ok (ok none))

module _ {A : Type 0} ⦃key : Key A⦄ (s : Services A) where
  -- Where a PDU went.
  abbrev pub sent_to : Pdu → Result String A → Result EnrollmentError (A × Pdu)
  sent_to pdu (ok addr) = ok (addr, pdu)
  sent_to pdu (err e) = err (send_failed e)

  -- A message in a PDU to the sender of a request.
  unfoldable pub send_back : Node A → Pdu → CdapMessage → Result EnrollmentError (A × Pdu)
  send_back n request msg = do
    bs ← ok_or (s.message.encode msg) serialization_failed
    let pdu = new_data n.manager.local_addr request.src_addr 0 0 0 bs
    sent_to pdu (shim_send s.transmit n.peers pdu)

  abbrev pub enroll_answer : EnrollmentResponse → CdapMessage → List ℕ → CdapMessage
  enroll_answer response request bs =
      record (new_request create_op request.obj_name (some "enrollment") (some (bytes bs))
        request.invoke_id) {
          result = if response.accepted then pos 0 else pos 1;
          result_reason = response.error;
        }

  unfoldable pub send_enroll_response :
      Node A → Pdu → EnrollmentResponse → CdapMessage → Result EnrollmentError (A × Pdu)
  unfolding send_back
  send_enroll_response n pdu response request = do
    bs ← ok_or (s.response.encode response) serialization_failed
    send_back n pdu (enroll_answer response request bs)

  -- What ends with the sending of a message, which changes nothing.
  abbrev pub concluded : Node A → Result EnrollmentError (A × Pdu) → Handled A
  concluded n (ok out) = record { node = n; sent = some out; answer = ok tt }
  concluded n (err e) = record { node = n; sent = none; answer = err e }
