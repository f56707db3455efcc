-- ===== src/Enrollment/Member.antt =====
-- src/enrollment.rs: enrollment as a member sees it. What the socket gives to each poll until the
-- deadline of an attempt is an argument; when it is used up, the deadline cuts the attempt off.
-- Serde's and the socket's errors are those of the services.
pub mod Attempts
use Prim.Native.String.{◌++◌ as append}
use ari.Base.{
  ℕ, zero, suc, ◌+◌, ◌-◌, ◌/◌, String, Bool, true, false, not, Option, none, some, List, [], ◌∷◌,
  ◌++◌, eqb, if◌then◌else◌, Key, nat_key, string_key, Result, ok, err, ◌>>=◌, ok_or, map_err,
}
use ari.Map.{Map}
use ari.Text.{decimal}
use ari.Pdu.{Pdu, new_data}
use ari.Rib.Value.{
  ℤ, pos, negsuc, as_i64, RibObject, RibValue, string, integer, boolean, bytes, struct, Fields,
  no_fields, field,
}
use ari.Rib.Store.{Rib, Outcome, create, current_version}
use ari.Rib.Receive.{Codec, deserialize}
use ari.Cdap.{CdapMessage, is_success, create_op, read_op, new_request}
use ari.InterIpcpFal.{shim_send}
use ari.Enrollment.{
  EnrollmentManager, EnrollmentError, EnrollmentConfig, serialization_failed,
  deserialization_failed, send_failed, invalid_response, rejected, receive_failed, timeout,
  enrolled, initiated, ipcp_name_not_set, no_bootstrap_peers,
}
use ari.Enrollment.Joining.{EnrollmentRequest, EnrollmentResponse, Services, is_class}

-- What `receive_pdu` of the shim gives to one poll.
abbrev pub Poll : Type 0
Poll = Result String (Option Pdu)

pub data Received : Type 0 where
  message : CdapMessage → List Poll → Received
  refusal : EnrollmentError → List Poll → Received
  cut_off : Received

abbrev pub signed : ℤ → String
signed (pos n) = decimal n
signed (negsuc n) = append "-" (decimal (n + 1))

-- A message of the class that is waited for.
abbrev pub accept : CdapMessage → List Poll → Received
accept msg rest =
    if is_success msg
    then message msg rest
    else refusal (rejected (append "Request rejected with code: " (signed msg.result))) rest

abbrev pub is_wanted : Option String → CdapMessage → Bool
is_wanted none msg = true
is_wanted (some class) msg = is_class msg.obj_class class

-- A message that was polled, if it is one, and what the later polls give.
abbrev pub polled : Option String → List Poll → Received → Option CdapMessage → Received
polled expected rest again none = refusal deserialization_failed rest
polled expected rest again (some msg) = if is_wanted expected msg then accept msg rest else again

unfoldable pub receive_cdap_response : Codec CdapMessage → Option String → ℕ → List Poll → Received
receive_cdap_response codec expected zero polls =
    refusal (receive_failed "No response received") polls
receive_cdap_response codec expected (suc n) [] = cut_off
receive_cdap_response codec expected (suc n) (err e ∷ rest) = refusal (receive_failed e) rest
receive_cdap_response codec expected (suc n) (ok none ∷ rest) =
    receive_cdap_response codec expected n rest
receive_cdap_response codec expected (suc n) (ok (some pdu) ∷ rest) =
    polled expected rest (receive_cdap_response codec expected n rest) (codec.decode pdu.payload)

-- A poll every 100 milliseconds.
abbrev pub max_polls : EnrollmentConfig → ℕ
max_polls config = config.timeout_ms / 100

unfoldable pub response_in :
    Codec EnrollmentResponse → Option RibValue → Result EnrollmentError EnrollmentResponse
response_in codec none = err (invalid_response "Response does not contain value")
response_in codec (some (bytes bs)) = ok_or (codec.decode bs) deserialization_failed
response_in codec (some (string name)) = ok (record {
  accepted = true;
  error = none;
  assigned_address = none;
  dif_name = name;
  rib_snapshot = none;
})
response_in codec (some _) = err (invalid_response "Unexpected response format")

-- The RIB takes an object; that it has one of the name already is ignored.
abbrev pub put : EnrollmentManager → String → String → RibValue → ℕ → EnrollmentManager
put m name class value now = record m { rib = (create m.rib name class value now).0 }

unfoldable pub with_address : EnrollmentManager → Option ℕ → ℕ → EnrollmentManager
with_address m none now = m
with_address m (some addr) now =
    put (record m { local_addr = addr }) "/local/address" "address" (integer (as_i64 addr)) now

-- The version is noted if the snapshot was taken in.
abbrev pub snapshot_noted : EnrollmentManager → Outcome ℕ → EnrollmentManager
snapshot_noted m (r, ok n) = record m { rib = r; last_synced_version = current_version r }
snapshot_noted m (r, err e) = record m { rib = r }

unfoldable pub with_snapshot :
    Codec (List RibObject) → EnrollmentManager → Option (List ℕ) → ℕ → EnrollmentManager
with_snapshot codec m none now = m
with_snapshot codec m (some bs) now = snapshot_noted m (deserialize codec m.rib bs now)

-- What an accepted response makes of the manager.
unfoldable pub joining :
    Codec (List RibObject) → EnrollmentManager → EnrollmentResponse → ℕ → EnrollmentManager
unfolding with_address with_snapshot
joining codec m response now =
    let synced : EnrollmentManager =
      with_snapshot codec (with_address m response.assigned_address now) response.rib_snapshot
        now in
    put (record synced { state = enrolled }) "/dif/name" "dif_info" (string response.dif_name) now

abbrev pub or_no_reason : Option String → String
or_no_reason none = "No reason provided"
or_no_reason (some why) = why

-- The loop over the routes of the bootstrap process.
unfoldable pub put_routes : Rib → Fields → ℕ → Rib
put_routes r no_fields now = r
put_routes r (field dest route rest) now =
    put_routes (create r (append "/routing/static/" dest) "static_route" route now).0 rest now

abbrev pub routes_in : Rib → Option RibValue → ℕ → Rib
routes_in r (some (struct routes)) now = put_routes r routes now
routes_in r _ now = r

-- How an attempt ends.
pub data Attempt : Type 0 where
  joined : String → Attempt
  refused : EnrollmentError → Attempt
  timed_out : Attempt

module _ {A : Type 0} ⦃key : Key A⦄ (s : Services A) (peers : Map ℕ A) (now : ℕ) where
  -- A message to the bootstrap process.
  unfoldable pub ask : EnrollmentManager → ℕ → CdapMessage → Result EnrollmentError A
  ask m dst msg = do
    bs ← ok_or (s.message.encode msg) serialization_failed
    map_err send_failed (shim_send s.transmit peers (new_data m.local_addr dst 0 0 0 bs))

  abbrev pub routes_read : CdapMessage
  routes_read = new_request read_op "/routing/static/*" (some "static_route") none 2

  -- The end of an attempt: only the deadline can make it fail.
  abbrev pub routes_taken : EnrollmentManager → String → Received → EnrollmentManager × Attempt
  routes_taken m dif (message msg rest) =
      (record m { rib = routes_in m.rib msg.obj_value now }, joined dif)
  routes_taken m dif (refusal e rest) = (m, joined dif)
  routes_taken m dif cut_off = (m, timed_out)

  abbrev pub routes_asked :
      EnrollmentManager
      → String
      → List Poll
      → Result EnrollmentError A
      → EnrollmentManager × Attempt
  routes_asked m dif polls (ok addr) =
      routes_taken m dif (receive_cdap_response s.message none (max_polls m.config) polls)
  routes_asked m dif polls (err e) = (m, joined dif)

  unfoldable pub sync_routes_from_bootstrap :
      EnrollmentManager → ℕ → String → List Poll → EnrollmentManager × Attempt
  unfolding receive_cdap_response ask
  sync_routes_from_bootstrap m addr dif polls = routes_asked m dif polls (ask m addr routes_read)

  -- By whether the response accepts the request.
  abbrev pub decided :
      EnrollmentManager → ℕ → List Poll → EnrollmentResponse → Bool → EnrollmentManager × Attempt
  decided m addr polls response true =
      sync_routes_from_bootstrap (joining s.objects m response now) addr response.dif_name polls
  decided m addr polls response false = (m, refused (rejected (or_no_reason response.error)))

  abbrev pub judged :
      EnrollmentManager
      → ℕ
      → List Poll
      → Result EnrollmentError EnrollmentResponse
      → EnrollmentManager × Attempt
  judged m addr polls (err e) = (m, refused e)
  judged m addr polls (ok response) = decided m addr polls response response.accepted

  abbrev pub heard : EnrollmentManager → ℕ → Received → EnrollmentManager × Attempt
  heard m addr (message msg rest) = judged m addr rest (response_in s.response msg.obj_value)
  heard m addr (refusal e rest) = (m, refused e)
  heard m addr cut_off = (m, timed_out)

  abbrev pub enrollment_request : EnrollmentManager → String → EnrollmentRequest
  enrollment_request m name = record {
    ipcp_name = name;
    ipcp_address = m.local_addr;
    dif_name = "";
    timestamp = now;
    request_address = eqb m.local_addr 0;
  }

  abbrev pub requested : EnrollmentManager → ℕ → Option String → Result EnrollmentError A
  requested m addr name = do
    n ← ok_or name ipcp_name_not_set
    bs ← ok_or (s.request.encode (enrollment_request m n)) serialization_failed
    ask m addr (new_request create_op n (some "enrollment") (some (bytes bs)) 1)

  abbrev pub awaited :
      EnrollmentManager → ℕ → List Poll → Result EnrollmentError A → EnrollmentManager × Attempt
  awaited m addr polls (err e) = (m, refused e)
  awaited m addr polls (ok socket) =
      heard m addr (receive_cdap_response s.message (some "enrollment") (max_polls m.config) polls)

  unfoldable pub try_enrol : EnrollmentManager → ℕ → List Poll → EnrollmentManager × Attempt
  unfolding ask receive_cdap_response response_in joining sync_routes_from_bootstrap
  try_enrol m addr polls = awaited m addr polls (requested m addr m.ipcp_name)
