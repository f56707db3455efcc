-- ===== src/Examples/Joining.antt =====
-- A member that joins a bootstrap process, over codecs that write just the messages that occur.
use ari.Base.{
  ℕ, String, ◌≡◌, refl, ◌⊎◌, inl, inr, Bool, true, false, Option, none, some, List, [], ◌∷◌, arith,
  ◌==◌, nat_key, string_key, ==_iff,
}
use mathlib.Core.Option.{some-injective}
use mathlib.Core.Path.{subst}
use ari.Map.{contains_key}
use ari.Pdu.{Pdu, new_data}
use ari.Rib.Value.{ℤ, pos, RibValue, string, bytes}
use ari.Rib.Store
use ari.Rib.Store.{Rib}
use ari.Rib.Receive.{Codec}
use ari.Cdap.{CdapMessage, CdapOpCode, create_op, new_request, SyncRequest, SyncResponse}
use ari.Directory.Pool
use ari.Directory.Pool.{AddressPool, allocate, is_allocated}
use ari.Routing.{default_config}
use ari.Routing
use ari.Enrollment
use ari.Enrollment.{EnrollmentManager}
use ari.Enrollment.Joining.{EnrollmentRequest, EnrollmentResponse, Services, Node}
use ari.Enrollment.Bootstrap.Given.{Given}
use ari.Enrollment.Bootstrap.Invariant.{told, handle_all, told-Given}
use ari.Directory.Pool.Allocation.{IsPool}
use ari.Enrollment.Joined.Answer.{RoundTrips, RoundTripsPlain}

-- A codec whose encodings come with the proof that they are decoded.
abbrev Checked : {A : Type 0} → (List ℕ → Option A) → A → Type 0
Checked decode x = Option ((bs : List ℕ) × (decode bs ≡ some x))

first_of : {A : Type 0} (decode : List ℕ → Option A) (x : A) → Checked decode x → Option (List ℕ)
first_of decode x none = none
first_of decode x (some (bs, e)) = some bs

first_of_lem :
    {A : Type 0} (decode : List ℕ → Option A) (x : A) (o : Checked decode x) (bs : List ℕ)
    → first_of decode x o ≡ some bs
    → decode bs ≡ some x
unfolding first_of
first_of_lem decode x none bs h = absurd (ground arith)
first_of_lem decode x (some (cs, e)) bs h =
    subst (λ (ds : List ℕ). decode ds ≡ some x) (some-injective _ _ h) e

abbrev checked_codec :
    {A : Type 0} (decode : List ℕ → Option A) → ((x : A) → Checked decode x) → Codec A
checked_codec decode look = record { encode = λ x. first_of decode x (look x); decode = decode }

-- `Bool-cases`, which computes here.
decided : (b : Bool) → (b ≡ true) ⊎ (b ≡ false)
decided true = inl refl
decided false = inr refl

abbrev decode_message : List ℕ → Option CdapMessage
decode_message (id ∷ code ∷ bs) =
    some (record (new_request create_op "m" (some "enrollment") (some (bytes bs)) id) {
      result = pos code;
    })
decode_message _ = none

both :
    (name class : String) (id code : ℕ) (bs : List ℕ)
    → name ≡ "m"
    → class ≡ "enrollment"
    → decode_message (id ∷ code ∷ bs)
      ≡ some (record (new_request create_op name (some class) (some (bytes bs)) id) {
        result = pos code;
      })
both name class id code bs n c = rw (n, c) refl

look_message :
    (op : CdapOpCode) (name : String) (class : Option String) (value : Option RibValue) (id : ℕ)
    (code : ℤ) (reason : Option String) (sync : Option SyncRequest) (answer : Option SyncResponse)
    → Checked decode_message (record {
      op_code = op;
      obj_name = name;
      obj_class = class;
      obj_value = value;
      invoke_id = id;
      result = code;
      result_reason = reason;
      sync_request = sync;
      sync_response = answer;
    })
look_message create_op name (some class) (some (bytes bs)) id (pos code) none none none =
    elim (decided (name == "m")) [
      | inl n ↦ elim (decided (class == "enrollment")) [
        | inl c ↦ some (
          id ∷ code ∷ bs,
          both name class id code bs ((==_iff name "m").0 n) ((==_iff class "enrollment").0 c),
        )
        | inr other ↦ none
      ]
      | inr other ↦ none
    ]
look_message _ _ _ _ _ _ _ _ _ = none

abbrev message_codec : Codec CdapMessage
message_codec = checked_codec decode_message (λ m.
    look_message m.op_code m.obj_name m.obj_class m.obj_value m.invoke_id m.result m.result_reason
      m.sync_request m.sync_response)

message_codec-RoundTripsPlain : RoundTripsPlain message_codec
message_codec-RoundTripsPlain m bs plain h =
    first_of_lem decode_message m
      (look_message m.op_code m.obj_name m.obj_class m.obj_value m.invoke_id m.result
        m.result_reason m.sync_request m.sync_response)
      bs h

abbrev decode_request : List ℕ → Option EnrollmentRequest
decode_request (a ∷ t ∷ []) = some (record {
  ipcp_name = "m";
  ipcp_address = a;
  dif_name = "";
  timestamp = t;
  request_address = true;
})
decode_request _ = none

look_request :
    (name : String) (a : ℕ) (dif : String) (t : ℕ) (asks : Bool)
    → Checked decode_request (record {
      ipcp_name = name;
      ipcp_address = a;
      dif_name = dif;
      timestamp = t;
      request_address = asks;
    })
look_request name a dif t true = elim (decided (name == "m")) [
  | inl n ↦ elim (decided (dif == "")) [
    | inl d ↦ some (a ∷ t ∷ [], rw ((==_iff name "m").0 n, (==_iff dif "").0 d) refl)
    | inr other ↦ none
  ]
  | inr other ↦ none
]
look_request name a dif t false = none

abbrev request_codec : Codec EnrollmentRequest
request_codec =
    checked_codec decode_request
      (λ q. look_request q.ipcp_name q.ipcp_address q.dif_name q.timestamp q.request_address)

abbrev decode_response : List ℕ → Option EnrollmentResponse
decode_response (a ∷ snapshot) = some (record {
  accepted = true;
  error = none;
  assigned_address = some a;
  dif_name = "net";
  rib_snapshot = some snapshot;
})
decode_response _ = none

look_response :
    (accepted : Bool) (error : Option String) (a : Option ℕ) (dif : String)
    (snapshot : Option (List ℕ))
    → Checked decode_response (record {
      accepted = accepted;
      error = error;
      assigned_address = a;
      dif_name = dif;
      rib_snapshot = snapshot;
    })
look_response true none (some a) dif (some snapshot) = elim (decided (dif == "net")) [
  | inl d ↦ some (a ∷ snapshot, rw ((==_iff dif "net").0 d) refl)
  | inr other ↦ none
]
look_response _ _ _ _ _ = none

abbrev response_codec : Codec EnrollmentResponse
response_codec =
    checked_codec decode_response
      (λ o. look_response o.accepted o.error o.assigned_address o.dif_name o.rib_snapshot)

response_codec-RoundTrips : RoundTrips response_codec
response_codec-RoundTrips o bs h =
    first_of_lem decode_response o
      (look_response o.accepted o.error o.assigned_address o.dif_name o.rib_snapshot) bs h

-- A socket address is a port. The snapshot of the RIB is empty.
abbrev services : Services ℕ
services = record {
  message = message_codec;
  request = request_codec;
  response = response_codec;
  objects = record { encode = λ objs. none; decode = λ bs. none };
  transmit = λ addr pdu. none;
  show = λ port. "7000";
}

abbrev parse_port : String → Option ℕ
parse_port text = some 7000

-- The process of the network "net".
abbrev net_rib : Rib
net_rib = (Store.create Store.new "/dif/name" "dif_info" (string "net") 0).0

abbrev host : Node ℕ
host = record {
  manager =
      Enrollment.set_route_resolver (Enrollment.new_bootstrap net_rib 1 1001 1002 0)
        (Routing.new net_rib default_config);
  peers = [];
}

abbrev joiner : EnrollmentManager
joiner = Enrollment.set_ipcp_name (Enrollment.new Store.new 0) "m"

-- What the host answers to the joiner's request.
abbrev answer : Pdu
answer = new_data 1 0 0 0 0 (1 ∷ 0 ∷ 1001 ∷ [])

abbrev first_grant : AddressPool
first_grant = (allocate (Pool.new 1001 1002)).0

abbrev joiner_request : Pdu
joiner_request = new_data 0 1 0 0 0 (1 ∷ 0 ∷ 0 ∷ 5 ∷ [])

fresh-IsPool : IsPool (Pool.new 1001 1002)
unfolding Pool.new is_allocated contains_key
fresh-IsPool = record { distinct = tt; in_range = λ a h. absurd (ground arith) }

-- The same request twice.
told-Given_example :
    Given
      (Pool.new 1001 1002)
      (told services host ((joiner_request, 7000, 6) ∷ (joiner_request, 7000, 7) ∷ []))
      (handle_all services host
        ((joiner_request, 7000, 6) ∷ (joiner_request, 7000, 7) ∷ [])).manager.address_pool
unfolding Enrollment.set_route_resolver Enrollment.new_bootstrap
told-Given_example =
    told-Given services message_codec-RoundTripsPlain response_codec-RoundTrips
      ((joiner_request, 7000, 6) ∷ (joiner_request, 7000, 7) ∷ []) host (Pool.new 1001 1002) refl
      fresh-IsPool
