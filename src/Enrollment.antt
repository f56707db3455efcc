-- ===== src/Enrollment.antt =====
-- src/enrollment.rs: the manager and its configuration, and the synchronisation of RIBs. A member
-- asks the bootstrap process for what has changed, and takes in the answer; Enrollment/Wire has how the
-- two messages go over the shim.
pub mod Joining
pub mod Bootstrap
pub mod Member
pub mod Retry
pub mod Wire
pub mod Joined
pub mod Rounds
pub mod Full
use ari.Base.{
  ℕ, String, Bool, true, false, not, Option, none, some, List, back, nat_key, string_key, Result,
  ok, err,
}
use ari.Directory.Pool
use ari.Directory.Pool.{AddressPool}
use ari.Routing.{RouteResolver, RouteError}
use ari.Rib.Value.{RibObject, RibChange, RibError}
use ari.Rib.Store.{Rib, Outcome, get_changes_since, current_version}
use ari.Rib.Receive.{Codec, serialize, deserialize, apply_changes}
use ari.Cdap.{CdapMessage, SyncRequest, SyncResponse, new_sync_request, new_sync_response}

-- The texts of postcard's errors are left out.
pub data EnrollmentError : Type 0 where
  not_enrolled no_bootstrap_peers ipcp_name_not_set : EnrollmentError
  serialization_failed deserialization_failed : EnrollmentError
  timeout : ℕ → EnrollmentError
  rejected send_failed receive_failed invalid_response address_assignment_failed :
      String → EnrollmentError
  invalid_state : String → String → EnrollmentError
  sync_refused : String → EnrollmentError
  rib_sync_failed : RibError → EnrollmentError
  route_not_added : RouteError → EnrollmentError

-- `unenrolled` is `NotEnrolled`.
pub data EnrollmentState : Type 0 where
  unenrolled initiated authenticating synchronizing enrolled : EnrollmentState
  failed : String → EnrollmentState

-- The timeout of an attempt is in milliseconds.
pub record EnrollmentConfig : Type 0 where
  pub timeout_ms : ℕ
  pub max_retries : ℕ
  pub initial_backoff_ms : ℕ
  pub heartbeat_interval_secs : ℕ
  pub connection_timeout_secs : ℕ

-- `EnrollmentConfig::default`.
abbrev pub default_config : EnrollmentConfig
default_config = record {
  timeout_ms = 5000;
  max_retries = 3;
  initial_backoff_ms = 1000;
  heartbeat_interval_secs = 30;
  connection_timeout_secs = 90;
}

-- The shim is not a field: what it holds, the table of peers, stands beside the manager.
pub record EnrollmentManager : Type 0 where
  pub state : EnrollmentState
  pub ipcp_name : Option String
  pub local_addr : ℕ
  pub rib : Rib
  pub config : EnrollmentConfig
  pub address_pool : Option AddressPool
  pub bootstrap_addr : Option ℕ
  pub last_heartbeat : Option ℕ
  pub re_enrollment_in_progress : Bool
  pub route_resolver : Option RouteResolver
  pub last_synced_version : ℕ

unfoldable pub with_config : Rib → ℕ → EnrollmentConfig → EnrollmentManager
with_config rib local config = record {
  state = unenrolled;
  ipcp_name = none;
  local_addr = local;
  rib = rib;
  config = config;
  address_pool = none;
  bootstrap_addr = none;
  last_heartbeat = none;
  re_enrollment_in_progress = false;
  route_resolver = none;
  last_synced_version = 0;
}

-- `EnrollmentManager::new`.
unfoldable pub new : Rib → ℕ → EnrollmentManager
unfolding with_config
new rib local = with_config rib local default_config

unfoldable pub new_bootstrap : Rib → ℕ → ℕ → ℕ → ℕ → EnrollmentManager
new_bootstrap rib local pool_start pool_end now = record {
  state = enrolled;
  ipcp_name = none;
  local_addr = local;
  rib = rib;
  config = default_config;
  address_pool = some (Pool.new pool_start pool_end);
  bootstrap_addr = none;
  last_heartbeat = some now;
  re_enrollment_in_progress = false;
  route_resolver = none;
  last_synced_version = 0;
}

unfoldable pub set_route_resolver : EnrollmentManager → RouteResolver → EnrollmentManager
set_route_resolver m r = record m { route_resolver = some r }

unfoldable pub set_ipcp_name : EnrollmentManager → String → EnrollmentManager
set_ipcp_name m name = record m { ipcp_name = some name; state = initiated }

abbrev pub is_enrolled_state : EnrollmentState → Bool
is_enrolled_state enrolled = true
is_enrolled_state _ = false

unfoldable pub is_enrolled : EnrollmentManager → Bool
is_enrolled m = is_enrolled_state m.state

-- The changes since the version of the member, or a snapshot when the log does not go back so far.
unfoldable pub sync_response_for : Codec (List RibObject) → Rib → ℕ → ℕ → CdapMessage
sync_response_for codec r id since = elim (get_changes_since r since) [
  | ok changes ↦ new_sync_response id (current_version r) (some changes) none none
  | err e ↦ new_sync_response id (current_version r) none (some (serialize codec r)) none
]

-- `handle_sync_request` of the bootstrap process, up to the sending of its response.
unfoldable pub handle_sync_request :
    Codec (List RibObject) → EnrollmentManager → CdapMessage → Result EnrollmentError CdapMessage
unfolding sync_response_for
handle_sync_request codec b request = elim request.sync_request [
  | none ↦ err (invalid_response "Missing sync_request")
  | some q ↦ ok (sync_response_for codec b.rib request.invoke_id q.last_known_version)
]

-- The state of a manager after synchronisation, and what it answers.
abbrev pub Synced : Type 0
Synced = EnrollmentManager × Result EnrollmentError (Unit {0})

-- The RIB has taken in what came; the version is noted if that succeeded.
abbrev pub noted : EnrollmentManager → ℕ → Outcome ℕ → Synced
noted m v (r, ok n) = (record m { rib = r; last_synced_version = v }, ok tt)
noted m v (r, err e) = (record m { rib = r }, err (rib_sync_failed e))

unfoldable pub take_in : Codec (List RibObject) → EnrollmentManager → SyncResponse → ℕ → Synced
take_in codec m resp now = elim resp.error [
  | some e ↦ (m, err (sync_refused e))
  | none ↦ elim resp.changes [
    | some changes ↦ noted m resp.current_version (apply_changes m.rib changes now)
    | none ↦ elim resp.full_snapshot [
      | some snapshot ↦ noted m resp.current_version (deserialize codec m.rib snapshot now)
      | none ↦ (m, ok tt)
    ]
  ]
]

unfoldable pub process_sync_response :
    Codec (List RibObject) → EnrollmentManager → CdapMessage → ℕ → Synced
unfolding take_in
process_sync_response codec m response now = elim response.sync_response [
  | none ↦ (m, err (invalid_response "Missing sync response"))
  | some resp ↦ take_in codec m resp now
]

-- `unwrap_or_default` of the name.
abbrev pub name_or_empty : Option String → String
name_or_empty none = ""
name_or_empty (some name) = name

abbrev pub answered :
    Codec (List RibObject) → EnrollmentManager → ℕ → Result EnrollmentError CdapMessage → Synced
answered codec m now (ok response) = process_sync_response codec m response now
answered codec m now (err e) = (m, err e)
