-- ===== src/Cdap.antt =====
-- src/cdap.rs: the messages for operations on a remote RIB, and what a session does with them. An
-- i32 result is an integer, a status text a string; serde's form of a message is not modelled.
pub mod Session
pub mod Remote
use Prim.Native.String.{◌++◌ as append}
use ari.Base.{
  ℕ, String, Bool, false, not, Option, none, some, List, ◌++◌, eqb, if◌then◌else◌, is_some, nat_key,
  string_key, ok, err,
}
use ari.Rib.Value.{
  ℤ, pos, negsuc, RibValue, RibChange, RibError, already_exists, not_found, too_old,
  deserialize_failed, RibObject,
}
use ari.Rib.Store.{Rib, create, read, update, delete, Outcome}

pub data CdapOpCode : Type 0 where
  create_op delete_op read_op write_op start_op stop_op : CdapOpCode

-- `Display` of the code.
pub display : CdapOpCode → String
display create_op = "CREATE"
display delete_op = "DELETE"
display read_op = "READ"
display write_op = "WRITE"
display start_op = "START"
display stop_op = "STOP"

pub record SyncRequest : Type 0 where
  pub last_known_version : ℕ
  pub requester : String

pub record SyncResponse : Type 0 where
  pub current_version : ℕ
  pub changes : Option (List RibChange)
  pub full_snapshot : Option (List ℕ)
  pub error : Option String

pub record CdapMessage : Type 0 where
  pub op_code : CdapOpCode
  pub obj_name : String
  pub obj_class : Option String
  pub obj_value : Option RibValue
  pub invoke_id : ℕ
  pub result : ℤ
  pub result_reason : Option String
  pub sync_request : Option SyncRequest
  pub sync_response : Option SyncResponse

abbrev pub new_request : CdapOpCode → String → Option String → Option RibValue → ℕ → CdapMessage
new_request op_code obj_name obj_class obj_value invoke_id = record {
  op_code = op_code;
  obj_name = obj_name;
  obj_class = obj_class;
  obj_value = obj_value;
  invoke_id = invoke_id;
  result = pos 0;
  result_reason = none;
  sync_request = none;
  sync_response = none;
}

abbrev pub new_response : ℕ → ℤ → Option String → CdapMessage
new_response invoke_id result result_reason = record {
  op_code = read_op;
  obj_name = "";
  obj_class = none;
  obj_value = none;
  invoke_id = invoke_id;
  result = result;
  result_reason = result_reason;
  sync_request = none;
  sync_response = none;
}

abbrev pub new_sync_request : ℕ → ℕ → String → CdapMessage
new_sync_request invoke_id last_known_version requester = record {
  op_code = read_op;
  obj_name = "rib_sync";
  obj_class = some "sync";
  obj_value = none;
  invoke_id = invoke_id;
  result = pos 0;
  result_reason = none;
  sync_request = some (record { last_known_version = last_known_version; requester = requester });
  sync_response = none;
}

abbrev pub new_sync_response :
    ℕ → ℕ → Option (List RibChange) → Option (List ℕ) → Option String → CdapMessage
new_sync_response invoke_id current_version changes full_snapshot error = record {
  op_code = read_op;
  obj_name = "rib_sync";
  obj_class = some "sync";
  obj_value = none;
  invoke_id = invoke_id;
  result = if is_some error then pos 1 else pos 0;
  result_reason = error;
  sync_request = none;
  sync_response = some (record {
    current_version = current_version;
    changes = changes;
    full_snapshot = full_snapshot;
    error = error;
  });
}

abbrev pub is_zero : ℤ → Bool
is_zero (pos n) = eqb n 0
is_zero (negsuc n) = false

unfoldable pub is_success : CdapMessage → Bool
is_success m = is_zero m.result

-- The text of an error that `create`, `update` and `delete` of the RIB answer; they have no other.
abbrev pub reason : RibError → String
reason (already_exists name) = append "Object '" (append name "' already exists")
reason (not_found name) = append "Object '" (append name "' not found")
reason (too_old since oldest) = ""
reason deserialize_failed = ""

-- A result of -1 with its reason.
abbrev pub failed : ℕ → String → CdapMessage
failed invoke_id why = new_response invoke_id (negsuc 0) (some why)

abbrev pub acknowledged : ℕ → Outcome (Unit {0}) → Rib × CdapMessage
acknowledged id (r, ok done) = (r, new_response id (pos 0) none)
acknowledged id (r, err e) = (r, failed id (reason e))

unfoldable pub handle_create : Rib → CdapMessage → ℕ → Rib × CdapMessage
handle_create r msg now = elim msg.obj_class [
  | none ↦ (r, failed msg.invoke_id "Missing class or value for CREATE")
  | some class ↦ elim msg.obj_value [
    | none ↦ (r, failed msg.invoke_id "Missing class or value for CREATE")
    | some value ↦ acknowledged msg.invoke_id (create r msg.obj_name class value now)
  ]
]

unfoldable pub handle_read : Rib → CdapMessage → Rib × CdapMessage
handle_read r msg = elim (read r msg.obj_name) [
  | some obj ↦ (
    r,
    record (new_response msg.invoke_id (pos 0) none) {
      obj_value = some obj.value;
      obj_class = some obj.class;
    },
  )
  | none ↦ (r, failed msg.invoke_id (append "Object '" (append msg.obj_name "' not found")))
]

unfoldable pub handle_write : Rib → CdapMessage → ℕ → Rib × CdapMessage
handle_write r msg now = elim msg.obj_value [
  | none ↦ (r, failed msg.invoke_id "Missing value for WRITE")
  | some value ↦ acknowledged msg.invoke_id (update r msg.obj_name value now)
]

unfoldable pub handle_delete : Rib → CdapMessage → ℕ → Rib × CdapMessage
handle_delete r msg now = acknowledged msg.invoke_id (delete r msg.obj_name now)

unfoldable pub process_message : Rib → CdapMessage → ℕ → Rib × CdapMessage
unfolding handle_create handle_read handle_write handle_delete
process_message r msg now = elim msg.op_code [
  | create_op ↦ handle_create r msg now
  | read_op ↦ handle_read r msg
  | write_op ↦ handle_write r msg now
  | delete_op ↦ handle_delete r msg now
  | start_op ↦ (r, failed msg.invoke_id "Operation not yet implemented")
  | stop_op ↦ (r, failed msg.invoke_id "Operation not yet implemented")
]
