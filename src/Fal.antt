-- ===== src/Fal.antt =====
-- src/fal.rs: the flow allocator. Flow identifiers are 32 bits wide, request identifiers 64.
pub mod Handshake
use ari.Base.{
  ℕ, String, Bool, true, Option, none, some, [], if◌then◌else◌, inc32, inc64, length, nat_key,
  string_key, Result, ok, err,
}
use ari.Map
use ari.Map.{Map, get, insert, remove, contains_key}
use ari.Efcp.{FlowConfig, default_config}

pub record FlowAllocRequest : Type 0 where
  pub src_app_name : String
  pub dst_app_name : String
  pub src_addr : ℕ
  pub dst_addr : ℕ
  pub qos : FlowConfig
  pub request_id : ℕ

pub data FalError : Type 0 where
  flow_not_found : ℕ → FalError
  message : String → FalError

pub record FlowAllocResponse : Type 0 where
  pub request_id : ℕ
  pub success : Bool
  pub flow_id : Option ℕ
  pub error : Option String

pub data FlowState : Type 0 where
  pending allocated deallocating deallocated : FlowState

pub record AllocatedFlow : Type 0 where
  pub flow_id : ℕ
  pub src_app_name : String
  pub dst_app_name : String
  pub src_addr : ℕ
  pub dst_addr : ℕ
  pub config : FlowConfig
  pub state : FlowState

pub record FlowAllocator : Type 0 where
  pub flows : Map ℕ AllocatedFlow
  pub pending_requests : Map ℕ FlowAllocRequest
  pub next_flow_id : ℕ
  pub next_request_id : ℕ

abbrev pub new : FlowAllocator
new = record { flows = []; pending_requests = []; next_flow_id = 1; next_request_id = 1 }

unfoldable pub create_request :
    FlowAllocator → String → String → ℕ → ℕ → FlowConfig → FlowAllocator × FlowAllocRequest
create_request a src_app dst_app src dst qos =
    let request : FlowAllocRequest = record {
      src_app_name = src_app;
      dst_app_name = dst_app;
      src_addr = src;
      dst_addr = dst;
      qos = qos;
      request_id = a.next_request_id;
    } in
    (
      record a {
        next_request_id = inc64 a.next_request_id;
        pending_requests = insert a.pending_requests a.next_request_id request;
      },
      request,
    )

abbrev pub flow_for : FlowAllocRequest → ℕ → AllocatedFlow
flow_for q id = record {
  flow_id = id;
  src_app_name = q.src_app_name;
  dst_app_name = q.dst_app_name;
  src_addr = q.src_addr;
  dst_addr = q.dst_addr;
  config = q.qos;
  state = allocated;
}

unfoldable pub process_request :
    FlowAllocator → FlowAllocRequest → FlowAllocator × FlowAllocResponse
process_request a request =
    let id = a.next_flow_id in
    (
      record a { next_flow_id = inc32 id; flows = insert a.flows id (flow_for request id) },
      record { request_id = request.request_id; success = true; flow_id = some id; error = none },
    )

-- `if let Some(flow) = flows.get_mut(id) { flow.state = Allocated }`, for an identifier if there is one.
unfoldable pub set_allocated : Map ℕ AllocatedFlow → Option ℕ → Map ℕ AllocatedFlow
set_allocated flows none = flows
set_allocated flows (some id) = elim (get flows id) [
  | none ↦ flows
  | some f ↦ insert flows id (record f { state = allocated })
]

abbrev pub or_unknown : Option String → String
or_unknown none = "Unknown error"
or_unknown (some e) = e

unfoldable pub complete_request :
    FlowAllocator → FlowAllocResponse → FlowAllocator × Result FalError (Unit {0})
unfolding set_allocated
complete_request a response =
    let a' : FlowAllocator = record a {
      pending_requests = remove a.pending_requests response.request_id;
    } in
    if response.success
    then (record a' { flows = set_allocated a.flows response.flow_id }, ok tt)
    else (a', err (message (or_unknown response.error)))

unfoldable pub deallocate_flow : FlowAllocator → ℕ → FlowAllocator × Result FalError (Unit {0})
deallocate_flow a id = elim (get a.flows id) [
  | none ↦ (a, err (flow_not_found id))
  | some f ↦
      (record a { flows = remove (insert a.flows id (record f { state = deallocated })) id }, ok tt)
]

unfoldable pub get_flow : FlowAllocator → ℕ → Option AllocatedFlow
get_flow a id = get a.flows id

unfoldable pub flow_count : FlowAllocator → ℕ
flow_count a = length a.flows

unfoldable pub pending_count : FlowAllocator → ℕ
pending_count a = length a.pending_requests
