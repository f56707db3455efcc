-- ===== src/Efcp.antt =====
-- src/efcp.rs: flows with a send window, and the table of flows. The time `now` is an argument.
pub mod Window
pub mod Delivery
pub mod Table
use ari.Base.{
  ℕ, ◌+◌, ◌-◌, ◌%◌, Bool, true, Option, none, some, List, [], ◌∷◌, ◌++◌, map, ltb, leb, eqb,
  if◌then◌else◌, u64_mod, inc32, inc64, length, retain, back, nat_key, string_key, Result, ok, err,
}
use ari.Map
use ari.Map.{Map, get, insert, remove}
use ari.Pdu.{Pdu, PduType, data_pdu, ack, control, management, new_data}

pub record FlowConfig : Type 0 where
  pub max_pdu_size : ℕ
  pub window_size : ℕ
  pub reliable : Bool
  pub retransmit_timeout_ms : ℕ

-- `FlowConfig::default`.
abbrev pub default_config : FlowConfig
default_config = record {
  max_pdu_size = 1500;
  window_size = 64;
  reliable = true;
  retransmit_timeout_ms = 1000;
}

pub record Flow : Type 0 where
  pub flow_id : ℕ
  pub local_cep_id : ℕ
  pub remote_cep_id : ℕ
  pub local_addr : ℕ
  pub remote_addr : ℕ
  pub config : FlowConfig
  pub next_seq_num : ℕ
  pub expected_seq_num : ℕ
  pub send_window : Map ℕ (Pdu × ℕ)
  pub receive_buffer : List Pdu

pub data FlowError : Type 0 where
  payload_too_large : ℕ → ℕ → FlowError
  window_full : FlowError
  flow_not_found : ℕ → FlowError

-- `Flow::new`.
abbrev pub new_flow : ℕ → ℕ → ℕ → ℕ → ℕ → FlowConfig → Flow
new_flow flow_id local_cep remote_cep local remote config = record {
  flow_id = flow_id;
  local_cep_id = local_cep;
  remote_cep_id = remote_cep;
  local_addr = local;
  remote_addr = remote;
  config = config;
  next_seq_num = 0;
  expected_seq_num = 0;
  send_window = [];
  receive_buffer = [];
}

abbrev pub next_pdu : Flow → List ℕ → Pdu
next_pdu f body =
    new_data f.local_addr f.remote_addr f.local_cep_id f.remote_cep_id f.next_seq_num body

-- A reliable flow keeps what it has sent, with the time.
unfoldable pub remember : Flow → Pdu → ℕ → Map ℕ (Pdu × ℕ)
remember f pdu now =
    if f.config.reliable then insert f.send_window f.next_seq_num (pdu, now) else f.send_window

unfoldable pub sent : Flow → List ℕ → ℕ → Flow
unfolding remember
sent f body now = record f {
  send_window = remember f (next_pdu f body) now;
  next_seq_num = inc64 f.next_seq_num;
}

unfoldable pub send_data : Flow → List ℕ → ℕ → Flow × Result FlowError Pdu
unfolding sent
send_data f body now =
    if ltb f.config.max_pdu_size (length body)
    then (f, err (payload_too_large (length body) f.config.max_pdu_size))
    else if leb f.config.window_size (length f.send_window)
    then (f, err window_full)
    else (sent f body now, ok (next_pdu f body))

abbrev pub Received : Type 0
Received = Flow × Result FlowError (Option (List ℕ))

unfoldable pub handle_data_pdu : Flow → Pdu → Received
handle_data_pdu f pdu =
    if eqb pdu.sequence_num f.expected_seq_num
    then (record f { expected_seq_num = inc64 f.expected_seq_num }, ok (some pdu.payload))
    else if ltb f.expected_seq_num pdu.sequence_num
    then (record f { receive_buffer = f.receive_buffer ++ pdu ∷ [] }, ok none)
    else (f, ok none)

unfoldable pub handle_ack_pdu : Flow → Pdu → Received
handle_ack_pdu f pdu = (
  record f { send_window = Map.retain (λ seq _. ltb pdu.sequence_num seq) f.send_window },
  ok none,
)

unfoldable pub handle_control_pdu : Flow → Pdu → Received
handle_control_pdu f pdu = (f, ok none)

unfoldable pub handle_management_pdu : Flow → Pdu → Received
handle_management_pdu f pdu = (f, ok none)

unfoldable pub receive_pdu : Flow → Pdu → Received
unfolding handle_data_pdu handle_ack_pdu handle_control_pdu handle_management_pdu
receive_pdu f pdu = elim pdu.pdu_type [
  | data_pdu ↦ handle_data_pdu f pdu
  | ack ↦ handle_ack_pdu f pdu
  | control ↦ handle_control_pdu f pdu
  | management ↦ handle_management_pdu f pdu
]

-- `now - timestamp` on a u64, which wraps when the clock has gone back.
abbrev pub age : ℕ → ℕ → ℕ
age now timestamp = (now + u64_mod - timestamp) % u64_mod

unfoldable pub check_retransmits : Flow → ℕ → List Pdu
check_retransmits f now =
    if f.config.reliable
    then map (λ e. e.0)
        (retain (λ e. ltb f.config.retransmit_timeout_ms (age now e.1)) (Map.values f.send_window))
    else []

unfoldable pub send_window_size : Flow → ℕ
send_window_size f = length f.send_window

pub record Efcp : Type 0 where
  pub flows : Map ℕ Flow
  pub next_flow_id : ℕ

-- `Efcp::new`.
abbrev pub new : Efcp
new = record { flows = []; next_flow_id = 1 }

unfoldable pub allocate_flow : Efcp → ℕ → ℕ → FlowConfig → Efcp × ℕ
allocate_flow e local remote config =
    let id = e.next_flow_id in
    (
      record {
        flows = insert e.flows id (new_flow id id 0 local remote config);
        next_flow_id = inc32 id;
      },
      id,
    )

unfoldable pub get_flow : Efcp → ℕ → Option Flow
get_flow e id = get e.flows id

unfoldable pub deallocate_flow : Efcp → ℕ → Efcp × Result FlowError (Unit {0})
deallocate_flow e id = elim (get e.flows id) [
  | none ↦ (e, err (flow_not_found id))
  | some f ↦ (record e { flows = remove e.flows id }, ok tt)
]

unfoldable pub flow_count : Efcp → ℕ
flow_count e = length e.flows
