-- ===== src/InterIpcpFal.antt =====
-- src/inter_ipcp_fal.rs: flows to neighbouring processes, over the RIB and the UDP shim, of which
-- src/shim.rs' table of peers is modelled. A socket address is a parameter `A`, with its parser and
-- what becomes of a PDU that the socket is given. Times are nanoseconds, and an
-- argument `now`.
pub mod Mapped
pub mod Reach
pub mod Sending
use Prim.Native.String.{◌++◌ as append}
use ari.Base.{
  ℕ, ◌-◌, ◌*◌, ◌^◌, String, Bool, true, false, not, Option, none, some, List, [], ◌++◌, map, ltb,
  if◌then◌else◌, inc64, length, retain, Key, ◌==◌, nat_key, string_key, Result, ok, err, ok_or,
}
use ari.Map
use ari.Map.{Map, get, insert, remove, contains_key}
use ari.Text.{decimal}
use ari.Pdu.{Pdu}
use ari.Rib.Value.{RibObject, RibValue, struct, get_field, as_string}
use ari.Rib.Store.{Rib, read}

pub data InterIpcpFlowState : Type 0 where
  active stale_flow failed : InterIpcpFlowState

pub record InterIpcpFlow (A : Type 0) : Type 0 where
  pub remote_addr : ℕ
  pub socket_addr : A
  pub state : InterIpcpFlowState
  pub last_activity : ℕ
  pub sent_pdus : ℕ
  pub received_pdus : ℕ
  pub send_errors : ℕ

pub data InterIpcpError : Type 0 where
  no_route : ℕ → InterIpcpError
  invalid_socket_address : String → InterIpcpError
  send_error : ℕ → String → InterIpcpError

-- The allocator, with the table of peers of its shim. The RIB and the shim are shared: others change
-- the RIB and register peers between two calls.
pub record InterIpcpFlowAllocator (A : Type 0) : Type 0 where
  pub flows : Map ℕ (InterIpcpFlow A)
  pub rib : Rib
  pub peers : Map ℕ A
  pub stale_timeout : ℕ

abbrev pub is_active : InterIpcpFlowState → Bool
is_active active = true
is_active _ = false

-- A text under "next_hop_address" in an object that holds a structure.
abbrev pub next_hop_in : RibValue → Option String
next_hop_in (struct fields) = elim (get_field fields "next_hop_address") [
  | none ↦ none
  | some v ↦ as_string v
]
next_hop_in _ = none

abbrev pub next_hop_of : Option RibObject → Option String
next_hop_of none = none
next_hop_of (some obj) = next_hop_in obj.value

module _ {A : Type 0} ⦃key : Key A⦄ where
  abbrev pub new_flow : ℕ → A → ℕ → InterIpcpFlow A
  new_flow remote addr now = record {
    remote_addr = remote;
    socket_addr = addr;
    state = active;
    last_activity = now;
    sent_pdus = 0;
    received_pdus = 0;
    send_errors = 0;
  }

  abbrev pub update_address : InterIpcpFlow A → A → ℕ → InterIpcpFlow A
  update_address f addr now = record f { socket_addr = addr; last_activity = now; state = active }

  abbrev pub record_send : InterIpcpFlow A → ℕ → InterIpcpFlow A
  record_send f now = record f {
    sent_pdus = inc64 f.sent_pdus;
    last_activity = now;
    state = active;
  }

  abbrev pub record_send_error : InterIpcpFlow A → InterIpcpFlow A
  record_send_error f = record f { send_errors = inc64 f.send_errors; state = failed }

  abbrev pub record_receive : InterIpcpFlow A → ℕ → InterIpcpFlow A
  record_receive f now = record f {
    received_pdus = inc64 f.received_pdus;
    last_activity = now;
    state = active;
  }

  -- `elapsed` is 0 when the clock has not moved on.
  abbrev pub is_stale : InterIpcpFlow A → ℕ → ℕ → Bool
  is_stale f timeout now = ltb timeout (now - f.last_activity)

  -- `InterIpcpFlowAllocator::new`; a timeout of 300 seconds.
  unfoldable pub new : Rib → Map ℕ A → InterIpcpFlowAllocator A
  new rib peers = record { flows = []; rib = rib; peers = peers; stale_timeout = 300 * 10 ^ 9 }

  unfoldable pub set_stale_timeout : InterIpcpFlowAllocator A → ℕ → InterIpcpFlowAllocator A
  set_stale_timeout a timeout = record a { stale_timeout = timeout }

  -- A flow and a peer of one address.
  unfoldable pub put_flow :
      InterIpcpFlowAllocator A → ℕ → InterIpcpFlow A → InterIpcpFlowAllocator A
  put_flow a remote f = record a {
    flows = insert a.flows remote f;
    peers = insert a.peers remote f.socket_addr;
  }

  abbrev pub parsed : (String → Option A) → String → Result InterIpcpError A
  parsed parse text = ok_or (parse text) (invalid_socket_address text)

  abbrev pub first_route :
      (String → Option A) → ℕ → Option String → Option String → Result InterIpcpError A
  first_route parse remote (some text) _ = parsed parse text
  first_route parse remote none (some text) = parsed parse text
  first_route parse remote none none = err (no_route remote)

  -- Dynamic routes first, then static ones.
  unfoldable pub lookup_route : (String → Option A) → Rib → ℕ → Result InterIpcpError A
  lookup_route parse r remote =
      first_route parse remote (next_hop_of (read r (append "/routing/dynamic/" (decimal remote))))
        (next_hop_of (read r (append "/routing/static/" (decimal remote))))

  abbrev pub created :
      InterIpcpFlowAllocator A
      → ℕ
      → ℕ
      → Result InterIpcpError A
      → InterIpcpFlowAllocator A × Result InterIpcpError (Unit {0})
  created a remote now (ok addr) = (put_flow a remote (new_flow remote addr now), ok tt)
  created a remote now (err e) = (a, err e)

  -- Whether there is an active flow.
  abbrev pub has_active : Option (InterIpcpFlow A) → Bool
  has_active none = false
  has_active (some f) = is_active f.state

  unfoldable pub get_or_create_flow :
      (String → Option A)
      → InterIpcpFlowAllocator A
      → ℕ
      → ℕ
      → InterIpcpFlowAllocator A × Result InterIpcpError (Unit {0})
  unfolding put_flow lookup_route
  get_or_create_flow parse a remote now =
      if has_active (get a.flows remote)
      then (a, ok tt)
      else created a remote now (lookup_route parse a.rib remote)

  -- `if let Some(flow) = flows.get_mut(remote) { .. }`.
  unfoldable pub change_flow :
      Map ℕ (InterIpcpFlow A) → ℕ → (InterIpcpFlow A → InterIpcpFlow A) → Map ℕ (InterIpcpFlow A)
  change_flow flows remote change = elim (get flows remote) [
    | none ↦ flows
    | some f ↦ insert flows remote (change f)
  ]

  -- `send_pdu` of the shim: the address that the PDU goes to, or the error; `transmit` is the socket.
  -- The registration of a peer with the shim, also by others.
  unfoldable pub peer_registered : InterIpcpFlowAllocator A → ℕ → A → InterIpcpFlowAllocator A
  peer_registered a rina_addr socket_addr = record a {
    peers = insert a.peers rina_addr socket_addr;
  }

  unfoldable pub shim_send : (A → Pdu → Option String) → Map ℕ A → Pdu → Result String A
  shim_send transmit peers pdu = elim (get peers pdu.dst_addr) [
    | none ↦ err (append "No mapping found for RINA address " (decimal pdu.dst_addr))
    | some addr ↦ elim (transmit addr pdu) [ none ↦ ok addr | some e ↦ err e ]
  ]

  -- The outcome of the shim's sending; the address is what the PDU went to.
  abbrev pub concluded :
      InterIpcpFlowAllocator A
      → ℕ
      → Result String A
      → InterIpcpFlowAllocator A × Result InterIpcpError A
  concluded a hop (ok addr) = (a, ok addr)
  concluded a hop (err e) =
      (record a { flows = change_flow a.flows hop record_send_error }, err (send_error hop e))

  unfoldable pub send_pdu :
      (A → Pdu → Option String)
      → InterIpcpFlowAllocator A
      → ℕ
      → Pdu
      → ℕ
      → InterIpcpFlowAllocator A × Result InterIpcpError A
  unfolding change_flow shim_send
  send_pdu transmit a hop pdu now =
      concluded (record a { flows = change_flow a.flows hop (λ f. record_send f now) }) hop
        (shim_send transmit a.peers pdu)

  unfoldable pub update_peer_address :
      InterIpcpFlowAllocator A → ℕ → A → ℕ → InterIpcpFlowAllocator A
  unfolding put_flow
  update_peer_address a remote addr now = elim (get a.flows remote) [
    | some f ↦ put_flow a remote (update_address f addr now)
    | none ↦ put_flow a remote (new_flow remote addr now)
  ]

  unfoldable pub record_received_from :
      InterIpcpFlowAllocator A → ℕ → A → ℕ → InterIpcpFlowAllocator A
  unfolding put_flow
  record_received_from a remote addr now = elim (get a.flows remote) [
    | some f ↦
        if f.socket_addr == addr
        then record a { flows = insert a.flows remote (record_receive f now) }
        else put_flow a remote (update_address (record_receive f now) addr now)
    | none ↦ put_flow a remote (record_receive (new_flow remote addr now) now)
  ]

  unfoldable pub cleanup_stale_flows : InterIpcpFlowAllocator A → ℕ → InterIpcpFlowAllocator A × ℕ
  cleanup_stale_flows a now =
      let kept = Map.retain (λ _ f. not (is_stale f a.stale_timeout now)) a.flows in
      (record a { flows = kept }, length a.flows - length kept)

  unfoldable pub get_flow_stats : InterIpcpFlowAllocator A → List (ℕ × InterIpcpFlowState × ℕ × ℕ)
  get_flow_stats a = map (λ e. (e.0, e.1.state, e.1.sent_pdus, e.1.received_pdus)) a.flows

  unfoldable pub active_flow_count : InterIpcpFlowAllocator A → ℕ
  active_flow_count a = length (retain (λ f. is_active f.state) (Map.values a.flows))

  unfoldable pub close_flow : InterIpcpFlowAllocator A → ℕ → InterIpcpFlowAllocator A × Bool
  close_flow a remote = (record a { flows = remove a.flows remote }, contains_key a.flows remote)
