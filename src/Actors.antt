-- ===== src/Actors.antt =====
-- src/actors.rs: the messages of the actors and what each actor does with one, and a packet that the
-- receiver task takes from the socket. An actor handles one message at a time, and the EFCP actor waits
-- for the RMT actor's answer, so a message is a step. The shim's actor only calls
-- the socket.
pub mod Receiving
pub mod Queueing
use ari.Base.{
  ℕ, String, Bool, not, Option, none, some, List, eqb, if◌then◌else◌, Key, nat_key, string_key,
  Result, ok, err,
}
use ari.Map.{Map, get, insert}
use ari.Pdu.{Pdu}
use ari.Rib.Value.{RibValue, RibObject, RibError}
use ari.Rib.Store
use ari.Rib.Store.{Rib}
use ari.Efcp
use ari.Efcp.{
  Efcp, Flow, FlowConfig, FlowError, flow_not_found, allocate_flow, deallocate_flow, send_data,
  receive_pdu, flow_count,
}
use ari.Rmt
use ari.Rmt.{
  Rmt, ForwardingEntry, RmtError, add_forwarding_entry, dequeue_for_next_hop, forwarding_table_size,
}
use ari.InterIpcpFal.{InterIpcpFlowAllocator, InterIpcpError, send_pdu}

pub data RibMessage : Type 0 where
  create_object : String → String → RibValue → RibMessage
  read_object : String → RibMessage
  update_object : String → RibValue → RibMessage
  delete_object : String → RibMessage
  list_by_class : String → RibMessage
  count : RibMessage

pub data RibReply : Type 0 where
  done : Result RibError (Unit {0}) → RibReply
  value : Option RibValue → RibReply
  names : List String → RibReply
  counted : ℕ → RibReply

abbrev pub replied : Rib × Result RibError (Unit {0}) → Rib × RibReply
replied (r, o) = (r, done o)

abbrev pub value_of : Option RibObject → Option RibValue
value_of none = none
value_of (some obj) = some obj.value

-- The body of the RIB actor's loop.
unfoldable pub rib_step : Rib → RibMessage → ℕ → Rib × RibReply
rib_step r (create_object name class v) now = replied (Store.create r name class v now)
rib_step r (read_object name) now = (r, value (value_of (Store.read r name)))
rib_step r (update_object name v) now = replied (Store.update r name v now)
rib_step r (delete_object name) now = replied (Store.delete r name now)
rib_step r (list_by_class class) now = (r, names (Store.list_by_class r class))
rib_step r count now = (r, counted (Store.count r))

pub data RmtMessage : Type 0 where
  add_entry : ForwardingEntry → RmtMessage
  process_outgoing : Pdu → RmtMessage
  process_incoming : Pdu → RmtMessage
  dequeue_for : ℕ → RmtMessage
  get_table_size : RmtMessage

pub data ActorError : Type 0 where
  rmt_failed : RmtError → ActorError
  flow_allocator_failed : InterIpcpError → ActorError
  flow_allocator_missing : ActorError

pub data RmtReply : Type 0 where
  added : RmtReply
  outgoing : Result ActorError ℕ → RmtReply
  incoming : Result RmtError (Option ℕ) → RmtReply
  dequeued : Option Pdu → RmtReply
  table_size : ℕ → RmtReply

-- The resolver of the actor is not used.
pub record RmtActor (A : Type 0) : Type 0 where
  pub rmt : Rmt
  pub flow_allocator : Option (InterIpcpFlowAllocator A)

pub data EfcpMessage : Type 0 where
  allocate : ℕ → ℕ → FlowConfig → EfcpMessage
  send_data_on : ℕ → List ℕ → EfcpMessage
  receive : Pdu → EfcpMessage
  deallocate : ℕ → EfcpMessage
  get_flow_count : EfcpMessage

pub data EfcpReply : Type 0 where
  allocated : ℕ → EfcpReply
  data_sent : Result FlowError Pdu → EfcpReply
  data_received : Result FlowError (Option (List ℕ)) → EfcpReply
  deallocated : Result FlowError (Unit {0}) → EfcpReply
  flow_total : ℕ → EfcpReply

-- EFCP with its handle to the RMT, if that is set.
pub record Stack (A : Type 0) : Type 0 where
  pub efcp : Efcp
  pub rmt_actor : RmtActor A
  pub has_rmt_handle : Bool

module _ {A : Type 0} ⦃key : Key A⦄ (transmit : A → Pdu → Option String) where
  -- `RmtActor::new`.
  abbrev pub new_rmt_actor : ℕ → RmtActor A
  new_rmt_actor local = record { rmt = Rmt.new local; flow_allocator = none }

  unfoldable pub set_flow_allocator : RmtActor A → InterIpcpFlowAllocator A → RmtActor A
  set_flow_allocator a f = record a { flow_allocator = some f }

  abbrev pub transmitted :
      RmtActor A → ℕ → InterIpcpFlowAllocator A × Result InterIpcpError A → RmtActor A × RmtReply
  transmitted a hop (f, ok addr) = (record a { flow_allocator = some f }, outgoing (ok hop))
  transmitted a hop (f, err e) =
      (record a { flow_allocator = some f }, outgoing (err (flow_allocator_failed e)))

  abbrev pub allocator_sends :
      RmtActor A → ℕ → Pdu → ℕ → Option (InterIpcpFlowAllocator A) → RmtActor A × RmtReply
  allocator_sends a hop pdu now none = (a, outgoing (err flow_allocator_missing))
  allocator_sends a hop pdu now (some f) =
      transmitted a hop (send_pdu transmit f pdu.dst_addr pdu now)

  -- What the RMT accepted goes to the flow allocator at once, by the address of its destination.
  abbrev pub passed_on : RmtActor A → Pdu → ℕ → Rmt × Result RmtError ℕ → RmtActor A × RmtReply
  passed_on a pdu now (r, err e) = (record a { rmt = r }, outgoing (err (rmt_failed e)))
  passed_on a pdu now (r, ok hop) =
      allocator_sends (record a { rmt = r }) hop pdu now a.flow_allocator

  abbrev pub with_incoming : RmtActor A → Rmt × Result RmtError (Option ℕ) → RmtActor A × RmtReply
  with_incoming a (r, o) = (record a { rmt = r }, incoming o)

  abbrev pub with_dequeued : RmtActor A → Rmt × Option Pdu → RmtActor A × RmtReply
  with_dequeued a (r, o) = (record a { rmt = r }, dequeued o)

  -- The body of the RMT actor's loop.
  unfoldable pub rmt_step : RmtActor A → RmtMessage → ℕ → RmtActor A × RmtReply
  rmt_step a (add_entry entry) now = (record a { rmt = add_forwarding_entry a.rmt entry }, added)
  rmt_step a (process_outgoing pdu) now = passed_on a pdu now (Rmt.process_outgoing a.rmt pdu)
  rmt_step a (process_incoming pdu) now = with_incoming a (Rmt.process_incoming a.rmt pdu)
  rmt_step a (dequeue_for hop) now = with_dequeued a (dequeue_for_next_hop a.rmt hop)
  rmt_step a get_table_size now = (a, table_size (forwarding_table_size a.rmt))

  -- A flow that a method has changed is in the table of flows.
  abbrev pub put_flow : Stack A → ℕ → Flow → Stack A
  put_flow k id f = record k { efcp = record k.efcp { flows = insert k.efcp.flows id f } }

  -- A PDU that was made goes to the RMT; what the RMT answers is ignored.
  abbrev pub forwarded : Stack A → ℕ → Result FlowError Pdu → Stack A
  forwarded k now (err e) = k
  forwarded k now (ok pdu) =
      if k.has_rmt_handle
      then record k { rmt_actor = (rmt_step k.rmt_actor (process_outgoing pdu) now).0 }
      else k

  abbrev pub data_passed : Stack A → ℕ → ℕ → Flow × Result FlowError Pdu → Stack A × EfcpReply
  data_passed k id now (f, o) = (forwarded (put_flow k id f) now o, data_sent o)

  abbrev pub data_taken :
      Stack A → ℕ → Flow × Result FlowError (Option (List ℕ)) → Stack A × EfcpReply
  data_taken k id (f, o) = (put_flow k id f, data_received o)

  abbrev pub send_on : Stack A → ℕ → List ℕ → ℕ → Option Flow → Stack A × EfcpReply
  send_on k id body now none = (k, data_sent (err (flow_not_found id)))
  send_on k id body now (some f) = data_passed k id now (send_data f body now)

  abbrev pub receive_on : Stack A → Pdu → Option Flow → Stack A × EfcpReply
  receive_on k pdu none = (k, data_received (err (flow_not_found pdu.dst_cep_id)))
  receive_on k pdu (some f) = data_taken k pdu.dst_cep_id (receive_pdu f pdu)

  -- The body of the EFCP actor's loop.
  unfoldable pub efcp_step : Stack A → EfcpMessage → ℕ → Stack A × EfcpReply
  unfolding rmt_step
  efcp_step k (allocate local remote config) now = (
    record k { efcp = (allocate_flow k.efcp local remote config).0 },
    allocated (allocate_flow k.efcp local remote config).1,
  )
  efcp_step k (send_data_on id body) now = send_on k id body now (get k.efcp.flows id)
  efcp_step k (receive pdu) now = receive_on k pdu (get k.efcp.flows pdu.dst_cep_id)
  efcp_step k (deallocate id) now =
      (record k { efcp = (deallocate_flow k.efcp id).0 }, deallocated (deallocate_flow k.efcp id).1)
  efcp_step k get_flow_count now = (k, flow_total (flow_count k.efcp))

  -- A PDU that the RMT has looked at goes to EFCP if the RMT answered the local address.
  abbrev pub delivered : ℕ → Pdu → ℕ → Stack A → RmtReply → Stack A
  delivered local pdu now k (incoming (ok (some addr))) =
      if eqb addr local then (efcp_step k (receive pdu) now).0 else k
  delivered local pdu now k _ = k

  abbrev pub received : ℕ → ℕ → Stack A → Option Pdu → Stack A
  received local now k none = k
  received local now k (some pdu) =
      delivered local pdu now
        (record k { rmt_actor = (rmt_step k.rmt_actor (process_incoming pdu) now).0 })
        (rmt_step k.rmt_actor (process_incoming pdu) now).1

  -- `spawn_receiver`, for a packet from the socket; `decode` is postcard.
  unfoldable pub receive_packet : (List ℕ → Option Pdu) → ℕ → Stack A → List ℕ → ℕ → Stack A
  unfolding efcp_step
  receive_packet decode local k packet now = received local now k (decode packet)
