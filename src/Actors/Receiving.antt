-- ===== src/Actors/Receiving.antt =====
-- What becomes of a packet that the receiver task takes from the socket.
use ari.Base.{
  ℕ, String, ◌≡◌, refl, ap, ◌∙◌, true, Option, none, some, List, arith, eqb, Key, nat_key,
  string_key, Result, ok,
}
use ari.Pdu.{Pdu}
use ari.Rmt
use ari.Rmt.{Rmt, RmtError, lookup, kept, forward, enqueue_for}
use ari.Actors.{Stack, rmt_step, with_incoming, delivered, received, receive_packet}

-- What the RMT answers about a PDU for another process: the next hop, if it took the PDU.
incoming_local :
    (r : Rmt) (pdu : Pdu) → pdu.dst_addr ≡ r.local_addr → Rmt.process_incoming r pdu ≡ (r, ok none)
unfolding Rmt.process_incoming
incoming_local r pdu same =
    let here : eqb pdu.dst_addr r.local_addr ≡ true = ground arith in rw here refl

module _ {A : Type 0} ⦃key : Key A⦄ (transmit : A → Pdu → Option String) where
  -- A packet with a PDU for this process changes nothing: the receiver task does not hand it to
  -- EFCP.
  pub receive_packet_local :
      (decode : List ℕ → Option Pdu) (k : Stack A) (packet : List ℕ) (pdu : Pdu) (now : ℕ)
      → decode packet ≡ some pdu
      → pdu.dst_addr ≡ k.rmt_actor.rmt.local_addr
      → receive_packet transmit decode k.rmt_actor.rmt.local_addr k packet now ≡ k
  unfolding receive_packet rmt_step
  receive_packet_local decode k packet pdu now decodes same =
      let local : ℕ = k.rmt_actor.rmt.local_addr in
      ap (received transmit local now k) decodes
      ∙ ap
          (λ (o : Rmt × Result RmtError (Option ℕ)).
            delivered transmit local pdu now
              (record k { rmt_actor = (with_incoming transmit k.rmt_actor o).0 })
              (with_incoming transmit k.rmt_actor o).1)
          (incoming_local k.rmt_actor.rmt pdu same)
