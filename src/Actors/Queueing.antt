-- ===== src/Actors/Queueing.antt =====
-- The RMT's output queue under the RMT actor.
use ari.Base.{
  ℕ, zero, suc, ◌+◌, ◌≤◌, ◌<◌, String, ◌≡◌, refl, sym, ap, ◌∙◌, true, false, Option, none, some, [],
  ◌∷◌, ◌++◌, arith, leb, eqb, length, length-snoc, Key, nat_key, string_key, Result, ok, err,
}
use mathlib.Core.Path.{subst}
use ari.Map.{get, insert}
use ari.Map.Laws.{get-insert_self}
use ari.Pdu.{Pdu}
use ari.Rmt
use ari.Rmt.{Rmt, RmtError, PduQueue, queue_full, lookup, kept, forward, enqueue_for, enqueue}
use ari.InterIpcpFal.{InterIpcpFlowAllocator, InterIpcpError, send_pdu}
use ari.Actors.{
  RmtActor, outgoing, rmt_failed, process_outgoing, rmt_step, passed_on, allocator_sends,
  transmitted,
}

-- The next hop of a destination that is not this process, and its queue.
pub record HasRoute (r : Rmt) (dst hop : ℕ) (q : PduQueue) : Type 0 where
  pub elsewhere : eqb dst r.local_addr ≡ false
  pub routed : lookup r dst ≡ some hop
  pub queued : get r.output_queues hop ≡ some q

module _ (r : Rmt) (pdu : Pdu) (hop : ℕ) (q : PduQueue) (v : HasRoute r pdu.dst_addr hop q) where
  process_outgoing_full :
      q.max_size ≤ length q.queue → Rmt.process_outgoing r pdu ≡ (r, err queue_full)
  unfolding Rmt.process_outgoing forward enqueue_for enqueue
  process_outgoing_full full =
      let no_room : leb q.max_size (length q.queue) ≡ true = ground arith in
      rw v.elsewhere
        (rw (v.routed, forward) (rw (v.queued, enqueue_for) (rw (no_room, enqueue) refl)))

  abbrev pub with_queued : Rmt
  with_queued = record r {
    output_queues = insert r.output_queues hop (record q { queue = q.queue ++ pdu ∷ [] });
  }

  process_outgoing_room :
      length q.queue < q.max_size → Rmt.process_outgoing r pdu ≡ (with_queued, ok hop)
  unfolding Rmt.process_outgoing forward enqueue_for enqueue
  process_outgoing_room room =
      let fits : leb q.max_size (length q.queue) ≡ false = ground arith in
      rw v.elsewhere (rw (v.routed, forward) (rw (v.queued, enqueue_for) (rw (fits, enqueue) refl)))

module _ {A : Type 0} ⦃key : Key A⦄ (transmit : A → Pdu → Option String) where
  -- Whatever the flow allocator does, it does not touch the RMT.
  transmitted-rmt :
      (a : RmtActor A) (hop : ℕ) (o : InterIpcpFlowAllocator A × Result InterIpcpError A)
      → (transmitted transmit a hop o).0.rmt ≡ a.rmt
  transmitted-rmt a hop (f, ok addr) = refl
  transmitted-rmt a hop (f, err e) = refl

  allocator_sends-rmt :
      (a : RmtActor A) (hop : ℕ) (pdu : Pdu) (now : ℕ) (o : Option (InterIpcpFlowAllocator A))
      → (allocator_sends transmit a hop pdu now o).0.rmt ≡ a.rmt
  allocator_sends-rmt a hop pdu now none = refl
  allocator_sends-rmt a hop pdu now (some f) =
      transmitted-rmt a hop (send_pdu transmit f pdu.dst_addr pdu now)

  -- A PDU that the RMT accepts stays in its queue.
  rmt_step_room :
      (a : RmtActor A) (pdu : Pdu) (now hop : ℕ) (q : PduQueue)
      (v : HasRoute a.rmt pdu.dst_addr hop q)
      → length q.queue < q.max_size
      → (rmt_step transmit a (process_outgoing pdu) now).0.rmt ≡ with_queued a.rmt pdu hop q v
  unfolding rmt_step
  rmt_step_room a pdu now hop q v room =
      ap (λ (o : Rmt × Result RmtError ℕ). (passed_on transmit a pdu now o).0.rmt)
        (process_outgoing_room a.rmt pdu hop q v room)
      ∙ allocator_sends-rmt (record a { rmt = with_queued a.rmt pdu hop q v }) hop pdu now
          a.flow_allocator

  -- The same PDU sent so many times.
  abbrev pub send_times : ℕ → RmtActor A → Pdu → ℕ → RmtActor A
  send_times zero a pdu now = a
  send_times (suc n) a pdu now =
      send_times n (rmt_step transmit a (process_outgoing pdu) now).0 pdu now

  -- After the RMT actor has sent a PDU with a route as often as the queue of its next hop had
  -- room, it refuses the PDU with the queue full and changes nothing, whatever the flow
  -- allocator made of it before.
  pub rmt_step-send_times :
      (room : ℕ) (a : RmtActor A) (pdu : Pdu) (now hop : ℕ) (q : PduQueue)
      → HasRoute a.rmt pdu.dst_addr hop q
      → length q.queue + room ≡ q.max_size
      → rmt_step transmit (send_times room a pdu now) (process_outgoing pdu) now
        ≡ (send_times room a pdu now, outgoing (err (rmt_failed queue_full)))
  unfolding rmt_step lookup
  rmt_step-send_times zero a pdu now hop q v full =
      ap (passed_on transmit a pdu now)
        (process_outgoing_full a.rmt pdu hop q v (omega (arith, full)))
  rmt_step-send_times (suc room) a pdu now hop q v some_room =
      let next : RmtActor A = (rmt_step transmit a (process_outgoing pdu) now).0 in
      let q' : PduQueue = record q { queue = q.queue ++ pdu ∷ [] } in
      let same = rmt_step_room a pdu now hop q v (omega (arith, some_room)) in
      let v' : HasRoute (with_queued a.rmt pdu hop q v) pdu.dst_addr hop q' = record {
        elsewhere = v.elsewhere;
        routed = v.routed;
        queued = get-insert_self a.rmt.output_queues hop q';
      } in
      rmt_step-send_times room next pdu now hop q'
        (subst (λ (r : Rmt). HasRoute r pdu.dst_addr hop q') (sym same) v')
        (omega (arith, length-snoc q.queue pdu, some_room))
