-- ===== src/InterIpcpFal/Sending.antt =====
-- What connecting, sending and cleaning up do to the flows, on every branch.
use Prim.Native.String.{◌++◌ as append}
use mathlib.Core.Option.{some-injective}
use ari.Text.{decimal}
use ari.Base.{
  ℕ, String, ◌≡◌, refl, sym, ◌∙◌, ◌≢◌, ◌⊎◌, inl, inr, Option, none, some, arith, if◌then◌else◌,
  Option-cases, Key, ◌==◌, nat_key, string_key, ==_iff, Result, ok, err,
}
use ari.Map.{Map, get}
use ari.Map.Laws.{get-insert}
use ari.Pdu.{Pdu}
use ari.InterIpcpFal.{
  InterIpcpFlow, InterIpcpFlowAllocator, InterIpcpError, change_flow, send_pdu, shim_send,
  record_send, record_send_error,
}

-- A flow of the table with a change, if there is one.
abbrev pub changed {ℓ} : {F : Type ℓ} → (F → F) → Option F → Option F
changed change none = none
changed change (some f) = some (change f)

module _ {A : Type 0} ⦃key : Key A⦄ where
  get-change_flow :
      (flows : Map ℕ (InterIpcpFlow A)) (remote j : ℕ) (change : InterIpcpFlow A → InterIpcpFlow A)
      → get (change_flow flows remote change) j
        ≡ (if remote == j then changed change (get flows remote) else get flows j)
  unfolding change_flow
  get-change_flow flows remote j change = elim (Option-cases (get flows remote)) [
    | inl missing ↦ rw (missing, change_flow) (ground (arith, missing, ==_iff remote j))
    | inr (f, found) ↦ rw (found, change_flow) (get-insert flows remote j (change f))
  ]

  get-change_flow_twice :
      (flows : Map ℕ (InterIpcpFlow A)) (remote : ℕ) (c d : InterIpcpFlow A → InterIpcpFlow A)
      → (j : ℕ)
      → get (change_flow (change_flow flows remote c) remote d) j
        ≡ (if remote == j then changed (λ f. d (c f)) (get flows remote) else get flows j)
  get-change_flow_twice flows remote c d j =
      let once : get (change_flow flows remote c) remote ≡ changed c (get flows remote) =
        ground (arith, get-change_flow flows remote remote c) in
      let twice = get-change_flow (change_flow flows remote c) remote j d in
      elim (Option-cases (get flows remote)) [
        | inl missing ↦ ground (arith, once, twice, missing, get-change_flow flows remote j c)
        | inr (f, found) ↦ ground (arith, once, twice, found, get-change_flow flows remote j c)
      ]

  -- The PDU goes to the socket address that the shim has for its destination, whatever the next hop,
  -- and counts as sent for the next hop's flow; a failure counts there as sent and as an error.
  abbrev pub Sends :
      (A → Pdu → Option String)
      → InterIpcpFlowAllocator A
      → ℕ
      → Pdu
      → ℕ
      → InterIpcpFlowAllocator A × Result InterIpcpError A
      → Type 0
  Sends transmit a hop pdu now (a', ok addr) =
      (get a.peers pdu.dst_addr ≡ some addr)
      × (transmit addr pdu ≡ none)
      × ((j : ℕ)
          → get a'.flows j ≡ (
              if hop == j
              then changed (λ f. record_send f now) (get a.flows hop)
              else get a.flows j))
  Sends transmit a hop pdu now (a', err e) =
      ((addr : A) → get a.peers pdu.dst_addr ≡ some addr → transmit addr pdu ≢ none)
      × ((j : ℕ)
          → get a'.flows j ≡ (
              if hop == j
              then changed (λ f. record_send_error (record_send f now)) (get a.flows hop)
              else get a.flows j))

  shim_send_cases :
      (transmit : A → Pdu → Option String) (peers : Map ℕ A) (pdu : Pdu)
      → ((addr : A) × (shim_send transmit peers pdu ≡ ok addr)
          × (get peers pdu.dst_addr ≡ some addr)
          × (transmit addr pdu ≡ none))
        ⊎ ((e : String) × (shim_send transmit peers pdu ≡ err e)
            × ((addr : A) → get peers pdu.dst_addr ≡ some addr → transmit addr pdu ≢ none))
  unfolding shim_send
  shim_send_cases transmit peers pdu = elim (Option-cases (get peers pdu.dst_addr)) [
    | inl missing ↦ inr (
      append "No mapping found for RINA address " (decimal pdu.dst_addr),
      rw (missing, shim_send) refl,
      λ addr found sent. cc,
    )
    | inr (addr, found) ↦ elim (Option-cases (transmit addr pdu)) [
      | inl sent ↦ inl (addr, rw (found, shim_send) (rw sent refl), found, sent)
      | inr (e, lost) ↦ inr (
        e,
        rw (found, shim_send) (rw lost refl),
        λ other found' sent. cc (some-injective addr other (sym found ∙ found'), lost, sent),
      )
    ]
  ]

  -- A PDU that is sent goes to the socket address that the shim has for its destination,
  -- whatever the next hop is, and counts as sent for the flow to the next hop; one that cannot
  -- be sent counts there as sent and as an error. No other flow changes.
  pub send_pdu-Sends :
      (transmit : A → Pdu → Option String) (a : InterIpcpFlowAllocator A) (hop : ℕ) (pdu : Pdu)
      (now : ℕ)
      → Sends transmit a hop pdu now (send_pdu transmit a hop pdu now)
  unfolding send_pdu
  send_pdu-Sends transmit a hop pdu now =
      let sends : (j : ℕ)
          → get (change_flow a.flows hop (λ f. record_send f now)) j ≡ (
              if hop == j
              then changed (λ f. record_send f now) (get a.flows hop)
              else get a.flows j) =
        λ j. get-change_flow a.flows hop j (λ f. record_send f now) in
      elim (shim_send_cases transmit a.peers pdu) [
        | inl (addr, e, known, sent) ↦ rw e (known, sent, sends)
        | inr (why, e, lost) ↦
            rw e
              (lost, get-change_flow_twice a.flows hop (λ f. record_send f now) record_send_error)
      ]
