-- ===== src/Efcp/Delivery.antt =====
-- Delivery in order, and what becomes of PDUs that arrive early.
use ari.Base.{
  ℕ, suc, ◌+◌, ◌≤◌, ◌<◌, ◌≡◌, refl, sym, ap, Option, none, some, List, [], ◌∷◌, ◌++◌, arith, ltb,
  if◌then◌else◌, u64_mod, inc64, length, All, nat_key, string_key, Result, ok, err,
}
use ari.Pdu.{Pdu, data_pdu, ack, control, management}
use ari.Efcp.{Flow, FlowError, send_data, sent, receive_pdu, handle_data_pdu, Received, next_pdu}
use ari.Map.Laws.{length-insert}

-- The PDUs that `send_data` answers for payloads sent one after the other.
abbrev pub answered : Result FlowError Pdu → List Pdu → List Pdu
answered (ok pdu) pdus = pdu ∷ pdus
answered (err e) pdus = pdus

unfoldable pub transmit : Flow → List (List ℕ) → ℕ → List Pdu
transmit f [] now = []
transmit f (body ∷ bodies) now =
    answered (send_data f body now).1 (transmit (send_data f body now).0 bodies now)

-- The payloads that `receive_pdu` hands up for PDUs that arrive one after the other.
abbrev pub handed_up : Result FlowError (Option (List ℕ)) → List (List ℕ) → List (List ℕ)
handed_up (ok (some body)) bodies = body ∷ bodies
handed_up (ok none) bodies = bodies
handed_up (err e) bodies = bodies

unfoldable pub delivered : Flow → List Pdu → List (List ℕ)
delivered f [] = []
delivered f (pdu ∷ pdus) = handed_up (receive_pdu f pdu).1 (delivered (receive_pdu f pdu).0 pdus)

-- Room in the window for what will be sent, if the flow keeps it.
abbrev pub HasRoom : Flow → ℕ → Type 0
HasRoom f n = length f.send_window + n ≤ f.config.window_size

module _ (f : Flow) (body : List ℕ) (now : ℕ) where
  sent_accepts :
      (n : ℕ)
      → length body ≤ f.config.max_pdu_size
      → HasRoom f (suc n)
      → (send_data f body now ≡ (sent f body now, ok (next_pdu f body)))
        × HasRoom (sent f body now) n
  unfolding send_data sent
  sent_accepts n small room = (
    ground arith,
    ground (arith, length-insert f.send_window f.next_seq_num (next_pdu f body, now)),
  )

in_turn :
    (g : Flow) (pdu : Pdu)
    → pdu.sequence_num ≡ g.expected_seq_num
    → handle_data_pdu g pdu
      ≡ (record g { expected_seq_num = inc64 g.expected_seq_num }, ok (some pdu.payload))
unfolding handle_data_pdu
in_turn g pdu e = ground arith

early_buffered :
    (g : Flow) (pdu : Pdu)
    → g.expected_seq_num < pdu.sequence_num
    → handle_data_pdu g pdu ≡ (record g { receive_buffer = g.receive_buffer ++ pdu ∷ [] }, ok none)
unfolding handle_data_pdu
early_buffered g pdu h = ground arith

-- Without loss and in order, the payloads that one flow sends are what the other hands up, if
-- that expects the sender's next number, each payload fits a PDU, the window has room for all
-- and the sequence numbers do not wrap.
pub delivered-transmit :
    (f g : Flow) (bodies : List (List ℕ)) (now : ℕ)
    → g.expected_seq_num ≡ f.next_seq_num
    → f.next_seq_num + length bodies < u64_mod
    → HasRoom f (length bodies)
    → All (λ (body : List ℕ). length body ≤ f.config.max_pdu_size) bodies
    → delivered g (transmit f bodies now) ≡ bodies
unfolding delivered transmit receive_pdu
delivered-transmit f g [] now e wrap room fits = refl
delivered-transmit f g (body ∷ bodies) now e wrap room fits =
    let (accepted, room') = sent_accepts f body now (length bodies) fits.0 room in
    rw (accepted, in_turn g (next_pdu f body) (sym e))
      (ap (λ (rest : List (List ℕ)). body ∷ rest)
        (delivered-transmit (sent f body now)
          (record g { expected_seq_num = inc64 g.expected_seq_num }) bodies now
          (unfold sent in ap inc64 e) (unfold sent in omega arith) room' (unfold sent in fits.1)))

abbrev SameButBuffer : Received → Received → Type 0
SameButBuffer a b = (buffer : List Pdu) × (a ≡ (record b.0 { receive_buffer = buffer }, b.1))

receive_pdu_buffer :
    (f : Flow) (buffer : List Pdu) (pdu : Pdu)
    → SameButBuffer (receive_pdu (record f { receive_buffer = buffer }) pdu) (receive_pdu f pdu)
unfolding receive_pdu
receive_pdu_buffer f buffer pdu =
    elim pdu.pdu_type
      as (λ t.
        SameButBuffer
          (receive_pdu (record f { receive_buffer = buffer }) (record pdu { pdu_type = t }))
          (receive_pdu f (record pdu { pdu_type = t }))) [
            | data_pdu ↦ (
              if ltb f.expected_seq_num pdu.sequence_num
                  then buffer ++ record pdu { pdu_type = data_pdu } ∷ []
                  else buffer,
              ground arith,
            )
            | ack ↦ (buffer, refl)
            | control ↦ (buffer, refl)
            | management ↦ (buffer, refl)
          ]

-- Flows that differ in their receive buffers alone hand up the same.
delivered_buffer :
    (f : Flow) (buffer : List Pdu) (pdus : List Pdu)
    → delivered (record f { receive_buffer = buffer }) pdus ≡ delivered f pdus
unfolding delivered
delivered_buffer f buffer [] = refl
delivered_buffer f buffer (pdu ∷ pdus) =
    let (buffer', same) = receive_pdu_buffer f buffer pdu in
    rw same
      (ap (handed_up (receive_pdu f pdu).1) (delivered_buffer (receive_pdu f pdu).0 buffer' pdus))

-- A data PDU with a greater number than the expected one has no effect on the payloads that are
-- ever handed up, even when the missing PDU comes.
pub delivered_early :
    (f : Flow) (early : Pdu) (pdus : List Pdu)
    → early.pdu_type ≡ data_pdu
    → f.expected_seq_num < early.sequence_num
    → delivered f (early ∷ pdus) ≡ delivered f pdus
unfolding delivered receive_pdu
delivered_early f early pdus t h =
    rw (t, receive_pdu) (rw (early_buffered f early h) (delivered_buffer f _ pdus))
