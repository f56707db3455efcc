-- ===== src/Efcp/Window.antt =====
-- The send window: what is sent and not acknowledged.
use ari.Base.{
  ℕ, ◌+◌, ◌≤◌, ◌<◌, ◌≡◌, inl, inr, Bool, none, some, List, [], ◌∷◌, arith, ltb, leb, if◌then◌else◌,
  Bool-cases, u64_mod, length, nat_key, string_key,
}
use ari.Map.{Map, get, insert}
use ari.Map.Laws.{Distinct, get-insert, insert-Distinct, length-insert, get-retain, retain-Distinct}
use ari.Pdu.{Pdu, data_pdu, ack, control, management}
use ari.Efcp.{Flow, send_data, sent, next_pdu, receive_pdu, handle_ack_pdu, handle_data_pdu}

-- A flow has room for what it keeps, and keeps each PDU under its own number, which it has used.
pub record IsWindowed (f : Flow) : Type 0 where
  pub distinct : Distinct f.send_window
  pub bounded : length f.send_window ≤ f.config.window_size
  pub used :
      (seq : ℕ) (e : Pdu × ℕ)
      → get f.send_window seq ≡ some e
      → (e.0.sequence_num ≡ seq) × (seq < f.next_seq_num)

length-retain-le :
    (p : ℕ → Pdu × ℕ → Bool) (m : Map ℕ (Pdu × ℕ)) → length (ari.Map.retain p m) ≤ length m
unfolding ari.Map.retain
length-retain-le p [] = omega arith
length-retain-le p ((j, e) ∷ m) = ground (arith, length-retain-le p m)

sent-IsWindowed :
    (f : Flow) (body : List ℕ) (now : ℕ)
    → f.next_seq_num + 1 < u64_mod
    → length f.send_window < f.config.window_size
    → IsWindowed f
    → IsWindowed (sent f body now)
unfolding sent
sent-IsWindowed f body now room space v =
    let kept : Pdu × ℕ = (next_pdu f body, now) in
    record {
      distinct = ground (arith, insert-Distinct f.send_window f.next_seq_num kept v.distinct);
      bounded = ground (arith, length-insert f.send_window f.next_seq_num kept);
      used =
          λ seq e h. ground (arith, get-insert f.send_window f.next_seq_num seq kept, v.used seq e);
    }

-- Sending, accepted or refused, keeps a well-formed send window so: within its size, and each
-- PDU in it under its own, used number, if the next sequence number does not wrap.
pub send_data-IsWindowed :
    (f : Flow) (body : List ℕ) (now : ℕ)
    → f.next_seq_num + 1 < u64_mod
    → IsWindowed f
    → IsWindowed (send_data f body now).0
unfolding send_data
send_data-IsWindowed f body now room v =
    elim (Bool-cases (ltb f.config.max_pdu_size (length body))) [
      | inl large ↦ rw large v
      | inr fits ↦ elim (Bool-cases (leb f.config.window_size (length f.send_window))) [
        | inl full ↦ rw (fits, full) v
        | inr space ↦ rw (fits, space) (sent-IsWindowed f body now room (ground arith) v)
      ]
    ]

acked-IsWindowed : (f : Flow) (pdu : Pdu) → IsWindowed f → IsWindowed (handle_ack_pdu f pdu).0
unfolding handle_ack_pdu
acked-IsWindowed f pdu v =
    let newer : ℕ → Pdu × ℕ → Bool = λ s _. ltb pdu.sequence_num s in
    record {
      distinct = retain-Distinct newer f.send_window v.distinct;
      bounded = omega (arith, length-retain-le newer f.send_window, v.bounded);
      used = λ seq e h. ground (arith, get-retain newer f.send_window seq v.distinct, v.used seq e);
    }

data_IsWindowed : (f : Flow) (pdu : Pdu) → IsWindowed f → IsWindowed (handle_data_pdu f pdu).0
unfolding handle_data_pdu
data_IsWindowed f pdu v = ground arith

-- Receiving a PDU of any kind keeps a well-formed send window so: within its size, and each PDU
-- in it under its own, used number.
receive_pdu-IsWindowed : (f : Flow) (pdu : Pdu) → IsWindowed f → IsWindowed (receive_pdu f pdu).0
unfolding receive_pdu
receive_pdu-IsWindowed f pdu v =
    elim pdu.pdu_type as (λ t. IsWindowed (receive_pdu f (record pdu { pdu_type = t })).0) [
      | data_pdu ↦ data_IsWindowed f (record pdu { pdu_type = data_pdu }) v
      | ack ↦ acked-IsWindowed f (record pdu { pdu_type = ack }) v
      | control ↦ v
      | management ↦ v
    ]

-- An acknowledgement takes the PDUs up to its number out of a window that holds each number
-- once, and leaves every other.
get-receive_ack :
    (f : Flow) (pdu : Pdu) (seq : ℕ)
    → pdu.pdu_type ≡ ack
    → Distinct f.send_window
    → get (receive_pdu f pdu).0.send_window seq
      ≡ (if ltb pdu.sequence_num seq then get f.send_window seq else none)
unfolding receive_pdu
get-receive_ack f pdu seq e d =
    rw (e, receive_pdu)
      (ground (arith, get-retain (λ s _. ltb pdu.sequence_num s) f.send_window seq d))
