-- ===== src/Examples/Flows.antt =====
-- Concrete flows: two that talk to each other, and tables of flows.
use ari.Base.{ℕ, ◌≡◌, refl, List, [], ◌∷◌, arith, nat_key, string_key}
use ari.Map.{get}
use ari.Pdu.{new_data}
use ari.Efcp.{Flow, default_config, new_flow, send_data}
use ari.Efcp.Window.{IsWindowed, send_data-IsWindowed}
use ari.Efcp.Delivery.{transmit, delivered, delivered-transmit, delivered_early}

abbrev sender : Flow
sender = new_flow 1 1 2 100 200 default_config

abbrev receiver : Flow
receiver = new_flow 2 2 1 200 100 default_config

sender-IsWindowed : IsWindowed sender
unfolding get
sender-IsWindowed = record { distinct = tt; bounded = omega arith; used = λ seq e h. cc }

send_data-IsWindowed_example : IsWindowed (send_data sender (7 ∷ 8 ∷ []) 5).0
send_data-IsWindowed_example =
    send_data-IsWindowed sender (7 ∷ 8 ∷ []) 5 (omega arith) sender-IsWindowed

abbrev payloads : List (List ℕ)
payloads = (1 ∷ 2 ∷ []) ∷ [] ∷ (3 ∷ []) ∷ []

delivered-transmit_example : delivered receiver (transmit sender payloads 5) ≡ payloads
delivered-transmit_example =
    delivered-transmit sender receiver payloads 5 refl (omega arith) (omega arith)
      (omega arith, (omega arith, (omega arith, tt)))

-- The second PDU comes before the first one, and is never handed up.
delivered_early_example :
    delivered receiver (new_data 100 200 1 2 1 (9 ∷ []) ∷ new_data 100 200 1 2 0 (8 ∷ []) ∷ [])
    ≡ delivered receiver (new_data 100 200 1 2 0 (8 ∷ []) ∷ [])
delivered_early_example =
    delivered_early receiver (new_data 100 200 1 2 1 (9 ∷ []))
      (new_data 100 200 1 2 0 (8 ∷ []) ∷ []) refl (omega arith)
