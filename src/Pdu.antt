-- ===== src/Pdu.antt =====
-- src/pdu.rs: protocol data units. A byte is a number below 256; postcard is a parameter elsewhere.
use ari.Base.{ℕ, ◌+◌, String, Bool, true, false, Option, none, List, [], length}

pub data PduType : Type 0 where
  data_pdu ack control management : PduType

-- `Display` of the type.
pub display : PduType → String
display data_pdu = "DATA"
display ack = "ACK"
display control = "CONTROL"
display management = "MANAGEMENT"

pub record QosParameters : Type 0 where
  pub priority : ℕ
  pub max_delay_ms : Option ℕ
  pub min_bandwidth_bps : Option ℕ
  pub max_loss_rate : Option ℕ

-- `QoSParameters::default`.
abbrev pub default_qos : QosParameters
default_qos = record {
  priority = 128;
  max_delay_ms = none;
  min_bandwidth_bps = none;
  max_loss_rate = none;
}

pub record Pdu : Type 0 where
  pub src_addr : ℕ
  pub dst_addr : ℕ
  pub src_cep_id : ℕ
  pub dst_cep_id : ℕ
  pub sequence_num : ℕ
  pub pdu_type : PduType
  pub payload : List ℕ
  pub qos : QosParameters

abbrev pub new_data_with_qos : ℕ → ℕ → ℕ → ℕ → ℕ → List ℕ → QosParameters → Pdu
new_data_with_qos src dst src_cep dst_cep seq body qos = record {
  src_addr = src;
  dst_addr = dst;
  src_cep_id = src_cep;
  dst_cep_id = dst_cep;
  sequence_num = seq;
  pdu_type = data_pdu;
  payload = body;
  qos = qos;
}

abbrev pub new_data : ℕ → ℕ → ℕ → ℕ → ℕ → List ℕ → Pdu
new_data src dst src_cep dst_cep seq body = record {
  src_addr = src;
  dst_addr = dst;
  src_cep_id = src_cep;
  dst_cep_id = dst_cep;
  sequence_num = seq;
  pdu_type = data_pdu;
  payload = body;
  qos = default_qos;
}

abbrev pub new_ack : ℕ → ℕ → ℕ → ℕ → ℕ → Pdu
new_ack src dst src_cep dst_cep ack_num = record {
  src_addr = src;
  dst_addr = dst;
  src_cep_id = src_cep;
  dst_cep_id = dst_cep;
  sequence_num = ack_num;
  pdu_type = ack;
  payload = [];
  qos = default_qos;
}

abbrev pub new_management : ℕ → ℕ → List ℕ → Pdu
new_management src dst body = record {
  src_addr = src;
  dst_addr = dst;
  src_cep_id = 0;
  dst_cep_id = 0;
  sequence_num = 0;
  pdu_type = management;
  payload = body;
  qos = default_qos;
}

-- `size`, with the source's fixed header of 33 bytes.
abbrev pub size : Pdu → ℕ
size p = 33 + length p.payload

abbrev pub is_data : Pdu → Bool
is_data p = elim p.pdu_type [ data_pdu ↦ true | _ ↦ false ]

abbrev pub is_ack : Pdu → Bool
is_ack p = elim p.pdu_type [ ack ↦ true | _ ↦ false ]

abbrev pub is_management : Pdu → Bool
is_management p = elim p.pdu_type [ management ↦ true | _ ↦ false ]
