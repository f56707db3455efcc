-- ===== src/Policies/Qos.antt =====
-- src/policies/qos.rs: `SimpleQoSPolicy`.
use ari.Base.{
  ℕ, ◌*◌, ◌/◌, ◌%◌, ◌<◌, ◌≡◌, Bool, true, false, ◌&&◌, Option, none, some, arith, ltb, leb, eqb,
  if◌then◌else◌, u64_mod, nat_key, string_key,
}
use ari.Pdu.{Pdu, QosParameters}

pub record SimpleQosPolicy : Type 0 where
  pub max_queue_length : ℕ

abbrev pub default_policy : SimpleQosPolicy
default_policy = record { max_queue_length = 1000 }

abbrev pub is_zero : Option ℕ → Bool
is_zero none = false
is_zero (some d) = eqb d 0

unfoldable pub check_qos : Pdu → Bool
check_qos pdu = if is_zero pdu.qos.max_delay_ms then false else true

unfoldable pub apply_qos : Pdu → QosParameters → Pdu
apply_qos pdu qos = record pdu { qos = qos }

-- `max_queue_length * 3 / 4` on a usize of 64 bits, where the product wraps.
abbrev pub nearly_full : SimpleQosPolicy → ℕ
nearly_full p = p.max_queue_length * 3 % u64_mod / 4

unfoldable pub should_drop : SimpleQosPolicy → Pdu → ℕ → Bool
should_drop p pdu queue_length =
    if ltb (nearly_full p) queue_length
    then ltb pdu.qos.priority 128
    else leb p.max_queue_length queue_length

-- Of a policy whose maximum is not 0 and does not overflow, the drop rule drops just what is
-- below priority 128 above three quarters of the maximum, also when the queue is full.
should_drop_lem :
    (p : SimpleQosPolicy) (pdu : Pdu) (queue_length : ℕ)
    → 0 < p.max_queue_length
    → p.max_queue_length * 3 < u64_mod
    → should_drop p pdu queue_length
      ≡ (ltb (p.max_queue_length * 3 / 4) queue_length && ltb pdu.qos.priority 128)
unfolding should_drop
should_drop_lem p pdu n pos small = ground arith
