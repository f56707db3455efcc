-- ===== src/Enrollment/Wire.antt =====
-- src/enrollment.rs: how a member reaches its bootstrap process to synchronise. What the
-- socket gives until five seconds have passed is an argument.
pub mod Silence
pub mod Postcard
pub mod Unread
use ari.Base.{
  ℕ, Bool, false, Option, none, some, List, [], ◌∷◌, eqb, if◌then◌else◌, is_some, Key, nat_key,
  string_key, Result, ok, err, ◌>>=◌, ok_or,
}
use ari.Map.{Map}
use ari.Pdu.{Pdu}
use ari.Rib.Store.{Rib}
use ari.Rib.Receive.{Codec}
use ari.Cdap.{CdapMessage, new_sync_request}
use ari.Enrollment.{
  EnrollmentManager, EnrollmentError, Synced, answered, name_or_empty, not_enrolled, timeout,
  deserialization_failed,
}
use ari.Enrollment.Joining.{Services}
use ari.Enrollment.Member.{Poll, ask}

abbrev pub carries_response : Option CdapMessage → Bool
carries_response none = false
carries_response (some msg) = is_some msg.sync_response

unfoldable pub receive_sync_response : Codec CdapMessage → List Poll → Result EnrollmentError Pdu
receive_sync_response codec [] = err (timeout 1)
receive_sync_response codec (err e ∷ rest) = receive_sync_response codec rest
receive_sync_response codec (ok none ∷ rest) = receive_sync_response codec rest
receive_sync_response codec (ok (some pdu) ∷ rest) =
    let later = receive_sync_response codec rest in
    if carries_response (codec.decode pdu.payload) then ok pdu else later

module _ {A : Type 0} ⦃key : Key A⦄ (s : Services A) (peers : Map ℕ A) (now : ℕ)
    (m : EnrollmentManager) (polls : List Poll) where
  -- A request to the bootstrap process and the response to it.
  unfoldable pub exchanged : ℕ → CdapMessage → Result EnrollmentError CdapMessage
  unfolding receive_sync_response
  exchanged addr request = do
    socket ← ask s peers now m addr request
    pdu ← receive_sync_response s.message polls
    ok_or (s.message.decode pdu.payload) deserialization_failed

  abbrev pub asked : Option ℕ → Synced
  asked none = (m, err not_enrolled)
  asked (some addr) =
      answered s.objects m now
        (exchanged addr (new_sync_request 1 m.last_synced_version (name_or_empty m.ipcp_name)))

  -- `sync_rib` over the shim.
  unfoldable pub sync_rib_over_shim : Synced
  unfolding exchanged
  sync_rib_over_shim = asked m.bootstrap_addr

module _ {A : Type 0} ⦃key : Key A⦄ (s : Services A) (peers : Map ℕ A) where
  -- A tick of the task: the RIB, which others change too, the time, and what the socket gives.
  abbrev pub Tick : Type 0
  Tick = Rib × ℕ × List Poll

  -- The loop; a failure is only printed.
  unfoldable pub sync_ticks : EnrollmentManager → List Tick → EnrollmentManager
  unfolding sync_rib_over_shim
  sync_ticks m [] = m
  sync_ticks m ((rib, now, polls) ∷ ticks) =
      sync_ticks (sync_rib_over_shim s peers now (record m { rib = rib }) polls).0 ticks

  -- An interval of 0 ends the task at once. The first tick, which comes at once, is skipped.
  unfoldable pub start_sync_task : EnrollmentManager → ℕ → List Tick → EnrollmentManager
  unfolding sync_ticks
  start_sync_task m sync_interval_secs ticks =
      if eqb sync_interval_secs 0 then m else sync_ticks m ticks
