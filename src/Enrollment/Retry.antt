-- ===== src/Enrollment/Retry.antt =====
-- src/enrollment.rs: the attempts to enroll with their backoff, the heartbeat, and the monitoring of
-- the connection. Times are nanoseconds.
pub mod Failure
pub mod Monitoring
use ari.Base.{
  ℕ, zero, suc, ◌-◌, ◌*◌, ◌%◌, ◌^◌, String, Bool, true, false, ◌&&◌, not, Option, none, some, List,
  [], ◌∷◌, ltb, eqb, if◌then◌else◌, u64_mod, Key, nat_key, string_key, Result, ok, err, is_ok,
}
use ari.Map.{Map}
use ari.Enrollment.{
  EnrollmentManager, EnrollmentError, EnrollmentConfig, timeout, initiated, no_bootstrap_peers,
  with_config, set_ipcp_name,
}
use ari.Enrollment.Joining.{Services}
use ari.Enrollment.Member.{Poll, Attempt, joined, refused, timed_out, try_enrol}

-- What each attempt polls before its deadline.
abbrev pub Inbox : Type 0
Inbox = ℕ → List Poll

-- The manager, the answer, and the delays between the attempts in milliseconds.
pub record Enrolment : Type 0 where
  pub manager : EnrollmentManager
  pub answer : Result EnrollmentError String
  pub slept : List ℕ

-- `initial_backoff_ms * (1 << (attempt - 1))` on a u64 in the release profile, where the distance of
-- the shift wraps too.
abbrev pub backoff : EnrollmentConfig → ℕ → ℕ
backoff config attempt = config.initial_backoff_ms * 2 ^ ((attempt - 1) % 64) % u64_mod

abbrev pub slept_first : EnrollmentConfig → ℕ → Enrolment → Enrolment
slept_first config attempt e =
    if ltb attempt config.max_retries
    then record e { slept = backoff config attempt ∷ e.slept }
    else e

module _ {A : Type 0} ⦃key : Key A⦄ (s : Services A) (peers : Map ℕ A) (addr now : ℕ)
    (inbox : Inbox) where
  -- An attempt, and what follows if it fails.
  abbrev pub attempted : ℕ → EnrollmentManager × Attempt → Enrolment → Enrolment
  attempted attempt (m, joined dif) later = record {
    manager = record m { bootstrap_addr = some addr; last_heartbeat = some now };
    answer = ok dif;
    slept = [];
  }
  attempted attempt (m, refused e) later = slept_first m.config attempt later
  attempted attempt (m, timed_out) later = slept_first m.config attempt later

  -- The `for` loop, with so many attempts left.
  unfoldable pub attempts : ℕ → ℕ → EnrollmentManager → Enrolment
  attempts zero attempt m = record {
    manager = m;
    answer = err (timeout m.config.max_retries);
    slept = [];
  }
  attempts (suc left) attempt m =
      let tried = try_enrol s peers now m addr (inbox attempt) in
      let later = attempts left (suc attempt) tried.0 in attempted attempt tried later

  unfoldable pub enrol_with_bootstrap : EnrollmentManager → Enrolment
  unfolding attempts
  enrol_with_bootstrap m = attempts m.config.max_retries 1 m

-- `if result.is_ok() { .. }`.
abbrev pub beating : ℕ → Enrolment → Enrolment
beating now e =
    if is_ok e.answer
    then record e { manager = record e.manager { last_heartbeat = some now } }
    else e

unfoldable pub re_enroll :
    {A : Type 0} ⦃key : Key A⦄ → Services A → Map ℕ A → ℕ → Inbox → EnrollmentManager → Enrolment
unfolding enrol_with_bootstrap
re_enroll s peers now inbox m = elim m.bootstrap_addr [
  | none ↦ record { manager = m; answer = err no_bootstrap_peers; slept = [] }
  | some addr ↦
      beating now (enrol_with_bootstrap s peers addr now inbox (record m { state = initiated }))
]

unfoldable pub update_heartbeat : EnrollmentManager → ℕ → EnrollmentManager
update_heartbeat m now = record m { last_heartbeat = some now }

abbrev pub seconds : ℕ → ℕ
seconds n = n * 10 ^ 9

abbrev pub healthy_at : EnrollmentConfig → ℕ → Option ℕ → Bool
healthy_at config now none = false
healthy_at config now (some last) = ltb (now - last) (seconds config.connection_timeout_secs)

unfoldable pub is_connection_healthy : EnrollmentManager → ℕ → Bool
is_connection_healthy m now = healthy_at m.config now m.last_heartbeat

-- What the monitoring task took from the manager when it was started.
pub record Monitor : Type 0 where
  pub bootstrap_addr : Option ℕ
  pub ipcp_name : Option String
  pub local_addr : ℕ
  pub config : EnrollmentConfig

-- None if the heartbeat interval is 0.
unfoldable pub start_connection_monitoring : EnrollmentManager → Option Monitor
start_connection_monitoring m =
    if eqb m.config.heartbeat_interval_secs 0
    then none
    else some (record {
      bootstrap_addr = m.bootstrap_addr;
      ipcp_name = m.ipcp_name;
      local_addr = m.local_addr;
      config = m.config;
    })

abbrev pub lost_at : EnrollmentConfig → ℕ → Option ℕ → Bool
lost_at config now none = false
lost_at config now (some last) = ltb (seconds config.connection_timeout_secs) (now - last)

abbrev pub named : EnrollmentManager → Option String → EnrollmentManager
named m none = m
named m (some name) = set_ipcp_name m name

-- Of the manager that re-enrolls only its RIB is shared.
abbrev pub renewed : ℕ → EnrollmentManager → Enrolment → EnrollmentManager
renewed now m e = record m {
  rib = e.manager.rib;
  last_heartbeat = if is_ok e.answer then some now else m.last_heartbeat;
  re_enrollment_in_progress = false;
}

module _ {A : Type 0} ⦃key : Key A⦄ (s : Services A) (peers : Map ℕ A) (now : ℕ)
    (inbox : Inbox) where
  abbrev pub re_enrolled : Monitor → EnrollmentManager → Option ℕ → EnrollmentManager
  re_enrolled w m none = m
  re_enrolled w m (some addr) = renewed now m (
      enrol_with_bootstrap s peers addr now inbox
        (named (with_config m.rib w.local_addr w.config) w.ipcp_name))

  -- A round of the monitoring loop.
  unfoldable pub monitor_step : Monitor → EnrollmentManager → EnrollmentManager
  unfolding enrol_with_bootstrap
  monitor_step w m =
      if lost_at w.config now m.last_heartbeat && not m.re_enrollment_in_progress
      then re_enrolled w (record m { re_enrollment_in_progress = true }) w.bootstrap_addr
      else m
