-- ===== src/Enrollment/Retry/Monitoring.antt =====
-- What a round of the monitoring task does.
use ari.Base.{
  ℕ, ◌≡◌, refl, sym, ap, ◌∙◌, inl, inr, true, false, ◌&&◌, not, Option, none, some, arith, eqb,
  Bool-cases, Key, nat_key, string_key,
}
use ari.Map.{Map}
use mathlib.Core.Option.{some-injective}
use ari.Enrollment.{EnrollmentConfig, EnrollmentManager}
use ari.Enrollment.Joining.{Services}
use ari.Enrollment.Retry.{
  Inbox, Monitor, monitor_step, start_connection_monitoring, is_connection_healthy, lost_at,
  healthy_at, re_enrolled,
}

-- What no round changes.
pub record Watched (m m' : EnrollmentManager) : Type 0 where
  pub state : m'.state ≡ m.state
  pub local_addr : m'.local_addr ≡ m.local_addr
  pub bootstrap : m'.bootstrap_addr ≡ m.bootstrap_addr
  pub synced : m'.last_synced_version ≡ m.last_synced_version

-- Whatever becomes of the heartbeat.
abbrev pub beaten : Option ℕ → EnrollmentManager → EnrollmentManager
beaten heartbeat m = record m { last_heartbeat = heartbeat }

healthy_lost :
    (config : EnrollmentConfig) (now : ℕ) (last : Option ℕ)
    → healthy_at config now last ≡ true
    → lost_at config now last ≡ false
healthy_lost config now none h = absurd (ground arith)
healthy_lost config now (some last) h = ground arith

module _ {A : Type 0} ⦃key : Key A⦄ (s : Services A) (peers : Map ℕ A) (now : ℕ) (inbox : Inbox)
    (w : Monitor) (m : EnrollmentManager) where
  re_enrolled-Watched :
      (addr : Option ℕ) (m' : EnrollmentManager)
      → Watched m' (re_enrolled s peers now inbox w m' addr)
  re_enrolled-Watched none m' = record {
    state = refl;
    local_addr = refl;
    bootstrap = refl;
    synced = refl;
  }
  re_enrolled-Watched (some addr) m' = record {
    state = refl;
    local_addr = refl;
    bootstrap = refl;
    synced = refl;
  }

  -- No round of connection monitoring, a successful enrollment included, changes the manager's
  -- state, address, bootstrap address or last synced version.
  pub monitor_step-Watched : Watched m (monitor_step s peers now inbox w m)
  unfolding monitor_step
  monitor_step-Watched =
      elim (Bool-cases (lost_at w.config now m.last_heartbeat && not m.re_enrollment_in_progress)) [
        | inl due ↦
            let v =
              re_enrolled-Watched w.bootstrap_addr
                (record m { re_enrollment_in_progress = true }) in
            rw due (record {
              state = v.state;
              local_addr = v.local_addr;
              bootstrap = v.bootstrap;
              synced = v.synced;
            })
        | inr idle ↦
            rw idle (record { state = refl; local_addr = refl; bootstrap = refl; synced = refl })
      ]

  -- Nothing happens while the connection is healthy.
  monitor_step_healthy :
      is_connection_healthy m now ≡ true
      → w.config ≡ m.config
      → monitor_step s peers now inbox w m ≡ m
  unfolding monitor_step is_connection_healthy
  monitor_step_healthy healthy same =
      let fine : lost_at w.config now m.last_heartbeat ≡ false =
        ap (λ (c : EnrollmentConfig). lost_at c now m.last_heartbeat) same
        ∙ healthy_lost m.config now m.last_heartbeat healthy in
      rw fine refl

module _ {A : Type 0} ⦃key : Key A⦄ (s : Services A) (peers : Map ℕ A) where
  busy :
      (m : EnrollmentManager) (w : Monitor) (now : ℕ) (inbox : Inbox)
      → m.re_enrollment_in_progress ≡ true
      → monitor_step s peers now inbox w m ≡ m
  unfolding monitor_step
  busy m w now inbox flag =
      let idle : (lost_at w.config now m.last_heartbeat && not m.re_enrollment_in_progress)
          ≡ false =
        ground arith in
      rw idle refl

  -- Without a bootstrap address the flag is left set.
  flagged :
      (m : EnrollmentManager) (w : Monitor) (now : ℕ) (inbox : Inbox)
      → w.bootstrap_addr ≡ none
      → lost_at w.config now m.last_heartbeat ≡ true
      → (monitor_step s peers now inbox w m).re_enrollment_in_progress ≡ true
  unfolding monitor_step
  flagged m w now inbox alone lost =
      elim (Bool-cases (lost_at w.config now m.last_heartbeat && not m.re_enrollment_in_progress)) [
        | inl due ↦
            let m' : EnrollmentManager = record m { re_enrollment_in_progress = true } in
            rw due (
              ap
                (λ (a : Option ℕ). (re_enrolled s peers now inbox w m' a).re_enrollment_in_progress)
                alone)
        | inr idle ↦ rw idle (ground arith)
      ]

  started_from :
      (m : EnrollmentManager) (w : Monitor)
      → start_connection_monitoring m ≡ some w
      → (w.bootstrap_addr ≡ m.bootstrap_addr) × (w.config ≡ m.config)
  unfolding start_connection_monitoring
  started_from m w started = elim (Bool-cases (eqb m.config.heartbeat_interval_secs 0)) [
    | inl off ↦ absurd (ground arith)
    | inr on ↦
        let is = some-injective _ _ (rw on at started) in
        (sym (ap (λ (v : Monitor). v.bootstrap_addr) is), sym (ap (λ (v : Monitor). v.config) is))
  ]

  -- When monitoring was started without a bootstrap address and a round finds the connection
  -- lost, the flag that re-enrollment is in progress is set after it, and no later round of any
  -- monitoring task, also of one with a bootstrap address, changes anything, whatever becomes of
  -- the heartbeat.
  pub monitor_step_stuck :
      (m : EnrollmentManager) (w : Monitor) (now : ℕ) (inbox : Inbox)
      → m.bootstrap_addr ≡ none
      → start_connection_monitoring m ≡ some w
      → lost_at m.config now m.last_heartbeat ≡ true
      → ((monitor_step s peers now inbox w m).re_enrollment_in_progress ≡ true)
        × ((w' : Monitor) (now' : ℕ) (inbox' : Inbox) (heartbeat : Option ℕ)
            → let m' = record (monitor_step s peers now inbox w m) { last_heartbeat = heartbeat } in
              monitor_step s peers now' inbox' w' m' ≡ m')
  monitor_step_stuck m w now inbox alone started lost =
      let (addr, config) = started_from m w started in
      let set =
        flagged m w now inbox (addr ∙ alone)
          (ap (λ (c : EnrollmentConfig). lost_at c now m.last_heartbeat) config ∙ lost) in
      (
        set,
        λ w' now' inbox' heartbeat.
            busy (record (monitor_step s peers now inbox w m) { last_heartbeat = heartbeat }) w'
              now' inbox' set,
      )
