-- ===== src/Enrollment/Retry/Failure.antt =====
-- How enrolling with retries ends.
use ari.Base.{
  ℕ, zero, suc, ◌+◌, ◌-◌, ◌*◌, ◌%◌, ◌^◌, ◌≤◌, ◌<◌, String, ◌≡◌, refl, sym, ap, ◌∙◌, inl, inr, some,
  List, [], ◌∷◌, arith, ltb, lt→ltb, le→ltb_false, Bool-cases, u64_mod, Key, nat_key, string_key,
  Result, ok, err,
}
use mathlib.Core.Path.{subst}
use native.Mathlib.Nat.{two-pow-succ}
use ari.Map.{Map}
use ari.Enrollment.{EnrollmentManager, EnrollmentError, EnrollmentConfig, timeout}
use ari.Enrollment.Joining.{Services}
use ari.Enrollment.Member.{Attempt, joined, refused, timed_out, try_enrol}
use ari.Enrollment.Member.Attempts.{
  Frame, Frame-refl, Frame-trans, HasJoined, Tried, try_enrol-Tried,
}
use ari.Enrollment.Retry.{
  Inbox, Enrolment, backoff, slept_first, attempted, attempts, enrol_with_bootstrap,
}

-- The delays after so many attempts from a given one on.
abbrev pub delays : EnrollmentConfig → ℕ → ℕ → List ℕ
delays config attempt zero = []
delays config attempt (suc n) = backoff config attempt ∷ delays config (suc attempt) n

-- Of the manager `m` before, and of the delays if every attempt fails.
abbrev pub Concludes :
    ℕ → ℕ → EnrollmentManager → List ℕ → Enrolment → Result EnrollmentError String → Type 0
Concludes addr now m waits e (ok dif) =
    HasJoined e.manager
    × (e.manager.bootstrap_addr ≡ some addr)
    × (e.manager.last_heartbeat ≡ some now)
Concludes addr now m waits e (err why) =
    (why ≡ timeout m.config.max_retries) × Frame m e.manager × (e.slept ≡ waits)

abbrev pub total : List ℕ → ℕ
total [] = 0
total (n ∷ ns) = n + total ns

-- Without overflow the delays double.
total-delays :
    (config : EnrollmentConfig) (n k : ℕ)
    → k + n ≤ 64
    → config.initial_backoff_ms * 2 ^ (k + n) < u64_mod
    → total (delays config (suc k) n) + config.initial_backoff_ms * 2 ^ k
      ≡ config.initial_backoff_ms * 2 ^ (k + n)
total-delays config zero k few small =
    let none_more : k + 0 ≡ k = omega arith in rw none_more (omega arith)
total-delays config (suc n) k few small =
    let i : ℕ = config.initial_backoff_ms in
    let next : k + suc n ≡ suc k + n = omega arith in
    let small' : i * 2 ^ (suc k + n) < u64_mod = rw next at small in
    let rest = total-delays config n (suc k) (omega arith) small' in
    let doubled : i * 2 ^ suc k ≡ i * 2 ^ k + i * 2 ^ k =
      ap (λ (x : ℕ). i * x) (two-pow-succ k) ∙ grind arith in
    let fits : i * 2 ^ k < u64_mod = omega (arith, doubled, rest, small') in
    let shift : (suc k - 1) % 64 ≡ k = omega arith in
    let waited : backoff config (suc k) ≡ i * 2 ^ k = rw shift (omega (arith, fits)) in
    rw next (omega (arith, waited, doubled, rest))

slept_first_last :
    (config : EnrollmentConfig) (attempt : ℕ) (e : Enrolment)
    → config.max_retries ≤ attempt
    → slept_first config attempt e ≡ e
slept_first_last config attempt e h = rw (le→ltb_false attempt config.max_retries h) refl

slept_first_more :
    (config : EnrollmentConfig) (attempt : ℕ) (e : Enrolment)
    → attempt < config.max_retries
    → slept_first config attempt e ≡ record e { slept = backoff config attempt ∷ e.slept }
slept_first_more config attempt e h = rw (lt→ltb attempt config.max_retries h) refl

module _ (addr now : ℕ) where
  later_Concludes :
      (m m' : EnrollmentManager) (attempt left : ℕ) (e : Enrolment)
      (o : Result EnrollmentError String)
      → Frame m m'
      → attempt + left ≡ m.config.max_retries
      → Concludes addr now m' (delays m'.config (suc attempt) (left - 1)) e o
      → Concludes addr now m (delays m.config attempt left) (slept_first m'.config attempt e) o
  later_Concludes m m' attempt left e (ok dif) f sum h =
      elim (Bool-cases (ltb attempt m'.config.max_retries)) [
        | inl more ↦ rw more h
        | inr last ↦ rw last h
      ]
  later_Concludes m m' attempt zero e (err why) f sum (is, g, waits) =
      let same = ap (λ (c : EnrollmentConfig). c.max_retries) f.config in
      rw (slept_first_last m'.config attempt e (omega (arith, same, sum)))
        (is ∙ ap timeout same, Frame-trans m m' e.manager f g, waits)
  later_Concludes m m' attempt (suc left) e (err why) f sum (is, g, waits) =
      let same = ap (λ (c : EnrollmentConfig). c.max_retries) f.config in
      let wait : suc left - 1 ≡ left = omega arith in
      rw (slept_first_more m'.config attempt e (omega (arith, same, sum))) (
        is ∙ ap timeout same,
        Frame-trans m m' e.manager f g,
        ap (λ (c : EnrollmentConfig). backoff c attempt ∷ e.slept) f.config
            ∙ ap (λ (ds : List ℕ). backoff m.config attempt ∷ ds)
                (waits
                  ∙ ap (λ (n : ℕ). delays m'.config (suc attempt) n) wait
                  ∙ ap (λ (c : EnrollmentConfig). delays c (suc attempt) left) f.config),
      )

slept_first_answer :
    (config : EnrollmentConfig) (attempt : ℕ) (e : Enrolment)
    → (slept_first config attempt e).answer ≡ e.answer
slept_first_answer config attempt e = elim (Bool-cases (ltb attempt config.max_retries)) [
  | inl more ↦ rw more refl
  | inr last ↦ rw last refl
]

module _ {A : Type 0} ⦃key : Key A⦄ (s : Services A) (peers : Map ℕ A) (addr now : ℕ)
    (inbox : Inbox) where
  failed_Concludes :
      (m m' : EnrollmentManager) (attempt left : ℕ) (e : Enrolment)
      → Frame m m'
      → attempt + left ≡ m.config.max_retries
      → Concludes addr now m' (delays m'.config (suc attempt) (left - 1)) e e.answer
      → Concludes addr now m
          (delays m.config attempt left)
          (slept_first m'.config attempt e)
          (slept_first m'.config attempt e).answer
  failed_Concludes m m' attempt left e f sum h =
      subst
        (λ (o : Result EnrollmentError String).
          Concludes addr now m (delays m.config attempt left) (slept_first m'.config attempt e) o)
        (sym (slept_first_answer m'.config attempt e))
        (later_Concludes addr now m m' attempt left e e.answer f sum h)

  attempted-Concludes :
      (m : EnrollmentManager) (attempt left : ℕ) (t : EnrollmentManager × Attempt) (e : Enrolment)
      → Tried m t
      → attempt + left ≡ m.config.max_retries
      → Concludes addr now t.0 (delays t.0.config (suc attempt) (left - 1)) e e.answer
      → Concludes addr now m
          (delays m.config attempt left)
          (attempted s peers addr now inbox attempt t e)
          (attempted s peers addr now inbox attempt t e).answer
  attempted-Concludes m attempt left (m', joined dif) e tried sum h = (
    record { enrolled_state = tried.1.enrolled_state; dif_known = tried.1.dif_known },
    refl,
    refl,
  )
  attempted-Concludes m attempt left (m', refused why) e tried sum h =
      failed_Concludes m m' attempt left e tried sum h
  attempted-Concludes m attempt left (m', timed_out) e tried sum h =
      failed_Concludes m m' attempt left e tried sum h

  Tried-Frame : (m : EnrollmentManager) (t : EnrollmentManager × Attempt) → Tried m t → Frame m t.0
  Tried-Frame m (m', joined dif) tried = tried.0
  Tried-Frame m (m', refused why) tried = tried
  Tried-Frame m (m', timed_out) tried = tried

  attempts-Concludes :
      (left attempt : ℕ) (m : EnrollmentManager)
      → attempt + left ≡ suc m.config.max_retries
      → Concludes addr now m
          (delays m.config attempt (left - 1))
          (attempts s peers addr now inbox left attempt m)
          (attempts s peers addr now inbox left attempt m).answer
  unfolding attempts
  attempts-Concludes zero attempt m sum = (refl, Frame-refl m, refl)
  attempts-Concludes (suc left) attempt m sum =
      let t : EnrollmentManager × Attempt = try_enrol s peers now m addr (inbox attempt) in
      let tried = try_enrol-Tried s peers now m addr (inbox attempt) in
      let f = Tried-Frame m t tried in
      let same = ap (λ (c : EnrollmentConfig). c.max_retries) f.config in
      let rest = attempts-Concludes left (suc attempt) t.0 (omega (arith, same, sum)) in
      subst
        (λ (n : ℕ).
          Concludes addr now m (delays m.config attempt n)
            (attempts s peers addr now inbox (suc left) attempt m)
            (attempts s peers addr now inbox (suc left) attempt m).answer)
        (omega arith)
        (attempted-Concludes m attempt left t
          (attempts s peers addr now inbox left (suc attempt) t.0) tried (omega (arith, sum)) rest)

  -- Enrolling with retries either succeeds, and then the member is enrolled, its RIB has a DIF
  -- name, and the bootstrap's address and the time are noted; or the error is the timeout after
  -- the greatest number of attempts, the name, configuration, pool, bootstrap address and
  -- heartbeat are as before, and the delays are the backoffs after every attempt but the last.
  pub enrol_with_bootstrap_ends :
      (m : EnrollmentManager)
      → Concludes addr now m
          (delays m.config 1 (m.config.max_retries - 1))
          (enrol_with_bootstrap s peers addr now inbox m)
          (enrol_with_bootstrap s peers addr now inbox m).answer
  unfolding enrol_with_bootstrap
  enrol_with_bootstrap_ends m = attempts-Concludes m.config.max_retries 1 m (omega arith)

  -- The failure of every attempt.
  enrol_with_bootstrap_fails :
      (m : EnrollmentManager) (why : EnrollmentError)
      → (enrol_with_bootstrap s peers addr now inbox m).answer ≡ err why
      → (enrol_with_bootstrap s peers addr now inbox m).slept
        ≡ delays m.config 1 (m.config.max_retries - 1)
  enrol_with_bootstrap_fails m why e =
      (subst
        (λ (o : Result EnrollmentError String).
          Concludes addr now m (delays m.config 1 (m.config.max_retries - 1))
            (enrol_with_bootstrap s peers addr now inbox m) o)
        e (enrol_with_bootstrap_ends m)).2

  -- When enrolling fails, the delays and the first backoff together are the first backoff
  -- doubled once for every attempt but the first, if there are at most 64 attempts and this
  -- number is below 2^64.
  pub total-enrol_with_bootstrap :
      (m : EnrollmentManager) (why : EnrollmentError)
      → (enrol_with_bootstrap s peers addr now inbox m).answer ≡ err why
      → m.config.max_retries ≤ 64
      → m.config.initial_backoff_ms * 2 ^ (m.config.max_retries - 1) < u64_mod
      → total (enrol_with_bootstrap s peers addr now inbox m).slept + m.config.initial_backoff_ms
        ≡ m.config.initial_backoff_ms * 2 ^ (m.config.max_retries - 1)
  total-enrol_with_bootstrap m why e few small =
      let from_one : 0 + (m.config.max_retries - 1) ≡ m.config.max_retries - 1 = omega arith in
      let sum =
        total-delays m.config (m.config.max_retries - 1) 0 (omega arith) (rw from_one small) in
      let once : m.config.initial_backoff_ms * 2 ^ 0 ≡ m.config.initial_backoff_ms = omega arith in
      omega (arith, once, ap total (enrol_with_bootstrap_fails m why e), rw from_one at sum)
