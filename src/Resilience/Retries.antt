-- ===== src/Resilience/Retries.antt =====
-- The retry loop of backend/app/core/provider_resilience.py, and the release that always follows a call.
use mathlib.Core.Path.{subst}
use qatth.Base.{
  sym, List, [], ◌==◌, ℕ, zero, suc, ◌+◌, ◌-◌, ◌*◌, ◌^◌, ◌≤◌, ◌≡◌, ◌⊎◌, refl, Bool, true, false,
  not, ◌&&◌, ◌∷◌, if◌then◌else◌, length, leb, arith, Bool-cases, inl, inr,
}
use qatth.Schema.Common.{Text, Time, AppError}
use qatth.Db.{Result, ok, err}
use qatth.Resilience.State.{
  Settings, Executor, store, ensure_budget, ensure_circuit_closed, acquire_bulkhead,
  release_bulkhead, record_success, record_failure,
}
use qatth.Resilience.Limits.{counted}
use qatth.Resilience.Execute.{
  Attempt, Run, is_retryable, error_of, attempt_each, upper, Reach, Call, finish, execute,
}

-- The least of two numbers.
abbrev IsLeast : ℕ → ℕ → ℕ → Type 0
IsLeast m n d = (d ≤ m) × (d ≤ n) × ((d ≡ m) ⊎ (d ≡ n))

-- Exponential back-off from an attempt on: each bound of a delay is the least of the greatest delay
-- and of the base delay, doubled for every attempt after the first.
abbrev pub BacksOff : Settings → ℕ → List ℕ → Type 0
BacksOff s attempt [] = Unit {0}
BacksOff s attempt (d ∷ ds) =
    IsLeast s.max_delay (s.base_delay * 2 ^ (attempt - 1)) d × BacksOff s (suc attempt) ds

upper-IsLeast :
    (s : Settings) (attempt : ℕ)
    → IsLeast s.max_delay (s.base_delay * 2 ^ (attempt - 1)) (upper s attempt)
unfolding upper
upper-IsLeast s attempt = least s.max_delay (s.base_delay * 2 ^ (attempt - 1))
  where
    least : (m d : ℕ) → IsLeast m d (if leb m d then m else d)
    least m d = elim (Bool-cases (leb m d)) [
      | inl t ↦ rw t (omega arith, ground arith, inl refl)
      | inr t ↦ rw t (ground arith, omega arith, inr refl)
    ]

-- What a run promises: the attempts are between the first and the last, one delay with its bound
-- before each attempt but the first, the outcome is that of the last attempt, and the loop went on
-- after errors that may be retried only.
pub record IsRun {A : Type 0} (s : Settings) (operation : ℕ → Attempt A) (start : ℕ) (r : Run A)
    : Type 0 where
  pub from_start : start ≤ r.attempts
  pub in_bounds : r.attempts ≤ s.retry_attempts
  pub slept : start + length r.delays ≡ r.attempts
  pub backed_off : BacksOff s start r.delays
  pub last : r.outcome ≡ error_of (operation r.attempts)
  pub stopped : (r.attempts ≡ s.retry_attempts) ⊎ (is_retryable (operation r.attempts) ≡ false)
  pub retried : (i : ℕ) → start ≤ i → suc i ≤ r.attempts → is_retryable (operation i) ≡ true

last_attempt :
    {A : Type 0} (s : Settings) (operation : ℕ → Attempt A) (attempt left : ℕ)
    → is_retryable (operation attempt) && not (leb s.retry_attempts attempt) ≡ false
    → attempt + left ≡ s.retry_attempts
    → (attempt ≡ s.retry_attempts) ⊎ (is_retryable (operation attempt) ≡ false)
last_attempt s operation attempt left stop h = ground arith

-- A run of one attempt, the last.
only_attempt :
    {A : Type 0} (s : Settings) (operation : ℕ → Attempt A) (attempt left : ℕ)
    → is_retryable (operation attempt) && not (leb s.retry_attempts attempt) ≡ false
    → attempt + left ≡ s.retry_attempts
    → IsRun s operation attempt
        (record { outcome = error_of (operation attempt); attempts = attempt; delays = [] })
only_attempt s operation attempt left stop h = record {
  from_start = ground arith;
  in_bounds = ground arith;
  slept = ground arith;
  backed_off = tt;
  last = refl;
  stopped = last_attempt s operation attempt left stop h;
  retried = λ i l u. ground arith;
}

-- One more attempt before a run.
retried_once :
    {A : Type 0} (s : Settings) (operation : ℕ → Attempt A) (attempt : ℕ) (rest : Run A)
    → is_retryable (operation attempt) ≡ true
    → IsRun s operation (suc attempt) rest
    → IsRun s operation attempt (record rest { delays = upper s attempt ∷ rest.delays })
retried_once s operation attempt rest go run = record {
  from_start = omega (arith, run.from_start);
  in_bounds = run.in_bounds;
  slept = omega (arith, run.slept);
  backed_off = (upper-IsLeast s attempt, run.backed_off);
  last = run.last;
  stopped = run.stopped;
  retried = λ i l u. elim (Bool-cases (attempt == i)) [
    | inl e ↦
        let same : attempt ≡ i = ground arith in
        subst (λ n. is_retryable (operation n) ≡ true) same go
    | inr e ↦ run.retried i (ground arith) u
  ];
}

-- The loop, however often the operation fails: it ends after at least one attempt and at most the
-- configured number, with the outcome of the last attempt; it goes on after errors that may be
-- retried only, and stops early after any other outcome only; before each further attempt it sleeps
-- once, for at most the least of the greatest delay and the doubled base delay.
pub attempt_each-IsRun :
    {A : Type 0} (s : Settings) (operation : ℕ → Attempt A) (attempt left : ℕ)
    → attempt + left ≡ s.retry_attempts
    → IsRun s operation attempt (attempt_each s operation attempt (suc left))
unfolding attempt_each
attempt_each-IsRun s operation attempt zero h =
    let stop : is_retryable (operation attempt) && not (leb s.retry_attempts attempt) ≡ false =
      ground arith in
    rw (stop, attempt_each) (only_attempt s operation attempt zero stop h)
attempt_each-IsRun s operation attempt (suc left) h =
    elim (Bool-cases (is_retryable (operation attempt) && not (leb s.retry_attempts attempt))) [
      | inr stop ↦ rw (stop, attempt_each) (only_attempt s operation attempt (suc left) stop h)
      | inl go ↦
          rw (go, attempt_each)
            (retried_once s operation attempt (attempt_each s operation (suc attempt) (suc left))
              (ground arith) (attempt_each-IsRun s operation (suc attempt) left (omega arith)))
    ]

-- What is recorded of an outcome leaves the calls in flight alone.
in_flight-record_success :
    (b up : Bool) (key j : Text) (e : Executor)
    → (store up (record_success b key e)).in_flight j ≡ (store up e).in_flight j
unfolding record_success
in_flight-record_success true true key j e = refl
in_flight-record_success true false key j e = refl
in_flight-record_success false true key j e = refl
in_flight-record_success false false key j e = refl

in_flight-record_failure :
    (b up : Bool) (s : Settings) (key j : Text) (now : Time) (e : Executor)
    → (store up (record_failure b s key now e)).in_flight j ≡ (store up e).in_flight j
unfolding record_failure
in_flight-record_failure true true s key j now e = refl
in_flight-record_failure true false s key j now e = refl
in_flight-record_failure false true s key j now e = refl
in_flight-record_failure false false s key j now e = refl

-- A release at the backend that counted the call, after steps that left the calls in flight alone.
in_flight-release :
    (b : Bool) (key j : Text) (e e₁ : Executor)
    → ((i : Text) → (store b e₁).in_flight i ≡ (store b (counted b key e)).in_flight i)
    → (store b (release_bulkhead b true key e₁)).in_flight j ≡ (store b e).in_flight j
unfolding release_bulkhead
in_flight-release true key j e e₁ h = ground (arith, h j, h key)
in_flight-release false key j e e₁ h = ground (arith, h j, h key)

module _ {A : Type 0} (s : Settings) (r : Reach) (c : Call) (operation : ℕ → Attempt A) where
  -- The executor after the outcome of a run is recorded.
  abbrev recorded : Result A → ℕ → Executor → Executor
  recorded o attempts e = elim o [
    | ok v ↦ record_success r.at_record c.key e
    | err x ↦ if attempts == 0 then e else record_failure r.at_record s c.key c.now e
  ]

  in_flight-recorded :
      (o : Result A) (attempts : ℕ) (e : Executor) (up : Bool) (j : Text)
      → (store up (recorded o attempts e)).in_flight j ≡ (store up e).in_flight j
  in_flight-recorded (ok v) n e up j = in_flight-record_success r.at_record up c.key j e
  in_flight-recorded (err x) n e up j = elim (Bool-cases (n == 0)) [
    | inl z ↦ rw z refl
    | inr z ↦ rw z (in_flight-record_failure r.at_record up s c.key j c.now e)
  ]

  in_flight-finish :
      (run : Run A) (e : Executor) (j : Text)
      → r.at_release ≡ true
      → (store r.at_acquire
            (finish s r c r.at_acquire run (counted r.at_acquire c.key e))).in_flight
          j
        ≡ (store r.at_acquire e).in_flight j
  unfolding finish
  in_flight-finish run e j reached = rw reached (
      in_flight-release r.at_acquire c.key j e
        (recorded run.outcome run.attempts (counted r.at_acquire c.key e))
        (λ i.
          in_flight-recorded run.outcome run.attempts (counted r.at_acquire c.key e) r.at_acquire
            i))

  acquired :
      (e : Executor)
      → suc ((store r.at_acquire e).in_flight c.key) ≤ s.bulkhead_limit
      → acquire_bulkhead r.at_acquire s c.key e ≡ ok (r.at_acquire, counted r.at_acquire c.key e)
  unfolding acquire_bulkhead
  acquired e room = ground arith

  -- A call that passes the three guards ends with the result of its last attempt, and the place
  -- that it took in the bulkhead is free again for every key, whatever the operation does, if the
  -- backend that counted it is reached at the release.
  pub execute_releases :
      (e : Executor) (more : ℕ)
      → s.retry_attempts ≡ suc more
      → ensure_budget c.is_openai r.at_budget s c.day c.month e ≡ ok tt
      → ensure_circuit_closed r.at_circuit c.key c.now e ≡ ok tt
      → suc ((store r.at_acquire e).in_flight c.key) ≤ s.bulkhead_limit
      → r.at_release ≡ true
      → (run : Run A) × (e' : Executor) × (execute s r c operation e ≡ (ok run, e'))
        × IsRun s operation 1 run
        × ((j : Text) → (store r.at_acquire e').in_flight j ≡ (store r.at_acquire e).in_flight j)
  unfolding execute
  execute_releases e more attempts budget circuit room reached =
      let run = attempt_each s operation 1 s.retry_attempts in
      (
        run,
        finish s r c r.at_acquire run (counted r.at_acquire c.key e),
        rw (budget, execute, circuit, acquired e room) refl,
        subst (λ n. IsRun s operation 1 (attempt_each s operation 1 n)) (sym attempts)
            (attempt_each-IsRun s operation 1 more (omega arith)),
        λ j. in_flight-finish run e j reached,
      )

  -- Each guard that fails ends the call before the operation runs, and no counter changes.
  execute_guarded :
      (e : Executor) {x : AppError}
      → (ensure_budget c.is_openai r.at_budget s c.day c.month e ≡ err x)
        ⊎ ((ensure_budget c.is_openai r.at_budget s c.day c.month e ≡ ok tt)
            × ((ensure_circuit_closed r.at_circuit c.key c.now e ≡ err x)
                ⊎ ((ensure_circuit_closed r.at_circuit c.key c.now e ≡ ok tt)
                    × (acquire_bulkhead r.at_acquire s c.key e ≡ err x))))
      → execute s r c operation e ≡ (err x, e)
  unfolding execute
  execute_guarded e (inl b) = rw (b, execute) refl
  execute_guarded e (inr (b, inl c')) = rw (b, execute, c') refl
  execute_guarded e (inr (b, inr (c', a))) = rw (b, execute, c', a) refl
