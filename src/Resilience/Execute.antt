-- ===== src/Resilience/Execute.antt =====
-- `_execute` of `ProviderExecutor`: the order of the guards, the retry loop and the release that
-- always follows. The operation is a function of the attempt's number; the clock and the random
-- delay are parameters, and metrics, traces and logs are left out.
use qatth.Base.{
  ℕ, zero, suc, ◌-◌, ◌*◌, ◌^◌, Bool, true, false, not, ◌&&◌, List, [], ◌∷◌, ◌==◌, if◌then◌else◌,
  leb,
}
use qatth.Schema.Common.{Text, Time, Code, AppError}
use qatth.Db.{Result, ok, err, app_error}
use qatth.Resilience.State.{
  Settings, Executor, ensure_budget, ensure_circuit_closed, acquire_bulkhead, release_bulkhead,
  record_success, record_failure,
}

-- What one call of the operation does: it returns, raises an `AppError`, or raises another error.
pub data Attempt (A : Type 0) : Type 0 where
  returns : A → Attempt A
  raises : AppError → Attempt A
  crashes : Attempt A

abbrev pub is_retryable : {A : Type 0} → Attempt A → Bool
is_retryable (returns v) = false
is_retryable (raises x) = x.retryable
is_retryable crashes = false

-- `min(max_delay, base_delay * 2 ** (attempt - 1))`: the greatest delay before the next attempt.
unfoldable pub upper : Settings → ℕ → ℕ
upper s attempt =
    let d = s.base_delay * 2 ^ (attempt - 1) in if leb s.max_delay d then s.max_delay else d

-- How the loop ended: with a value or the last error, after how many attempts, and the bounds of
-- the delays that it slept for.
pub record Run (A : Type 0) : Type 0 where
  pub outcome : Result A
  pub attempts : ℕ
  pub delays : List ℕ

abbrev pub error_of : {A : Type 0} → Attempt A → Result A
error_of (returns v) = ok v
error_of (raises x) = err x
error_of crashes = err (app_error 500 Code.external_error)

-- `for attempt in range(1, retry_attempts + 1)`, with the attempts that are left. None is left only
-- if no attempt was allowed at all.
unfoldable pub attempt_each : {A : Type 0} → Settings → (ℕ → Attempt A) → ℕ → ℕ → Run A
attempt_each s operation attempt zero = record {
  outcome = err (app_error 500 Code.provider_error);
  attempts = attempt - 1;
  delays = [];
}
attempt_each s operation attempt (suc left) =
    elim (is_retryable (operation attempt) && not (leb s.retry_attempts attempt)) [
      | true ↦
          let rest = attempt_each s operation (suc attempt) left in
          record rest { delays = upper s attempt ∷ rest.delays }
      | false ↦ record { outcome = error_of (operation attempt); attempts = attempt; delays = [] }
    ]

-- Whether each block of the call reaches Redis.
pub record Reach : Type 0 where
  pub at_budget : Bool
  pub at_circuit : Bool
  pub at_acquire : Bool
  pub at_record : Bool
  pub at_release : Bool

pub record Call : Type 0 where
  pub key : Text
  pub is_openai : Bool
  pub day : Text
  pub month : Text
  pub now : Time

-- After the loop: the outcome of the last attempt is recorded, if there was one, and the bulkhead is released (`finally`).
unfoldable pub finish : {A : Type 0} → Settings → Reach → Call → Bool → Run A → Executor → Executor
finish s r c backend run e = release_bulkhead backend r.at_release c.key (elim (run.outcome) [
  | ok v ↦ record_success r.at_record c.key e
  | err x ↦ if run.attempts == 0 then e else record_failure r.at_record s c.key c.now e
])

-- `_execute`.
unfoldable pub execute :
    {A : Type 0} → Settings → Reach → Call → (ℕ → Attempt A) → Executor → Result (Run A) × Executor
execute s r c operation e = elim (ensure_budget c.is_openai r.at_budget s c.day c.month e) [
  | err x ↦ (err x, e)
  | ok u ↦ elim (ensure_circuit_closed r.at_circuit c.key c.now e) [
    | err x ↦ (err x, e)
    | ok v ↦ elim (acquire_bulkhead r.at_acquire s c.key e) [
      | err x ↦ (err x, e)
      | ok (backend, e') ↦
          let run = attempt_each s operation 1 s.retry_attempts in
          (ok run, finish s r c backend run e')
    ]
  ]
]
