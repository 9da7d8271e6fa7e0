-- ===== src/Tests/Provider.antt =====
-- Runs of the circuit breaker, the bulkhead and the retries.
use qatth.Base.{ℕ, ◌≡◌, ◌≤◌, ◌⊎◌, [], ◌∷◌, refl, true, arith, if◌then◌else◌, ◌==◌}
use qatth.Schema.Common.{Text, Code}
use qatth.Db.{ok, err, retryable_error}
use qatth.Resilience.State.{
  Settings, Store, Executor, store, closed, ensure_circuit_closed, ensure_budget, record_success,
  acquire_bulkhead, release_bulkhead,
}
use qatth.Resilience.Execute.{Attempt, returns, raises, Run, attempt_each, Reach, Call, execute}
use qatth.Resilience.Limits.{failures_in_a_row, acquire-release, circuit_breaks}
use qatth.Resilience.Retries.{IsRun, attempt_each-IsRun, execute_releases}

abbrev settings : Settings
settings = record {
  retry_attempts = 3;
  base_delay = 1;
  max_delay = 8;
  failure_threshold = 5;
  open_seconds = 30;
  bulkhead_limit = 2;
  daily_budget = 100;
  monthly_budget = 1000;
}

-- One call of the key 1 is in flight.
abbrev counters : ℕ → Store
counters spent = record {
  circuits = λ j. closed;
  in_flight = λ j. if j == 1 then 1 else 0;
  daily_cost = λ j. spent;
  monthly_cost = λ j. spent;
}

abbrev executor : ℕ → Executor
executor spent = record { shared = counters spent; own = counters spent }

acquire-release_example :
    ((e' : Executor) × (acquire_bulkhead true settings 1 (executor 0) ≡ ok (true, e'))
      × (e'.shared.in_flight 1 ≡ 2)
      × (e'.shared.in_flight 1 ≤ 2)
      × ((j : Text) → ¬ (j ≡ 1) → e'.shared.in_flight j ≡ (executor 0).shared.in_flight j)
      × ((j : Text)
          → (store true (release_bulkhead true true 1 e')).in_flight j
            ≡ (executor 0).shared.in_flight j))
    ⊎ ((acquire_bulkhead true settings 1 (executor 0)
          ≡ err (retryable_error 503 Code.provider_bulkhead_full))
        × (◌≡◌ {A = ℕ} 1 2))
acquire-release_example = acquire-release true settings 1 (executor 0) (omega arith)

circuit_breaks_example :
    ensure_circuit_closed true 1 50 (
      failures_in_a_row true settings 1
        (40 ∷ 30 ∷ 20 ∷ 15 ∷ 10 ∷ [])
        (record_success true 1 (executor 0)))
    ≡ err (retryable_error 503 Code.provider_circuit_open)
circuit_breaks_example =
    circuit_breaks true settings 1 40 50 (30 ∷ 20 ∷ 15 ∷ 10 ∷ []) (executor 0) (omega arith)

-- It fails once with an error that may be retried, and then returns.
abbrev flaky : ℕ → Attempt ℕ
flaky n = if n == 1 then raises (retryable_error 503 Code.provider_error) else returns n

attempt_each-IsRun_example : IsRun settings flaky 1 (attempt_each settings flaky 1 3)
attempt_each-IsRun_example = attempt_each-IsRun settings flaky 1 2 refl

abbrev reach : Reach
reach = record {
  at_budget = true;
  at_circuit = true;
  at_acquire = true;
  at_record = true;
  at_release = true;
}

abbrev call : Call
call = record { key = 1; is_openai = true; day = 1; month = 2; now = 10 }

execute_releases_example :
    (run : Run ℕ) × (e' : Executor) × (execute settings reach call flaky (executor 0)
      ≡ (ok run, e'))
    × IsRun settings flaky 1 run
    × ((j : Text) → e'.shared.in_flight j ≡ (executor 0).shared.in_flight j)
unfolding ensure_budget ensure_circuit_closed
execute_releases_example =
    execute_releases settings reach call flaky (executor 0) 2 refl refl refl (omega arith) refl
