-- ===== src/Resilience/State.antt =====
-- The counters of `ProviderExecutor` in Redis and in the process, and the operations on them.
-- Redis is an external store: `up` says whether a `try` block reaches it. A block that does not
-- falls back to the process's own dictionaries, as the `except redis.RedisError` branches do.
use qatth.Base.{ℕ, suc, ◌+◌, ◌-◌, Bool, true, false, not, ◌||◌, ◌==◌, if◌then◌else◌, leb, ltb}
use qatth.Schema.Common.{Text, Time, Code}
use qatth.Db.{Result, ok, err, app_error, retryable_error}

pub record Settings : Type 0 where
  pub retry_attempts : ℕ
  pub base_delay : ℕ
  pub max_delay : ℕ
  pub failure_threshold : ℕ
  pub open_seconds : ℕ
  pub bulkhead_limit : ℕ
  pub daily_budget : ℕ
  pub monthly_budget : ℕ

pub record Circuit : Type 0 where
  pub failures : ℕ
  pub open_until : Time

-- One dictionary for each kind of counter; a key that is absent reads as zero.
pub record Store : Type 0 where
  pub circuits : Text → Circuit
  pub in_flight : Text → ℕ
  pub daily_cost : Text → ℕ
  pub monthly_cost : Text → ℕ

pub record Executor : Type 0 where
  pub shared : Store
  pub own : Store

abbrev pub closed : Circuit
closed = record { failures = 0; open_until = 0 }

abbrev pub put : {A : Type 0} → (Text → A) → Text → A → Text → A
put f k v j = if j == k then v else f j

-- The store that a block uses.
abbrev pub store : Bool → Executor → Store
store true e = e.shared
store false e = e.own

abbrev pub with_store : Bool → Executor → Store → Executor
with_store true e s = record e { shared = s }
with_store false e s = record e { own = s }

-- `_ensure_circuit_closed`.
unfoldable pub ensure_circuit_closed : Bool → Text → Time → Executor → Result (Unit {0})
ensure_circuit_closed up key now e =
    if ltb now ((store up e).circuits key).open_until
    then err (retryable_error 503 Code.provider_circuit_open)
    else ok tt

-- `_record_success`.
unfoldable pub record_success : Bool → Text → Executor → Executor
record_success up key e =
    with_store up e (record (store up e) { circuits = put (store up e).circuits key closed })

-- A failure in Redis keeps the time until which the circuit was open; one in the process clears it
-- below the threshold.
abbrev pub failed_circuit : Bool → Settings → Time → Circuit → Circuit
failed_circuit up s now c = record {
  failures = suc c.failures;
  open_until =
      if leb s.failure_threshold (suc c.failures)
      then now + s.open_seconds
      else if up
      then c.open_until
      else 0;
}

-- `_record_failure`. The expiry that Redis is told of is an event of its own (`forget_circuit`).
unfoldable pub record_failure : Bool → Settings → Text → Time → Executor → Executor
record_failure up s key now e = with_store up e (record (store up e) {
  circuits = put (store up e).circuits key (failed_circuit up s now ((store up e).circuits key));
})

-- The key of a circuit expires in Redis.
unfoldable pub forget_circuit : Text → Executor → Executor
forget_circuit key e = record_success true key e

-- `_acquire_bulkhead`: where the call was counted.
unfoldable pub acquire_bulkhead : Bool → Settings → Text → Executor → Result (Bool × Executor)
acquire_bulkhead up s key e =
    if leb (suc ((store up e).in_flight key)) s.bulkhead_limit
    then ok (
      up,
      with_store up e (record (store up e) {
        in_flight = put (store up e).in_flight key (suc ((store up e).in_flight key));
      }),
    )
    else err (retryable_error 503 Code.provider_bulkhead_full)

-- `_release_bulkhead` at the backend that counted the call; a Redis that is down forgets it.
unfoldable pub release_bulkhead : Bool → Bool → Text → Executor → Executor
release_bulkhead true false key e = e
release_bulkhead backend up key e = with_store backend e (record (store backend e) {
  in_flight = put (store backend e).in_flight key ((store backend e).in_flight key - 1);
})

-- `record_cost` of a known cost, under the keys of the day and of the month.
unfoldable pub record_cost : Bool → Text → Text → ℕ → Executor → Executor
record_cost up day month amount e =
    if amount == 0
    then e
    else with_store up e (record (store up e) {
      daily_cost = put (store up e).daily_cost day ((store up e).daily_cost day + amount);
      monthly_cost = put (store up e).monthly_cost month ((store up e).monthly_cost month + amount);
    })

-- `_ensure_budget`: only the provider "openai" has one.
unfoldable pub ensure_budget : Bool → Bool → Settings → Text → Text → Executor → Result (Unit {0})
ensure_budget is_openai up s day month e =
    if not is_openai
    then ok tt
    else if leb s.daily_budget ((store up e).daily_cost day)
        || leb s.monthly_budget ((store up e).monthly_cost month)
    then err (app_error 429 Code.provider_budget_exhausted)
    else ok tt
