-- ===== src/Resilience/Limits.antt =====
-- What backend/app/core/provider_resilience.py limits: the calls in flight, the failures in a row, and the
-- attempts of one call.
use qatth.Base.{
  suc, ◌+◌, ◌≤◌, ◌≡◌, refl, ◌⊎◌, List, [], ◌∷◌, length, Bool, true, false, arith, leb,
  if◌then◌else◌, Bool-cases, inl, inr,
}
use qatth.Schema.Common.{Text, Time, Code}
use qatth.Db.{ok, err, retryable_error}
use qatth.Resilience.State.{
  Settings, Executor, store, put, with_store, ensure_circuit_closed, record_success, record_failure,
  acquire_bulkhead, release_bulkhead,
}

-- The tables of counters after a place in the bulkhead is taken.
abbrev pub counted : Bool → Text → Executor → Executor
counted up key e = with_store up e (record (store up e) {
  in_flight = put (store up e).in_flight key (suc ((store up e).in_flight key));
})

-- Where the calls in flight of a key are within the limit, they stay within it: a call either gets a
-- place, is counted once under its key and no other, and its release at the same backend undoes
-- that for every key; or it is rejected, and then the limit is reached exactly.
pub acquire-release :
    (up : Bool) (s : Settings) (key : Text) (e : Executor)
    → (store up e).in_flight key ≤ s.bulkhead_limit
    → ((e' : Executor) × (acquire_bulkhead up s key e ≡ ok (up, e'))
        × ((store up e').in_flight key ≡ suc ((store up e).in_flight key))
        × ((store up e').in_flight key ≤ s.bulkhead_limit)
        × ((j : Text) → ¬ (j ≡ key) → (store up e').in_flight j ≡ (store up e).in_flight j)
        × ((j : Text)
            → (store up (release_bulkhead up up key e')).in_flight j ≡ (store up e).in_flight j))
      ⊎ ((acquire_bulkhead up s key e ≡ err (retryable_error 503 Code.provider_bulkhead_full))
          × ((store up e).in_flight key ≡ s.bulkhead_limit))
unfolding acquire_bulkhead release_bulkhead
acquire-release true s key e h =
    elim (Bool-cases (leb (suc (e.shared.in_flight key)) s.bulkhead_limit)) [
      | inl r ↦ inl (
        counted true key e,
        ground arith,
        ground arith,
        ground arith,
        λ j ne. ground arith,
        λ j. ground arith,
      )
      | inr r ↦ inr (rw r refl, ground arith)
    ]
acquire-release false s key e h =
    elim (Bool-cases (leb (suc (e.own.in_flight key)) s.bulkhead_limit)) [
      | inl r ↦ inl (
        counted false key e,
        ground arith,
        ground arith,
        ground arith,
        λ j ne. ground arith,
        λ j. ground arith,
      )
      | inr r ↦ inr (rw r refl, ground arith)
    ]

-- Failures in a row with nothing in between, at the given times, the last first.
abbrev pub failures_in_a_row : Bool → Settings → Text → List Time → Executor → Executor
failures_in_a_row up s key [] e = e
failures_in_a_row up s key (t ∷ ts) e = record_failure up s key t (failures_in_a_row up s key ts e)

count-failures :
    (up : Bool) (s : Settings) (key : Text) (ts : List Time) (e : Executor)
    → ((store up (failures_in_a_row up s key ts e)).circuits key).failures
      ≡ length ts + ((store up e).circuits key).failures
unfolding record_failure
count-failures true s key [] e = omega arith
count-failures true s key (t ∷ ts) e = ground (arith, count-failures true s key ts e)
count-failures false s key [] e = omega arith
count-failures false s key (t ∷ ts) e = ground (arith, count-failures false s key ts e)

-- At least as many failures as the threshold leave the circuit open from the last one on.
circuit_opens :
    (up : Bool) (s : Settings) (key : Text) (last later : Time) (before : List Time) (e : Executor)
    → s.failure_threshold ≤ suc (length before)
    → suc later ≤ last + s.open_seconds
    → ensure_circuit_closed up key later
        (failures_in_a_row up s key (last ∷ before) (record_success up key e))
      ≡ err (retryable_error 503 Code.provider_circuit_open)
unfolding ensure_circuit_closed record_failure record_success
circuit_opens true s key last later before e h l =
    ground (arith, count-failures true s key before (record_success true key e))
circuit_opens false s key last later before e h l =
    ground (arith, count-failures false s key before (record_success false key e))

open_until-failures :
    (up : Bool) (s : Settings) (key : Text) (ts : List Time) (e : Executor)
    → ((store up e).circuits key).open_until ≡ 0
    → suc (length ts + ((store up e).circuits key).failures) ≤ s.failure_threshold
    → ((store up (failures_in_a_row up s key ts e)).circuits key).open_until ≡ 0
unfolding record_failure
open_until-failures true s key [] e z h = z
open_until-failures true s key (t ∷ ts) e z h =
    ground (arith, count-failures true s key ts e, open_until-failures true s key ts e z)
open_until-failures false s key [] e z h = z
open_until-failures false s key (t ∷ ts) e z h = ground (arith, count-failures false s key ts e)

-- Fewer failures than the threshold after a success leave the circuit closed at every time.
circuit_stays_closed :
    (up : Bool) (s : Settings) (key : Text) (later : Time) (ts : List Time) (e : Executor)
    → suc (length ts) ≤ s.failure_threshold
    → ensure_circuit_closed up key later (failures_in_a_row up s key ts (record_success up key e))
      ≡ ok tt
unfolding ensure_circuit_closed record_success
circuit_stays_closed true s key later ts e h =
    ground (arith, open_until-failures true s key ts (record_success true key e))
circuit_stays_closed false s key later ts e h =
    ground (arith, open_until-failures false s key ts (record_success false key e))

-- After a success and then failures at any times, all counted at one backend that keeps the key
-- all along, a call checked there before the open time of the last failure is over is rejected if
-- the failures have reached the threshold, and let through if they have not.
pub circuit_breaks :
    (up : Bool) (s : Settings) (key : Text) (last later : Time) (before : List Time) (e : Executor)
    → suc later ≤ last + s.open_seconds
    → ensure_circuit_closed up key later
        (failures_in_a_row up s key (last ∷ before) (record_success up key e))
      ≡ (if leb s.failure_threshold (suc (length before))
          then err (retryable_error 503 Code.provider_circuit_open)
          else ok tt)
circuit_breaks up s key last later before e l =
    elim (Bool-cases (leb s.failure_threshold (suc (length before)))) [
      | inl h ↦ rw h (circuit_opens up s key last later before e (ground arith) l)
      | inr h ↦ rw h (circuit_stays_closed up s key later (last ∷ before) e (ground arith))
    ]
