-- ===== src/Tests/Once.antt =====
-- Runs of the idempotent requests, the outbox and the leases.
use qatth.Base.{ℕ, ◌≡◌, ◌≤◌, refl, true, false, some, none, Option, [], ◌∷◌, suc, arith}
use qatth.Schema.Common.{Text, Code}
use qatth.Schema.Work.{Topic, RequestStatus, IdempotencyRecord, OutboxEvent}
use qatth.Db.{Db, ok, err, app_error}
use qatth.Work.Idempotency.{Request, begin, complete}
use qatth.Work.Dispatch.{publish, new_event}
use qatth.Work.Leases.{WorkStatus, Resource, claim, owns, recover}
use qatth.Work.Once.{begin-complete, claim_exclusive}
use qatth.Tests.Data.{empty_db}

abbrev request : Request
request = record {
  scope = 10;
  operation = 1;
  key = record { text = 5; size = 16 };
  request_hash = 6;
}

begin-complete_example :
    (r : IdempotencyRecord) × (db' : Db) × (begin request 1 empty_db ≡ ok ((r, false), db'))
    × (r' : IdempotencyRecord) × (begin request 3 (complete r 8 202 1 db')
        ≡ ok ((r', true), complete r 8 202 1 db'))
    × (r'.status ≡ RequestStatus.completed)
    × (r'.resource_id ≡ some 8)
    × (r'.response_status ≡ some 202)
    × ((other : Text)
        → ¬ (other ≡ 6)
        → begin (record request { request_hash = other }) 3 (complete r 8 202 1 db')
          ≡ err (app_error 409 Code.idempotency_conflict))
begin-complete_example = begin-complete request 8 202 1 3 empty_db (omega arith) (omega arith) refl

abbrev resource : Resource
resource = record {
  status = WorkStatus.waiting;
  processing_lease_id = none;
  processing_lease_expires_at = none;
  updated_at = 1;
}

other_worker : ¬ (◌≡◌ {A = ℕ} 6 5)
other_worker e = omega (arith, e)

claim_exclusive_example :
    let r' = (claim 5 10 resource).1 in
    (owns 5 r' ≡ true)
    × (suc 20 ≤ 910 → claim 6 20 r' ≡ (false, r'))
    × ((claim 5 20 r').0 ≡ true)
    × (910 ≤ 20 → (claim 6 20 r').0 ≡ true)
    × ((e : OutboxEvent) → 910 ≤ 20 → (recover 20 (r', e)).1.0.status ≡ WorkStatus.waiting)
unfolding claim
claim_exclusive_example = claim_exclusive 5 6 10 20 resource refl other_worker

abbrev queued_db : Db
queued_db = record empty_db { outbox = new_event Topic.cv_extract 7 3 empty_db ∷ [] }

abbrev accepting : OutboxEvent → Option Text
accepting e = none

abbrev failing : OutboxEvent → Option Text
failing e = some 1

sent : (publish accepting 5 100 queued_db).0 ≡ true
unfolding publish
sent = refl
