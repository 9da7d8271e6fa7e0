-- ===== src/Work/Once.antt =====
-- Requests, tasks and leases of backend/app/core/idempotency.py, services/task_dispatch.py and
-- services/task_leases.py happen once.
use mathlib.Core.Path.{subst}
use qatth.Base.{
  sym, ltb, is_some, find_test, find-modify_self, ℕ, suc, ◌+◌, ◌≤◌, ◌≡◌, refl, true, false, none,
  some, Option, ◌==◌, find, arith, Bool-cases, Option-cases, inl, inr,
}
use qatth.Schema.Common.{Uuid, Text, Time, Code}
use qatth.Schema.Work.{RequestStatus, IdempotencyRecord, Topic, OutboxEvent}
use qatth.Db.{Db, ok, err, app_error}
use qatth.Work.Idempotency.{
  Request, is_request, new_record, add_record, set_request_completed, begin, complete,
}
use qatth.Work.Dispatch.{
  has_dedup, topic_eq, enqueue, publish, write_event, set_rejected, set_published,
}
use qatth.Work.Leases.{
  WorkStatus, Resource, is_held_by_other, claim, owns, clear, recover, lease_duration,
}

-- A request that is new and then completed is for the same request a replay, whose record is
-- completed and has the resource and the status that it was completed with; for any other request
-- that reuses the key it is a conflict. Both change nothing.
pub begin-complete :
    (q : Request) (resource : Uuid) (status : ℕ) (now later : Time) (db : Db)
    → 8 ≤ q.key.size
    → q.key.size ≤ 128
    → find (is_request q) db.requests ≡ none
    → (r : IdempotencyRecord) × (db' : Db) × (begin q now db ≡ ok ((r, false), db'))
      × (r' : IdempotencyRecord) × (begin q later (complete r resource status now db')
          ≡ ok ((r', true), complete r resource status now db'))
      × (r'.status ≡ RequestStatus.completed)
      × (r'.resource_id ≡ some resource)
      × (r'.response_status ≡ some status)
      × ((other : Text)
          → ¬ (other ≡ q.request_hash)
          → begin (record q { request_hash = other }) later (complete r resource status now db')
            ≡ err (app_error 409 Code.idempotency_conflict))
unfolding begin complete
begin-complete q resource status now later db low high fresh = (
  new_record q now db,
  add_record (new_record q now db) db,
  ground arith,
  set_request_completed resource status now (new_record q now db),
  ground arith,
  refl,
  refl,
  refl,
  λ other ne. ground arith,
)

topic_eq_refl : (t : Topic) → topic_eq t t ≡ true
topic_eq_refl Topic.cv_extract = refl
topic_eq_refl Topic.cv_analyze = refl
topic_eq_refl Topic.interview_evaluate = refl

-- A task that is enqueued again, at any later time, is the same event, and nothing changes.
enqueue_again :
    (t : Topic) (k : Uuid) (now later : Time) (db : Db)
    → enqueue t k later (enqueue t k now db).1 ≡ enqueue t k now db
unfolding enqueue
enqueue_again t k now later db = elim (Option-cases (find (has_dedup t k) db.outbox)) [
  | inl new ↦ ground (arith, topic_eq_refl t)
  | inr (e, old) ↦ ground arith
]

-- A worker that claims a resource owns it, and until the lease runs out no other worker can claim
-- it, while the same worker can; when it has run out, anyone can, and it is then recovered to wait.
pub claim_exclusive :
    (lease other : Text) (now later : Time) (r : Resource)
    → (claim lease now r).0 ≡ true
    → ¬ (other ≡ lease)
    → let r' = (claim lease now r).1 in
      (owns lease r' ≡ true)
      × (suc later ≤ now + lease_duration → claim other later r' ≡ (false, r'))
      × ((claim lease later r').0 ≡ true)
      × (now + lease_duration ≤ later → (claim other later r').0 ≡ true)
      × ((e : OutboxEvent)
          → now + lease_duration ≤ later
          → (recover later (r', e)).1.0.status ≡ WorkStatus.waiting)
unfolding claim owns recover clear
claim_exclusive lease other now later r got ne = elim (Bool-cases (is_held_by_other lease now r)) [
  | inl h ↦ ground arith
  | inr h ↦
      rw h (ground arith, λ t. ground arith, ground arith, λ t. ground arith, λ e t. ground arith)
]

module _ (broker : OutboxEvent → Option Text) (now : Time) (k : Uuid) (db : Db) where
  publish_absent : find (λ e. e.id == k) db.outbox ≡ none → publish broker now k db ≡ (true, db)
  unfolding publish
  publish_absent e = ground arith

  module _ {x : OutboxEvent} (found : find (λ e. e.id == k) db.outbox ≡ some x) where
    publish_published : is_some x.published_at ≡ true → publish broker now k db ≡ (true, db)
    unfolding publish
    publish_published p = ground arith

    publish_early :
        is_some x.published_at ≡ false
        → ltb now x.available_at ≡ true
        → publish broker now k db ≡ (false, db)
    unfolding publish
    publish_early p t = ground arith

    publish_rejected :
        {why : Text}
        → is_some x.published_at ≡ false
        → ltb now x.available_at ≡ false
        → broker x ≡ some why
        → publish broker now k db ≡ (false, write_event k (set_rejected why now) db)
    unfolding publish
    publish_rejected p t b = ground arith

    publish_sent :
        is_some x.published_at ≡ false
        → ltb now x.available_at ≡ false
        → broker x ≡ none
        → publish broker now k db ≡ (true, write_event k (set_published now) db)
    unfolding publish
    publish_sent p t b = ground arith

-- An event whose hand-over to the broker succeeded is not handed over again, whatever the broker
-- would answer: publishing it again reports success and changes nothing.
publish_again :
    (broker another : OutboxEvent → Option Text) (now later : Time) (k : Uuid) (db : Db)
    → (publish broker now k db).0 ≡ true
    → publish another later k (publish broker now k db).1 ≡ (true, (publish broker now k db).1)
publish_again broker another now later k db done =
    elim (Option-cases (find (λ e. e.id == k) db.outbox)) [
      | inl e ↦ settled (publish_absent broker now k db e) (publish_absent another later k db e)
      | inr (x, e) ↦ elim (Bool-cases (is_some x.published_at)) [
        | inl p ↦
            settled (publish_published broker now k db e p)
              (publish_published another later k db e p)
        | inr p ↦ elim (Bool-cases (ltb now x.available_at)) [
          | inl t ↦ absurd (clash (publish_early broker now k db e p t))
          | inr t ↦ elim (Option-cases (broker x)) [
            | inr (why, b) ↦ absurd (clash (publish_rejected broker now k db e p t b))
            | inl b ↦
                let test = find_test (λ (y : OutboxEvent). y.id == k) db.outbox e in
                settled (publish_sent broker now k db e p t b) (
                  publish_published another later k (write_event k (set_published now) db)
                    (find-modify_self (λ y. y.id == k) (set_published now) db.outbox e test) refl)
          ]
        ]
      ]
    ]
  where
    settled :
        {d : Db}
        → publish broker now k db ≡ (true, d)
        → publish another later k d ≡ (true, d)
        → publish another later k (publish broker now k db).1 ≡ (true, (publish broker now k db).1)
    settled run same = subst (λ r. publish another later k r.1 ≡ (true, r.1)) (sym run) same

    clash : {d : Db} → publish broker now k db ≡ (false, d) → ⊥
    clash run = ground arith
