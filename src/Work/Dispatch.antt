-- ===== src/Work/Dispatch.antt =====
-- `ProductTaskDispatchService` of backend/app/services/task_dispatch.py. Handing a task to Celery
-- is a parameter: whether `apply_async` of an event raises, and with which exception's name.
use qatth.Base.{
  ℕ, suc, ◌+◌, ◌^◌, Bool, true, false, not, ◌&&◌, ◌||◌, Option, none, some, List, [], ◌∷◌, map,
  ◌==◌, if◌then◌else◌, is_some, find, modify, select, sort_by, take, leb, ltb,
}
use qatth.Schema.Common.{Uuid, Text, Time}
use qatth.Schema.Work.{Topic, LastError, OutboxEvent}
use qatth.Db.{Db}

abbrev pub topic_eq : Topic → Topic → Bool
topic_eq Topic.cv_extract Topic.cv_extract = true
topic_eq Topic.cv_analyze Topic.cv_analyze = true
topic_eq Topic.interview_evaluate Topic.interview_evaluate = true
topic_eq _ _ = false

-- The event whose `deduplication_key` is the topic and the resource.
abbrev pub has_dedup : Topic → Uuid → OutboxEvent → Bool
has_dedup t k e = topic_eq e.event_type t && e.aggregate_id == k

abbrev pub new_event : Topic → Uuid → Time → Db → OutboxEvent
new_event t k now db = record {
  id = db.next_id;
  aggregate_id = k;
  event_type = t;
  available_at = now;
  published_at = none;
  attempts = 0;
  last_error = none;
  occurred_at = now;
}

-- `enqueue`: one event for each topic and resource. Every topic of the model is a supported one.
unfoldable pub enqueue : Topic → Uuid → Time → Db → OutboxEvent × Db
enqueue t k now db = elim (find (has_dedup t k) db.outbox) [
  | some e ↦ (e, db)
  | none ↦ (
    new_event t k now db,
    record db { next_id = suc db.next_id; outbox = new_event t k now db ∷ db.outbox },
  )
]

abbrev pub write_event : Uuid → (OutboxEvent → OutboxEvent) → Db → Db
write_event k f db = record db { outbox = modify (λ e. e.id == k) f db.outbox }

-- `min(300, 2 ** min(attempts, 8))` seconds.
unfoldable pub backoff : ℕ → ℕ
backoff attempts =
    let d = 2 ^ (if leb attempts 8 then attempts else 8) in if leb d 300 then d else 300

abbrev pub set_rejected : Text → Time → OutboxEvent → OutboxEvent
set_rejected why now e = record e {
  attempts = suc e.attempts;
  last_error = some (LastError.exception_name why);
  available_at = now + backoff (suc e.attempts);
}

abbrev pub set_published : Time → OutboxEvent → OutboxEvent
set_published now e = record e {
  attempts = suc e.attempts;
  published_at = some now;
  last_error = none;
}

module _ (broker : OutboxEvent → Option Text) (now : Time) where
  -- `publish`.
  unfoldable pub publish : Uuid → Db → Bool × Db
  publish k db = elim (find (λ e. e.id == k) db.outbox) [
    | none ↦ (true, db)
    | some e ↦
        if is_some e.published_at
        then (true, db)
        else if ltb now e.available_at
        then (false, db)
        else elim (broker e) [
          | some why ↦ (false, write_event k (set_rejected why now) db)
          | none ↦ (true, write_event k (set_published now) db)
        ]
  ]

  -- `publish_resource`.
  unfoldable pub publish_resource : Topic → Uuid → Db → Bool × Db
  publish_resource t k db = elim (find (has_dedup t k) db.outbox) [
    | none ↦ (false, db)
    | some e ↦ publish e.id db
  ]

  unfoldable pub publish_each : List Uuid → ℕ → Db → ℕ × Db
  publish_each [] n db = (n, db)
  publish_each (k ∷ ks) n db =
      let (done, db') = publish k db in publish_each ks (if done then suc n else n) db'

  abbrev pub is_due : OutboxEvent → Bool
  is_due e = not (is_some e.published_at) && leb e.available_at now

  abbrev pub due_before : OutboxEvent → OutboxEvent → Bool
  due_before e f =
      ltb e.available_at f.available_at
      || e.available_at == f.available_at && leb e.occurred_at f.occurred_at

  -- `publish_pending`.
  unfoldable pub publish_pending : ℕ → Db → ℕ × Db
  publish_pending limit db =
      publish_each (map (λ e. e.id) (take limit (sort_by due_before (select is_due db.outbox)))) 0
        db
