-- ===== src/Interview/Ending.antt =====
-- The end of an interview: `end`, `end_realtime`, `timeout_realtime`, `cancel`,
-- `retry_evaluation` and `expire_timed_out` of `ProductInterviewService`. The hash of a request
-- and the broker that takes the tasks are parameters; the model configuration of an evaluation is
-- left out.
use qatth.Base.{
  ℕ, suc, ◌+◌, Bool, true, false, not, ◌&&◌, Option, none, some, List, [], ◌∷◌, ◌==◌, if◌then◌else◌,
  is_some, or_some, find, select, leb,
}
use qatth.Schema.Common.{Uuid, Text, Time, Code}
use qatth.Schema.Work.{Topic, OutboxEvent}
use qatth.Schema.Interview.{
  InterviewStatus, EndedReason, ProductInterview, ReportStatus, ProductInterviewReport,
}
use qatth.Db.{
  Result, Db, ok, err, M, app_error, pure, gets, or_raise, ◌>>=◌, ◌>>◌, raise_if, update,
}
use qatth.Billing.Trial.{Role, ProductCurrentUser}
use qatth.Billing.Credits.{release, capture}
use qatth.Work.Idempotency.{Request, begin, complete}
use qatth.Work.Dispatch.{enqueue, publish_resource}
use qatth.Interview.Access.{
  interview_of, write_interview, get_interview, replayed_interview, replayed_report,
  duration_reached, require_consent, latest_report,
}
use qatth.Interview.Events.{max_sequence, has_transcript}

-- `status in {"evaluating", "completed", "evaluation_failed"}`.
abbrev pub is_evaluated : InterviewStatus → Bool
is_evaluated InterviewStatus.evaluating = true
is_evaluated InterviewStatus.completed = true
is_evaluated InterviewStatus.evaluation_failed = true
is_evaluated _ = false

abbrev pub is_cancelled : InterviewStatus → Bool
is_cancelled InterviewStatus.cancelled = true
is_cancelled _ = false

-- `status in {"ready", "live", "interrupted", "ending"}`.
abbrev pub is_endable : InterviewStatus → Bool
is_endable InterviewStatus.ready = true
is_endable InterviewStatus.live = true
is_endable InterviewStatus.interrupted = true
is_endable InterviewStatus.ending = true
is_endable _ = false

-- `status in {"live", "interrupted"}`.
abbrev pub is_connected : InterviewStatus → Bool
is_connected InterviewStatus.live = true
is_connected InterviewStatus.interrupted = true
is_connected _ = false

-- `status in {"completed", "evaluating"}`.
abbrev pub is_kept_for_good : InterviewStatus → Bool
is_kept_for_good InterviewStatus.completed = true
is_kept_for_good InterviewStatus.evaluating = true
is_kept_for_good _ = false

abbrev pub is_report : ProductInterview → ProductInterviewReport → Bool
is_report x r = r.interview_id == x.id && r.rubric_version == x.rubric_version

abbrev pub first_report : ProductInterview → Uuid → Time → Db → ProductInterviewReport
first_report x user now db = record {
  id = db.next_id;
  interview_id = x.id;
  user_id = user;
  parent_report_id = none;
  attempt_number = 1;
  status = ReportStatus.processing;
  rubric_version = x.rubric_version;
  transcript_version = max_sequence x.id db.events;
  output = none;
  error = none;
  completed_at = none;
  processing_lease_id = none;
  processing_lease_expires_at = none;
  created_at = now;
  updated_at = now;
}

abbrev pub add_report : ProductInterviewReport → Db → Db
add_report r db = record db { next_id = suc db.next_id; reports = r ∷ db.reports }

-- The report of the interview's rubric, begun if there is none.
unfoldable pub open_report : ProductInterview → Uuid → Time → M ProductInterviewReport
open_report x user now db = elim (find (is_report x) db.reports) [
  | some r ↦ ok (r, db)
  | none ↦ ok (first_report x user now db, add_report (first_report x user now db) db)
]

abbrev pub set_ended : InterviewStatus → EndedReason → Time → ProductInterview → ProductInterview
set_ended s why now x = record x { status = s; ended_at = some now; ended_reason = some why }

abbrev pub set_evaluating : EndedReason → Time → ProductInterview → ProductInterview
set_evaluating why now x = record x {
  status = InterviewStatus.evaluating;
  ended_at = or_some x.ended_at (some now);
  ended_reason = or_some x.ended_reason (some why);
}

-- A billable interview is charged, and any other gets its credits back.
unfoldable pub settle : ProductInterview → Time → M (Unit {0})
settle x now db =
    if is_some x.billable_started_at
    then capture x.credit_reservation_id now db
    else ok (tt, release x.credit_reservation_id now db)

module _ (broker : OutboxEvent → Option Text) where
  -- `end` of an interview that has something to evaluate.
  unfoldable pub evaluate : ProductCurrentUser → ProductInterview → EndedReason → Time → M Uuid
  evaluate current x why now = do
    r ← open_report x current.id now
    update (write_interview x.id (set_evaluating why now))
    settle x now
    update (λ db. (enqueue Topic.interview_evaluate r.id now db).1)
    pure r.id

  -- `end` under the interview's lock: evaluated interviews stay as they are.
  unfoldable pub end_locked : ProductCurrentUser → Uuid → EndedReason → Time → M (Option Uuid)
  end_locked current k why now = do
    x ← get_interview current k
    if is_evaluated x.status then pure none else (do
      raise_if (is_cancelled x.status) (app_error 409 Code.interview_cancelled)
      raise_if (not (is_endable x.status)) (app_error 409 Code.interview_not_endable)
      said ← gets (λ db. has_transcript x.id db.events)
      raise_if (not said) (app_error 409 Code.interview_transcript_empty)
      r ← evaluate current x why now
      pure (some r))

  abbrev pub publish_report : Option Uuid → Time → Db → Db
  publish_report none now db = db
  publish_report (some r) now db = (publish_resource broker now Topic.interview_evaluate r db).1

  -- `end`.
  unfoldable pub end_interview :
      ProductCurrentUser → Uuid → Request → EndedReason → Time → M ProductInterview
  end_interview current k q why now = do
    get_interview current k
    (r, replay) ← begin q now
    if replay then replayed_interview current r else (do
      report ← end_locked current k why now
      update (complete r k 202 now)
      update (publish_report report now)
      get_interview current k)

  abbrev pub owner_of : ProductInterview → ProductCurrentUser
  owner_of x = record { id = x.user_id; role = Role.student; email_verified = true }

  -- The interview is over with nothing to evaluate: the credits go back.
  unfoldable pub end_empty : ProductInterview → InterviewStatus → EndedReason → Time → Db → Db
  end_empty x s why now db =
      release x.credit_reservation_id now (write_interview x.id (set_ended s why now) db)

  -- `end_realtime`. `q` is the request under the key "realtime-end:" and the interview.
  unfoldable pub end_realtime : Uuid → Request → Time → M (Unit {0})
  end_realtime k q now db = elim (interview_of k db) [
    | none ↦ err (app_error 404 Code.interview_not_found)
    | some x ↦
        if has_transcript x.id db.events
        then (end_interview (owner_of x) k q EndedReason.candidate_ended now >> pure tt) db
        else ok (tt, end_empty x InterviewStatus.cancelled EndedReason.candidate_ended_empty now db)
  ]

  -- `timeout_realtime`. `q` is the request under the key "timeout-end:" and the interview.
  unfoldable pub timeout_realtime : Uuid → Request → Time → M (Unit {0})
  timeout_realtime k q now db = elim (interview_of k db) [
    | none ↦ err (app_error 404 Code.interview_not_found)
    | some x ↦
        if not (is_connected x.status)
        then ok (tt, db)
        else if has_transcript x.id db.events
        then (end_interview (owner_of x) k q EndedReason.duration_limit now >> pure tt) db
        else ok (tt, end_empty x InterviewStatus.timed_out EndedReason.duration_limit now db)
  ]

  -- `cancel` under the interview's lock: the credits go back, once.
  unfoldable pub cancel_locked : ProductCurrentUser → Uuid → Time → M (Unit {0})
  cancel_locked current k now = do
    x ← get_interview current k
    raise_if (is_kept_for_good x.status) (app_error 409 Code.interview_not_cancellable)
    if is_cancelled x.status
        then pure tt
        else update (end_empty x InterviewStatus.cancelled EndedReason.cancelled_reason now)

  -- `cancel`.
  unfoldable pub cancel : ProductCurrentUser → Uuid → Request → Time → M ProductInterview
  cancel current k q now = do
    get_interview current k
    (r, replay) ← begin q now
    if replay then replayed_interview current r else (do
      cancel_locked current k now
      update (complete r k 200 now)
      get_interview current k)

  abbrev pub is_failed_report : ReportStatus → Bool
  is_failed_report ReportStatus.failed = true
  is_failed_report _ = false

  -- The greatest attempt number of the interview's rubric.
  unfoldable pub max_attempt : ProductInterview → List ProductInterviewReport → ℕ
  max_attempt x [] = 0
  max_attempt x (r ∷ rs) =
      if is_report x r && leb (max_attempt x rs) r.attempt_number
      then r.attempt_number
      else max_attempt x rs

  abbrev pub next_report :
      ProductInterview → ProductInterviewReport → Uuid → Time → Db → ProductInterviewReport
  next_report x previous user now db = record {
    id = db.next_id;
    interview_id = x.id;
    user_id = user;
    parent_report_id = some previous.id;
    attempt_number = max_attempt x db.reports + 1;
    status = ReportStatus.processing;
    rubric_version = x.rubric_version;
    transcript_version = previous.transcript_version;
    output = none;
    error = none;
    completed_at = none;
    processing_lease_id = none;
    processing_lease_expires_at = none;
    created_at = now;
    updated_at = now;
  }

  abbrev pub set_retried : ProductInterview → ProductInterview
  set_retried x = record x { status = InterviewStatus.evaluating; failure = none }

  -- `retry_evaluation` under the lock: a new attempt after one that failed.
  unfoldable pub retry_locked : ProductCurrentUser → Uuid → Time → M ProductInterviewReport
  retry_locked current k now = do
    x ← get_interview current k
    found ← gets (latest_report k)
    previous ← or_raise found (app_error 409 Code.interview_report_not_retryable)
    raise_if (not (is_failed_report previous.status))
        (app_error 409 Code.interview_report_not_retryable)
    r ← gets (next_report x previous current.id now)
    update (add_report r)
    update (write_interview x.id set_retried)
    update (λ db. (enqueue Topic.interview_evaluate r.id now db).1)
    pure r

  -- `retry_evaluation`.
  unfoldable pub retry_evaluation :
      Bool → ProductCurrentUser → Uuid → Request → Time → M ProductInterviewReport
  retry_evaluation consented current k q now = do
    get_interview current k
    (r, replay) ← begin q now
    if replay then replayed_report current r else (do
      require_consent consented
      report ← retry_locked current k now
      update (complete r report.id 202 now)
      update (publish_report (some report.id) now)
      pure report)

  -- One interview of the loop of `expire_timed_out`: whether an evaluation began.
  unfoldable pub expire_one : Request → ProductInterview → Time → M Bool
  expire_one q x now db =
      if has_transcript x.id db.events
      then (end_interview (owner_of x) x.id q EndedReason.duration_limit now >> pure true) db
      else ok (false, end_empty x InterviewStatus.timed_out EndedReason.duration_limit now db)

  -- `expire_timed_out`, over the interviews that it selects: the evaluations begun, and the
  -- interviews that timed out empty. Each round commits; the first that raises ends the loop, and the
  -- tables of the rounds before it come with its error.
  unfoldable pub expire_each :
      (Uuid → Request) → List ProductInterview → Time → ℕ × ℕ → Db → Result (ℕ × ℕ) × Db
  expire_each q [] now counts db = (ok counts, db)
  expire_each q (x ∷ xs) now (started, empty) db = elim (duration_reached now x) [
    | false ↦ expire_each q xs now (started, empty) db
    | true ↦ elim (expire_one (q x.id) x now db) [
      | err e ↦ (err e, db)
      | ok (begun, db') ↦
          expire_each q xs now (if begun then (suc started, empty) else (started, suc empty)) db'
    ]
  ]

  unfoldable pub expire_timed_out : (Uuid → Request) → Time → Db → Result (ℕ × ℕ) × Db
  expire_timed_out q now db =
      expire_each q (select (λ x. is_connected x.status && is_some x.started_at) db.interviews) now
        (0, 0) db
