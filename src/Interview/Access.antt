-- ===== src/Interview/Access.antt =====
-- Finding an interview: `get`, `_locked_interview`, `_replayed_resource`, `_duration_reached`,
-- `_reconnect_expired` and `report` of `ProductInterviewService`. Whether a user has an active
-- consent (`IdentityService.require_consent`) is a parameter of the calls that ask for it.
use qatth.Base.{
  ◌+◌, ◌*◌, Bool, true, false, not, ◌&&◌, ◌||◌, Option, none, some, ◌==◌, if◌then◌else◌, some_and,
  find, modify, select, sort_by, first, leb,
}
use qatth.Schema.Common.{Uuid, Time, Code}
use qatth.Schema.Work.{RequestStatus, IdempotencyRecord}
use qatth.Schema.Interview.{InterviewStatus, ProductInterview, ProductInterviewReport}
use qatth.Db.{Db, ok, err, M, app_error, retryable_error, raise_if}
use qatth.Billing.Trial.{Role, ProductCurrentUser}

abbrev pub is_admin : Role → Bool
is_admin Role.admin = true
is_admin Role.student = false

abbrev pub interview_of : Uuid → Db → Option ProductInterview
interview_of k db = find (λ x. x.id == k) db.interviews

abbrev pub write_interview : Uuid → (ProductInterview → ProductInterview) → Db → Db
write_interview k f db = record db { interviews = modify (λ x. x.id == k) f db.interviews }

-- An administrator sees every row, and a user his own.
abbrev pub may_see : ProductCurrentUser → Uuid → Bool
may_see current owner = is_admin current.role || owner == current.id

-- `get`, and `_locked_interview` after it: the same row, since a call is atomic here.
unfoldable pub get_interview : ProductCurrentUser → Uuid → M ProductInterview
get_interview current k db = elim (interview_of k db) [
  | none ↦ err (app_error 404 Code.interview_not_found)
  | some x ↦
      if may_see current x.user_id then ok (x, db) else err (app_error 404 Code.interview_not_found)
]

abbrev pub is_request_completed : RequestStatus → Bool
is_request_completed RequestStatus.completed = true
is_request_completed RequestStatus.processing = false

-- `_replayed_resource` for an interview: what a replay returns.
unfoldable pub replayed_interview : ProductCurrentUser → IdempotencyRecord → M ProductInterview
replayed_interview current r db = elim (r.resource_id) [
  | none ↦ err (retryable_error 409 Code.idempotency_request_in_progress)
  | some k ↦
      if is_request_completed r.status
      then get_interview current k db
      else err (retryable_error 409 Code.idempotency_request_in_progress)
]

-- The same for a report.
unfoldable pub replayed_report : ProductCurrentUser → IdempotencyRecord → M ProductInterviewReport
replayed_report current r db = elim (r.resource_id) [
  | none ↦ err (retryable_error 409 Code.idempotency_request_in_progress)
  | some k ↦
      if not (is_request_completed r.status)
      then err (retryable_error 409 Code.idempotency_request_in_progress)
      else elim (find (λ x. x.id == k) db.reports) [
        | none ↦ err (app_error 404 Code.interview_report_not_found)
        | some x ↦
            if may_see current x.user_id
            then ok (x, db)
            else err (app_error 404 Code.interview_report_not_found)
      ]
]

-- `_duration_reached`.
unfoldable pub duration_reached : Time → ProductInterview → Bool
duration_reached now x = some_and x.started_at (λ t. leb (t + x.duration_minutes * 60) now)

abbrev pub is_interrupted : InterviewStatus → Bool
is_interrupted InterviewStatus.interrupted = true
is_interrupted _ = false

-- `_reconnect_expired`.
unfoldable pub reconnect_expired : Time → ProductInterview → Bool
reconnect_expired now x =
    is_interrupted x.status && not (some_and x.reconnect_until (λ t. not (leb t now)))

-- `status in {"ready", "interrupted"}`.
abbrev pub is_connectable : InterviewStatus → Bool
is_connectable InterviewStatus.ready = true
is_connectable InterviewStatus.interrupted = true
is_connectable _ = false

-- `IdentityService.require_consent`.
abbrev pub require_consent : Bool → M (Unit {0})
require_consent consented = raise_if (not consented) (app_error 403 Code.consent_required)

-- `report`: the latest report of the interview.
unfoldable pub latest_report : Uuid → Db → Option ProductInterviewReport
latest_report k db =
    first (
      sort_by (λ x y. leb y.created_at x.created_at) (select (λ x. x.interview_id == k) db.reports))
