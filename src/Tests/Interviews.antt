-- ===== src/Tests/Interviews.antt =====
-- Runs of the transcript and of the tokens.
use qatth.Base.{arith, Option, ◌≡◌, refl, Bool, true, false, some, none, [], ◌∷◌}
use qatth.Schema.Common.{Text, Time, Code}
use qatth.Schema.Interview.{
  EndedReason, InterviewStatus, InterviewType, ProductJob, JobStatus, ProductInterview,
  InterviewRealtimeToken, Speaker, ProductInterviewEvent,
}
use qatth.Db.{Db, ok, err, app_error}
use qatth.Schema.Cv.{ProductCv, CvStatus, Title, ProductCvVersion}
use qatth.Interview.Creation.{
  CreateInterviewRequest, Runtime, Versions, dimensions, create_interview, create_once, IsReady,
}
use qatth.Interview.Access.{interview_of, reconnect_expired, duration_reached}
use qatth.Interview.Events.{EventArgs, record_event, known_event, max_sequence}
use qatth.Interview.Realtime.{consume_realtime_token, set_live}
use qatth.Interview.Transcript.{InOrder, AllBelow, record_event-InOrder}
use qatth.Interview.Token.{consume_once}
use qatth.Billing.Trial.{Role, ProductCurrentUser}
use qatth.Schema.Work.{OutboxEvent}
use qatth.Work.Idempotency.{Request}
use qatth.Interview.Ending.{end_locked, cancel_locked, timeout_realtime}
use qatth.Interview.Final.{cancelled_is_final}
use qatth.Tests.Data.{empty_db}

abbrev interview : ProductInterview
interview = record {
  id = 5;
  user_id = 10;
  cv_version_id = 70;
  job_id = none;
  target_role = 2;
  interview_type = InterviewType.mixed;
  language = 1;
  duration_minutes = 20;
  status = InterviewStatus.ready;
  cv_snapshot = record {
    version_id = 70;
    schema_version = 1;
    checksum = 4;
    content = record { full_name = some 1; rest = 2 };
  };
  job_snapshot = none;
  plan_snapshot = record {
    target_role = 2;
    interview_type = InterviewType.mixed;
    language = 1;
    duration_minutes = 20;
    dimensions = dimensions InterviewType.mixed;
    instruction_prefix = none;
  };
  rubric_version = 1;
  prompt_version = 1;
  gemini_model = 3;
  gemini_resumption_handle = none;
  credit_reservation_id = none;
  billable_started_at = none;
  billable_event_id = none;
  failure = none;
  ended_reason = none;
  started_at = none;
  ended_at = none;
  reconnect_until = none;
  created_at = 1;
}

abbrev token : Text → InterviewRealtimeToken
token hash = record {
  id = 6;
  interview_id = 5;
  user_id = 10;
  token_hash = hash;
  expires_at = 300;
  consumed_at = none;
  revoked_at = none;
}

abbrev said : ProductInterviewEvent
said = record {
  id = 7;
  interview_id = 5;
  sequence = 1;
  event_type = 1;
  speaker = some Speaker.interviewer;
  text = some 1;
  client_event_id = none;
  provider_event_id = some 1;
}

abbrev interview_db : Db
interview_db = record empty_db {
  interviews = interview ∷ [];
  tokens = token 1 ∷ [];
  events = said ∷ [];
}

abbrev answer : EventArgs
answer = record {
  event_type = 1;
  speaker = some Speaker.candidate;
  text = some 2;
  client_event_id = some 2;
  provider_event_id = none;
}

abbrev answered : ProductInterviewEvent
answered = record {
  id = 100;
  interview_id = 5;
  sequence = 2;
  event_type = 1;
  speaker = some Speaker.candidate;
  text = some 2;
  client_event_id = some 2;
  provider_event_id = none;
}

abbrev answered_db : Db
answered_db = record interview_db { next_id = 101; events = answered ∷ said ∷ [] }

interview_db-InOrder : InOrder 5 interview_db.events
unfolding InOrder AllBelow
interview_db-InOrder = (λ own. tt, tt)

answer_recorded : record_event 5 answer interview_db ≡ ok ((answered, false), answered_db)
unfolding record_event known_event max_sequence
answer_recorded = refl

record_event-InOrder_example : InOrder 5 answered_db.events
record_event-InOrder_example =
    record_event-InOrder 5 5 answer interview_db interview_db-InOrder answer_recorded

consume_once_example :
    (db' : Db) × (consume_realtime_token 120 true 5 1 20 interview_db ≡ ok (tt, db'))
    × (interview_of 5 db' ≡ some (set_live 20 interview))
    × (InterviewStatus.live ≡ InterviewStatus.live)
    × ((agreed : Bool) (later : Time)
        → consume_realtime_token 120 agreed 5 1 later db'
          ≡ err (app_error 401 Code.realtime_token_invalid))
unfolding reconnect_expired duration_reached
consume_once_example = consume_once 120 5 1 20 interview_db refl refl refl refl refl refl refl

abbrev owner : ProductCurrentUser
owner = record { id = 10; role = Role.student; email_verified = true }

abbrev broker : OutboxEvent → Option Text
broker e = none

abbrev ending : Request
ending = record {
  scope = 10;
  operation = 2;
  key = record { text = 5; size = 40 };
  request_hash = 6;
}

abbrev over_db : InterviewStatus → Db
over_db s = record interview_db { interviews = record interview { status = s } ∷ [] }

cancelled_is_final_example :
    (db' : Db) × (cancel_locked broker owner 5 30 (over_db InterviewStatus.live) ≡ ok (tt, db'))
    × (db'.entries ≡ [])
    × (end_locked broker owner 5 EndedReason.user_ended 40 db'
        ≡ err (app_error 409 Code.interview_cancelled))
    × (cancel_locked broker owner 5 40 db' ≡ ok (tt, db'))
    × (timeout_realtime broker 5 ending 40 db' ≡ ok (tt, db'))
cancelled_is_final_example =
    cancelled_is_final broker owner owner 5 30 40 (over_db InterviewStatus.live) refl refl refl
      EndedReason.user_ended ending refl refl

abbrev cv_version : ProductCvVersion
cv_version = record {
  id = 70;
  cv_id = 71;
  user_id = 10;
  source_scan_id = none;
  source_file_id = 72;
  version = 1;
  schema_version = 1;
  content = record { full_name = some 1; rest = 2 };
  checksum = 4;
}

abbrev active_cv : ProductCv
active_cv = record {
  id = 71;
  user_id = 10;
  title = Title.my_cv;
  status = CvStatus.active;
  active_version_id = some 70;
  created_at = 1;
  updated_at = 1;
}

abbrev open_job : ProductJob
open_job = record {
  id = 73;
  title = 1;
  company_name = 2;
  location_text = none;
  description_text = some 3;
  skills = 4 ∷ [];
  status = JobStatus.active;
  verified_at = none;
}

abbrev creation_db : Db
creation_db = record empty_db {
  cvs = active_cv ∷ [];
  versions = cv_version ∷ [];
  jobs = open_job ∷ [];
}

abbrev wanted : CreateInterviewRequest
wanted = record {
  cv_version_id = 70;
  job_id = some 73;
  target_role = 2;
  interview_type = InterviewType.technical;
  language = 1;
  duration_minutes = 30;
}

abbrev versions : Versions
versions = record { rubric = 1; prompt = 2 }

abbrev runtime : Runtime
runtime = record { model = 9; version = some 3; instruction_prefix = none }

create_once_example :
    (x : ProductInterview) × (db' : Db) × (create_interview versions
        (ok runtime)
        true
        owner
        wanted
        ending
        20
        creation_db
      ≡ ok (x, db'))
    × IsReady versions runtime owner wanted ending 20 creation_db cv_version (some open_job) x
    × (interview_of x.id db' ≡ some x)
    × (create_interview versions
          (err (app_error 503 Code.provider_error))
          true
          owner
          wanted
          ending
          30
          db'
        ≡ ok (x, db'))
create_once_example =
    create_once versions runtime owner wanted ending 20 creation_db (omega arith) (omega arith) refl
      (err (app_error 503 Code.provider_error)) 30 (some open_job) refl refl refl (refl, refl)
