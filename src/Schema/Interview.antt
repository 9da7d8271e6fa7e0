-- ===== src/Schema/Interview.antt =====
-- The tables of backend/app/models/product_interview.py, and the jobs of
-- backend/app/models/product_jobs.py that an interview may be about. Left out: the scores and the
-- texts of a report, the feedback, and most columns of a job.
use qatth.Base.{ℕ, Option, List}
use qatth.Schema.Common.{Uuid, Text, Time, Code}
use qatth.Schema.Cv.{CvContent}

pub data InterviewStatus : Type 0 where
  created ready live interrupted ending evaluating completed evaluation_failed : InterviewStatus
  cancelled timed_out : InterviewStatus

pub data EndedReason : Type 0 where
  user_ended candidate_ended candidate_ended_empty duration_limit : EndedReason
  reservation_timeout cancelled_reason : EndedReason

pub data InterviewType : Type 0 where
  behavioral technical mixed : InterviewType

-- What an interview of a type looks at.
pub data Dimension : Type 0 where
  communication ownership teamwork learning technical_depth problem_solving : Dimension
  tradeoffs evidence role_fit : Dimension

pub data JobStatus : Type 0 where
  active stale expired invalid unavailable : JobStatus

pub record ProductJob : Type 0 where
  pub id : Uuid
  pub title : Text
  pub company_name : Text
  pub location_text : Option Text
  pub description_text : Option Text
  pub skills : List Text
  pub status : JobStatus
  pub verified_at : Option Time

-- `cv_snapshot`.
pub record CvSnapshot : Type 0 where
  pub version_id : Uuid
  pub schema_version : Text
  pub checksum : Text
  pub content : CvContent

-- `job_snapshot`.
pub record JobSnapshot : Type 0 where
  pub job_id : Uuid
  pub title : Text
  pub company_name : Text
  pub location : Option Text
  pub description : Option Text
  pub skills : List Text
  pub verified_at : Option Time

-- `plan_snapshot`, without the policy, which is the same text always.
pub record PlanSnapshot : Type 0 where
  pub target_role : Text
  pub interview_type : InterviewType
  pub language : Text
  pub duration_minutes : ℕ
  pub dimensions : List Dimension
  pub instruction_prefix : Option Text

pub record ProductInterview : Type 0 where
  pub id : Uuid
  pub user_id : Uuid
  pub cv_version_id : Uuid
  pub job_id : Option Uuid
  pub target_role : Text
  pub interview_type : InterviewType
  pub language : Text
  pub duration_minutes : ℕ
  pub status : InterviewStatus
  pub cv_snapshot : CvSnapshot
  pub job_snapshot : Option JobSnapshot
  pub plan_snapshot : PlanSnapshot
  pub rubric_version : Text
  pub prompt_version : Text
  pub gemini_model : Text
  pub gemini_resumption_handle : Option Text
  pub credit_reservation_id : Option Uuid
  pub billable_started_at : Option Time
  pub billable_event_id : Option Uuid
  pub failure : Option Code
  pub ended_reason : Option EndedReason
  pub started_at : Option Time
  pub ended_at : Option Time
  pub reconnect_until : Option Time
  pub created_at : Time

pub record InterviewRealtimeToken : Type 0 where
  pub id : Uuid
  pub interview_id : Uuid
  pub user_id : Uuid
  pub token_hash : Text
  pub expires_at : Time
  pub consumed_at : Option Time
  pub revoked_at : Option Time

pub data Speaker : Type 0 where
  candidate interviewer : Speaker

pub record ProductInterviewEvent : Type 0 where
  pub id : Uuid
  pub interview_id : Uuid
  pub sequence : ℕ
  pub event_type : Text
  pub speaker : Option Speaker
  pub text : Option Text
  pub client_event_id : Option Text
  pub provider_event_id : Option Text

pub data ReportStatus : Type 0 where
  processing ready failed : ReportStatus

pub record ProductInterviewReport : Type 0 where
  pub id : Uuid
  pub interview_id : Uuid
  pub user_id : Uuid
  pub parent_report_id : Option Uuid
  pub attempt_number : ℕ
  pub status : ReportStatus
  pub rubric_version : Text
  pub transcript_version : ℕ
  pub output : Option Text
  pub error : Option Code
  pub completed_at : Option Time
  pub processing_lease_id : Option Text
  pub processing_lease_expires_at : Option Time
  pub created_at : Time
  pub updated_at : Time
