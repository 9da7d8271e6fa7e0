-- ===== src/Schema/Work.antt =====
-- The tables of backend/app/models/foundation.py: idempotency records and the task outbox. Of the
-- body of a response, the code of an error is kept.
use qatth.Base.{ℕ, Option}
use qatth.Schema.Common.{Uuid, Text, Time, Code}

pub data RequestStatus : Type 0 where
  processing completed : RequestStatus

pub record IdempotencyRecord : Type 0 where
  pub id : Uuid
  pub scope : Text
  pub operation : Text
  pub idempotency_key : Text
  pub request_hash : Text
  pub status : RequestStatus
  pub resource_id : Option Uuid
  pub response_status : Option ℕ
  pub response_body : Option Code
  pub completed_at : Option Time
  pub expires_at : Time

pub data Topic : Type 0 where
  cv_extract cv_analyze interview_evaluate : Topic

pub data LastError : Type 0 where
  processing_lease_expired : LastError
  exception_name : Text → LastError

-- The `deduplication_key` is the topic with the resource's identifier.
pub record OutboxEvent : Type 0 where
  pub id : Uuid
  pub aggregate_id : Uuid
  pub event_type : Topic
  pub available_at : Time
  pub published_at : Option Time
  pub attempts : ℕ
  pub last_error : Option LastError
  pub occurred_at : Time
