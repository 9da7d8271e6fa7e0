-- ===== src/Schema/Common.antt =====
-- The types of the columns, and the error that an operation raises (backend/app/core/errors.py).
use qatth.Base.{ℕ, Bool}

abbrev pub Uuid : Type 0
Uuid = ℕ

-- A text that the code compares or copies, and does not take apart.
abbrev pub Text : Type 0
Text = ℕ

abbrev pub Time : Type 0
Time = ℕ

-- The `code` of an `AppError`.
pub data Code : Type 0 where
  billing_catalog_unavailable trial_policy_unavailable feature_pricing_unavailable : Code
  feature_limit_exceeded credit_account_restricted insufficient_credits user_not_found : Code
  zero_ledger_entry credit_reservation_not_capturable credit_reservation_corrupt : Code
  credit_reservation_not_found credit_reservation_not_refundable : Code
  payment_reversal_amount_invalid payment_reversal_state_corrupt : Code
  payment_reversal_state_conflict payment_period_required payment_grant_not_found : Code
  checkout_session_not_found subscription_id_required subscription_not_found : Code
  billing_offer_not_found payment_amount_required payment_amount_mismatch : Code
  payment_offer_mismatch billing_period_required payment_event_conflict : Code
  payment_event_failed payment_reconciliation_failed : Code
  idempotency_key_reused idempotent_command_in_progress : Code
  duplicate_catalog_item invalid_billing_interval billing_catalog_not_found : Code
  billing_catalog_immutable billing_catalog_effective_time_conflict : Code
  catalog_version_mismatch zero_credit_adjustment credit_adjustment_not_found : Code
  credit_adjustment_already_decided dual_control_self_approval_forbidden : Code
  dual_control_self_decision_forbidden adjustment_exceeds_balance : Code
  payment_redirect_not_allowed payment_redirect_not_configured payment_customer_not_found : Code
  invalid_idempotency_key idempotency_conflict idempotency_request_in_progress : Code
  interview_not_found interview_report_not_found interview_reconnect_expired : Code
  interview_duration_reached interview_not_connectable realtime_token_invalid : Code
  interview_cancelled interview_not_endable interview_transcript_empty : Code
  interview_not_cancellable interview_report_not_retryable : Code
  unsupported_task_type task_not_found task_not_retryable task_max_attempts_reached : Code
  provider_budget_exhausted provider_circuit_open provider_bulkhead_full : Code
  invalid_payment_timestamp consent_required provider_error external_error cv_analysis_timeout :
      Code
  cv_scan_not_found cv_scan_not_retryable cv_draft_not_ready cv_draft_not_found : Code
  cv_version_not_found cv_draft_not_editable cv_draft_revision_conflict : Code
  cv_scan_not_confirmable cv_archived cv_not_found cv_analysis_not_found : Code
  cv_analysis_not_retryable file_not_found file_not_ready invalid_cursor : Code
  file_rejected upload_intent_not_found content_type_mismatch file_too_large : Code
  upload_not_completable checksum_mismatch file_not_available invalid_pdf unsafe_pdf : Code
  malware_scanner_unavailable malware_detected malware_scanner_error : Code
  job_not_found cv_extraction_failed cv_analysis_failed interview_evaluation_failed : Code

-- `AppError`, without the display message and the details.
pub record AppError : Type 0 where
  pub status_code : ℕ
  pub code : Code
  pub retryable : Bool
