-- ===== src/Schema/Billing.antt =====
-- The tables of backend/app/models/product_billing.py. Left out: `message`-like texts
-- (`description`, `display_name`), `metadata_json`, `details`, and the times `created_at` and
-- `updated_at` where no operation reads them.
use qatth.Base.{ℕ, Bool, Option}
use qatth.Base.Int.{ℤ}
use qatth.Schema.Common.{Uuid, Text, Time, Code}

pub data CatalogStatus : Type 0 where
  draft active : CatalogStatus

pub record BillingCatalogVersion : Type 0 where
  pub id : Uuid
  pub version_key : Text
  pub market : Text
  pub currency : Text
  pub status : CatalogStatus
  pub effective_from : Option Time
  pub effective_to : Option Time
  pub created_by_user_id : Option Uuid
  pub activation_reason : Option Text
  pub published_at : Option Time

pub data OfferType : Type 0 where
  subscription topup : OfferType

pub record BillingOffer : Type 0 where
  pub id : Uuid
  pub catalog_version_id : Uuid
  pub item_code : Text
  pub offer_type : OfferType
  pub amount_minor : ℤ
  pub currency : Text
  pub billing_interval : Option Text
  pub credit_grant : ℤ
  pub active : Bool

pub record FeatureCreditPrice : Type 0 where
  pub id : Uuid
  pub catalog_version_id : Uuid
  pub feature_key : Text
  pub credit_cost : ℤ
  pub maximum_duration_minutes : Option ℕ
  pub change_reason : Option Text

pub record SignupTrialPolicy : Type 0 where
  pub id : Uuid
  pub policy_key : Text
  pub enabled : Bool
  pub credit_grant : ℤ
  pub valid_days : ℕ
  pub policy_version : Text
  pub effective_from : Time
  pub reason : Option Text
  pub created_by_user_id : Option Uuid
  pub created_at : Time

pub data SubscriptionStatus : Type 0 where
  trialing active past_due cancelled : SubscriptionStatus

pub record BillingSubscription : Type 0 where
  pub id : Uuid
  pub user_id : Uuid
  pub offer_id : Uuid
  pub provider : Text
  pub provider_customer_id : Option Text
  pub provider_subscription_id : Option Text
  pub status : SubscriptionStatus
  pub current_period_reference : Option Text
  pub current_period_start : Option Time
  pub current_period_end : Option Time
  pub cancel_at_period_end : Bool
  pub created_at : Time

-- Only `review` is written; `suspended` stands for what an operator may set.
pub data AccountStatus : Type 0 where
  active review suspended : AccountStatus

pub record CreditAccount : Type 0 where
  pub id : Uuid
  pub user_id : Uuid
  pub status : AccountStatus
  pub debt : ℤ

pub data BucketType : Type 0 where
  trial subscription topup adjustment : BucketType

-- The texts that the code puts together from a prefix and identifiers, such as "capture:" + id.
-- A bucket's `source_reference` and an entry's `idempotency_key` are such texts.
pub data Key : Type 0 where
  trial_key : Uuid → Uuid → Key
  payment_key : Text → Key
  capture_key : Uuid → Key
  refund_key : Uuid → Key
  feature_refund_key : Uuid → Key
  expire_key : Uuid → Key
  reversal_key : Text → Key
  adjustment_key : Uuid → Key

pub record CreditBucket : Type 0 where
  pub id : Uuid
  pub account_id : Uuid
  pub bucket_type : BucketType
  pub source_reference : Option Key
  pub granted : ℤ
  pub available : ℤ
  pub reserved : ℤ
  pub expires_at : Option Time
  pub created_at : Time

pub record PaymentReversalState : Type 0 where
  pub id : Uuid
  pub provider : Text
  pub period_reference : Text
  pub bucket_id : Uuid
  pub original_amount_minor : ℤ
  pub reversed_amount_minor : ℤ
  pub reversed_credits : ℤ

pub record CreditAccountReview : Type 0 where
  pub id : Uuid
  pub account_id : Uuid
  pub user_id : Uuid
  pub provider : Text
  pub provider_event_id : Text
  pub debt_credits : ℤ

pub data EntryType : Type 0 where
  grant charge refund expire reversal adjustment : EntryType

pub data ReferenceType : Type 0 where
  cv_analysis interview interview_token signup_trial payment : ReferenceType
  payment_event credit_bucket admin_adjustment : ReferenceType
  other_reference : Text → ReferenceType

pub record CreditLedgerEntry : Type 0 where
  pub id : Uuid
  pub account_id : Uuid
  pub bucket_id : Option Uuid
  pub amount : ℤ
  pub entry_type : EntryType
  pub balance_after : ℤ
  pub reference_type : ReferenceType
  pub reference_id : Option Text
  pub idempotency_key : Option Key
  pub actor_user_id : Option Uuid
  pub reason : Option Text
  pub occurred_at : Time

pub data ReservationStatus : Type 0 where
  reserved captured released refunded : ReservationStatus

pub record CreditReservation : Type 0 where
  pub id : Uuid
  pub account_id : Uuid
  pub user_id : Uuid
  pub feature_key : Text
  pub amount : ℤ
  pub status : ReservationStatus
  pub catalog_version_id : Uuid
  pub reference_type : ReferenceType
  pub reference_id : Uuid
  pub expires_at : Time
  pub captured_at : Option Time
  pub released_at : Option Time
  pub refunded_at : Option Time

pub record CreditReservationAllocation : Type 0 where
  pub id : Uuid
  pub reservation_id : Uuid
  pub bucket_id : Uuid
  pub amount : ℤ

pub record SignupTrialGrant : Type 0 where
  pub id : Uuid
  pub user_id : Uuid
  pub policy_id : Uuid
  pub policy_key : Text
  pub bucket_id : Uuid

pub data CheckoutStatus : Type 0 where
  created pending completed : CheckoutStatus

pub record BillingCheckoutSession : Type 0 where
  pub id : Uuid
  pub user_id : Uuid
  pub offer_id : Uuid
  pub catalog_version_id : Uuid
  pub provider : Text
  pub provider_session_id : Option Text
  pub status : CheckoutStatus
  pub success_url : Text
  pub cancel_url : Text
  pub redirect_url : Option Text
  pub idempotency_key : Option Text
  pub request_hash : Option Text
  pub expires_at : Time
  pub completed_at : Option Time

pub data InboxStatus : Type 0 where
  received processing processed failed : InboxStatus

pub data EventType : Type 0 where
  checkout_completed subscription_renewed payment_refunded : EventType
  payment_chargeback subscription_cancelled : EventType
  other_event : Text → EventType

-- `payload.get("amount_minor")`, by what `int(...)` makes of it.
pub data AmountField : Type 0 where
  no_amount bad_amount : AmountField
  amount : ℤ → AmountField

-- A time of the payload, by what `datetime.fromisoformat` makes of it.
pub data TimeField : Type 0 where
  no_time bad_time : TimeField
  time : Time → TimeField

-- The fields of a normalized payload that the service reads. A text field is `none` where the
-- payload lacks it or holds an empty text; `currency` stands for its upper-case form.
pub record Payload : Type 0 where
  pub checkout_session_id : Option Text
  pub subscription_id : Option Text
  pub provider_customer_id : Option Text
  pub offer_id : Option Uuid
  pub amount_minor : AmountField
  pub currency : Option Text
  pub period_reference : Option Text
  pub original_event_id : Option Text
  pub period_start : TimeField
  pub period_end : TimeField

pub record PaymentEventInbox : Type 0 where
  pub id : Uuid
  pub provider : Text
  pub provider_event_id : Text
  pub event_type : EventType
  pub status : InboxStatus
  pub raw_body_hash : Text
  pub raw_payload : Option Text
  pub normalized_payload : Payload
  pub raw_payload_expires_at : Time
  pub raw_payload_purged_at : Option Time
  pub processing_started_at : Option Time
  pub error : Option Code
  pub received_at : Time
  pub processed_at : Option Time

pub data CommandType : Type 0 where
  create_portal_session create_billing_catalog publish_signup_trial_policy : CommandType
  request_credit_adjustment : CommandType
  activate_billing_catalog approve_credit_adjustment reject_credit_adjustment : Uuid → CommandType
  set_feature_price : Uuid → Text → CommandType

pub data CommandStatus : Type 0 where
  processing completed : CommandStatus

pub record BillingCommand : Type 0 where
  pub id : Uuid
  pub actor_user_id : Uuid
  pub command_type : CommandType
  pub idempotency_key : Text
  pub request_hash : Text
  pub status : CommandStatus
  pub resource_id : Option Uuid
  pub completed_at : Option Time

pub data AdjustmentStatus : Type 0 where
  pending executed rejected : AdjustmentStatus

pub record CreditAdjustmentApproval : Type 0 where
  pub id : Uuid
  pub requested_by_user_id : Uuid
  pub approved_by_user_id : Option Uuid
  pub target_user_id : Uuid
  pub amount : ℤ
  pub reason : Text
  pub reference : Option Text
  pub status : AdjustmentStatus
  pub dual_control_required : Bool
  pub policy_threshold : ℕ
  pub idempotency_key : Text
  pub request_hash : Text
  pub decision_reason : Option Text
  pub ledger_entry_id : Option Uuid
  pub decided_at : Option Time
  pub executed_at : Option Time
