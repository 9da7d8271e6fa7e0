-- ===== src/Db/Tables.antt =====
-- The tables together. A table is the list of its rows, in no particular order; a new row is put
-- first. `next_id` is the supply of fresh identifiers (`uuid4`).
use qatth.Base.{List}
use qatth.Schema.Common.{Uuid}
use qatth.Schema.Billing.{
  BillingCatalogVersion, BillingOffer, FeatureCreditPrice, SignupTrialPolicy, BillingSubscription,
  CreditAccount, CreditBucket, PaymentReversalState, CreditAccountReview, CreditLedgerEntry,
  CreditReservation, CreditReservationAllocation, SignupTrialGrant, BillingCheckoutSession,
  PaymentEventInbox, BillingCommand, CreditAdjustmentApproval,
}
use qatth.Schema.Work.{IdempotencyRecord, OutboxEvent}
use qatth.Schema.Cv.{
  ProductFileAsset, ProductCv, CvScan, CvDraft, ProductCvVersion, CvAnalysis, CandidateProfile,
}
use qatth.Schema.Interview.{
  ProductJob, ProductInterview, InterviewRealtimeToken, ProductInterviewEvent,
  ProductInterviewReport,
}

pub record Db : Type 0 where
  pub next_id : Uuid
  pub users : List Uuid
  pub catalogs : List BillingCatalogVersion
  pub offers : List BillingOffer
  pub prices : List FeatureCreditPrice
  pub policies : List SignupTrialPolicy
  pub trial_grants : List SignupTrialGrant
  pub subscriptions : List BillingSubscription
  pub accounts : List CreditAccount
  pub buckets : List CreditBucket
  pub reversals : List PaymentReversalState
  pub reviews : List CreditAccountReview
  pub entries : List CreditLedgerEntry
  pub reservations : List CreditReservation
  pub allocations : List CreditReservationAllocation
  pub checkouts : List BillingCheckoutSession
  pub inbox : List PaymentEventInbox
  pub commands : List BillingCommand
  pub adjustments : List CreditAdjustmentApproval
  pub requests : List IdempotencyRecord
  pub outbox : List OutboxEvent
  pub files : List ProductFileAsset
  pub cvs : List ProductCv
  pub scans : List CvScan
  pub drafts : List CvDraft
  pub versions : List ProductCvVersion
  pub analyses : List CvAnalysis
  pub profiles : List CandidateProfile
  pub jobs : List ProductJob
  pub interviews : List ProductInterview
  pub tokens : List InterviewRealtimeToken
  pub events : List ProductInterviewEvent
  pub reports : List ProductInterviewReport
