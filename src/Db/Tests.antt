-- ===== src/Db/Tests.antt =====
-- Equality of the keys that the code writes, and the tests on the enumerations.
use qatth.Base.{ℕ, ◌≡◌, Bool, true, false, ◌&&◌, ◌==◌, arith}
use qatth.Schema.Billing.{
  Key, AccountStatus, BucketType, CatalogStatus, ReservationStatus, InboxStatus, AdjustmentStatus,
  ReferenceType, OfferType,
}
use Key.{
  trial_key, payment_key, capture_key, refund_key, feature_refund_key, expire_key, reversal_key,
  adjustment_key,
}

unfoldable pub key_eq : Key → Key → Bool
key_eq (trial_key a b) (trial_key c d) = a == c && b == d
key_eq (payment_key a) (payment_key c) = a == c
key_eq (capture_key a) (capture_key c) = a == c
key_eq (refund_key a) (refund_key c) = a == c
key_eq (feature_refund_key a) (feature_refund_key c) = a == c
key_eq (expire_key a) (expire_key c) = a == c
key_eq (reversal_key a) (reversal_key c) = a == c
key_eq (adjustment_key a) (adjustment_key c) = a == c
key_eq _ _ = false

pub key_eq_refl : (k : Key) → key_eq k k ≡ true
unfolding key_eq
key_eq_refl (trial_key a b) = ground arith
key_eq_refl (payment_key a) = ground arith
key_eq_refl (capture_key a) = ground arith
key_eq_refl (refund_key a) = ground arith
key_eq_refl (feature_refund_key a) = ground arith
key_eq_refl (expire_key a) = ground arith
key_eq_refl (reversal_key a) = ground arith
key_eq_refl (adjustment_key a) = ground arith

abbrev pub reference_eq : ReferenceType → ReferenceType → Bool
reference_eq ReferenceType.cv_analysis ReferenceType.cv_analysis = true
reference_eq ReferenceType.interview ReferenceType.interview = true
reference_eq ReferenceType.interview_token ReferenceType.interview_token = true
reference_eq ReferenceType.signup_trial ReferenceType.signup_trial = true
reference_eq ReferenceType.payment ReferenceType.payment = true
reference_eq ReferenceType.payment_event ReferenceType.payment_event = true
reference_eq ReferenceType.credit_bucket ReferenceType.credit_bucket = true
reference_eq ReferenceType.admin_adjustment ReferenceType.admin_adjustment = true
reference_eq (ReferenceType.other_reference a) (ReferenceType.other_reference b) = a == b
reference_eq _ _ = false

abbrev pub account_is_active : AccountStatus → Bool
account_is_active AccountStatus.active = true
account_is_active _ = false

abbrev pub type_rank : BucketType → ℕ
type_rank BucketType.trial = 1
type_rank BucketType.subscription = 2
type_rank BucketType.topup = 3
type_rank BucketType.adjustment = 4

abbrev pub is_draft : CatalogStatus → Bool
is_draft CatalogStatus.draft = true
is_draft _ = false

abbrev pub is_subscription : OfferType → Bool
is_subscription OfferType.subscription = true
is_subscription _ = false

abbrev pub is_reserved : ReservationStatus → Bool
is_reserved ReservationStatus.reserved = true
is_reserved _ = false

abbrev pub is_captured : ReservationStatus → Bool
is_captured ReservationStatus.captured = true
is_captured _ = false

abbrev pub is_pending : AdjustmentStatus → Bool
is_pending AdjustmentStatus.pending = true
is_pending _ = false

abbrev pub is_processed : InboxStatus → Bool
is_processed InboxStatus.processed = true
is_processed _ = false

abbrev pub is_processing : InboxStatus → Bool
is_processing InboxStatus.processing = true
is_processing _ = false

abbrev pub is_failed : InboxStatus → Bool
is_failed InboxStatus.failed = true
is_failed _ = false
