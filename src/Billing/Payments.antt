-- ===== src/Billing/Payments.antt =====
-- Payments that succeed: `_payment_succeeded`, `_parse_time` and `_apply_payment_event` of
-- `ProductBillingService`.
use qatth.Base.{
  suc, ◌+◌, Bool, true, false, not, ◌&&◌, ◌||◌, Option, none, some, ◌∷◌, ◌==◌, if◌then◌else◌,
  some_and, or_else, is_some, find, modify,
}
use qatth.Base.Int.{ℤ, eqb_ℤ}
use qatth.Schema.Common.{Uuid, Text, Time, Code}
use qatth.Schema.Billing.{
  BillingOffer, SubscriptionStatus, BillingSubscription, BucketType, Key, ReferenceType,
  CheckoutStatus, BillingCheckoutSession, EventType, AmountField, TimeField, Payload,
}
use qatth.Db.{
  Db, Result, ok, err, M, app_error, pure, gets, or_raise, ◌>>=◌, ◌>>◌, raise_if, update,
  is_subscription,
}
use qatth.Billing.Accounts.{account, grant_bucket}
use qatth.Billing.Trial.{days}
use qatth.Billing.Reversals.{lift, is_state, new_state, add_state, payment_reversed}

-- `_parse_time`.
unfoldable pub parse_time : TimeField → Result (Option Time)
parse_time TimeField.no_time = ok none
parse_time TimeField.bad_time = err (app_error 422 Code.invalid_payment_timestamp)
parse_time (TimeField.time t) = ok (some t)

-- `int(payload.get("amount_minor"))`.
unfoldable pub amount_of : AmountField → Result ℤ
amount_of (AmountField.amount v) = ok v
amount_of AmountField.no_amount = err (app_error 422 Code.payment_amount_required)
amount_of AmountField.bad_amount = err (app_error 422 Code.payment_amount_required)

-- What an event pays for: a checkout, or the renewal of a subscription.
pub data Paid : Type 0 where
  checkout : BillingCheckoutSession → Paid
  renewal : BillingSubscription → Paid

abbrev pub is_session : Text → Option Text → BillingCheckoutSession → Bool
is_session provider session c =
    c.provider == provider && some_and session (λ s. some_and c.provider_session_id (λ t. t == s))

abbrev pub is_subscription_of : Text → Text → BillingSubscription → Bool
is_subscription_of provider k s =
    s.provider == provider && some_and s.provider_subscription_id (λ t. t == k)

abbrev pub is_completed_checkout : EventType → Bool
is_completed_checkout EventType.checkout_completed = true
is_completed_checkout _ = false

unfoldable pub paid_checkout : Text → Payload → M Paid
paid_checkout provider payload = do
  found ← gets (λ db. find (is_session provider payload.checkout_session_id) db.checkouts)
  c ← or_raise found (app_error 422 Code.checkout_session_not_found)
  pure (Paid.checkout c)

unfoldable pub paid_renewal : Text → Payload → M Paid
paid_renewal provider payload = do
  k ← or_raise payload.subscription_id (app_error 422 Code.subscription_id_required)
  found ← gets (λ db. find (is_subscription_of provider k) db.subscriptions)
  s ← or_raise found (app_error 422 Code.subscription_not_found)
  pure (Paid.renewal s)

abbrev pub paid_offer : Paid → Uuid
paid_offer (Paid.checkout c) = c.offer_id
paid_offer (Paid.renewal s) = s.offer_id

abbrev pub paid_user : Paid → Uuid
paid_user (Paid.checkout c) = c.user_id
paid_user (Paid.renewal s) = s.user_id

-- The amount, the currency and the offer of the event are those of the offer that was sold.
unfoldable pub check_amount : Payload → BillingOffer → M ℤ
check_amount payload offer = do
  v ← lift (amount_of payload.amount_minor)
  raise_if
      (not (eqb_ℤ v offer.amount_minor)
        || not (some_and payload.currency (λ c. c == offer.currency)))
      (app_error 409 Code.payment_amount_mismatch)
  raise_if (some_and payload.offer_id (λ k. not (k == offer.id)))
      (app_error 409 Code.payment_offer_mismatch)
  pure v

abbrev pub new_subscription : Uuid → Uuid → Text → Text → Time → Db → BillingSubscription
new_subscription user offer provider k now db = record {
  id = db.next_id;
  user_id = user;
  offer_id = offer;
  provider = provider;
  provider_customer_id = none;
  provider_subscription_id = some k;
  status = SubscriptionStatus.active;
  current_period_reference = none;
  current_period_start = none;
  current_period_end = none;
  cancel_at_period_end = false;
  created_at = now;
}

abbrev pub set_period : Option Text → Text → Time → Time → BillingSubscription → BillingSubscription
set_period customer period start end s = record s {
  status = SubscriptionStatus.active;
  provider_customer_id = elim customer [ none ↦ s.provider_customer_id | some c ↦ some c ];
  current_period_reference = some period;
  current_period_start = some start;
  current_period_end = some end;
}

-- The subscription that a payment is for, opened at its first payment.
unfoldable pub find_subscription :
    Text → Paid → Payload → BillingOffer → Time → M BillingSubscription
find_subscription provider (Paid.renewal s) payload offer now db = ok (s, db)
find_subscription provider (Paid.checkout c) payload offer now db =
    let k = or_else payload.subscription_id c.id in
    elim (find (is_subscription_of provider k) db.subscriptions) [
      | some s ↦ ok (s, db)
      | none ↦
          let s = new_subscription c.user_id offer.id provider k now db in
          ok (s, record db { next_id = suc db.next_id; subscriptions = s ∷ db.subscriptions })
    ]

abbrev pub write_subscription : Uuid → (BillingSubscription → BillingSubscription) → Db → Db
write_subscription k f db = record db { subscriptions = modify (λ s. s.id == k) f db.subscriptions }

-- The subscription's new period; the credits expire with it.
unfoldable pub renew_period : Text → Paid → Payload → BillingOffer → Text → Time → M (Option Time)
renew_period provider paid payload offer period now = do
  start ← lift (parse_time payload.period_start)
  end ← lift (parse_time payload.period_end)
  s ← find_subscription provider paid payload offer now
  let begin = or_else start now
  let finish = or_else end (begin + days 30)
  update (write_subscription s.id (set_period payload.provider_customer_id period begin finish))
  pure (some finish)

-- The state against which a later reversal is counted.
unfoldable pub open_reversal_state : Text → Text → Uuid → ℤ → M (Unit {0})
open_reversal_state provider period bucket v db =
    elim (find (is_state provider period) db.reversals) [
      | none ↦ ok (tt, add_state (new_state provider period bucket v db) db)
      | some s ↦
          if not (s.bucket_id == bucket) || not (eqb_ℤ s.original_amount_minor v)
          then err (app_error 409 Code.payment_reversal_state_conflict)
          else ok (tt, db)
    ]

abbrev pub set_checkout_completed : Time → BillingCheckoutSession → BillingCheckoutSession
set_checkout_completed now c = record c {
  status = CheckoutStatus.completed;
  completed_at = some now;
}

abbrev pub complete_checkout : Paid → Time → Db → Db
complete_checkout (Paid.renewal s) now db = db
complete_checkout (Paid.checkout c) now db = record db {
  checkouts = modify (λ x. x.id == c.id) (set_checkout_completed now) db.checkouts;
}

abbrev pub bucket_type_of : BillingOffer → BucketType
bucket_type_of offer =
    if is_subscription offer.offer_type then BucketType.subscription else BucketType.topup

-- `_payment_succeeded`.
unfoldable pub payment_succeeded : Text → Payload → Text → EventType → Time → M (Unit {0})
payment_succeeded provider payload event t now = do
  paid ←
      (if is_completed_checkout t
        then paid_checkout provider payload
        else paid_renewal provider payload)
  found ← gets (λ db. find (λ o. o.id == paid_offer paid) db.offers)
  offer ← or_raise found (app_error 422 Code.billing_offer_not_found)
  v ← check_amount payload offer
  a ← account (paid_user paid)
  let period = or_else payload.period_reference event
  raise_if
      (is_subscription offer.offer_type
        && not (is_completed_checkout t)
        && not (is_some payload.period_reference))
      (app_error 422 Code.billing_period_required)
  expires ←
      (if is_subscription offer.offer_type
        then renew_period provider paid payload offer period now
        else pure none)
  b ←
      grant_bucket a.id (bucket_type_of offer) (Key.payment_key period) offer.credit_grant expires
        ReferenceType.payment event (Key.payment_key event) now
  open_reversal_state provider period b.id v
  update (complete_checkout paid now)

pub record NormalizedPaymentEvent : Type 0 where
  pub event_id : Text
  pub event_type : EventType
  pub payload : Payload

abbrev pub set_cancelled : BillingSubscription → BillingSubscription
set_cancelled s = record s { cancel_at_period_end = false; status = SubscriptionStatus.cancelled }

-- A cancellation writes the subscription that it names, if there is one.
unfoldable pub cancel_subscription : Text → Payload → Db → Db
cancel_subscription provider payload db = elim (payload.subscription_id) [
  | none ↦ db
  | some k ↦ record db {
    subscriptions = modify (is_subscription_of provider k) set_cancelled db.subscriptions;
  }
]

-- `_apply_payment_event`, by the type of the event; any other type does nothing.
unfoldable pub apply_by_type : EventType → Text → NormalizedPaymentEvent → Time → M (Unit {0})
apply_by_type EventType.payment_refunded provider e now =
    payment_reversed provider e.payload e.event_id now
apply_by_type EventType.payment_chargeback provider e now =
    payment_reversed provider e.payload e.event_id now
apply_by_type EventType.subscription_cancelled provider e now =
    update (cancel_subscription provider e.payload)
apply_by_type (EventType.other_event t) provider e now = pure tt
apply_by_type t provider e now = payment_succeeded provider e.payload e.event_id t now

unfoldable pub apply_payment_event : Text → NormalizedPaymentEvent → Time → M (Unit {0})
apply_payment_event provider e now = apply_by_type e.event_type provider e now
