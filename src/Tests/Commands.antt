-- ===== src/Tests/Commands.antt =====
-- Runs of the commands, the adjustments and the deliveries.
use qatth.Base.{◌⊎◌, ℕ, ◌≡◌, refl, none, some, [], ◌∷◌, arith, true, false, ◌+◌}
use qatth.Base.Int.{pos}
use qatth.Schema.Common.{Text, Code}
use qatth.Schema.Billing.{EventType, AmountField, TimeField, Payload, PaymentEventInbox}
use qatth.Db.{Result, Db, ok, err, app_error}
use qatth.Billing.Adjustments.{
  decidable, get_credit_adjustment, apply_credit_adjustment, add_credits, CreditAdjustmentRequest,
  AdjustmentSettings, open_adjustment, new_adjustment, approve_pending, reject_pending,
}
use qatth.Billing.Approval.{approve_final}
use qatth.Billing.Accounts.{account, ledger}
use qatth.Billing.DualControl.{two_administrators, reject_final}
use qatth.Billing.Payments.{NormalizedPaymentEvent, new_subscription}
use qatth.Billing.Webhooks.{process_webhook, new_inbox}
use qatth.Billing.Checkout.{Scheme, Url, RedirectSettings, validate_redirect}
use qatth.Billing.Redirect.{Allows, validate_redirect-Allows}
use qatth.Tests.Data.{empty_db}

abbrev settings : AdjustmentSettings
settings = record { dual_control_enabled = true; dual_control_threshold = 50 }

abbrev request : CreditAdjustmentRequest
request = record { user_id = 10; amount = pos 60; reason = 1; reference = none }

abbrev requested_db : Db
requested_db = record empty_db {
  adjustments = new_adjustment 11 request settings 5 6 empty_db ∷ [];
}

another_administrator : ¬ (◌≡◌ {A = ℕ} 11 12)
another_administrator e = omega (arith, e)

two_administrators_example :
    (db' : Db) × (open_adjustment 11 request settings 5 6 8 empty_db ≡ ok (empty_db.next_id, db'))
    × (db'.buckets ≡ [])
    × (db'.entries ≡ [])
    × (db'.accounts ≡ [])
    × (approve_pending 11 empty_db.next_id 1 9 db'
        ≡ err (app_error 409 Code.dual_control_self_approval_forbidden))
    × (reject_pending 11 empty_db.next_id 1 9 db'
        ≡ err (app_error 409 Code.dual_control_self_decision_forbidden))
    × (db'' : Db) × (reject_pending 12 empty_db.next_id 1 9 db' ≡ ok (tt, db''))
two_administrators_example =
    two_administrators 11 12 request settings 5 6 1 8 9 empty_db refl another_administrator

reject_final_example :
    (db' : Db) × (reject_pending 12 100 1 9 requested_db ≡ ok (tt, db'))
    × (db'.buckets ≡ requested_db.buckets)
    × (db'.entries ≡ requested_db.entries)
    × (approve_pending 13 100 2 10 db' ≡ err (app_error 409 Code.credit_adjustment_already_decided))
    × (reject_pending 13 100 2 10 db' ≡ err (app_error 409 Code.credit_adjustment_already_decided))
reject_final_example = reject_final 12 13 100 1 2 9 10 requested_db refl refl another_administrator

abbrev payload : Payload
payload = record {
  checkout_session_id = none;
  subscription_id = none;
  provider_customer_id = none;
  offer_id = none;
  amount_minor = AmountField.amount (pos 20);
  currency = none;
  period_reference = none;
  original_event_id = none;
  period_start = TimeField.no_time;
  period_end = TimeField.no_time;
}

-- A refund that does not name its payment.
abbrev refund_event : NormalizedPaymentEvent
refund_event = record { event_id = 70; event_type = EventType.payment_refunded; payload = payload }

abbrev cancellation : NormalizedPaymentEvent
cancellation = record {
  event_id = 71;
  event_type = EventType.subscription_cancelled;
  payload = record payload { subscription_id = some 5 };
}

abbrev subscribed_db : Db
subscribed_db = record empty_db { subscriptions = new_subscription 10 3 1 5 1 empty_db ∷ [] }

abbrev cancelled_db : Db
cancelled_db = (process_webhook 1 cancellation 6 2 9 subscribed_db).1

abbrev received : PaymentEventInbox
received = new_inbox 1 refund_event 6 (some 2) (9 + 7776000) none 9 empty_db

abbrev shop : Url
shop = record { text = 1; scheme = Scheme.https; origin = some 4 }

abbrev redirects : RedirectSettings
redirects = record { allowlist = shop ∷ []; is_local = false }

accepted : validate_redirect redirects shop ≡ ok tt
unfolding validate_redirect
accepted = refl

validate_redirect-Allows_example :
    ((Scheme.https ≡ Scheme.https) ⊎ ((redirects.is_local ≡ true) × (Scheme.https ≡ Scheme.http)))
    × (o : Text) × (shop.origin ≡ some o)
    × Allows o redirects.allowlist
validate_redirect-Allows_example = validate_redirect-Allows redirects shop accepted

abbrev tables_of : Result (Unit {0} × Db) → Db
tables_of (ok r) = r.1
tables_of (err e) = empty_db

-- The tables after the second administrator has approved 60 credits.
abbrev approved_db : Db
approved_db = tables_of (approve_pending 12 100 1 9 requested_db)

approved : approve_pending 12 100 1 9 requested_db ≡ ok (tt, approved_db)
unfolding approve_pending decidable get_credit_adjustment apply_credit_adjustment account
    add_credits ledger
approved = refl

approve_final_example :
    (approve_pending 13 100 2 10 approved_db
      ≡ err (app_error 409 Code.credit_adjustment_already_decided))
    × (reject_pending 13 100 2 10 approved_db
        ≡ err (app_error 409 Code.credit_adjustment_already_decided))
approve_final_example =
    approve_final 12 13 100 1 2 9 10 requested_db approved_db refl refl another_administrator
      approved
