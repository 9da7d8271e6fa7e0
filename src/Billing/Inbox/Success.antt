-- ===== src/Billing/Inbox/Success.antt =====
-- `_payment_succeeded` and `_apply_payment_event` of backend/app/services/product_billing.py leave
-- the inbox of the events alone.
use qatth.Base.{
  ◌≡◌, refl, sym, ◌∙◌, ◌&&◌, ◌||◌, Bool, true, false, not, none, find, ◌==◌, if◌then◌else◌,
  some_and, or_else, is_some, Option-cases, Bool-cases, inl, inr,
}
use qatth.Base.Int.{ℤ, eqb_ℤ}
use qatth.Schema.Common.{Uuid, Text, Time}
use qatth.Schema.Billing.{Key, ReferenceType, BillingOffer, EventType, Payload}
use qatth.Db.{Db, M, or_raise, pure, raise_if_inv, ok_err, is_subscription}
use qatth.Billing.Accounts.{account, grant_bucket}
use qatth.Billing.Reversals.{lift, is_state}
use qatth.Billing.Payments.{
  Paid, amount_of, is_session, is_subscription_of, is_completed_checkout, paid_checkout,
  paid_renewal, paid_offer, paid_user, check_amount, find_subscription, renew_period,
  open_reversal_state, complete_checkout, bucket_type_of, payment_succeeded, NormalizedPaymentEvent,
  cancel_subscription, apply_by_type, apply_payment_event, parse_time,
}
use qatth.Billing.Inbox.{
  Keeps, after_call, same_tables, Keeps-or_raise, Keeps-lift, Keeps-account, Keeps-grant_bucket,
  Keeps-payment_reversed,
}

Keeps-if : {A : Type 0} (c : Bool) (m n : M A) → Keeps m → Keeps n → Keeps (if c then m else n)
Keeps-if true m n km kn db a db' h = km db a db' h
Keeps-if false m n km kn db a db' h = kn db a db' h

Keeps-paid_checkout : (provider : Text) (payload : Payload) → Keeps (paid_checkout provider payload)
unfolding paid_checkout
Keeps-paid_checkout provider payload db a db' h =
    after_call (or_raise (find (is_session provider payload.checkout_session_id) db.checkouts) _) _
      db h (Keeps-or_raise _ _) (λ c d done. same_tables done)

Keeps-paid_renewal : (provider : Text) (payload : Payload) → Keeps (paid_renewal provider payload)
unfolding paid_renewal
Keeps-paid_renewal provider payload db a db' h =
    after_call (or_raise payload.subscription_id _) _ db h (Keeps-or_raise _ _) (λ k d h₁.
      after_call (or_raise (find (is_subscription_of provider k) d.subscriptions) _) _ d h₁
        (Keeps-or_raise _ _) (λ s d₂ done. same_tables done))

Keeps-check_amount : (payload : Payload) (offer : BillingOffer) → Keeps (check_amount payload offer)
unfolding check_amount
Keeps-check_amount payload offer db a db' h =
    after_call (lift (amount_of payload.amount_minor)) _ db h (Keeps-lift _) (λ v d h₁.
      raise_if_inv
        (not (eqb_ℤ v offer.amount_minor)
          || not (some_and payload.currency (λ c. c == offer.currency)))
        _ _ d h₁
        (λ same h₂.
          raise_if_inv (some_and payload.offer_id (λ k. not (k == offer.id))) _ _ d h₂
            (λ sold done. same_tables done)))

Keeps-find_subscription :
    (provider : Text) (paid : Paid) (payload : Payload) (offer : BillingOffer) (now : Time)
    → Keeps (find_subscription provider paid payload offer now)
unfolding find_subscription
Keeps-find_subscription provider (Paid.renewal s) payload offer now db a db' h = same_tables h
Keeps-find_subscription provider (Paid.checkout c) payload offer now db a db' h =
    elim (Option-cases (
      find (is_subscription_of provider (or_else payload.subscription_id c.id)) db.subscriptions)) [
        | inl e ↦ same_tables (rw (find_subscription, e) at h)
        | inr (s, e) ↦ same_tables (rw (find_subscription, e) at h)
      ]

Keeps-renew_period :
    (provider : Text) (paid : Paid) (payload : Payload) (offer : BillingOffer) (period : Text)
    (now : Time)
    → Keeps (renew_period provider paid payload offer period now)
unfolding renew_period
Keeps-renew_period provider paid payload offer period now db a db' h =
    after_call (lift (parse_time payload.period_start)) _ db h (Keeps-lift _) (λ start d₁ h₁.
      after_call (lift (parse_time payload.period_end)) _ d₁ h₁ (Keeps-lift _) (λ end d₂ h₂.
        after_call (find_subscription provider paid payload offer now) _ d₂ h₂
          (Keeps-find_subscription provider paid payload offer now)
          (λ s d₃ done. same_tables done)))

Keeps-open_reversal_state :
    (provider period : Text) (bucket : Uuid) (v : ℤ)
    → Keeps (open_reversal_state provider period bucket v)
unfolding open_reversal_state
Keeps-open_reversal_state provider period bucket v db a db' h =
    elim (Option-cases (find (is_state provider period) db.reversals)) [
      | inl e ↦ same_tables (rw (open_reversal_state, e) at h)
      | inr (s, e) ↦
          elim (Bool-cases (not (s.bucket_id == bucket) || not (eqb_ℤ s.original_amount_minor v))) [
            | inl t ↦ absurd (ok_err (sym (rw (open_reversal_state, e, t) at h)))
            | inr t ↦ same_tables (rw (open_reversal_state, e, t) at h)
          ]
    ]

inbox-complete_checkout :
    (paid : Paid) (now : Time) (db : Db) → (complete_checkout paid now db).inbox ≡ db.inbox
inbox-complete_checkout (Paid.renewal s) now db = refl
inbox-complete_checkout (Paid.checkout c) now db = refl

Keeps-payment_succeeded :
    (provider : Text) (payload : Payload) (event : Text) (t : EventType) (now : Time)
    → Keeps (payment_succeeded provider payload event t now)
unfolding payment_succeeded
Keeps-payment_succeeded provider payload event t now db u db' h =
    let period = or_else payload.period_reference event in
    after_call
      (if is_completed_checkout t
        then paid_checkout provider payload
        else paid_renewal provider payload)
      _ db h
      (Keeps-if (is_completed_checkout t) _ _ (Keeps-paid_checkout provider payload)
        (Keeps-paid_renewal provider payload))
      (λ paid d₁ h₁.
        after_call (or_raise (find (λ o. o.id == paid_offer paid) d₁.offers) _) _ d₁ h₁
          (Keeps-or_raise _ _)
          (λ offer d₂ h₂.
            after_call (check_amount payload offer) _ d₂ h₂ (Keeps-check_amount payload offer)
              (λ v d₃ h₃.
                after_call (account (paid_user paid)) _ d₃ h₃ (Keeps-account (paid_user paid))
                  (λ a d₄ h₄.
                    raise_if_inv
                      (is_subscription offer.offer_type
                        && not (is_completed_checkout t)
                        && not (is_some payload.period_reference))
                      _ _ d₄ h₄
                      (λ fits h₅.
                        after_call
                          (if is_subscription offer.offer_type
                            then renew_period provider paid payload offer period now
                            else pure none)
                          _ d₄ h₅
                          (Keeps-if (is_subscription offer.offer_type) _ _
                            (Keeps-renew_period provider paid payload offer period now)
                            (λ d x d' e. same_tables e))
                          (λ expires d₆ h₆.
                            after_call
                              (grant_bucket a.id (bucket_type_of offer) (Key.payment_key period)
                                offer.credit_grant expires ReferenceType.payment event
                                (Key.payment_key event) now)
                              _ d₆ h₆
                              (Keeps-grant_bucket a.id (bucket_type_of offer)
                                (Key.payment_key period) offer.credit_grant expires
                                ReferenceType.payment event (Key.payment_key event) now)
                              (λ b d₇ h₇.
                                after_call (open_reversal_state provider period b.id v) _ d₇ h₇
                                  (Keeps-open_reversal_state provider period b.id v)
                                  (λ x d₈ done.
                                    same_tables done ∙ inbox-complete_checkout paid now d₈))))))))

inbox-cancel_subscription :
    (provider : Text) (payload : Payload) (db : Db)
    → (cancel_subscription provider payload db).inbox ≡ db.inbox
unfolding cancel_subscription
inbox-cancel_subscription provider payload db = elim (Option-cases payload.subscription_id) [
  | inl e ↦ rw (cancel_subscription, e) refl
  | inr (k, e) ↦ rw (cancel_subscription, e) refl
]

Keeps-apply_by_type :
    (t : EventType) (provider : Text) (e : NormalizedPaymentEvent) (now : Time)
    → Keeps (apply_by_type t provider e now)
unfolding apply_by_type
Keeps-apply_by_type EventType.payment_refunded provider e now db u db' h =
    Keeps-payment_reversed provider e.payload e.event_id now db u db' h
Keeps-apply_by_type EventType.payment_chargeback provider e now db u db' h =
    Keeps-payment_reversed provider e.payload e.event_id now db u db' h
Keeps-apply_by_type EventType.subscription_cancelled provider e now db u db' h =
    same_tables h ∙ inbox-cancel_subscription provider e.payload db
Keeps-apply_by_type (EventType.other_event t) provider e now db u db' h = same_tables h
Keeps-apply_by_type EventType.checkout_completed provider e now db u db' h =
    Keeps-payment_succeeded provider e.payload e.event_id EventType.checkout_completed now db u db'
      h
Keeps-apply_by_type EventType.subscription_renewed provider e now db u db' h =
    Keeps-payment_succeeded provider e.payload e.event_id EventType.subscription_renewed now db u
      db' h

-- Applying a payment event leaves the inbox of the events as it is.
pub Keeps-apply_payment_event :
    (provider : Text) (e : NormalizedPaymentEvent) (now : Time)
    → Keeps (apply_payment_event provider e now)
unfolding apply_payment_event
Keeps-apply_payment_event provider e now = Keeps-apply_by_type e.event_type provider e now
