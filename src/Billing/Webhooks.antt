-- ===== src/Billing/Webhooks.antt =====
-- The inbox of payment events: `process_webhook`, `_process_reconciled_event`,
-- `reconcile_payment_provider` and `cleanup_expired_payment_payloads` of `ProductBillingService`.
-- These calls commit before they can fail, so they return tables with an error too. Verifying a
-- webhook's signature, hashing its body and asking the provider are payment_adapter.py's: their
-- results are parameters.
use qatth.Base.{
  ℕ, suc, ◌+◌, ◌-◌, Bool, true, false, not, ◌&&◌, ◌||◌, Option, none, some, List, [], ◌∷◌, map,
  ◌==◌, if◌then◌else◌, some_and, is_some, find, modify, select, sort_by, take, leb, ltb, length,
}
use qatth.Schema.Common.{Uuid, Text, Time, Code, AppError}
use qatth.Schema.Billing.{
  InboxStatus, PaymentEventInbox, CheckoutStatus, BillingCheckoutSession, SubscriptionStatus,
  BillingSubscription,
}
use qatth.Db.{Db, Result, ok, err, app_error, is_processed, is_processing, is_failed}
use qatth.Billing.Payments.{NormalizedPaymentEvent, apply_payment_event}

-- A call that commits as it goes: its result, and the tables whether it raises or not.
abbrev pub Committed : Type 0 → Type 0
Committed A = Result A × Db

abbrev pub is_event : Text → Text → PaymentEventInbox → Bool
is_event provider event x = x.provider == provider && x.provider_event_id == event

abbrev pub new_inbox :
    Text
    → NormalizedPaymentEvent
    → Text
    → Option Text
    → Time
    → Option Time
    → Time
    → Db
    → PaymentEventInbox
new_inbox provider e hash raw raw_expires purged now db = record {
  id = db.next_id;
  provider = provider;
  provider_event_id = e.event_id;
  event_type = e.event_type;
  status = InboxStatus.received;
  raw_body_hash = hash;
  raw_payload = raw;
  normalized_payload = e.payload;
  raw_payload_expires_at = raw_expires;
  raw_payload_purged_at = purged;
  processing_started_at = none;
  error = none;
  received_at = now;
  processed_at = none;
}

abbrev pub add_inbox : PaymentEventInbox → Db → Db
add_inbox x db = record db { next_id = suc db.next_id; inbox = x ∷ db.inbox }

abbrev pub set_processing : Time → PaymentEventInbox → PaymentEventInbox
set_processing now x = record x {
  status = InboxStatus.processing;
  processing_started_at = some now;
  error = none;
}

abbrev pub set_processed : Time → PaymentEventInbox → PaymentEventInbox
set_processed now x = record x { status = InboxStatus.processed; processed_at = some now }

-- `safe_error_payload` keeps the code of an `AppError`.
abbrev pub set_failed : AppError → PaymentEventInbox → PaymentEventInbox
set_failed e x = record x { status = InboxStatus.failed; error = some e.code }

abbrev pub write_inbox : Text → Text → (PaymentEventInbox → PaymentEventInbox) → Db → Db
write_inbox provider event f db = record db { inbox = modify (is_event provider event) f db.inbox }

-- The `try` of both callers: the event is applied and marked processed in one commit, or rolled
-- back and marked failed in a second one.
unfoldable pub run_event : Text → NormalizedPaymentEvent → Time → Db → Committed (Unit {0})
run_event provider e now db = elim (apply_payment_event provider e now db) [
  | ok (u, db') ↦ (ok tt, write_inbox provider e.event_id (set_processed now) db')
  | err x ↦ (err x, write_inbox provider e.event_id (set_failed x) db)
]

-- `process_webhook` of a verified event.
unfoldable pub process_webhook :
    Text → NormalizedPaymentEvent → Text → Text → Time → Db → Committed (Unit {0})
process_webhook provider e hash raw now db = elim (find (is_event provider e.event_id) db.inbox) [
  | some x ↦
      if not (x.raw_body_hash == hash)
      then (err (app_error 409 Code.payment_event_conflict), db)
      else if is_processed x.status || is_processing x.status
      then (ok tt, db)
      else run_event provider e now (write_inbox provider e.event_id (set_processing now) db)
  | none ↦
      let row = new_inbox provider e hash (some raw) (now + 7776000) none now db in
      run_event provider e now
        (write_inbox provider e.event_id (set_processing now) (add_inbox row db))
]

-- An event that was run counts as applied.
abbrev pub reconciled : Committed (Unit {0}) → Committed Bool
reconciled (ok u, d) = (ok true, d)
reconciled (err x, d) = (err x, d)

-- `_process_reconciled_event`: whether the event was applied now. `hash` is that of the event's
-- identifier.
unfoldable pub process_reconciled_event :
    Text → NormalizedPaymentEvent → Text → Time → Db → Committed Bool
process_reconciled_event provider e hash now db =
    elim (find (is_event provider e.event_id) db.inbox) [
      | some x ↦
          if is_processed x.status
          then (ok false, db)
          else reconciled
              (run_event provider e now (write_inbox provider e.event_id (set_processing now) db))
      | none ↦
          let row = new_inbox provider e hash none now (some now) now db in
          reconciled (
            run_event provider e now
              (write_inbox provider e.event_id (set_processing now) (add_inbox row db)))
    ]

pub record ReconcileStats : Type 0 where
  pub events_processed : ℕ
  pub events_failed : ℕ
  pub checkouts_checked : ℕ
  pub subscriptions_checked : ℕ

-- What one event adds to the counts.
abbrev pub tally : Result Bool → ReconcileStats → ReconcileStats
tally (ok true) s = record s { events_processed = s.events_processed + 1 }
tally (ok false) s = s
tally (err x) s = record s { events_failed = s.events_failed + 1 }

-- The events that the provider reports for a session or a subscription, or its failure; and the
-- hash of an event's identifier.
pub record PaymentProvider : Type 0 where
  pub reconcile_checkout : Text → Text → Result (List NormalizedPaymentEvent)
  pub reconcile_subscription : Text → Text → Result (List NormalizedPaymentEvent)
  pub event_hash : Text → Text

module _ (p : PaymentProvider) (now : Time) where
  -- One event in its own `try`.
  unfoldable pub retry_event :
      Text → NormalizedPaymentEvent → ReconcileStats × Db → ReconcileStats × Db
  retry_event provider e (s, db) =
      let (r, db') = process_reconciled_event provider e (p.event_hash e.event_id) now db in
      (tally r s, db')

  abbrev pub event_of : PaymentEventInbox → NormalizedPaymentEvent
  event_of x = record {
    event_id = x.provider_event_id;
    event_type = x.event_type;
    payload = x.normalized_payload;
  }

  -- The first loop: events that failed, or that have been processing for five minutes.
  unfoldable pub retry_each : List Uuid → ReconcileStats × Db → ReconcileStats × Db
  retry_each [] acc = acc
  retry_each (k ∷ ks) (s, db) = elim (find (λ x. x.id == k) db.inbox) [
    | none ↦ retry_each ks (s, db)
    | some x ↦ retry_each ks (retry_event x.provider (event_of x) (s, db))
  ]

  -- The events of one answer under one `try`: the first that raises ends it.
  unfoldable pub apply_each :
      Text → List NormalizedPaymentEvent → ReconcileStats × Db → ReconcileStats × Db
  apply_each provider [] acc = acc
  apply_each provider (e ∷ es) (s, db) =
      let (r, db') = process_reconciled_event provider e (p.event_hash e.event_id) now db in
      elim r [
        | ok applied ↦ apply_each provider es (tally (ok applied) s, db')
        | err x ↦ (tally (err x) s, db')
      ]

  unfoldable pub apply_answer :
      Text → Result (List NormalizedPaymentEvent) → ReconcileStats × Db → ReconcileStats × Db
  apply_answer provider (ok es) acc = apply_each provider es acc
  apply_answer provider (err x) (s, db) = (tally (err x) s, db)

  -- The second loop: sessions that wait for their payment.
  unfoldable pub checkout_each : List Uuid → ReconcileStats × Db → ReconcileStats × Db
  checkout_each [] acc = acc
  checkout_each (k ∷ ks) (s, db) = elim (find (λ c. c.id == k) db.checkouts) [
    | none ↦ checkout_each ks (s, db)
    | some c ↦ elim (c.provider_session_id) [
      | none ↦ checkout_each ks (s, db)
      | some session ↦ checkout_each ks (
          apply_answer c.provider (p.reconcile_checkout c.provider session)
            (record s { checkouts_checked = s.checkouts_checked + 1 }, db))
    ]
  ]

  -- The third loop: subscriptions that are running.
  unfoldable pub subscription_each : List Uuid → ReconcileStats × Db → ReconcileStats × Db
  subscription_each [] acc = acc
  subscription_each (k ∷ ks) (s, db) = elim (find (λ c. c.id == k) db.subscriptions) [
    | none ↦ subscription_each ks (s, db)
    | some c ↦ elim (c.provider_subscription_id) [
      | none ↦ subscription_each ks (s, db)
      | some sub ↦ subscription_each ks (
          apply_answer c.provider (p.reconcile_subscription c.provider sub)
            (record s { subscriptions_checked = s.subscriptions_checked + 1 }, db))
    ]
  ]

  abbrev pub is_stale : PaymentEventInbox → Bool
  is_stale x =
      is_failed x.status
      || is_processing x.status && some_and x.processing_started_at (λ t. ltb (t + 300) now)

  abbrev pub is_waiting : BillingCheckoutSession → Bool
  is_waiting c =
      elim (c.status) [ CheckoutStatus.pending ↦ true | _ ↦ false ] && is_some c.provider_session_id

  abbrev pub is_running : BillingSubscription → Bool
  is_running s = elim (s.status) [
    | SubscriptionStatus.active ↦ is_some s.provider_subscription_id
    | SubscriptionStatus.past_due ↦ is_some s.provider_subscription_id
    | _ ↦ false
  ]

  -- `reconcile_payment_provider`. The order of a table stands for `created_at`.
  unfoldable pub reconcile_payment_provider : ℕ → Db → ReconcileStats × Db
  reconcile_payment_provider limit db =
      let start : ReconcileStats = record {
        events_processed = 0;
        events_failed = 0;
        checkouts_checked = 0;
        subscriptions_checked = 0;
      } in
      let earlier =
        λ (x : PaymentEventInbox) (y : PaymentEventInbox). leb x.received_at y.received_at in
      let stale = map (λ x. x.id) (take limit (sort_by earlier (select is_stale db.inbox))) in
      let (s₁, db₁) = retry_each stale (start, db) in
      let waiting =
        map (λ c. c.id) (take (limit - s₁.events_processed) (select is_waiting db₁.checkouts)) in
      let (s₂, db₂) = checkout_each waiting (s₁, db₁) in
      let running =
        map (λ c. c.id)
          (take (limit - s₂.events_processed) (select is_running db₂.subscriptions)) in
      subscription_each running (s₂, db₂)

abbrev pub set_purged : Time → PaymentEventInbox → PaymentEventInbox
set_purged now x = record x { raw_payload = none; raw_payload_purged_at = some now }

abbrev pub is_purgeable : Time → PaymentEventInbox → Bool
is_purgeable now x = not (is_some x.raw_payload_purged_at) && leb x.raw_payload_expires_at now

unfoldable pub purge_each : Time → List Uuid → List PaymentEventInbox → List PaymentEventInbox
purge_each now [] rows = rows
purge_each now (k ∷ ks) rows = purge_each now ks (modify (λ x. x.id == k) (set_purged now) rows)

-- `cleanup_expired_payment_payloads`: the number of raw payloads purged.
unfoldable pub cleanup_expired_payment_payloads : ℕ → Time → Db → ℕ × Db
cleanup_expired_payment_payloads limit now db =
    let earlier = λ (x : PaymentEventInbox) (y : PaymentEventInbox).
      leb x.raw_payload_expires_at y.raw_payload_expires_at in
    let due = map (λ x. x.id) (take limit (sort_by earlier (select (is_purgeable now) db.inbox))) in
    (length due, record db { inbox = purge_each now due db.inbox })
