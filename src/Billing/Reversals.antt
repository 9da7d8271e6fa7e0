-- ===== src/Billing/Reversals.antt =====
-- Refunds and chargebacks of payments: `_payment_reversed` and `_cumulative_reversal` of
-- `ProductBillingService`.
use qatth.Base.{
  suc, Bool, true, false, not, ◌&&◌, ◌||◌, Option, none, some, List, [], ◌∷◌, map, ◌==◌,
  if◌then◌else◌, some_and, or_some, find, modify, select, any,
}
use qatth.Base.Int.{
  ℤ, pos, ◌+ℤ◌, ◌-ℤ◌, ◌*ℤ◌, floor_div, ltb_ℤ, leb_ℤ, eqb_ℤ, min_ℤ, max_ℤ, pos_part,
}
use qatth.Schema.Common.{Uuid, Text, Time, Code}
use qatth.Schema.Billing.{
  AccountStatus, CreditAccount, Key, CreditBucket, EntryType, ReferenceType, CreditReservation,
  PaymentReversalState, CreditAccountReview, EventType, AmountField, Payload, PaymentEventInbox,
}
use qatth.Db.{
  Db, Result, ok, err, M, app_error, pure, gets, or_raise, ◌>>=◌, ◌>>◌, raise_if, update, key_eq,
  is_reserved,
}
use qatth.Billing.Accounts.{LedgerArgs, ledger, bucket_of, write_bucket}
use qatth.Billing.Credits.{release}
use qatth.Billing.Adjustments.{take_from}

-- The credits that go with a cumulative amount: the granted credits in proportion, rounded up.
unfoldable pub proportion : ℤ → ℤ → ℤ → ℤ
proportion original granted cumulative =
    min_ℤ granted (floor_div (granted *ℤ cumulative +ℤ original -ℤ pos 1) (pos_part original))

-- `_cumulative_reversal`: the amount and the credits reversed so far, and the credits to reverse.
unfoldable pub cumulative_reversal : ℤ → ℤ → ℤ → ℤ → ℤ → Result (ℤ × ℤ × ℤ)
cumulative_reversal original granted reversed credits event =
    let cumulative = reversed +ℤ event in
    let total = proportion original granted cumulative in
    if leb_ℤ original (pos 0)
      || leb_ℤ granted (pos 0)
      || leb_ℤ event (pos 0)
      || ltb_ℤ original cumulative
    then err (app_error 422 Code.payment_reversal_amount_invalid)
    else if ltb_ℤ total credits
    then err (app_error 409 Code.payment_reversal_state_corrupt)
    else ok (cumulative, total, total -ℤ credits)

abbrev pub lift : {A : Type 0} → Result A → M A
lift (ok a) db = ok (a, db)
lift (err e) db = err e

-- `int(value or default)`.
unfoldable pub amount_or : AmountField → ℤ → Result ℤ
amount_or AmountField.no_amount d = ok d
amount_or AmountField.bad_amount d = err (app_error 500 Code.external_error)
amount_or (AmountField.amount v) d = if eqb_ℤ v (pos 0) then ok d else ok v

abbrev pub is_payment : EventType → Bool
is_payment EventType.checkout_completed = true
is_payment EventType.subscription_renewed = true
is_payment _ = false

abbrev pub is_original : Text → Text → PaymentEventInbox → Bool
is_original provider period x =
    x.provider == provider
    && is_payment x.event_type
    && some_and x.normalized_payload.period_reference (λ p. p == period)

-- The amount of the payment that an event reverses, as its inbox row has it.
unfoldable pub original_amount : Text → Text → Db → Result ℤ
original_amount provider period db = elim (find (is_original provider period) db.inbox) [
  | none ↦ ok (pos 0)
  | some x ↦ amount_or x.normalized_payload.amount_minor (pos 0)
]

abbrev pub is_state : Text → Text → PaymentReversalState → Bool
is_state provider period s = s.provider == provider && s.period_reference == period

abbrev pub new_state : Text → Text → Uuid → ℤ → Db → PaymentReversalState
new_state provider period bucket original db = record {
  id = db.next_id;
  provider = provider;
  period_reference = period;
  bucket_id = bucket;
  original_amount_minor = original;
  reversed_amount_minor = pos 0;
  reversed_credits = pos 0;
}

abbrev pub add_state : PaymentReversalState → Db → Db
add_state s db = record db { next_id = suc db.next_id; reversals = s ∷ db.reversals }

-- The state of a payment's reversals, begun at the first one.
unfoldable pub state_of : Text → Text → Uuid → ℤ → M PaymentReversalState
state_of provider period bucket original db = elim (find (is_state provider period) db.reversals) [
  | some s ↦ ok (s, db)
  | none ↦ ok (
    new_state provider period bucket original db,
    add_state (new_state provider period bucket original db) db,
  )
]

abbrev pub set_reversed : ℤ → ℤ → PaymentReversalState → PaymentReversalState
set_reversed amount credits s = record s {
  reversed_amount_minor = amount;
  reversed_credits = credits;
}

abbrev pub write_state : Uuid → (PaymentReversalState → PaymentReversalState) → Db → Db
write_state k f db = record db { reversals = modify (λ s. s.id == k) f db.reversals }

-- The reserved reservations that hold credits of the bucket.
abbrev pub holds_bucket : Uuid → Db → CreditReservation → Bool
holds_bucket k db r =
    is_reserved r.status && any (λ x. x.reservation_id == r.id && x.bucket_id == k) db.allocations

unfoldable pub release_each : List Uuid → Time → Db → Db
release_each [] now db = db
release_each (r ∷ rs) now db = release_each rs now (release (some r) now db)

abbrev pub set_debt : ℤ → CreditAccount → CreditAccount
set_debt due a = record a { status = AccountStatus.review; debt = a.debt +ℤ due }

abbrev pub new_review : CreditAccount → Text → Text → ℤ → Db → CreditAccountReview
new_review a provider event due db = record {
  id = db.next_id;
  account_id = a.id;
  user_id = a.user_id;
  provider = provider;
  provider_event_id = event;
  debt_credits = due;
}

-- What could not be taken back becomes a debt, and the account goes under review.
unfoldable pub add_debt : CreditAccount → Text → Text → ℤ → Db → Db
add_debt a provider event due db = if eqb_ℤ due (pos 0) then db else record db {
  next_id = suc db.next_id;
  accounts = modify (λ x. x.id == a.id) (set_debt due) db.accounts;
  reviews = new_review a provider event due db ∷ db.reviews;
}

abbrev pub reversal_args : Text → Uuid → ℤ → LedgerArgs
reversal_args event bucket unspent = record {
  amount = pos 0 -ℤ unspent;
  entry_type = EntryType.reversal;
  reference_type = ReferenceType.payment_event;
  reference_id = some event;
  idempotency_key = Key.reversal_key event;
  bucket_id = some bucket;
  actor_user_id = none;
  reason = none;
}

-- The end of `_payment_reversed`: take back what the bucket has, and owe the rest.
unfoldable pub take_back : Text → Text → CreditAccount → CreditBucket → ℤ → Time → M (Unit {0})
take_back provider event a b credits now = do
  update (write_bucket b.id (take_from (min_ℤ b.available credits)))
  update (add_debt a provider event (max_ℤ (pos 0) (credits -ℤ min_ℤ b.available credits)))
  if eqb_ℤ (min_ℤ b.available credits) (pos 0)
      then pure tt
      else ledger a.id (reversal_args event b.id (min_ℤ b.available credits)) now >> pure tt

abbrev pub source_bucket : Key → Db → Option CreditBucket
source_bucket k db = find (λ b. some_and b.source_reference (λ j. key_eq j k)) db.buckets

-- `_payment_reversed`. A missing account or bucket would be a broken foreign key.
unfoldable pub payment_reversed : Text → Payload → Text → Time → M (Unit {0})
payment_reversed provider payload event now = do
  period ←
      or_raise (or_some payload.period_reference payload.original_event_id)
        (app_error 422 Code.payment_period_required)
  granted ← gets (source_bucket (Key.payment_key period))
  bucket ← or_raise granted (app_error 422 Code.payment_grant_not_found)
  amount ← gets (original_amount provider period)
  original ← lift amount
  reversed ← lift (amount_or payload.amount_minor original)
  s ← state_of provider period bucket.id original
  raise_if (not (s.bucket_id == bucket.id) || not (eqb_ℤ s.original_amount_minor original))
      (app_error 409 Code.payment_reversal_state_conflict)
  (amount', credits', credits) ← lift (
      cumulative_reversal s.original_amount_minor bucket.granted s.reversed_amount_minor
        s.reversed_credits reversed)
  update (write_state s.id (set_reversed amount' credits'))
  owner ← gets (λ db. find (λ a. a.id == bucket.account_id) db.accounts)
  a ← or_raise owner (app_error 500 Code.external_error)
  held_by ← gets (λ db. map (λ r. r.id) (select (holds_bucket bucket.id db) db.reservations))
  update (release_each held_by now)
  again ← gets (bucket_of bucket.id)
  b ← or_raise again (app_error 500 Code.external_error)
  take_back provider event a b credits now
