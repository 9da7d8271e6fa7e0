-- ===== src/Billing/Adjustments.antt =====
-- Credit adjustments under dual control: `request_credit_adjustment`, `get_credit_adjustment`,
-- `approve_credit_adjustment`, `reject_credit_adjustment` and `_apply_credit_adjustment` of
-- `ProductBillingService`. A call returns the adjustment's row, which `adjustment_view` shows.
use qatth.Base.{
  ℕ, suc, ◌+◌, Bool, true, false, not, ◌&&◌, Option, none, some, List, [], ◌∷◌, map, ◌==◌,
  if◌then◌else◌, find, modify, select, sort_by, any, leb,
}
use qatth.Base.Int.{ℤ, pos, ◌-ℤ◌, ltb_ℤ, eqb_ℤ, min_ℤ, pos_part, neg_part}
use qatth.Schema.Common.{Uuid, Text, Time, Code}
use qatth.Schema.Billing.{
  BucketType, Key, CreditBucket, EntryType, ReferenceType, CreditLedgerEntry, CommandType,
  AdjustmentStatus, CreditAdjustmentApproval,
}
use qatth.Db.{
  Db, M, app_error, pure, raise, gets, or_raise, ◌>>=◌, ◌>>◌, raise_if, update, is_pending,
}
use qatth.Billing.Accounts.{LedgerArgs, ledger, has_key, account, add_bucket}
use qatth.Billing.Credits.{available_sum, is_chargeable}
use qatth.Billing.Commands.{command, complete_command}

pub record CreditAdjustmentRequest : Type 0 where
  pub user_id : Uuid
  pub amount : ℤ
  pub reason : Text
  pub reference : Option Text

pub record AdjustmentSettings : Type 0 where
  pub dual_control_enabled : Bool
  pub dual_control_threshold : ℕ

abbrev pub adjustment_bucket : Uuid → CreditAdjustmentRequest → Key → Time → Db → CreditBucket
adjustment_bucket a payload k now db = record {
  id = db.next_id;
  account_id = a;
  bucket_type = BucketType.adjustment;
  source_reference = some k;
  granted = payload.amount;
  available = payload.amount;
  reserved = pos 0;
  expires_at = none;
  created_at = now;
}

abbrev pub take_from : ℤ → CreditBucket → CreditBucket
take_from amount b = record b { available = b.available -ℤ amount }

-- The loop of a negative adjustment over the buckets, by identifier.
unfoldable pub take_each : List Uuid → ℤ → List CreditBucket → List CreditBucket
take_each [] needed bs = bs
take_each (k ∷ ks) needed bs = elim (find (λ b. b.id == k) bs) [
  | none ↦ take_each ks needed bs
  | some b ↦ elim (eqb_ℤ (needed -ℤ min_ℤ b.available needed) (pos 0)) [
    | true ↦ modify (λ c. c.id == k) (take_from (min_ℤ b.available needed)) bs
    | false ↦
        take_each ks (needed -ℤ min_ℤ b.available needed)
          (modify (λ c. c.id == k) (take_from (min_ℤ b.available needed)) bs)
  ]
]

abbrev pub oldest_first : CreditBucket → CreditBucket → Bool
oldest_first b c = leb b.created_at c.created_at

abbrev pub adjustment_args : CreditAdjustmentRequest → Uuid → Key → Option Uuid → LedgerArgs
adjustment_args payload actor k bucket_id = record {
  amount = payload.amount;
  entry_type = EntryType.adjustment;
  reference_type = ReferenceType.admin_adjustment;
  reference_id = payload.reference;
  idempotency_key = k;
  bucket_id = bucket_id;
  actor_user_id = some actor;
  reason = some payload.reason;
}

-- A positive adjustment adds a bucket.
unfoldable pub add_credits :
    Uuid → Uuid → CreditAdjustmentRequest → Key → Time → M CreditLedgerEntry
add_credits a actor payload k now = do
  b ← gets (adjustment_bucket a payload k now)
  update (add_bucket b)
  ledger a (adjustment_args payload actor k (some b.id)) now

-- Any other takes from the buckets, the oldest first.
unfoldable pub remove_credits :
    Uuid → Uuid → CreditAdjustmentRequest → Key → Time → M CreditLedgerEntry
remove_credits a actor payload k now = do
  bs ← gets (λ db. sort_by oldest_first (select (is_chargeable a) db.buckets))
  raise_if (ltb_ℤ (available_sum bs) (pos 0 -ℤ payload.amount))
      (app_error 409 Code.adjustment_exceeds_balance)
  update (λ db. record db {
    buckets = take_each (map (λ b. b.id) bs) (pos 0 -ℤ payload.amount) db.buckets;
  })
  ledger a (adjustment_args payload actor k none) now

-- `_apply_credit_adjustment`: once for each key.
unfoldable pub apply_credit_adjustment :
    Uuid → CreditAdjustmentRequest → Key → Time → M CreditLedgerEntry
apply_credit_adjustment actor payload k now = do
  a ← account payload.user_id
  old ← gets (λ db. find (has_key a.id k) db.entries)
  elim old [
    | some e ↦ pure e
    | none ↦
        if ltb_ℤ (pos 0) payload.amount
        then add_credits a.id actor payload k now
        else remove_credits a.id actor payload k now
  ]

abbrev pub adjustment_of : Uuid → Db → Option CreditAdjustmentApproval
adjustment_of k db = find (λ x. x.id == k) db.adjustments

abbrev pub write_adjustment : Uuid → (CreditAdjustmentApproval → CreditAdjustmentApproval) → Db → Db
write_adjustment k f db = record db { adjustments = modify (λ x. x.id == k) f db.adjustments }

-- `get_credit_adjustment`, and what a replay returns.
unfoldable pub get_credit_adjustment : Uuid → M CreditAdjustmentApproval
get_credit_adjustment k db =
    or_raise (adjustment_of k db) (app_error 404 Code.credit_adjustment_not_found) db

abbrev pub magnitude : ℤ → ℕ
magnitude a = pos_part a + neg_part a

-- Whether an adjustment waits for a second administrator.
abbrev pub requires_approval : AdjustmentSettings → ℤ → Bool
requires_approval s amount =
    s.dual_control_enabled && leb s.dual_control_threshold (magnitude amount)

abbrev pub new_adjustment :
    Uuid
    → CreditAdjustmentRequest
    → AdjustmentSettings
    → Text
    → Text
    → Db
    → CreditAdjustmentApproval
new_adjustment actor payload s key hash db = record {
  id = db.next_id;
  requested_by_user_id = actor;
  approved_by_user_id = none;
  target_user_id = payload.user_id;
  amount = payload.amount;
  reason = payload.reason;
  reference = payload.reference;
  status =
      if requires_approval s payload.amount
      then AdjustmentStatus.pending
      else AdjustmentStatus.executed;
  dual_control_required = requires_approval s payload.amount;
  policy_threshold = s.dual_control_threshold;
  idempotency_key = key;
  request_hash = hash;
  decision_reason = none;
  ledger_entry_id = none;
  decided_at = none;
  executed_at = none;
}

abbrev pub add_adjustment : CreditAdjustmentApproval → Db → Db
add_adjustment x db = record db { next_id = suc db.next_id; adjustments = x ∷ db.adjustments }

abbrev pub set_executed : Uuid → Time → CreditAdjustmentApproval → CreditAdjustmentApproval
set_executed entry now x = record x { ledger_entry_id = some entry; executed_at = some now }

-- A new adjustment: executed at once, or left pending.
unfoldable pub open_adjustment :
    Uuid → CreditAdjustmentRequest → AdjustmentSettings → Text → Text → Time → M Uuid
open_adjustment actor payload s key hash now = do
  x ← gets (new_adjustment actor payload s key hash)
  update (add_adjustment x)
  if requires_approval s payload.amount then pure x.id else (do
    e ← apply_credit_adjustment actor payload (Key.adjustment_key x.id) now
    update (write_adjustment x.id (set_executed e.id now))
    pure x.id)

-- What a command runs where it is no replay, and what a replay returns.
abbrev pub replayed : Option Uuid → M CreditAdjustmentApproval
replayed none = raise (app_error 404 Code.credit_adjustment_not_found)
replayed (some k) = get_credit_adjustment k

-- `request_credit_adjustment`.
unfoldable pub request_credit_adjustment :
    Uuid
    → CreditAdjustmentRequest
    → AdjustmentSettings
    → Text
    → Text
    → Time
    → M CreditAdjustmentApproval
request_credit_adjustment actor payload s key hash now = do
  raise_if (eqb_ℤ payload.amount (pos 0)) (app_error 422 Code.zero_credit_adjustment)
  known ← gets (λ db. any (λ u. u == payload.user_id) db.users)
  raise_if (not known) (app_error 404 Code.user_not_found)
  (c, replay) ← command actor CommandType.request_credit_adjustment key hash
  if replay then replayed c.resource_id else (do
    k ← open_adjustment actor payload s key hash now
    update (complete_command c (some k) now)
    get_credit_adjustment k)

-- The guards of `approve_credit_adjustment` and `reject_credit_adjustment`.
unfoldable pub decidable : Uuid → Uuid → Code → M CreditAdjustmentApproval
decidable actor k self_code = do
  x ← get_credit_adjustment k
  raise_if (not (is_pending x.status)) (app_error 409 Code.credit_adjustment_already_decided)
  raise_if (x.requested_by_user_id == actor) (app_error 409 self_code)
  pure x

abbrev pub set_approved :
    Uuid → Text → Uuid → Time → CreditAdjustmentApproval → CreditAdjustmentApproval
set_approved actor why entry now x = record x {
  approved_by_user_id = some actor;
  decision_reason = some why;
  status = AdjustmentStatus.executed;
  ledger_entry_id = some entry;
  decided_at = some now;
  executed_at = some now;
}

abbrev pub request_of : CreditAdjustmentApproval → CreditAdjustmentRequest
request_of x = record {
  user_id = x.target_user_id;
  amount = x.amount;
  reason = x.reason;
  reference = x.reference;
}

-- The approval itself.
unfoldable pub approve_pending : Uuid → Uuid → Text → Time → M (Unit {0})
approve_pending actor k why now = do
  x ← decidable actor k Code.dual_control_self_approval_forbidden
  e ← apply_credit_adjustment actor (request_of x) (Key.adjustment_key x.id) now
  update (write_adjustment k (set_approved actor why e.id now))

unfoldable pub approve_credit_adjustment :
    Uuid → Uuid → Text → Text → Text → Time → M CreditAdjustmentApproval
approve_credit_adjustment actor k why key hash now = do
  (c, replay) ← command actor (CommandType.approve_credit_adjustment k) key hash
  if replay then replayed c.resource_id else (do
    approve_pending actor k why now
    update (complete_command c (some k) now)
    get_credit_adjustment k)

abbrev pub set_rejected : Uuid → Text → Time → CreditAdjustmentApproval → CreditAdjustmentApproval
set_rejected actor why now x = record x {
  approved_by_user_id = some actor;
  decision_reason = some why;
  status = AdjustmentStatus.rejected;
  decided_at = some now;
}

unfoldable pub reject_pending : Uuid → Uuid → Text → Time → M (Unit {0})
reject_pending actor k why now = do
  x ← decidable actor k Code.dual_control_self_decision_forbidden
  update (write_adjustment x.id (set_rejected actor why now))

unfoldable pub reject_credit_adjustment :
    Uuid → Uuid → Text → Text → Text → Time → M CreditAdjustmentApproval
reject_credit_adjustment actor k why key hash now = do
  (c, replay) ← command actor (CommandType.reject_credit_adjustment k) key hash
  if replay then replayed c.resource_id else (do
    reject_pending actor k why now
    update (complete_command c (some k) now)
    get_credit_adjustment k)
