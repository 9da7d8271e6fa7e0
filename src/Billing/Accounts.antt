-- ===== src/Billing/Accounts.antt =====
-- The private helpers of `ProductBillingService` that every flow goes through: `_account`,
-- `_ledger`, `_grant_bucket` and `_expire_buckets`. A row that Python holds as an object is read
-- again by its identifier at each use. The clock is read once in a call, as `now`.
use qatth.Base.{
  suc, Bool, true, false, ◌&&◌, Option, none, some, List, [], ◌∷◌, map, ◌==◌, if◌then◌else◌,
  some_and, select, find, modify, any, leb,
}
use qatth.Base.Int.{ℤ, pos, ◌+ℤ◌, ◌-ℤ◌, ltb_ℤ, eqb_ℤ}
use qatth.Schema.Common.{Uuid, Text, Time, Code}
use qatth.Schema.Billing.{
  AccountStatus, CreditAccount, BucketType, Key, CreditBucket, EntryType, ReferenceType,
  CreditLedgerEntry,
}
use qatth.Db.{Db, ok, err, M, app_error, pure, gets, ◌>>=◌, ◌>>◌, update, key_eq}

-- What one bucket counts for in an account's balance.
unfoldable pub share : Uuid → CreditBucket → ℤ
share a b = if b.account_id == a then b.available +ℤ b.reserved else pos 0

-- `sum(available + reserved)` over the buckets of an account.
unfoldable pub held : Uuid → List CreditBucket → ℤ
held a [] = pos 0
held a (b ∷ bs) = share a b +ℤ held a bs

-- The row of a table by its primary key, and a write to it.
abbrev pub bucket_of : Uuid → Db → Option CreditBucket
bucket_of k db = find (λ b. b.id == k) db.buckets

abbrev pub write_bucket : Uuid → (CreditBucket → CreditBucket) → Db → Db
write_bucket k f db = record db { buckets = modify (λ b. b.id == k) f db.buckets }

-- The arguments of `_ledger` after the account.
pub record LedgerArgs : Type 0 where
  pub amount : ℤ
  pub entry_type : EntryType
  pub reference_type : ReferenceType
  pub reference_id : Option Text
  pub idempotency_key : Key
  pub bucket_id : Option Uuid
  pub actor_user_id : Option Uuid
  pub reason : Option Text

abbrev pub has_key : Uuid → Key → CreditLedgerEntry → Bool
has_key a k e = e.account_id == a && some_and e.idempotency_key (λ j. key_eq j k)

abbrev pub new_entry : Uuid → LedgerArgs → Time → Db → CreditLedgerEntry
new_entry a args now db = record {
  id = db.next_id;
  account_id = a;
  bucket_id = args.bucket_id;
  amount = args.amount;
  entry_type = args.entry_type;
  balance_after = held a db.buckets;
  reference_type = args.reference_type;
  reference_id = args.reference_id;
  idempotency_key = some args.idempotency_key;
  actor_user_id = args.actor_user_id;
  reason = args.reason;
  occurred_at = now;
}

-- `_ledger`: no zero entry, and one entry for each key of an account.
unfoldable pub ledger : Uuid → LedgerArgs → Time → M CreditLedgerEntry
ledger a args now db =
    if eqb_ℤ args.amount (pos 0)
    then err (app_error 409 Code.zero_ledger_entry)
    else elim (find (has_key a args.idempotency_key) db.entries) [
      | some e ↦ ok (e, db)
      | none ↦ ok (
        new_entry a args now db,
        record db { next_id = suc db.next_id; entries = new_entry a args now db ∷ db.entries },
      )
    ]

abbrev pub new_account : Uuid → Db → CreditAccount
new_account user_id db = record {
  id = db.next_id;
  user_id = user_id;
  status = AccountStatus.active;
  debt = pos 0;
}

-- `_account(user_id, lock=True)`: the account of a user, opened at its first use. The second look
-- under the lock finds what the first one found, since a call is atomic here.
unfoldable pub account : Uuid → M CreditAccount
account user_id db = elim (find (λ x. x.user_id == user_id) db.accounts) [
  | some x ↦ ok (x, db)
  | none ↦
      if any (λ u. u == user_id) db.users
      then ok (
        new_account user_id db,
        record db { next_id = suc db.next_id; accounts = new_account user_id db ∷ db.accounts },
      )
      else err (app_error 404 Code.user_not_found)
]

abbrev pub type_eq : BucketType → BucketType → Bool
type_eq BucketType.trial BucketType.trial = true
type_eq BucketType.subscription BucketType.subscription = true
type_eq BucketType.topup BucketType.topup = true
type_eq BucketType.adjustment BucketType.adjustment = true
type_eq _ _ = false

abbrev pub has_source : Uuid → BucketType → Key → CreditBucket → Bool
has_source a t k b =
    b.account_id == a && type_eq b.bucket_type t && some_and b.source_reference (λ j. key_eq j k)

abbrev pub new_bucket : Uuid → BucketType → Key → ℤ → Option Time → Time → Db → CreditBucket
new_bucket a t k amount expires now db = record {
  id = db.next_id;
  account_id = a;
  bucket_type = t;
  source_reference = some k;
  granted = amount;
  available = amount;
  reserved = pos 0;
  expires_at = expires;
  created_at = now;
}

abbrev pub add_bucket : CreditBucket → Db → Db
add_bucket b db = record db { next_id = suc db.next_id; buckets = b ∷ db.buckets }

abbrev pub grant_args : ℤ → ReferenceType → Text → Key → Uuid → LedgerArgs
grant_args amount r reference_id k bucket_id = record {
  amount = amount;
  entry_type = EntryType.grant;
  reference_type = r;
  reference_id = some reference_id;
  idempotency_key = k;
  bucket_id = some bucket_id;
  actor_user_id = none;
  reason = none;
}

-- `_grant_bucket`: one bucket for each type and source of an account.
unfoldable pub grant_bucket :
    Uuid → BucketType → Key → ℤ → Option Time → ReferenceType → Text → Key → Time → M CreditBucket
grant_bucket a t source amount expires r reference_id k now db =
    elim (find (has_source a t source) db.buckets) [
      | some b ↦ ok (b, db)
      | none ↦
          (do
            b ← gets (new_bucket a t source amount expires now)
            update (add_bucket b)
            ledger a (grant_args amount r reference_id k b.id) now
            pure b)
            db
    ]

-- The buckets that `_expire_buckets` selects.
abbrev pub is_expired : Uuid → Time → CreditBucket → Bool
is_expired a now b =
    b.account_id == a && some_and b.expires_at (λ t. leb t now) && ltb_ℤ (pos 0) b.available

abbrev pub expire_args : Uuid → ℤ → LedgerArgs
expire_args k amount = record {
  amount = pos 0 -ℤ amount;
  entry_type = EntryType.expire;
  reference_type = ReferenceType.credit_bucket;
  reference_id = some k;
  idempotency_key = Key.expire_key k;
  bucket_id = some k;
  actor_user_id = none;
  reason = none;
}

abbrev pub clear_available : CreditBucket → CreditBucket
clear_available b = record b { available = pos 0 }

-- One round of the loop of `_expire_buckets`.
unfoldable pub expire_bucket : Uuid → Time → Uuid → M (Unit {0})
expire_bucket a now k db = elim (bucket_of k db) [
  | none ↦ ok (tt, db)
  | some b ↦
      (do
        update (write_bucket k clear_available)
        ledger a (expire_args k b.available) now
        pure tt)
        db
]

unfoldable pub expire_each : Uuid → Time → List Uuid → M (Unit {0})
expire_each a now [] = pure tt
expire_each a now (k ∷ ks) = do expire_bucket a now k; expire_each a now ks

unfoldable pub expire_buckets : Uuid → Time → M (Unit {0})
expire_buckets a now db =
    expire_each a now (map (λ b. b.id) (select (is_expired a now) db.buckets)) db
