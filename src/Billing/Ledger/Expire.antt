-- ===== src/Billing/Ledger/Expire.antt =====
-- `_expire_buckets` and `_grant_bucket` of backend/app/services/product_billing.py keep the entries
-- in step with the buckets.
use qatth.Base.{
  suc, ◌≡◌, refl, ◌∙◌, ◌≢◌, true, false, none, some, Option, List, [], ◌∷◌, ◌==◌, if◌then◌else◌,
  find, modify, select, arith, Bool-cases, Option-cases, inl, inr, All, Distinct, All-map₂,
}
use qatth.Base.Int.{ℤ, pos, ◌+ℤ◌, ◌-ℤ◌, eqb_ℤ_ne, int_laws}
use qatth.Schema.Common.{Uuid, Text, Time}
use qatth.Schema.Billing.{BucketType, CreditBucket, Key, ReferenceType, CreditLedgerEntry}
use qatth.Db.{Db, ok, key_eq, bind_ok}
use qatth.Billing.Accounts.{
  share, held, has_key, has_source, new_bucket, add_bucket, grant_args, new_entry, expire_args,
  clear_available, is_expired, ledger, expire_bucket, expire_each, expire_buckets, grant_bucket,
}
use qatth.Billing.Ledger.Rows.{ids, Found, Found-select, Distinct-select, find-modify_ne}
use qatth.Billing.Ledger.Balance.{ledger_total, Reconciles, held-modify}

-- The tables after one bucket has expired.
abbrev expired_db : Uuid → Time → Uuid → CreditBucket → Db → Db
expired_db a now k b db =
    let cleared = record db { buckets = modify (λ x. x.id == k) clear_available db.buckets } in
    record cleared {
      next_id = suc db.next_id;
      entries = new_entry a (expire_args k b.available) now cleared ∷ db.entries;
    }

abbrev pub Fresh : Uuid → Db → Uuid → Type 0
Fresh a db k = find (has_key a (Key.expire_key k)) db.entries ≡ none

-- What expiry takes from an account's balance is what its entry says.
expire_share :
    (a x : Uuid) (now : Time) (b : CreditBucket)
    → is_expired a now b ≡ true
    → share x (clear_available b) ≡ (if a == x then pos 0 -ℤ b.available else pos 0) +ℤ share x b
unfolding share
expire_share a x now b h = elim (Bool-cases (a == x)) [
  | inl same ↦ let t : (b.account_id == x) ≡ true = ground arith in rw (same, t) (omega int_laws)
  | inr other ↦ let t : (b.account_id == x) ≡ false = ground arith in rw (other, t) (omega int_laws)
]

expire_held :
    (a k : Uuid) (now : Time) (bs : List CreditBucket) {b : CreditBucket}
    → find (λ x. x.id == k) bs ≡ some b
    → is_expired a now b ≡ true
    → held a bs ≡ held a (modify (λ x. x.id == k) clear_available bs) +ℤ b.available
expire_held a k now bs {b} e h =
    let own : (a == a) ≡ true = ground arith in
    omega (int_laws, held-modify a k clear_available bs e, rw own at (expire_share a a now b h))

module _ (a : Uuid) (now : Time) where
  expire_bucket_lem :
      (k : Uuid) (db : Db) (b : CreditBucket)
      → find (λ x. x.id == k) db.buckets ≡ some b
      → is_expired a now b ≡ true
      → Fresh a db k
      → expire_bucket a now k db ≡ ok (tt, expired_db a now k b db)
  unfolding expire_bucket ledger ◌-ℤ◌
  expire_bucket_lem k db b e h fresh = ground arith

  expired_db-Reconciles :
      (x k : Uuid) (db : Db) (b : CreditBucket)
      → find (λ y. y.id == k) db.buckets ≡ some b
      → is_expired a now b ≡ true
      → Reconciles x db
      → Reconciles x (expired_db a now k b db)
  expired_db-Reconciles x k db b e h r =
      omega (int_laws, held-modify x k clear_available db.buckets e, expire_share a x now b h, r)

  -- Expiring one bucket leaves the row and the key of another as they were.
  Found-expired_db :
      (k j : Uuid) (db : Db) (b : CreditBucket)
      → j ≢ k
      → Found (is_expired a now) db.buckets j
      → Found (is_expired a now) (expired_db a now k b db).buckets j
  Found-expired_db k j db b ne (c, e, h) =
      (c, find-modify_ne k j clear_available db.buckets (λ y. refl) ne ∙ e, h)

  Fresh-expired_db :
      (k j : Uuid) (db : Db) (b : CreditBucket)
      → j ≢ k
      → Fresh a db j
      → Fresh a (expired_db a now k b db) j
  unfolding key_eq
  Fresh-expired_db k j db b ne h = ground arith

  -- The loop over distinct rows that have not expired before goes through, and keeps every account
  -- reconciled.
  expire_each-Reconciles :
      (ks : List Uuid) (db : Db)
      → Distinct ks
      → All (Found (is_expired a now) db.buckets) ks
      → All (Fresh a db) ks
      → (db' : Db) × (expire_each a now ks db ≡ ok (tt, db'))
        × ((x : Uuid) → Reconciles x db → Reconciles x db')
  unfolding expire_each
  expire_each-Reconciles [] db d f fr = (db, refl, λ x r. r)
  expire_each-Reconciles (k ∷ ks) db d f fr =
      let (b, e, h) = f.0 in
      let db₁ = expired_db a now k b db in
      let (db', run, keep) =
        expire_each-Reconciles ks db₁ d.1
          (All-map₂ (λ j. j ≢ k) (Found (is_expired a now) db.buckets)
            (Found (is_expired a now) db₁.buckets) (λ j. Found-expired_db k j db b) ks d.0 f.1)
          (All-map₂ (λ j. j ≢ k) (Fresh a db) (Fresh a db₁) (λ j. Fresh-expired_db k j db b) ks d.0
            fr.1) in
      (
        db',
        bind_ok (expire_bucket a now k) (λ _. expire_each a now ks) db
              (expire_bucket_lem k db b e h fr.0)
            ∙ run,
        λ x r. keep x (expired_db-Reconciles x k db b e h r),
      )

-- `_expire_buckets` never raises where no bucket that it selects has expired before, and it keeps
-- every account reconciled.
pub expire_buckets-Reconciles :
    (a : Uuid) (now : Time) (db : Db)
    → Distinct (ids db.buckets)
    → All (Fresh a db) (ids (select (is_expired a now) db.buckets))
    → (db' : Db) × (expire_buckets a now db ≡ ok (tt, db'))
      × ((x : Uuid) → Reconciles x db → Reconciles x db')
unfolding expire_buckets
expire_buckets-Reconciles a now db d fr =
    expire_each-Reconciles a now (ids (select (is_expired a now) db.buckets)) db
      (Distinct-select (is_expired a now) db.buckets d)
      (Found-select (is_expired a now) db.buckets d) fr

-- A granted bucket holds its amount for its own account.
share-new_bucket :
    (a x : Uuid) (t : BucketType) (k : Key) (amount : ℤ) (expires : Option Time) (now : Time)
    (db : Db)
    → share x (new_bucket a t k amount expires now db) ≡ (if a == x then amount else pos 0)
unfolding share
share-new_bucket a x t k amount expires now db = elim (Bool-cases (a == x)) [
  | inl e ↦ rw e (omega int_laws)
  | inr e ↦ rw e
]

-- `_grant_bucket` keeps every account reconciled: it finds the bucket of an earlier grant and
-- writes nothing, or adds a bucket and an entry of the same amount, if the entry's key is fresh.
pub grant_bucket-Reconciles :
    (a : Uuid) (t : BucketType) (source : Key) (amount : ℤ) (expires : Option Time)
    (r : ReferenceType) (reference_id : Text) (k : Key) (now : Time) (db : Db)
    → ¬ (amount ≡ pos 0)
    → find (has_key a k) db.entries ≡ none
    → (b : CreditBucket) × (db' : Db) × (grant_bucket a t source amount expires r reference_id k now
          db
        ≡ ok (b, db'))
      × ((x : Uuid) → Reconciles x db → Reconciles x db')
unfolding grant_bucket ledger held
grant_bucket-Reconciles a t source amount expires r reference_id k now db nz fresh =
    elim (Option-cases (find (has_source a t source) db.buckets)) [
      | inl new ↦
          let b = new_bucket a t source amount expires now db in
          let db₁ = add_bucket b db in
          let e = new_entry a (grant_args amount r reference_id k b.id) now db₁ in
          (
            b,
            record db₁ { next_id = suc db₁.next_id; entries = e ∷ db.entries },
            ground (arith, eqb_ℤ_ne amount (pos 0) nz),
            λ x rec. omega (int_laws, rec, share-new_bucket a x t source amount expires now db),
          )
      | inr (b, old) ↦ (b, db, ground arith, λ x rec. rec)
    ]

-- A bucket that has an expiry entry already, and holds credits again, loses them with no entry:
-- its account is reconciled no more.
pub expire_bucket_again :
    (a k : Uuid) (now : Time) (db : Db) {b : CreditBucket} {old : CreditLedgerEntry}
    → find (λ x. x.id == k) db.buckets ≡ some b
    → is_expired a now b ≡ true
    → find (has_key a (Key.expire_key k)) db.entries ≡ some old
    → Reconciles a db
    → (db' : Db) × (expire_bucket a now k db ≡ ok (tt, db'))
      × (ledger_total a db'.entries ≡ held a db'.buckets +ℤ b.available)
unfolding expire_bucket ledger ◌-ℤ◌
expire_bucket_again a k now db {b} e h seen r = (
  record db { buckets = modify (λ x. x.id == k) clear_available db.buckets },
  ground arith,
  r ∙ expire_held a k now db.buckets e h,
)
