-- ===== src/Billing/Credits.antt =====
-- The life of a credit reservation: `reserve`, `capture`, `release` and `refund` of
-- `ProductBillingService`.
use qatth.Base.{
  ℕ, suc, ◌+◌, Bool, true, false, not, ◌&&◌, ◌||◌, Option, none, some, List, [], ◌∷◌, map, ◌==◌,
  if◌then◌else◌, some_and, or_else, select, find, modify, sort_by, leb, ltb,
}
use qatth.Base.Int.{ℤ, pos, ◌+ℤ◌, ◌-ℤ◌, ltb_ℤ, eqb_ℤ, min_ℤ}
use qatth.Schema.Common.{Uuid, Text, Time, Code}
use qatth.Schema.Billing.{
  BillingCatalogVersion, FeatureCreditPrice, BucketType, Key, CreditBucket, EntryType,
  ReferenceType, CreditLedgerEntry, ReservationStatus, CreditReservation,
  CreditReservationAllocation,
}
use qatth.Db.{
  Db, ok, err, M, app_error, pure, gets, or_raise, ◌>>=◌, ◌>>◌, raise_if, update, reference_eq,
  account_is_active, type_rank, is_reserved, is_captured,
}
use qatth.Billing.Accounts.{LedgerArgs, ledger, has_key, account, expire_buckets}
use qatth.Billing.Trial.{ProductCurrentUser, active_catalog, ensure_signup_trial}

-- `expires_at.asc().nullslast()`, then `created_at`.
abbrev pub expires_before : Option Time → Option Time → ℕ → ℕ → Bool
expires_before none none c d = leb c d
expires_before none (some u) c d = false
expires_before (some t) none c d = true
expires_before (some t) (some u) c d = ltb t u || t == u && leb c d

-- The order in which the buckets are charged.
abbrev pub charged_before : CreditBucket → CreditBucket → Bool
charged_before b c =
    ltb (type_rank b.bucket_type) (type_rank c.bucket_type)
    || type_rank b.bucket_type == type_rank c.bucket_type
      && expires_before b.expires_at c.expires_at b.created_at c.created_at

abbrev pub is_chargeable : Uuid → CreditBucket → Bool
is_chargeable a b = b.account_id == a && ltb_ℤ (pos 0) b.available

unfoldable pub charge_order : Uuid → List CreditBucket → List CreditBucket
charge_order a bs = sort_by charged_before (select (is_chargeable a) bs)

unfoldable pub available_sum : List CreditBucket → ℤ
available_sum [] = pos 0
available_sum (b ∷ bs) = b.available +ℤ available_sum bs

-- What one round of the loop of `reserve` writes to a bucket.
abbrev pub set_aside : ℤ → CreditBucket → CreditBucket
set_aside amount b = record b { available = b.available -ℤ amount; reserved = b.reserved +ℤ amount }

abbrev pub new_allocation : Uuid → Uuid → ℤ → Db → CreditReservationAllocation
new_allocation r k amount db = record {
  id = db.next_id;
  reservation_id = r;
  bucket_id = k;
  amount = amount;
}

abbrev pub allocate_bucket : Uuid → Uuid → ℤ → Db → Db
allocate_bucket r k amount db = record db {
  next_id = suc db.next_id;
  buckets = modify (λ b. b.id == k) (set_aside amount) db.buckets;
  allocations = new_allocation r k amount db ∷ db.allocations;
}

-- The loop of `reserve` over the buckets, by identifier: a bucket with nothing to give is passed
-- over, and the loop ends when nothing remains to be reserved.
unfoldable pub allocate : Uuid → List Uuid → ℤ → Db → Db
allocate r [] remaining db = db
allocate r (k ∷ ks) remaining db = elim (find (λ b. b.id == k) db.buckets) [
  | none ↦ allocate r ks remaining db
  | some b ↦ elim (eqb_ℤ (min_ℤ b.available remaining) (pos 0)) [
    | true ↦ allocate r ks remaining db
    | false ↦ elim (eqb_ℤ (remaining -ℤ min_ℤ b.available remaining) (pos 0)) [
      | true ↦ allocate_bucket r k (min_ℤ b.available remaining) db
      | false ↦
          allocate r ks (remaining -ℤ min_ℤ b.available remaining)
            (allocate_bucket r k (min_ℤ b.available remaining) db)
    ]
  ]
]

abbrev pub new_reservation :
    Uuid
    → ProductCurrentUser
    → BillingCatalogVersion
    → FeatureCreditPrice
    → ReferenceType
    → Uuid
    → Option Time
    → Time
    → Db
    → CreditReservation
new_reservation a current catalog price r reference_id expires now db = record {
  id = db.next_id;
  account_id = a;
  user_id = current.id;
  feature_key = price.feature_key;
  amount = price.credit_cost;
  status = ReservationStatus.reserved;
  catalog_version_id = catalog.id;
  reference_type = r;
  reference_id = reference_id;
  expires_at = or_else expires (now + 7200);
  captured_at = none;
  released_at = none;
  refunded_at = none;
}

abbrev pub add_reservation : CreditReservation → Db → Db
add_reservation r db = record db { next_id = suc db.next_id; reservations = r ∷ db.reservations }

-- `reserve` from the account's lock on.
unfoldable pub reserve_new :
    ProductCurrentUser
    → BillingCatalogVersion
    → FeatureCreditPrice
    → ReferenceType
    → Uuid
    → Option Time
    → Time
    → M (Option CreditReservation)
reserve_new current catalog price r reference_id expires now = do
  a ← account current.id
  raise_if (not (account_is_active a.status)) (app_error 409 Code.credit_account_restricted)
  expire_buckets a.id now
  bs ← gets (λ db. charge_order a.id db.buckets)
  raise_if (ltb_ℤ (available_sum bs) price.credit_cost) (app_error 402 Code.insufficient_credits)
  reservation ← gets (new_reservation a.id current catalog price r reference_id expires now)
  update (add_reservation reservation)
  update (allocate reservation.id (map (λ b. b.id) bs) price.credit_cost)
  pure (some reservation)

abbrev pub has_reference : ReferenceType → Uuid → CreditReservation → Bool
has_reference r reference_id x = reference_eq x.reference_type r && x.reference_id == reference_id

-- `reserve` at a price: nothing for a free feature, and one reservation for each reference.
unfoldable pub reserve_once :
    ProductCurrentUser
    → BillingCatalogVersion
    → FeatureCreditPrice
    → ReferenceType
    → Uuid
    → Option Time
    → Time
    → M (Option CreditReservation)
reserve_once current catalog price r reference_id expires now db =
    if eqb_ℤ price.credit_cost (pos 0)
    then ok (none, db)
    else elim (find (has_reference r reference_id) db.reservations) [
      | some x ↦ ok (some x, db)
      | none ↦ reserve_new current catalog price r reference_id expires now db
    ]

-- A limit of zero minutes, and a duration of zero, count as absent.
abbrev pub exceeds_limit : Option ℕ → Option ℕ → Bool
exceeds_limit limit duration =
    some_and limit (λ m. ltb 0 m && some_and duration (λ d. ltb 0 d && ltb m d))

-- `reserve`.
unfoldable pub reserve :
    ProductCurrentUser
    → Text
    → ReferenceType
    → Uuid
    → Option ℕ
    → Option Time
    → Time
    → M (Option CreditReservation)
reserve current feature_key r reference_id duration expires now = do
  ensure_signup_trial current now
  catalog ← active_catalog now
  found ← gets (λ db.
      find (λ p. p.catalog_version_id == catalog.id && p.feature_key == feature_key) db.prices)
  price ← or_raise found (app_error 503 Code.feature_pricing_unavailable)
  raise_if (exceeds_limit price.maximum_duration_minutes duration)
      (app_error 422 Code.feature_limit_exceeded)
  reserve_once current catalog price r reference_id expires now

abbrev pub allocations_of : Uuid → Db → List CreditReservationAllocation
allocations_of r db = select (λ x. x.reservation_id == r) db.allocations

abbrev pub reservation_of : Uuid → Db → Option CreditReservation
reservation_of r db = find (λ x. x.id == r) db.reservations

abbrev pub write_reservation : Uuid → (CreditReservation → CreditReservation) → Db → Db
write_reservation r f db = record db { reservations = modify (λ x. x.id == r) f db.reservations }

abbrev pub consume : ℤ → CreditBucket → CreditBucket
consume amount b = record b { reserved = b.reserved -ℤ amount }

-- The loop of `capture`.
unfoldable pub consume_each :
    List CreditReservationAllocation → List CreditBucket → Option (List CreditBucket)
consume_each [] bs = some bs
consume_each (x ∷ xs) bs = elim (find (λ b. b.id == x.bucket_id) bs) [
  | none ↦ none
  | some b ↦ elim (ltb_ℤ b.reserved x.amount) [
    | true ↦ none
    | false ↦ consume_each xs (modify (λ b. b.id == x.bucket_id) (consume x.amount) bs)
  ]
]

abbrev pub charge_args : CreditReservation → LedgerArgs
charge_args r = record {
  amount = pos 0 -ℤ r.amount;
  entry_type = EntryType.charge;
  reference_type = r.reference_type;
  reference_id = some r.reference_id;
  idempotency_key = Key.capture_key r.id;
  bucket_id = none;
  actor_user_id = none;
  reason = none;
}

abbrev pub set_captured : Time → CreditReservation → CreditReservation
set_captured now r = record r { status = ReservationStatus.captured; captured_at = some now }

abbrev pub set_buckets : List CreditBucket → Db → Db
set_buckets bs db = record db { buckets = bs }

-- `capture` of a reservation that is found and reserved.
unfoldable pub capture_reserved : CreditReservation → Time → M (Unit {0})
capture_reserved r now = do
  consumed ← gets (λ db. consume_each (allocations_of r.id db) db.buckets)
  bs ← or_raise consumed (app_error 409 Code.credit_reservation_corrupt)
  update (set_buckets bs)
  update (write_reservation r.id (set_captured now))
  ledger r.account_id (charge_args r) now
  pure tt

unfoldable pub capture : Option Uuid → Time → M (Unit {0})
capture none now db = ok (tt, db)
capture (some k) now db = elim (reservation_of k db) [
  | none ↦ ok (tt, db)
  | some r ↦
      if is_captured r.status
      then ok (tt, db)
      else if is_reserved r.status
      then capture_reserved r now db
      else err (app_error 409 Code.credit_reservation_not_capturable)
]

abbrev pub put_back : ℤ → CreditBucket → CreditBucket
put_back amount b = record b { available = b.available +ℤ amount; reserved = b.reserved -ℤ amount }

-- The loop of `release`: a bucket that is gone is passed over.
unfoldable pub put_back_each :
    List CreditReservationAllocation → List CreditBucket → List CreditBucket
put_back_each [] bs = bs
put_back_each (x ∷ xs) bs =
    put_back_each xs (modify (λ b. b.id == x.bucket_id) (put_back x.amount) bs)

abbrev pub set_released : Time → CreditReservation → CreditReservation
set_released now r = record r { status = ReservationStatus.released; released_at = some now }

abbrev pub release_reserved : CreditReservation → Time → Db → Db
release_reserved r now db = record db {
  buckets = put_back_each (allocations_of r.id db) db.buckets;
  reservations = modify (λ x. x.id == r.id) (set_released now) db.reservations;
}

-- `release` never raises: only a reserved reservation is released.
unfoldable pub release : Option Uuid → Time → Db → Db
release none now db = db
release (some k) now db = elim (reservation_of k db) [
  | none ↦ db
  | some r ↦ if is_reserved r.status then release_reserved r now db else db
]

-- Whether the loop of `refund` may return credits to the bucket itself.
abbrev pub is_open : Time → CreditBucket → Bool
is_open now b = elim (b.expires_at) [ none ↦ true | some t ↦ ltb now t ]

abbrev pub give_back : ℤ → CreditBucket → CreditBucket
give_back amount b = record b { available = b.available +ℤ amount }

-- The loop of `refund`: the buckets, and what goes to an adjustment bucket instead.
unfoldable pub give_back_each :
    Time → List CreditReservationAllocation → ℤ → List CreditBucket → ℤ × List CreditBucket
give_back_each now [] adjustment bs = (adjustment, bs)
give_back_each now (x ∷ xs) adjustment bs =
    elim (some_and (find (λ b. b.id == x.bucket_id) bs) (is_open now)) [
      | true ↦
          give_back_each now xs adjustment
            (modify (λ b. b.id == x.bucket_id) (give_back x.amount) bs)
      | false ↦ give_back_each now xs (adjustment +ℤ x.amount) bs
    ]

abbrev pub fallback_bucket : CreditReservation → ℤ → Time → Db → CreditBucket
fallback_bucket r amount now db = record {
  id = db.next_id;
  account_id = r.account_id;
  bucket_type = BucketType.adjustment;
  source_reference = some (Key.feature_refund_key r.id);
  granted = amount;
  available = amount;
  reserved = pos 0;
  expires_at = none;
  created_at = now;
}

-- The buckets after the loop, with the fallback bucket if one is needed.
unfoldable pub refund_buckets : CreditReservation → Time → ℤ × List CreditBucket → Db → Db
refund_buckets r now (adjustment, bs) db =
    if eqb_ℤ adjustment (pos 0)
    then record db { buckets = bs }
    else record db { next_id = suc db.next_id; buckets = fallback_bucket r adjustment now db ∷ bs }

abbrev pub set_refunded : Time → CreditReservation → CreditReservation
set_refunded now r = record r { status = ReservationStatus.refunded; refunded_at = some now }

abbrev pub refund_args : CreditReservation → Text → Option Uuid → LedgerArgs
refund_args r why actor = record {
  amount = r.amount;
  entry_type = EntryType.refund;
  reference_type = r.reference_type;
  reference_id = some r.reference_id;
  idempotency_key = Key.refund_key r.id;
  bucket_id = none;
  actor_user_id = actor;
  reason = some why;
}

-- `refund` of a captured reservation.
unfoldable pub refund_captured : CreditReservation → Text → Option Uuid → Time → M CreditLedgerEntry
refund_captured r why actor now = do
  returned ← gets (λ db. give_back_each now (allocations_of r.id db) (pos 0) db.buckets)
  update (refund_buckets r now returned)
  update (write_reservation r.id (set_refunded now))
  ledger r.account_id (refund_args r why actor) now

unfoldable pub refund : Uuid → Text → Option Uuid → Time → M CreditLedgerEntry
refund k why actor now db = elim (reservation_of k db) [
  | none ↦ err (app_error 404 Code.credit_reservation_not_found)
  | some r ↦ elim (find (has_key r.account_id (Key.refund_key r.id)) db.entries) [
    | some e ↦ ok (e, db)
    | none ↦
        if is_captured r.status
        then refund_captured r why actor now db
        else err (app_error 409 Code.credit_reservation_not_refundable)
  ]
]
