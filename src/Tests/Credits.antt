-- ===== src/Tests/Credits.antt =====
-- Runs of the ledger and of the reservations.
use qatth.Base.{ℕ, ◌≡◌, refl, ◌≤◌, none, some, [], ◌∷◌, find, arith, All, select, ◌-◌}
use qatth.Base.Int.{pos, negsuc, ◌+ℤ◌, ◌-ℤ◌, ◌≤ℤ◌}
use qatth.Schema.Common.{Uuid, Time}
use qatth.Schema.Billing.{
  AccountStatus, CreditAccount, BucketType, Key, CreditBucket, EntryType, ReferenceType,
  CreditLedgerEntry, ReservationStatus,
}
use qatth.Db.{Db, ok, key_eq}
use qatth.Billing.Accounts.{
  LedgerArgs, ledger, share, held, has_key, is_expired, expire_bucket, expire_buckets, grant_bucket,
}
use qatth.Billing.Credits.{
  reservation_of, allocations_of, consume_each, capture, release, refund, allocate, set_captured,
  set_refunded,
}
use qatth.Billing.Reversals.{take_back, cumulative_reversal}
use qatth.Billing.Proportion.{due, cumulative_reversal-due}
use qatth.Billing.Ledger.Rows.{ids}
use qatth.Billing.Ledger.Balance.{ledger_total, Reconciles}
use qatth.Billing.Ledger.Expire.{
  Fresh, expire_buckets-Reconciles, grant_bucket-Reconciles, expire_bucket_again,
}
use qatth.Billing.Ledger.Once.{ledger_once}
use qatth.Billing.Ledger.Reversal.{IsOwed, take_back-Reconciles}
use qatth.Billing.Reservation.Allocate.{allocated, reach, allocate_exact}
use qatth.Billing.Reservation.Undo.{release-allocate}
use qatth.Billing.Reservation.Backed.{amount_sum, IsBacked}
use qatth.Billing.Reservation.Settle.{capture-Reconciles, capture_once, release-Reconciles}
use qatth.Billing.Reservation.Refund.{refund-Reconciles}
use qatth.Tests.Data.{
  bucket, entry, reservation, empty_db, reserved_db, captured_db, fresh_db, released_db,
}

forty : ¬ (pos 40 ≡ pos 0)
forty e = ground (arith, e)

reserved_db-Reconciles : Reconciles 1 reserved_db
unfolding held share ◌+ℤ◌
reserved_db-Reconciles = refl

released_db-Reconciles : Reconciles 1 released_db
unfolding held share ◌+ℤ◌
released_db-Reconciles = refl

reserved_db-IsBacked : IsBacked (reservation ReservationStatus.reserved) reserved_db
unfolding amount_sum ◌+ℤ◌
reserved_db-IsBacked = record { all_owned = (refl, tt); adds_up = refl }

captured_db-IsBacked : IsBacked (reservation ReservationStatus.captured) captured_db
unfolding amount_sum ◌+ℤ◌
captured_db-IsBacked = record { all_owned = (refl, tt); adds_up = refl }

consumed :
    consume_each (allocations_of 3 reserved_db) reserved_db.buckets
    ≡ some (bucket (pos 60) (pos 0) ∷ [])
unfolding consume_each ◌-ℤ◌
consumed = refl

uncharged : find (has_key 1 (Key.capture_key 3)) reserved_db.entries ≡ none
unfolding key_eq
uncharged = refl

unrefunded : find (has_key 1 (Key.refund_key 3)) captured_db.entries ≡ none
unfolding key_eq
unrefunded = refl

capture-Reconciles_example :
    (db' : Db) × (capture (some 3) 5 reserved_db ≡ ok (tt, db'))
    × (reservation_of 3 db' ≡ some (set_captured 5 (reservation ReservationStatus.reserved)))
    × ((x : Uuid) → Reconciles x reserved_db → Reconciles x db')
capture-Reconciles_example =
    capture-Reconciles 3 5 reserved_db refl refl (bucket (pos 60) (pos 0) ∷ []) reserved_db-IsBacked
      forty uncharged consumed

refund-Reconciles_example :
    (e : CreditLedgerEntry) × (db' : Db) × (refund 3 1 none 5 captured_db ≡ ok (e, db'))
    × (e.amount ≡ pos 40)
    × (reservation_of 3 db' ≡ some (set_refunded 5 (reservation ReservationStatus.captured)))
    × (ReservationStatus.refunded ≡ ReservationStatus.refunded)
    × ((x : Uuid) → Reconciles x captured_db → Reconciles x db')
refund-Reconciles_example =
    refund-Reconciles 3 1 none 5 captured_db refl refl captured_db-IsBacked forty unrefunded

release-Reconciles_example :
    Reconciles 1 (release (some 3) 5 reserved_db)
    × ((release (some 3) 5 reserved_db).entries ≡ reserved_db.entries)
release-Reconciles_example = release-Reconciles (some 3) 5 reserved_db 1 reserved_db-Reconciles

capture_once_example :
    (db' : Db) × (capture (some 3) 5 reserved_db ≡ ok (tt, db'))
    × ((later : Time) → capture (some 3) later db' ≡ ok (tt, db'))
    × ((later : Time) → release (some 3) later db' ≡ db')
capture_once_example =
    capture_once 3 5 reserved_db (bucket (pos 60) (pos 0) ∷ []) refl refl reserved_db-IsBacked forty
      uncharged consumed

enough : pos 40 ≤ℤ reach (2 ∷ []) fresh_db.buckets
unfolding reach ◌+ℤ◌
enough = omega arith

allocate_exact_example :
    allocated 3 (allocate 3 (2 ∷ []) (pos 40) fresh_db).allocations
    ≡ allocated 3 fresh_db.allocations +ℤ pos 40
allocate_exact_example = allocate_exact 3 (2 ∷ []) (pos 40) fresh_db (tt, tt) (omega arith) enough

allocated_reservation :
    reservation_of 3 (allocate 3 (2 ∷ []) (pos 40) fresh_db)
    ≡ some (reservation ReservationStatus.reserved)
unfolding allocate ◌-ℤ◌
allocated_reservation = refl

release-allocate_example :
    (release (some 3) 6 (allocate 3 (2 ∷ []) (pos 40) fresh_db)).buckets ≡ fresh_db.buckets
release-allocate_example =
    release-allocate 3 (2 ∷ []) (pos 40) 6 fresh_db refl allocated_reservation refl

not_expired_before :
    All (Fresh 1 reserved_db) (ids (select (is_expired 1 2000) reserved_db.buckets))
unfolding key_eq
not_expired_before = (refl, tt)

expire_buckets-Reconciles_example :
    (db' : Db) × (expire_buckets 1 2000 reserved_db ≡ ok (tt, db'))
    × ((x : Uuid) → Reconciles x reserved_db → Reconciles x db')
expire_buckets-Reconciles_example =
    expire_buckets-Reconciles 1 2000 reserved_db (tt, tt) not_expired_before

expired_before :
    find (has_key 1 (Key.expire_key 2)) released_db.entries
    ≡ some (entry (negsuc 59) EntryType.expire (Key.expire_key 2))
unfolding key_eq
expired_before = refl

expire_bucket_again_example :
    (db' : Db) × (expire_bucket 1 2000 2 released_db ≡ ok (tt, db'))
    × (ledger_total 1 db'.entries ≡ held 1 db'.buckets +ℤ pos 40)
expire_bucket_again_example =
    expire_bucket_again 1 2 2000 released_db refl refl expired_before released_db-Reconciles

grant_bucket-Reconciles_example :
    (b : CreditBucket) × (db' : Db) × (grant_bucket 1 BucketType.topup
        (Key.payment_key 7)
        (pos 40)
        none
        ReferenceType.payment
        7
        (Key.payment_key 7)
        1
        empty_db
      ≡ ok (b, db'))
    × ((x : Uuid) → Reconciles x empty_db → Reconciles x db')
grant_bucket-Reconciles_example =
    grant_bucket-Reconciles 1 BucketType.topup (Key.payment_key 7) (pos 40) none
      ReferenceType.payment 7 (Key.payment_key 7) 1 empty_db forty refl

-- Of a payment of 300 for 100 credits, 100 was reversed before, and 50 more now.
cumulative_reversal-due_example :
    (cumulative_reversal (pos 300) (pos 100) (pos 100) (pos (due 299 100 100)) (pos 50)
      ≡ ok (pos 150, pos (due 299 100 150), pos (due 299 100 150 - due 299 100 100)))
    × (due 299 100 100 ≤ due 299 100 150)
    × (due 299 100 150 ≤ 100)
    × (◌≡◌ {A = ℕ} 150 300 → due 299 100 150 ≡ 100)
cumulative_reversal-due_example =
    cumulative_reversal-due 299 100 100 50 (omega arith) (omega arith) (omega arith)

abbrev charge : LedgerArgs
charge = record {
  amount = pos 5;
  entry_type = EntryType.grant;
  reference_type = ReferenceType.payment;
  reference_id = none;
  idempotency_key = Key.payment_key 9;
  bucket_id = none;
  actor_user_id = none;
  reason = none;
}

five : ¬ (pos 5 ≡ pos 0)
five e = ground (arith, e)

ledger_once_example :
    (e : CreditLedgerEntry) × (db' : Db) × (ledger 1 charge 3 reserved_db ≡ ok (e, db'))
    × (ledger 1 charge 8 db' ≡ ok (e, db'))
    × (find (has_key 1 (Key.payment_key 9)) reserved_db.entries ≡ none
        → e.balance_after ≡ held 1 reserved_db.buckets)
ledger_once_example = ledger_once 1 charge charge 3 8 reserved_db five five refl

abbrev owner : CreditAccount
owner = record { id = 1; user_id = 10; status = AccountStatus.active; debt = pos 0 }

abbrev owned_db : Db
owned_db = record reserved_db { accounts = owner ∷ [] }

not_reversed : find (has_key 1 (Key.reversal_key 70)) owned_db.entries ≡ none
unfolding key_eq
not_reversed = refl

-- 100 credits are reversed, of which the bucket still has 60.
take_back-Reconciles_example :
    (db' : Db) × (take_back 1 70 owner (bucket (pos 60) (pos 40)) (pos 100) 5 owned_db
      ≡ ok (tt, db'))
    × ((x : Uuid) → Reconciles x owned_db → Reconciles x db')
    × IsOwed 1 70 owner (bucket (pos 60) (pos 40)) (pos 100) 5 owned_db db'
take_back-Reconciles_example =
    take_back-Reconciles 1 70 owner (bucket (pos 60) (pos 40)) (pos 100) 5 owned_db refl refl refl
      not_reversed
