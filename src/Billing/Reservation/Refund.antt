-- ===== src/Billing/Reservation/Refund.antt =====
-- `refund` of backend/app/services/product_billing.py keeps every account reconciled: what enters
-- the buckets is what the new entry says.
use mathlib.Core.Path.{subst}
use qatth.Base.{
  suc, ◌≡◌, refl, sym, ap, Option, none, some, List, ◌∷◌, ◌==◌, find, modify, arith, Bool-cases,
  inl, inr,
}
use qatth.Base.Int.{ℤ, pos, ◌+ℤ◌, eqb_ℤ, int_laws}
use qatth.Schema.Common.{Uuid, Time, Text}
use qatth.Schema.Billing.{
  Key, CreditBucket, CreditLedgerEntry, CreditReservation, ReservationStatus,
}
use qatth.Db.{Db, ok}
use qatth.Billing.Accounts.{share, held, has_key, new_entry, ledger}
use qatth.Billing.Credits.{
  reservation_of, allocations_of, give_back_each, refund_args, refund_buckets, fallback_bucket,
  set_refunded, refund_captured, refund, write_reservation,
}
use qatth.Billing.Ledger.Balance.{ledger_total, entry_share, Reconciles}
use qatth.Billing.Reservation.Backed.{IsBacked, toward, toward-zero, held-give_back_each}
use qatth.Billing.Reservation.Settle.{reservation_of-write}

entry_share-refund :
    (r : CreditReservation) (why : Text) (actor : Option Uuid) (now : Time) (x : Uuid) (d : Db)
    → entry_share x (new_entry r.account_id (refund_args r why actor) now d)
      ≡ toward r.account_id x r.amount
unfolding toward
entry_share-refund r why actor now x d = elim (Bool-cases (r.account_id == x)) [
  | inl e ↦ rw e
  | inr e ↦ rw e
]

-- The tables after the refund of a captured reservation.
abbrev refunded_db : CreditReservation → Text → Option Uuid → Time → Db → Db
refunded_db r why actor now db =
    let returned = give_back_each now (allocations_of r.id db) (pos 0) db.buckets in
    let d = write_reservation r.id (set_refunded now) (refund_buckets r now returned db) in
    record d {
      next_id = suc d.next_id;
      entries = new_entry r.account_id (refund_args r why actor) now d ∷ d.entries;
    }

share-fallback :
    (r : CreditReservation) (now : Time) (adj : ℤ) (db : Db) (x : Uuid)
    → share x (fallback_bucket r adj now db) ≡ toward r.account_id x adj
unfolding share toward
share-fallback r now adj db x = elim (Bool-cases (r.account_id == x)) [
  | inl e ↦ rw e (omega int_laws)
  | inr e ↦ rw e
]

held-refund_buckets :
    (r : CreditReservation) (now : Time) (adj : ℤ) (bs : List CreditBucket) (db : Db) (x : Uuid)
    → held x (refund_buckets r now (adj, bs) db).buckets ≡ held x bs +ℤ toward r.account_id x adj
unfolding held refund_buckets
held-refund_buckets r now adj bs db x = elim (Bool-cases (eqb_ℤ adj (pos 0))) [
  | inl z ↦
      let zero : adj ≡ pos 0 = ground arith in
      rw z (rw zero (omega (int_laws, toward-zero r.account_id x)))
  | inr z ↦ rw z (omega (int_laws, share-fallback r now adj db x))
]

refund_buckets_others :
    (r : CreditReservation) (now : Time) (returned : ℤ × List CreditBucket) (db : Db)
    → ((refund_buckets r now returned db).reservations ≡ db.reservations)
      × ((refund_buckets r now returned db).entries ≡ db.entries)
unfolding refund_buckets
refund_buckets_others r now returned db = ground arith

refunded_db-Reconciles :
    (r : CreditReservation) (why : Text) (actor : Option Uuid) (now : Time) (db : Db) (x : Uuid)
    → IsBacked r db
    → Reconciles x db
    → Reconciles x (refunded_db r why actor now db)
refunded_db-Reconciles r why actor now db x backed rec =
    let xs = allocations_of r.id db in
    let returned = give_back_each now xs (pos 0) db.buckets in
    let d = write_reservation r.id (set_refunded now) (refund_buckets r now returned db) in
    let given = held-give_back_each r.account_id x now xs (pos 0) db.buckets backed.all_owned in
    omega (
      int_laws,
      rec,
      entry_share-refund r why actor now x d,
      held-refund_buckets r now returned.0 returned.1 db x,
      toward-zero r.account_id x,
      ap (ledger_total x) (refund_buckets_others r now returned db).1,
      subst
          (λ v.
            held x returned.1 +ℤ toward r.account_id x returned.0
            ≡ held x db.buckets +ℤ toward r.account_id x (pos 0) +ℤ toward r.account_id x v)
          backed.adds_up given,
    )

-- `refund` of a captured, backed reservation goes through, marks it refunded and gives its amount
-- back with an entry of the same amount; every account stays reconciled.
pub refund-Reconciles :
    (k : Uuid) (why : Text) (actor : Option Uuid) (now : Time) (db : Db) {r : CreditReservation}
    → reservation_of k db ≡ some r
    → r.status ≡ ReservationStatus.captured
    → IsBacked r db
    → ¬ (r.amount ≡ pos 0)
    → find (has_key r.account_id (Key.refund_key r.id)) db.entries ≡ none
    → (e : CreditLedgerEntry) × (db' : Db) × (refund k why actor now db ≡ ok (e, db'))
      × (e.amount ≡ r.amount)
      × (reservation_of k db' ≡ some (set_refunded now r))
      × ((set_refunded now r).status ≡ ReservationStatus.refunded)
      × ((x : Uuid) → Reconciles x db → Reconciles x db')
unfolding refund refund_captured ledger
refund-Reconciles k why actor now db {r} found st backed nz fresh =
    let returned = give_back_each now (allocations_of r.id db) (pos 0) db.buckets in
    let d = write_reservation r.id (set_refunded now) (refund_buckets r now returned db) in
    let same = refund_buckets_others r now returned db in
    (
      new_entry r.account_id (refund_args r why actor) now d,
      refunded_db r why actor now db,
      ground (
        arith,
        subst (λ es. find (has_key r.account_id (Key.refund_key r.id)) es ≡ none) (sym same.1)
            fresh,
      ),
      refl,
      subst
          (λ rs.
            find (λ y. y.id == k) (modify (λ y. y.id == r.id) (set_refunded now) rs)
            ≡ some (set_refunded now r))
          (sym same.0) (reservation_of-write k db (set_refunded now) (λ x. refl) found),
      refl,
      λ x rec. refunded_db-Reconciles r why actor now db x backed rec,
    )
