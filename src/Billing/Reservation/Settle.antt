-- ===== src/Billing/Reservation/Settle.antt =====
-- `capture` and `release` keep every account reconciled: what leaves the buckets is what the new
-- entry says.
use mathlib.Core.Path.{subst}
use qatth.Base.{
  suc, ◌≡◌, refl, ◌∙◌, sym, false, Option, none, some, List, [], ◌∷◌, ◌==◌, find, modify, find_test,
  find-modify_self, arith, Bool-cases, Option-cases, inl, inr,
}
use qatth.Base.Int.{ℤ, pos, ◌+ℤ◌, ◌-ℤ◌, eqb_ℤ, eqb_ℤ_ne, int_laws}
use qatth.Schema.Common.{Uuid, Time}
use qatth.Schema.Billing.{
  Key, CreditBucket, CreditReservationAllocation, CreditReservation, ReservationStatus,
}
use qatth.Db.{Db, ok}
use qatth.Billing.Accounts.{share, held, has_key, new_entry, ledger}
use qatth.Billing.Credits.{
  reservation_of, allocations_of, charge_args, set_captured, consume_each, capture_reserved,
  capture, put_back, put_back_each, release, write_reservation, set_buckets,
}
use qatth.Billing.Ledger.Balance.{entry_share, Reconciles}
use qatth.Billing.Reservation.Backed.{IsBacked, toward, held-consume_each}

-- The tables after a capture that consumed the allocations to `bs`.
abbrev captured_db : CreditReservation → Time → List CreditBucket → Db → Db
captured_db r now bs db =
    let d = write_reservation r.id (set_captured now) (set_buckets bs db) in
    record d {
      next_id = suc db.next_id;
      entries = new_entry r.account_id (charge_args r) now d ∷ db.entries;
    }

-- What a charge entry counts for.
entry_share-charge :
    (r : CreditReservation) (now : Time) (x : Uuid) (d : Db)
    → entry_share x (new_entry r.account_id (charge_args r) now d)
      ≡ pos 0 -ℤ toward r.account_id x r.amount
unfolding toward
entry_share-charge r now x d = elim (Bool-cases (r.account_id == x)) [
  | inl e ↦ rw e
  | inr e ↦ rw e (omega int_laws)
]

captured_db-Reconciles :
    (r : CreditReservation) (now : Time) (bs : List CreditBucket) (db : Db) (x : Uuid)
    → IsBacked r db
    → consume_each (allocations_of r.id db) db.buckets ≡ some bs
    → Reconciles x db
    → Reconciles x (captured_db r now bs db)
captured_db-Reconciles r now bs db x backed took rec =
    let d = write_reservation r.id (set_captured now) (set_buckets bs db) in
    let taken =
      held-consume_each r.account_id x (allocations_of r.id db) db.buckets {bs' = bs}
        backed.all_owned took in
    omega (
      int_laws,
      rec,
      entry_share-charge r now x d,
      subst (λ v. held x bs +ℤ toward r.account_id x v ≡ held x db.buckets) backed.adds_up taken,
    )

negated_ne_zero : (v : ℤ) → ¬ (v ≡ pos 0) → eqb_ℤ (pos 0 -ℤ v) (pos 0) ≡ false
negated_ne_zero v nz = eqb_ℤ_ne (pos 0 -ℤ v) (pos 0) (λ e. nz (omega (int_laws, e)))

-- A write to the row that an identifier finds is found by it.
pub reservation_of-write :
    (k : Uuid) (db : Db) (f : CreditReservation → CreditReservation) {r : CreditReservation}
    → ((x : CreditReservation) → (f x).id ≡ x.id)
    → reservation_of k db ≡ some r
    → reservation_of k (write_reservation r.id f db) ≡ some (f r)
reservation_of-write k db f {r} keep found =
    let test = find_test (λ (y : CreditReservation). y.id == k) db.reservations found in
    let own : r.id ≡ k = ground arith in
    subst (λ j. find (λ y. y.id == k) (modify (λ y. y.id == j) f db.reservations) ≡ some (f r))
      (sym own) (find-modify_self (λ y. y.id == k) f db.reservations found (rw (keep r) test))

module _ (k : Uuid) (now : Time) (db : Db) {r : CreditReservation}
    (found : reservation_of k db ≡ some r) (st : r.status ≡ ReservationStatus.reserved) where
  -- Where the buckets have what the allocations say, `capture` of a backed reservation goes
  -- through, marks it captured and keeps every account reconciled.
  pub capture-Reconciles :
      (bs : List CreditBucket)
      → IsBacked r db
      → ¬ (r.amount ≡ pos 0)
      → find (has_key r.account_id (Key.capture_key r.id)) db.entries ≡ none
      → consume_each (allocations_of r.id db) db.buckets ≡ some bs
      → (db' : Db) × (capture (some k) now db ≡ ok (tt, db'))
        × (reservation_of k db' ≡ some (set_captured now r))
        × ((x : Uuid) → Reconciles x db → Reconciles x db')
  unfolding capture capture_reserved ledger
  capture-Reconciles bs backed nz fresh took = (
    captured_db r now bs db,
    ground (arith, negated_ne_zero r.amount nz),
    reservation_of-write k db (set_captured now) (λ x. refl) found,
    λ x rec. captured_db-Reconciles r now bs db x backed took rec,
  )

-- A reservation that is captured is neither charged again nor released.
module _ (k : Uuid) (later : Time) (db : Db) {r : CreditReservation}
    (found : reservation_of k db ≡ some r) (st : r.status ≡ ReservationStatus.captured) where
  capture_again : capture (some k) later db ≡ ok (tt, db)
  unfolding capture
  capture_again = ground arith

  release_captured : release (some k) later db ≡ db
  unfolding release
  release_captured = ground arith

-- Capturing a backed reservation, whose buckets have what the allocations say, goes through and
-- happens once: whoever captures or releases it afterwards changes nothing.
pub capture_once :
    (k : Uuid) (now : Time) (db : Db) {r : CreditReservation} (bs : List CreditBucket)
    → reservation_of k db ≡ some r
    → r.status ≡ ReservationStatus.reserved
    → IsBacked r db
    → ¬ (r.amount ≡ pos 0)
    → find (has_key r.account_id (Key.capture_key r.id)) db.entries ≡ none
    → consume_each (allocations_of r.id db) db.buckets ≡ some bs
    → (db' : Db) × (capture (some k) now db ≡ ok (tt, db'))
      × ((later : Time) → capture (some k) later db' ≡ ok (tt, db'))
      × ((later : Time) → release (some k) later db' ≡ db')
capture_once k now db bs found st backed nz fresh took =
    let (db', run, there, keep) = capture-Reconciles k now db found st bs backed nz fresh took in
    (
      db',
      run,
      λ later. capture_again k later db' there refl,
      λ later. release_captured k later db' there refl,
    )

share-put_back : (x : Uuid) (m : ℤ) (b : CreditBucket) → share x (put_back m b) ≡ share x b
unfolding share
share-put_back x m b = elim (Bool-cases (b.account_id == x)) [
  | inl e ↦ rw e (omega int_laws)
  | inr e ↦ rw e
]

held-put_back :
    (x k : Uuid) (m : ℤ) (bs : List CreditBucket)
    → held x (modify (λ b. b.id == k) (put_back m) bs) ≡ held x bs
unfolding held
held-put_back x k m [] = refl
held-put_back x k m (b ∷ bs) = elim (Bool-cases (b.id == k)) [
  | inl e ↦ rw e (omega (int_laws, share-put_back x m b))
  | inr e ↦ rw e (omega (int_laws, held-put_back x k m bs))
]

held-put_back_each :
    (x : Uuid) (xs : List CreditReservationAllocation) (bs : List CreditBucket)
    → held x (put_back_each xs bs) ≡ held x bs
unfolding put_back_each
held-put_back_each x [] bs = refl
held-put_back_each x (y ∷ xs) bs =
    held-put_back_each x xs (modify (λ b. b.id == y.bucket_id) (put_back y.amount) bs)
    ∙ held-put_back x y.bucket_id y.amount bs

-- `release` moves no credits between accounts and writes no entry, on every branch.
pub release-Reconciles :
    (k : Option Uuid) (now : Time) (db : Db) (x : Uuid)
    → Reconciles x db
    → Reconciles x (release k now db) × ((release k now db).entries ≡ db.entries)
unfolding release
release-Reconciles none now db x rec = (rec, refl)
release-Reconciles (some k) now db x rec = elim (Option-cases (reservation_of k db)) [
  | inl e ↦ ground arith
  | inr (r, e) ↦ ground (arith, held-put_back_each x (allocations_of r.id db) db.buckets)
]
