-- ===== src/Billing/Reservation/Undo.antt =====
-- `release` undoes the loop of `reserve`: every bucket is as it was before.
use mathlib.Core.Path.{subst}
use qatth.Base.{
  ◌≡◌, refl, ◌∙◌, sym, ap, true, false, none, some, List, [], ◌∷◌, ◌==◌, find, modify, arith,
  find_test, find-modify_self, Bool-cases, Option-cases, inl, inr,
}
use qatth.Base.Int.{ℤ, pos, ◌+ℤ◌, ◌-ℤ◌, eqb_ℤ, min_ℤ, int_laws}
use qatth.Schema.Common.{Uuid, Time}
use qatth.Schema.Billing.{CreditBucket, CreditReservation, ReservationStatus}
use qatth.Db.{Db, is_reserved}
use qatth.Billing.Credits.{
  set_aside, allocate_bucket, allocate, allocations_of, put_back, put_back_each, reservation_of,
  release, release_reserved, set_released,
}
use qatth.Billing.Reservation.Allocate.{
  allocate_absent, allocate_skip, allocate_last, allocate_more,
}

sub_add : (a b : ℤ) → a -ℤ b +ℤ b ≡ a
sub_add a b = omega int_laws

add_sub : (a b : ℤ) → a +ℤ b -ℤ b ≡ a
add_sub a b = omega int_laws

put_back-set_aside : (m : ℤ) (b : CreditBucket) → put_back m (set_aside m b) ≡ b
put_back-set_aside m b = ground (arith, sub_add b.available m, add_sub b.reserved m)

put_back-modify :
    (k : Uuid) (m : ℤ) (bs : List CreditBucket)
    → modify (λ b. b.id == k) (put_back m) (modify (λ b. b.id == k) (set_aside m) bs) ≡ bs
put_back-modify k m [] = refl
put_back-modify k m (b ∷ bs) = ground (arith, put_back-set_aside m b, put_back-modify k m bs)

-- One allocation is undone by putting it back.
put_back-allocate_bucket :
    (r k : Uuid) (m : ℤ) (db : Db)
    → put_back_each (allocations_of r (allocate_bucket r k m db)) (allocate_bucket r k m db).buckets
      ≡ put_back_each (allocations_of r db) db.buckets
unfolding put_back_each
put_back-allocate_bucket r k m db =
    let own : (r == r) ≡ true = ground arith in
    rw own (ap (put_back_each (allocations_of r db)) (put_back-modify k m db.buckets))

-- Putting back all that a reservation holds after the loop is putting back what it held before.
pub put_back-allocate :
    (r : Uuid) (ks : List Uuid) (c : ℤ) (db : Db)
    → put_back_each (allocations_of r (allocate r ks c db)) (allocate r ks c db).buckets
      ≡ put_back_each (allocations_of r db) db.buckets
unfolding allocate
put_back-allocate r [] c db = refl
put_back-allocate r (k ∷ ks) c db = elim (Option-cases (find (λ b. b.id == k) db.buckets)) [
  | inl e ↦ rw (allocate_absent r k ks c db e) (put_back-allocate r ks c db)
  | inr (b, e) ↦ elim (Bool-cases (eqb_ℤ (min_ℤ b.available c) (pos 0))) [
    | inl z ↦ rw (allocate_skip r k ks c db e z) (put_back-allocate r ks c db)
    | inr z ↦ elim (Bool-cases (eqb_ℤ (c -ℤ min_ℤ b.available c) (pos 0))) [
      | inl l ↦
          rw (allocate_last r k ks c db e z l)
            (put_back-allocate_bucket r k (min_ℤ b.available c) db)
      | inr l ↦
          let m = min_ℤ b.available c in
          rw (allocate_more r k ks c db e z l) (
            put_back-allocate r ks (c -ℤ m) (allocate_bucket r k m db)
            ∙ put_back-allocate_bucket r k m db)
    ]
  ]
]

module _ (r : Uuid) (now : Time) (db : Db) {x : CreditReservation}
    (e : reservation_of r db ≡ some x) where
  release_found : is_reserved x.status ≡ true → release (some r) now db ≡ release_reserved x now db
  unfolding release
  release_found h = ground arith

  release_other : is_reserved x.status ≡ false → release (some r) now db ≡ db
  unfolding release
  release_other h = ground arith

  reservation_of-released : reservation_of r (release_reserved x now db) ≡ some (set_released now x)
  reservation_of-released =
      let test = find_test (λ (y : CreditReservation). y.id == r) db.reservations e in
      let own : x.id ≡ r = ground arith in
      subst
        (λ k.
          find (λ y. y.id == r) (modify (λ y. y.id == k) (set_released now) db.reservations)
          ≡ some (set_released now x))
        (sym own) (find-modify_self (λ y. y.id == r) (set_released now) db.reservations e test)

-- A fresh reservation that is allocated and then released leaves every bucket as it was.
pub release-allocate :
    (r : Uuid) (ks : List Uuid) (c : ℤ) (now : Time) (db : Db) {x : CreditReservation}
    → allocations_of r db ≡ []
    → reservation_of r (allocate r ks c db) ≡ some x
    → x.status ≡ ReservationStatus.reserved
    → (release (some r) now (allocate r ks c db)).buckets ≡ db.buckets
unfolding put_back_each
release-allocate r ks c now db {x} fresh found st =
    let d = allocate r ks c db in
    let test = find_test (λ (y : CreditReservation). y.id == r) d.reservations found in
    let own : x.id ≡ r = ground arith in
    ap (λ y. y.buckets) (release_found r now d found (ground arith))
    ∙ ap (λ k. put_back_each (allocations_of k d) d.buckets) own
    ∙ put_back-allocate r ks c db
    ∙ ap (λ xs. put_back_each xs db.buckets) fresh

release_absent :
    (r : Uuid) (now : Time) (db : Db) → reservation_of r db ≡ none → release (some r) now db ≡ db
unfolding release
release_absent r now db e = ground arith

-- A released reservation is released for good: a second call changes nothing.
release_twice :
    (r : Uuid) (now later : Time) (db : Db)
    → release (some r) later (release (some r) now db) ≡ release (some r) now db
unfolding release
release_twice r now later db = elim (Option-cases (reservation_of r db)) [
  | inl e ↦ rw (release_absent r now db e) (release_absent r later db e)
  | inr (x, e) ↦ elim (Bool-cases (is_reserved x.status)) [
    | inl h ↦ rw (release_found r now db e h) (
        release_other r later (release_reserved x now db) (reservation_of-released r now db e) refl)
    | inr h ↦ rw (release_other r now db e h) (release_other r later db e h)
  ]
]
