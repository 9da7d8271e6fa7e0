-- ===== src/Billing/DualControl.antt =====
-- Dual control over the credit adjustments of backend/app/services/product_billing.py.
use mathlib.Core.Path.{subst}
use qatth.Base.{sym, find-modify_self, ◌≡◌, refl, true, false, some, ◌==◌, arith, find_test}
use qatth.Schema.Common.{Uuid, Text, Time, Code, AppError}
use qatth.Schema.Billing.{AdjustmentStatus, CreditAdjustmentApproval}
use qatth.Db.{
  Db, ok, err, app_error, is_pending, bind_ok, bind_err, ◌>>=◌, ◌>>◌, raise_if, or_raise, pure,
}
use qatth.Billing.Adjustments.{
  CreditAdjustmentRequest, AdjustmentSettings, adjustment_of, get_credit_adjustment, decidable,
  approve_pending, reject_pending, requires_approval, open_adjustment, new_adjustment,
  add_adjustment, set_rejected, write_adjustment,
}

-- An adjustment that needs a second administrator is only written down as pending when it is
-- requested: no bucket, no entry and no account changes.
open_adjustment-pending :
    (actor : Uuid) (payload : CreditAdjustmentRequest) (s : AdjustmentSettings) (key hash : Text)
    (now : Time) (db : Db)
    → requires_approval s payload.amount ≡ true
    → (db' : Db) × (open_adjustment actor payload s key hash now db ≡ ok (db.next_id, db'))
      × (db'.buckets ≡ db.buckets)
      × (db'.entries ≡ db.entries)
      × (db'.accounts ≡ db.accounts)
      × ((adjustment_of db.next_id db' ≡ some (new_adjustment actor payload s key hash db)))
      × ((new_adjustment actor payload s key hash db).status ≡ AdjustmentStatus.pending)
unfolding open_adjustment
open_adjustment-pending actor payload s key hash now db h = (
  add_adjustment (new_adjustment actor payload s key hash db) db,
  ground arith,
  refl,
  refl,
  refl,
  ground arith,
  ground arith,
)

module _ (actor k : Uuid) (self_code : Code) (db : Db) {x : CreditAdjustmentApproval}
    (found : adjustment_of k db ≡ some x) where
  decidable_done :
      is_pending x.status ≡ false
      → decidable actor k self_code db ≡ err (app_error 409 Code.credit_adjustment_already_decided)
  unfolding decidable get_credit_adjustment
  decidable_done done =
      rw (found, get_credit_adjustment, ◌>>=◌, ◌>>◌, raise_if, or_raise, pure, done) refl

  decidable_self :
      is_pending x.status ≡ true
      → x.requested_by_user_id ≡ actor
      → decidable actor k self_code db ≡ err (app_error 409 self_code)
  unfolding decidable get_credit_adjustment
  decidable_self pending own =
      let h : (x.requested_by_user_id == actor) ≡ true = ground arith in
      rw (found, get_credit_adjustment, ◌>>=◌, pending, h) refl

  pub decidable_other :
      is_pending x.status ≡ true
      → ¬ (x.requested_by_user_id ≡ actor)
      → decidable actor k self_code db ≡ ok (x, db)
  unfolding decidable get_credit_adjustment
  decidable_other pending ne =
      let h : (x.requested_by_user_id == actor) ≡ false = ground arith in
      rw (found, get_credit_adjustment, ◌>>=◌, pending, h) refl

-- What approving and rejecting do where a guard raises.
module _ (actor k : Uuid) (why : Text) (now : Time) (db : Db) where
  approve_raises :
      {e : AppError}
      → decidable actor k Code.dual_control_self_approval_forbidden db ≡ err e
      → approve_pending actor k why now db ≡ err e
  unfolding approve_pending
  approve_raises h = bind_err (decidable actor k Code.dual_control_self_approval_forbidden) _ db h

  reject_raises :
      {e : AppError}
      → decidable actor k Code.dual_control_self_decision_forbidden db ≡ err e
      → reject_pending actor k why now db ≡ err e
  unfolding reject_pending
  reject_raises h = bind_err (decidable actor k Code.dual_control_self_decision_forbidden) _ db h

  -- Whoever requested a pending adjustment can neither approve nor reject it.
  decide_self :
      {x : CreditAdjustmentApproval}
      → adjustment_of k db ≡ some x
      → is_pending x.status ≡ true
      → x.requested_by_user_id ≡ actor
      → (approve_pending actor k why now db
          ≡ err (app_error 409 Code.dual_control_self_approval_forbidden))
        × (reject_pending actor k why now db
            ≡ err (app_error 409 Code.dual_control_self_decision_forbidden))
  decide_self found pending own = (
    approve_raises
        (decidable_self actor k Code.dual_control_self_approval_forbidden db found pending own),
    reject_raises
        (decidable_self actor k Code.dual_control_self_decision_forbidden db found pending own),
  )

  -- An adjustment that is executed or rejected can be decided no more, by anyone.
  pub decide_again :
      {x : CreditAdjustmentApproval}
      → adjustment_of k db ≡ some x
      → is_pending x.status ≡ false
      → (approve_pending actor k why now db
          ≡ err (app_error 409 Code.credit_adjustment_already_decided))
        × (reject_pending actor k why now db
            ≡ err (app_error 409 Code.credit_adjustment_already_decided))
  decide_again found done = (
    approve_raises (decidable_done actor k Code.dual_control_self_approval_forbidden db found done),
    reject_raises (decidable_done actor k Code.dual_control_self_decision_forbidden db found done),
  )

pub adjustment_of-write :
    (k : Uuid) (f : CreditAdjustmentApproval → CreditAdjustmentApproval) (db : Db)
    {x : CreditAdjustmentApproval}
    → ((y : CreditAdjustmentApproval) → (f y).id ≡ y.id)
    → adjustment_of k db ≡ some x
    → adjustment_of k (write_adjustment k f db) ≡ some (f x)
adjustment_of-write k f db {x} keep found =
    let test = find_test (λ (y : CreditAdjustmentApproval). y.id == k) db.adjustments found in
    find-modify_self (λ y. y.id == k) f db.adjustments found (rw (keep x) test)

-- Another administrator's rejection of a pending adjustment goes through, changes no bucket and no
-- entry, and is final: nobody can approve or reject the adjustment afterwards.
pub reject_final :
    (actor another k : Uuid) (why again : Text) (now later : Time) (db : Db)
    {x : CreditAdjustmentApproval}
    → adjustment_of k db ≡ some x
    → is_pending x.status ≡ true
    → ¬ (x.requested_by_user_id ≡ actor)
    → (db' : Db) × (reject_pending actor k why now db ≡ ok (tt, db'))
      × (db'.buckets ≡ db.buckets)
      × (db'.entries ≡ db.entries)
      × (approve_pending another k again later db'
          ≡ err (app_error 409 Code.credit_adjustment_already_decided))
      × (reject_pending another k again later db'
          ≡ err (app_error 409 Code.credit_adjustment_already_decided))
unfolding reject_pending
reject_final actor another k why again now later db {x} found pending ne =
    let db' = write_adjustment x.id (set_rejected actor why now) db in
    let own : x.id ≡ k =
      ground
        (arith, find_test (λ (y : CreditAdjustmentApproval). y.id == k) db.adjustments found) in
    let there : adjustment_of k db' ≡ some (set_rejected actor why now x) =
      subst
        (λ j.
          adjustment_of k (write_adjustment j (set_rejected actor why now) db)
          ≡ some (set_rejected actor why now x))
        (sym own) (adjustment_of-write k (set_rejected actor why now) db (λ y. refl) found) in
    let final = decide_again another k again later db' there refl in
    (
      db',
      bind_ok (decidable actor k Code.dual_control_self_decision_forbidden) _ db
          (decidable_other actor k Code.dual_control_self_decision_forbidden db found pending ne),
      refl,
      refl,
      final.0,
      final.1,
    )

-- An adjustment that needs approval is only written down when an administrator requests it: no
-- bucket, entry or account changes. That administrator can then neither approve nor reject it,
-- while any other administrator can reject it.
pub two_administrators :
    (actor another : Uuid) (payload : CreditAdjustmentRequest) (s : AdjustmentSettings)
    (key hash why : Text) (now later : Time) (db : Db)
    → requires_approval s payload.amount ≡ true
    → ¬ (actor ≡ another)
    → (db' : Db) × (open_adjustment actor payload s key hash now db ≡ ok (db.next_id, db'))
      × (db'.buckets ≡ db.buckets)
      × (db'.entries ≡ db.entries)
      × (db'.accounts ≡ db.accounts)
      × (approve_pending actor db.next_id why later db'
          ≡ err (app_error 409 Code.dual_control_self_approval_forbidden))
      × (reject_pending actor db.next_id why later db'
          ≡ err (app_error 409 Code.dual_control_self_decision_forbidden))
      × (db'' : Db) × (reject_pending another db.next_id why later db' ≡ ok (tt, db''))
two_administrators actor another payload s key hash why now later db needed ne =
    let (db', opened, buckets, entries, accounts, there, pending) =
      open_adjustment-pending actor payload s key hash now db needed in
    let waits : is_pending (new_adjustment actor payload s key hash db).status ≡ true =
      rw pending refl in
    let (approve, reject) = decide_self actor db.next_id why later db' there waits refl in
    let (db'', rejected, _, _, _, _) =
      reject_final another another db.next_id why why later later db' there waits ne in
    (db', opened, buckets, entries, accounts, approve, reject, db'', rejected)
