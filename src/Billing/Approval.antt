-- ===== src/Billing/Approval.antt =====
-- An approved adjustment of backend/app/services/product_billing.py is carried out once.
use mathlib.Core.Path.{subst}
use qatth.Base.{
  List, ◌≡◌, refl, ◌∙◌, sym, ap, true, none, some, ◌==◌, find, any, map, select, sort_by, arith,
  Bool-cases, Option-cases, inl, inr,
}
use qatth.Base.Int.{pos, ◌-ℤ◌, ltb_ℤ, eqb_ℤ}
use qatth.Schema.Common.{Uuid, Text, Time, Code}
use qatth.Schema.Billing.{Key, CreditAdjustmentApproval}
use qatth.Db.{
  Db, Result, ok, err, M, app_error, is_pending, bind_ok, bind_err, ◌>>=◌, ◌>>◌, raise_if,
  Result-cases, ok_err,
}
use qatth.Billing.Accounts.{LedgerArgs, add_bucket, ledger, has_key, account}
use qatth.Billing.Credits.{available_sum, is_chargeable}
use qatth.Billing.DualControl.{decidable_other, decide_again, adjustment_of-write}
use qatth.Billing.Adjustments.{
  CreditAdjustmentRequest, oldest_first, take_each, adjustment_bucket, adjustment_args, add_credits,
  remove_credits, apply_credit_adjustment, adjustment_of, write_adjustment, decidable, set_approved,
  request_of, approve_pending, reject_pending,
}

abbrev adjustments_or :
    {A : Type 0} → List CreditAdjustmentApproval → Result (A × Db) → List CreditAdjustmentApproval
adjustments_or xs (ok r) = r.1.adjustments
adjustments_or xs (err e) = xs

ok_db : {A : Type 0} (p q : A × Db) → ok p ≡ ok q → q.1.adjustments ≡ p.1.adjustments
ok_db p q h = ap (adjustments_or p.1.adjustments) (sym h)

-- A call that leaves the adjustments alone where it returns.
abbrev Keeps : {A : Type 0} → M A → Db → Type 0
Keeps {A} m db = (a : A) (db' : Db) → m db ≡ ok (a, db') → db'.adjustments ≡ db.adjustments

Keeps-account : (user : Uuid) (db : Db) → Keeps (account user) db
unfolding account
Keeps-account user db a db' h = elim (Option-cases (find (λ x. x.user_id == user) db.accounts)) [
  | inr (x, e) ↦ ground arith
  | inl e ↦ elim (Bool-cases (any (λ u. u == user) db.users)) [
    | inl u ↦ ground arith
    | inr u ↦ ground arith
  ]
]

Keeps-ledger : (a : Uuid) (args : LedgerArgs) (now : Time) (db : Db) → Keeps (ledger a args now) db
unfolding ledger
Keeps-ledger a args now db x db' h = elim (Bool-cases (eqb_ℤ args.amount (pos 0))) [
  | inl z ↦ ground arith
  | inr z ↦ elim (Option-cases (find (has_key a args.idempotency_key) db.entries)) [
    | inl e ↦ ground arith
    | inr (y, e) ↦ ground arith
  ]
]

Keeps-add_credits :
    (a actor : Uuid) (payload : CreditAdjustmentRequest) (k : Key) (now : Time) (db : Db)
    → Keeps (add_credits a actor payload k now) db
unfolding add_credits
Keeps-add_credits a actor payload k now db x db' h =
    let b = adjustment_bucket a payload k now db in
    Keeps-ledger a (adjustment_args payload actor k (some b.id)) now (add_bucket b db) x db' h

Keeps-remove_credits :
    (a actor : Uuid) (payload : CreditAdjustmentRequest) (k : Key) (now : Time) (db : Db)
    → Keeps (remove_credits a actor payload k now) db
unfolding remove_credits
Keeps-remove_credits a actor payload k now db x db' h =
    let bs = sort_by oldest_first (select (is_chargeable a) db.buckets) in
    elim (Bool-cases (ltb_ℤ (available_sum bs) (pos 0 -ℤ payload.amount))) [
      | inl t ↦ absurd (
          ok_err {e = app_error 409 Code.adjustment_exceeds_balance}
            (sym h ∙ rw (t, ◌>>=◌, ◌>>◌, raise_if) refl))
      | inr t ↦
          Keeps-ledger a (adjustment_args payload actor k none) now
            (record db {
              buckets = take_each (map (λ b. b.id) bs) (pos 0 -ℤ payload.amount) db.buckets;
            })
            x db' (sym (rw (t, ◌>>=◌, ◌>>◌, raise_if) refl) ∙ h)
    ]

Keeps-apply :
    (actor : Uuid) (payload : CreditAdjustmentRequest) (k : Key) (now : Time) (db : Db)
    → Keeps (apply_credit_adjustment actor payload k now) db
unfolding apply_credit_adjustment
Keeps-apply actor payload k now db x db' h = elim (Result-cases (account payload.user_id db)) [
  | inl (e, f) ↦ absurd (ok_err (sym h ∙ bind_err (account payload.user_id) _ db f))
  | inr ((a, d), f) ↦
      let rest = sym (bind_ok (account payload.user_id) _ db f) ∙ h in
      let same = Keeps-account payload.user_id db a d f in
      elim (Option-cases (find (has_key a.id k) d.entries)) [
        | inr (old, e) ↦ ok_db (old, d) (x, db') (rw (e, ◌>>=◌) at rest) ∙ same
        | inl e ↦ elim (Bool-cases (ltb_ℤ (pos 0) payload.amount)) [
          | inl p ↦
              Keeps-add_credits a.id actor payload k now d x db' (rw (e, ◌>>=◌, p) at rest) ∙ same
          | inr p ↦
              Keeps-remove_credits a.id actor payload k now d x db' (rw (e, ◌>>=◌, p) at rest)
              ∙ same
        ]
      ]
]

-- Where another administrator's approval of a pending adjustment goes through, it is the last
-- decision: nobody can approve or reject the adjustment afterwards, so that its credits are applied
-- once.
pub approve_final :
    (actor another k : Uuid) (why again : Text) (now later : Time) (db db' : Db)
    {x : CreditAdjustmentApproval}
    → adjustment_of k db ≡ some x
    → is_pending x.status ≡ true
    → ¬ (x.requested_by_user_id ≡ actor)
    → approve_pending actor k why now db ≡ ok (tt, db')
    → (approve_pending another k again later db'
        ≡ err (app_error 409 Code.credit_adjustment_already_decided))
      × (reject_pending another k again later db'
          ≡ err (app_error 409 Code.credit_adjustment_already_decided))
unfolding approve_pending
approve_final actor another k why again now later db db' {x} found pending ne run =
    let code = Code.dual_control_self_approval_forbidden in
    let rest =
      sym (bind_ok (decidable actor k code) _ db (decidable_other actor k code db found pending ne))
      ∙ run in
    let call = apply_credit_adjustment actor (request_of x) (Key.adjustment_key x.id) now in
    elim (Result-cases (call db)) [
      | inl (e, f) ↦ absurd (ok_err (sym rest ∙ bind_err call _ db f))
      | inr ((entry, d), f) ↦
          let kept : adjustment_of k d ≡ some x =
            subst (λ xs. find (λ y. y.id == k) xs ≡ some x)
              (sym (Keeps-apply actor (request_of x) (Key.adjustment_key x.id) now db entry d f))
              found in
          let there =
            adjustment_of-write k (set_approved actor why entry.id now) d (λ y. refl) kept in
          let same =
            ok_db (tt, write_adjustment k (set_approved actor why entry.id now) d) (tt, db')
              (sym (bind_ok call _ db f) ∙ rest) in
          decide_again another k again later db'
            (subst (λ xs. find (λ y. y.id == k) xs ≡ some (set_approved actor why entry.id now x))
              (sym same) there)
            refl
    ]
