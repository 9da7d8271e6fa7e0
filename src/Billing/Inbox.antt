-- ===== src/Billing/Inbox.antt =====
-- The application of a payment event of backend/app/services/product_billing.py leaves the inbox of
-- the events alone.
pub mod Success
use qatth.Base.{
  ◌≡◌, refl, sym, ap, ◌∙◌, ◌&&◌, ◌||◌, Bool, true, false, not, Option, none, some, List, [], ◌∷◌,
  map, select, find, modify, ◌==◌, some_and, is_some, or_some, arith, Bool-cases, Option-cases, inl,
  inr, any,
}
use qatth.Base.Int.{ℤ, pos, ◌-ℤ◌, eqb_ℤ, min_ℤ, max_ℤ}
use qatth.Schema.Common.{Uuid, Text, Time, AppError}
use qatth.Schema.Billing.{
  CreditAccount, CreditBucket, BucketType, Key, ReferenceType, BillingOffer, EventType, Payload,
  PaymentEventInbox,
}
use qatth.Db.{
  Db, Result, ok, err, M, ◌>>=◌, ◌>>◌, or_raise, pure, bind_inv, raise_if_inv, ok_err, ok_tables,
  is_reserved,
}
use qatth.Billing.Accounts.{
  LedgerArgs, ledger, has_key, account, grant_bucket, has_source, new_bucket, add_bucket,
  grant_args, bucket_of, write_bucket,
}
use qatth.Billing.Credits.{release, reservation_of}
use qatth.Billing.Adjustments.{take_from}
use qatth.Billing.Reversals.{
  lift, amount_or, original_amount, source_bucket, state_of, is_state, cumulative_reversal,
  write_state, set_reversed, holds_bucket, release_each, add_debt, take_back, reversal_args,
  payment_reversed,
}

-- A call that leaves the inbox alone where it returns.
abbrev pub Keeps : {A : Type 0} → M A → Type 0
Keeps {A} m = (db : Db) (a : A) (db' : Db) → m db ≡ ok (a, db') → db'.inbox ≡ db.inbox

after_call :
    {A B : Type 0} (m : M A) (f : A → M B) (db : Db) {b : B} {db' : Db}
    → (m >>= f) db ≡ ok (b, db')
    → Keeps m
    → ((a : A) (d : Db) → f a d ≡ ok (b, db') → db'.inbox ≡ d.inbox)
    → db'.inbox ≡ db.inbox
after_call m f db h keeps k = bind_inv m f db h (λ a d got rest. k a d rest ∙ keeps db a d got)

same_tables :
    {A : Type 0} {a b : A} {d db' : Db}
    → ◌≡◌ {A = Result (A × Db)} (ok (a, d)) (ok (b, db'))
    → db'.inbox ≡ d.inbox
same_tables h = ap (λ x. x.inbox) (sym (ok_tables h))

Keeps-or_raise : {A : Type 0} (o : Option A) (e : AppError) → Keeps (or_raise o e)
Keeps-or_raise none e db a db' h = absurd (ok_err (sym h))
Keeps-or_raise (some x) e db a db' h = same_tables h

Keeps-lift : {A : Type 0} (r : Result A) → Keeps (lift r)
Keeps-lift (ok x) db a db' h = same_tables h
Keeps-lift (err e) db a db' h = absurd (ok_err (sym h))

Keeps-account : (user : Uuid) → Keeps (account user)
unfolding account
Keeps-account user db a db' h = elim (Option-cases (find (λ x. x.user_id == user) db.accounts)) [
  | inr (x, e) ↦ ground arith
  | inl e ↦ elim (Bool-cases (any (λ u. u == user) db.users)) [
    | inl u ↦ ground arith
    | inr u ↦ ground arith
  ]
]

Keeps-ledger : (a : Uuid) (args : LedgerArgs) (now : Time) → Keeps (ledger a args now)
unfolding ledger
Keeps-ledger a args now db x db' h = elim (Bool-cases (eqb_ℤ args.amount (pos 0))) [
  | inl z ↦ ground arith
  | inr z ↦ elim (Option-cases (find (has_key a args.idempotency_key) db.entries)) [
    | inl e ↦ ground arith
    | inr (y, e) ↦ ground arith
  ]
]

Keeps-grant_bucket :
    (a : Uuid) (t : BucketType) (source : Key) (amount : ℤ) (expires : Option Time)
    (r : ReferenceType) (reference_id : Text) (k : Key) (now : Time)
    → Keeps (grant_bucket a t source amount expires r reference_id k now)
unfolding grant_bucket
Keeps-grant_bucket a t source amount expires r reference_id k now db x db' h =
    elim (Option-cases (find (has_source a t source) db.buckets)) [
      | inr (b, e) ↦ same_tables (rw (grant_bucket, e) at h)
      | inl e ↦
          let b = new_bucket a t source amount expires now db in
          after_call (ledger a (grant_args amount r reference_id k b.id) now) _ (add_bucket b db)
            (rw (grant_bucket, e) at h)
            (Keeps-ledger a (grant_args amount r reference_id k b.id) now)
            (λ y d done. same_tables done)
    ]

Keeps-state_of :
    (provider period : Text) (bucket : Uuid) (original : ℤ)
    → Keeps (state_of provider period bucket original)
unfolding state_of
Keeps-state_of provider period bucket original db s db' h =
    elim (Option-cases (find (is_state provider period) db.reversals)) [
      | inl e ↦ same_tables (rw (state_of, e) at h)
      | inr (x, e) ↦ same_tables (rw (state_of, e) at h)
    ]

inbox-release : (r : Option Uuid) (now : Time) (db : Db) → (release r now db).inbox ≡ db.inbox
unfolding release
inbox-release none now db = refl
inbox-release (some k) now db = elim (Option-cases (reservation_of k db)) [
  | inl e ↦ rw (release, e) refl
  | inr (r, e) ↦ elim (Bool-cases (is_reserved r.status)) [
    | inl t ↦ rw (release, e, t) refl
    | inr t ↦ rw (release, e, t) refl
  ]
]

inbox-release_each :
    (rs : List Uuid) (now : Time) (db : Db) → (release_each rs now db).inbox ≡ db.inbox
unfolding release_each
inbox-release_each [] now db = refl
inbox-release_each (r ∷ rs) now db =
    inbox-release_each rs now (release (some r) now db) ∙ inbox-release (some r) now db

inbox-add_debt :
    (a : CreditAccount) (provider event : Text) (due : ℤ) (db : Db)
    → (add_debt a provider event due db).inbox ≡ db.inbox
unfolding add_debt
inbox-add_debt a provider event due db = ground arith

Keeps-take_back :
    (provider event : Text) (a : CreditAccount) (b : CreditBucket) (credits : ℤ) (now : Time)
    → Keeps (take_back provider event a b credits now)
unfolding take_back
Keeps-take_back provider event a b credits now db u db' h =
    let unspent = min_ℤ b.available credits in
    let taken = write_bucket b.id (take_from unspent) db in
    let due = max_ℤ (pos 0) (credits -ℤ unspent) in
    elim (Bool-cases (eqb_ℤ unspent (pos 0))) [
      | inl z ↦ same_tables (rw (take_back, z) at h) ∙ inbox-add_debt a provider event due taken
      | inr z ↦
          after_call (ledger a.id (reversal_args event b.id unspent) now) _
            (add_debt a provider event due taken) (rw (take_back, z) at h)
            (Keeps-ledger a.id (reversal_args event b.id unspent) now)
            (λ y d done. same_tables done)
          ∙ inbox-add_debt a provider event due taken
    ]

pub Keeps-payment_reversed :
    (provider : Text) (payload : Payload) (event : Text) (now : Time)
    → Keeps (payment_reversed provider payload event now)
unfolding payment_reversed
Keeps-payment_reversed provider payload event now db u db' h =
    after_call (or_raise (or_some payload.period_reference payload.original_event_id) _) _ db h
      (Keeps-or_raise _ _)
      (λ period d₁ h₁.
        after_call (or_raise (source_bucket (Key.payment_key period) d₁) _) _ d₁ h₁
          (Keeps-or_raise _ _)
          (λ bucket d₂ h₂.
            after_call (lift (original_amount provider period d₂)) _ d₂ h₂ (Keeps-lift _)
              (λ original d₃ h₃.
                after_call (lift (amount_or payload.amount_minor original)) _ d₃ h₃ (Keeps-lift _)
                  (λ reversed d₄ h₄.
                    after_call (state_of provider period bucket.id original) _ d₄ h₄
                      (Keeps-state_of provider period bucket.id original)
                      (λ s d₅ h₅.
                        raise_if_inv
                          (not (s.bucket_id == bucket.id)
                            || not (eqb_ℤ s.original_amount_minor original))
                          _ _ d₅ h₅
                          (λ same h₆.
                            after_call
                              (lift (
                                cumulative_reversal s.original_amount_minor bucket.granted
                                  s.reversed_amount_minor s.reversed_credits reversed))
                              _ d₅ h₆ (Keeps-lift _)
                              (λ t d₇ h₇.
                                let d₈ = write_state s.id (set_reversed t.0 t.1) d₇ in
                                after_call
                                  (or_raise (find (λ a. a.id == bucket.account_id) d₈.accounts) _) _
                                  d₈ h₇ (Keeps-or_raise _ _)
                                  (λ a d₉ h₉.
                                    let held_by =
                                      map (λ r. r.id)
                                        (select (holds_bucket bucket.id d₉) d₉.reservations) in
                                    let d₁₀ = release_each held_by now d₉ in
                                    after_call (or_raise (bucket_of bucket.id d₁₀) _) _ d₁₀ h₉
                                      (Keeps-or_raise _ _)
                                      (λ b d₁₁ h₁₁.
                                        Keeps-take_back provider event a b t.2 now d₁₁ u db' h₁₁)
                                    ∙ inbox-release_each held_by now d₉))))))))
