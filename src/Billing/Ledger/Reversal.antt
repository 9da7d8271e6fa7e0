-- ===== src/Billing/Ledger/Reversal.antt =====
-- The end of `_payment_reversed`, backend/app/services/product_billing.py, in the ledger.
use mathlib.Core.Path.{subst}
use qatth.Base.{
  find_test, find-modify_self, suc, ◌≡◌, refl, sym, ap, true, false, none, some, ◌∷◌, ◌==◌,
  if◌then◌else◌, find, arith, Bool-cases, inl, inr,
}
use qatth.Base.Int.{ℤ, pos, ◌+ℤ◌, ◌-ℤ◌, eqb_ℤ, eqb_ℤ_ne, min_ℤ, max_ℤ, int_laws}
use qatth.Schema.Common.{Uuid, Text, Time}
use qatth.Schema.Billing.{AccountStatus, CreditAccount, CreditAccountReview, CreditBucket, Key}
use qatth.Db.{Db, ok, bind_ok, ◌>>=◌}
use qatth.Billing.Accounts.{share, held, has_key, new_entry, ledger, bucket_of, write_bucket}
use qatth.Billing.Adjustments.{take_from}
use qatth.Billing.Reversals.{add_debt, set_debt, reversal_args, take_back}
use qatth.Billing.Ledger.Balance.{ledger_total, entry_share, Reconciles, held-modify}

add_debt_others :
    (a : CreditAccount) (provider event : Text) (due : ℤ) (db : Db)
    → ((add_debt a provider event due db).buckets ≡ db.buckets)
      × ((add_debt a provider event due db).entries ≡ db.entries)
unfolding add_debt
add_debt_others a provider event due db = ground arith

share-take_from :
    (x : Uuid) (u : ℤ) (b : CreditBucket)
    → share x (take_from u b) ≡ share x b -ℤ (if b.account_id == x then u else pos 0)
unfolding share
share-take_from x u b = elim (Bool-cases (b.account_id == x)) [
  | inl e ↦ rw e (omega int_laws)
  | inr e ↦ rw e (omega int_laws)
]

module _ (provider event : Text) (a : CreditAccount) (b : CreditBucket) (credits : ℤ) (now : Time)
    (db : Db) where
  abbrev unspent : ℤ
  unspent = min_ℤ b.available credits

  -- The tables before the entry.
  abbrev owed_db : Db
  owed_db =
      add_debt a provider event (max_ℤ (pos 0) (credits -ℤ unspent))
        (write_bucket b.id (take_from unspent) db)

  abbrev entered_db : Db
  entered_db = record owed_db {
    next_id = suc owed_db.next_id;
    entries = new_entry a.id (reversal_args event b.id unspent) now owed_db ∷ owed_db.entries;
  }

  held-owed :
      (x : Uuid)
      → bucket_of b.id db ≡ some b
      → held x owed_db.buckets ≡ held x db.buckets -ℤ (if b.account_id == x then unspent else pos 0)
  held-owed x found = omega (
    int_laws,
    ap (held x)
        (add_debt_others a provider event (max_ℤ (pos 0) (credits -ℤ unspent))
          (write_bucket b.id (take_from unspent) db)).0,
    held-modify x b.id (take_from unspent) db.buckets found,
    share-take_from x unspent b,
  )

  total-owed : (x : Uuid) → ledger_total x owed_db.entries ≡ ledger_total x db.entries
  total-owed x =
      ap (ledger_total x)
        (add_debt_others a provider event (max_ℤ (pos 0) (credits -ℤ unspent))
          (write_bucket b.id (take_from unspent) db)).1

  entry_share-reversal :
      (x : Uuid)
      → entry_share x (new_entry a.id (reversal_args event b.id unspent) now owed_db)
        ≡ pos 0 -ℤ (if a.id == x then unspent else pos 0)
  entry_share-reversal x = elim (Bool-cases (a.id == x)) [
    | inl e ↦ rw e refl
    | inr e ↦ rw e (omega int_laws)
  ]

  ledger_run :
      eqb_ℤ unspent (pos 0) ≡ false
      → find (has_key a.id (Key.reversal_key event)) db.entries ≡ none
      → ledger a.id (reversal_args event b.id unspent) now owed_db
        ≡ ok (new_entry a.id (reversal_args event b.id unspent) now owed_db, entered_db)
  unfolding ledger
  ledger_run z fresh =
      let still : find (has_key a.id (Key.reversal_key event)) owed_db.entries ≡ none =
        subst (λ es. find (has_key a.id (Key.reversal_key event)) es ≡ none)
          (sym
            (add_debt_others a provider event (max_ℤ (pos 0) (credits -ℤ unspent))
              (write_bucket b.id (take_from unspent) db)).1)
          fresh in
      let moved : eqb_ℤ (pos 0 -ℤ unspent) (pos 0) ≡ false =
        eqb_ℤ_ne (pos 0 -ℤ unspent) (pos 0)
          (λ e. let none_left : unspent ≡ pos 0 = omega (int_laws, e) in ground arith) in
      rw (moved, still) refl

  -- What the bucket does not have.
  abbrev pub IsOwed : Db → Type 0
  IsOwed db' =
      (due : ℤ) × (due ≡ max_ℤ (pos 0) (credits -ℤ min_ℤ b.available credits))
      × (owner : CreditAccount) × (find (λ x. x.id == a.id) db'.accounts ≡ some owner)
      × (owner.debt ≡ a.debt +ℤ due)
      × (¬ (due ≡ pos 0)
          → (owner.status ≡ AccountStatus.review)
            × (v : CreditAccountReview) × (db'.reviews ≡ v ∷ db.reviews)
            × (v.account_id ≡ a.id)
            × (v.provider_event_id ≡ event)
            × (v.debt_credits ≡ due))

  owed : find (λ x. x.id == a.id) db.accounts ≡ some a → IsOwed owed_db
  unfolding add_debt
  owed there =
      let due = max_ℤ (pos 0) (credits -ℤ unspent) in
      let key : (a.id == a.id) ≡ true =
        find_test (λ (x : CreditAccount). x.id == a.id) db.accounts there in
      elim (Bool-cases (eqb_ℤ due (pos 0))) [
        | inl z ↦
            let none_due : due ≡ pos 0 = ground arith in
            rw z (due, refl, a, there, omega (int_laws, none_due), λ ne. absurd (ne none_due))
        | inr z ↦ rw z (
          due,
          refl,
          set_debt due a,
          find-modify_self (λ x. x.id == a.id) (set_debt due) db.accounts there key,
          refl,
          λ ne. (refl, _, refl, refl, refl, refl),
        )
      ]

  -- Taking credits back from the bucket of the account goes through under a fresh key, and keeps
  -- every account reconciled: what leaves the bucket is what the entry says. What the bucket does
  -- not have is added to the account's debt, outside the ledger; where that is anything, the account
  -- is put under review, with one review of the payment event that says how much.
  pub take_back-Reconciles :
      bucket_of b.id db ≡ some b
      → b.account_id ≡ a.id
      → find (λ x. x.id == a.id) db.accounts ≡ some a
      → find (has_key a.id (Key.reversal_key event)) db.entries ≡ none
      → (db' : Db) × (take_back provider event a b credits now db ≡ ok (tt, db'))
        × ((x : Uuid) → Reconciles x db → Reconciles x db')
        × IsOwed db'
  unfolding take_back
  take_back-Reconciles found own there fresh = elim (Bool-cases (eqb_ℤ unspent (pos 0))) [
    | inl z ↦ (
      owed_db,
      rw (z, ◌>>=◌) refl,
      λ x rec.
          let none_left : unspent ≡ pos 0 = ground arith in
          elim (Bool-cases (b.account_id == x)) [
            | inl t ↦ omega (int_laws, rec, total-owed x, none_left, rw t at (held-owed x found))
            | inr t ↦ omega (int_laws, rec, total-owed x, rw t at (held-owed x found))
          ],
      owed there,
    )
    | inr z ↦ (
      entered_db,
      rw z (
          bind_ok (ledger a.id (reversal_args event b.id unspent) now) _ owed_db
            (ledger_run z fresh)),
      λ x rec. omega (
        int_laws,
        rec,
        total-owed x,
        held-owed x found,
        entry_share-reversal x,
        ap (λ k. if k == x then unspent else pos 0) own,
      ),
      owed there,
    )
  ]
