-- ===== src/Billing/Ledger/Balance.antt =====
-- The sum of an account's entries, and how the sums move when a row is written.
use qatth.Base.{
  ◌≡◌, refl, none, some, List, [], ◌∷◌, ◌==◌, if◌then◌else◌, find, modify, arith, Bool-cases, inl,
  inr,
}
use qatth.Base.Int.{ℤ, pos, ◌+ℤ◌, int_laws}
use qatth.Schema.Common.{Uuid, Time}
use qatth.Schema.Billing.{CreditBucket, CreditLedgerEntry}
use qatth.Db.{Db, ok}
use qatth.Billing.Accounts.{share, held, LedgerArgs, has_key, ledger}

abbrev pub entry_share : Uuid → CreditLedgerEntry → ℤ
entry_share a e = if e.account_id == a then e.amount else pos 0

-- The sum of the amounts of an account's entries.
abbrev pub ledger_total : Uuid → List CreditLedgerEntry → ℤ
ledger_total a [] = pos 0
ledger_total a (e ∷ es) = entry_share a e +ℤ ledger_total a es

-- The entries of the account add up to what its buckets hold.
abbrev pub Reconciles : Uuid → Db → Type 0
Reconciles a db = ledger_total a db.entries ≡ held a db.buckets

-- Writing one bucket moves what an account holds by the change of that bucket.
pub held-modify :
    (a k : Uuid) (f : CreditBucket → CreditBucket) (bs : List CreditBucket) {b : CreditBucket}
    → find (λ x. x.id == k) bs ≡ some b
    → held a (modify (λ x. x.id == k) f bs) +ℤ share a b ≡ held a bs +ℤ share a (f b)
unfolding held
held-modify a k f [] e = cc
held-modify a k f (x ∷ bs) {b} e = elim (Bool-cases (x.id == k)) [
  | inl same ↦ let p : x ≡ b = ground arith in rw (same, p) (omega int_laws)
  | inr other ↦ rw other (omega (int_laws, held-modify a k f bs (rw other at e)))
]

-- A write at an identifier that no row has changes nothing.
pub modify_absent :
    (k : Uuid) (f : CreditBucket → CreditBucket) (bs : List CreditBucket)
    → find (λ x. x.id == k) bs ≡ none
    → modify (λ x. x.id == k) f bs ≡ bs
modify_absent k f [] e = refl
modify_absent k f (x ∷ bs) e = ground (arith, modify_absent k f bs)

-- A new entry under a fresh key counts once, for its own account.
pub ledger-total :
    (a x : Uuid) (args : LedgerArgs) (now : Time) (db : Db) {e : CreditLedgerEntry} {db' : Db}
    → find (has_key a args.idempotency_key) db.entries ≡ none
    → ledger a args now db ≡ ok (e, db')
    → (ledger_total x db'.entries
        ≡ (if a == x then args.amount else pos 0) +ℤ ledger_total x db.entries)
      × (db'.buckets ≡ db.buckets)
unfolding ledger
ledger-total a x args now db fresh r = ground arith
