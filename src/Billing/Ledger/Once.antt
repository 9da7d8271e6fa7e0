-- ===== src/Billing/Ledger/Once.antt =====
-- `_ledger` of backend/app/services/product_billing.py writes one entry for each key.
use qatth.Base.{suc, ◌≡◌, refl, none, ◌∷◌, find, arith, Option-cases, inl, inr}
use qatth.Base.Int.{pos, eqb_ℤ_ne}
use qatth.Schema.Common.{Uuid, Time}
use qatth.Schema.Billing.{CreditLedgerEntry}
use qatth.Db.{Db, ok, key_eq_refl}
use qatth.Billing.Accounts.{held, LedgerArgs, has_key, new_entry, ledger}

-- An entry of a nonzero amount is written once for each key of an account: the call succeeds, and
-- any later call under the same key returns the same entry and writes nothing, whatever its other
-- arguments. An entry that is new states the balance of the account's buckets.
pub ledger_once :
    (a : Uuid) (args again : LedgerArgs) (now later : Time) (db : Db)
    → ¬ (args.amount ≡ pos 0)
    → ¬ (again.amount ≡ pos 0)
    → again.idempotency_key ≡ args.idempotency_key
    → (e : CreditLedgerEntry) × (db' : Db) × (ledger a args now db ≡ ok (e, db'))
      × (ledger a again later db' ≡ ok (e, db'))
      × (find (has_key a args.idempotency_key) db.entries ≡ none
          → e.balance_after ≡ held a db.buckets)
unfolding ledger
ledger_once a args again now later db nz nz' same =
    elim (Option-cases (find (has_key a args.idempotency_key) db.entries)) [
      | inl new ↦ (
        new_entry a args now db,
        record db { next_id = suc db.next_id; entries = new_entry a args now db ∷ db.entries },
        ground (arith, eqb_ℤ_ne args.amount (pos 0) nz),
        ground (arith, eqb_ℤ_ne again.amount (pos 0) nz', key_eq_refl args.idempotency_key),
        λ n. refl,
      )
      | inr (e, old) ↦ (
        e,
        db,
        ground (arith, eqb_ℤ_ne args.amount (pos 0) nz),
        ground (arith, eqb_ℤ_ne again.amount (pos 0) nz'),
        λ n. ground arith,
      )
    ]
