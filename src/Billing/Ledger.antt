-- ===== src/Billing/Ledger.antt =====
-- What the ledger promises: the entries of an account add up to the credits that its buckets hold
-- (`_ledger` and its callers, backend/app/services/product_billing.py).
pub mod Rows
pub mod Balance
pub mod Expire
pub mod Once
pub mod Reversal
