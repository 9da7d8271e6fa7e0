-- ===== src/Billing/Reservation.antt =====
-- The life of a credit reservation (`reserve`, `capture`, `release` and `refund` of
-- backend/app/services/product_billing.py): what is set aside, charged and given back.
pub mod Allocate
pub mod Undo
pub mod Backed
pub mod Settle
pub mod Refund
