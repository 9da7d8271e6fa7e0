-- ===== src/Billing.antt =====
-- The billing service, backend/app/services/product_billing.py.
pub mod Accounts
pub mod Trial
pub mod Credits
pub mod Commands
pub mod Adjustments
pub mod Reversals
pub mod Payments
pub mod Webhooks
pub mod Catalogs
pub mod Checkout
pub mod Expiry
pub mod Ledger
pub mod Reservation
pub mod Replay
pub mod DualControl
pub mod Inbox
pub mod Delivery
pub mod Proportion
pub mod Redirect
pub mod Approval
