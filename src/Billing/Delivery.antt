-- ===== src/Billing/Delivery.antt =====
-- Payment events that are delivered more than once, or fail: `process_webhook` of
-- backend/app/services/product_billing.py.
use qatth.Db.{Db}
