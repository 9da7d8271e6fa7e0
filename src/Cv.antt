-- ===== src/Cv.antt =====
-- The CVs of a user: `ProductCvService` of backend/app/services/product_cv.py, from the scan of an
-- uploaded file over its draft to the confirmed versions and their analyses.
pub mod Access
pub mod Scans
pub mod Drafts
pub mod Confirm
pub mod Versions
pub mod Analyses
pub mod Numbering
pub mod Register
pub mod Order
pub mod Pages
