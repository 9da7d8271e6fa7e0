-- ===== src/Files.antt =====
-- The upload of files: `ProductFileService` of backend/app/services/product_files.py, from the
-- intent of an upload to the file that has passed every check.
pub mod Content
pub mod Bytes
pub mod Upload
pub mod Verified
pub mod Intent
