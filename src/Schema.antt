-- ===== src/Schema.antt =====
-- The tables of the database, one record for each model class of backend/app/models.
-- A UUID is a number, and so is a text that the code only compares or copies; a time is a number
-- of seconds; a column with a fixed set of values is an enumeration. Columns that hold display
-- text or free JSON that no operation reads are left out, record by record.
pub mod Common
pub mod Billing
pub mod Work
pub mod Cv
pub mod Interview
