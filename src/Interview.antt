-- ===== src/Interview.antt =====
-- The life of an interview: `ProductInterviewService` of
-- backend/app/services/product_interview.py, with the billing and the outbox that it drives.
pub mod Access
pub mod Creation
pub mod Realtime
pub mod Events
pub mod Ending
pub mod Transcript
pub mod Token
pub mod Final
