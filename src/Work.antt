-- ===== src/Work.antt =====
-- Work that must happen once: idempotent requests, the task outbox and the leases of the workers.
pub mod Idempotency
pub mod Dispatch
pub mod Leases
pub mod Once
