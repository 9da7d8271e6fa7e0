-- ===== src/Resilience.antt =====
-- `ProviderExecutor`, backend/app/core/provider_resilience.py: the circuit breaker, the bulkhead,
-- the retries and the cost budget around a call of an external provider.
pub mod State
pub mod Execute
pub mod Limits
pub mod Retries
