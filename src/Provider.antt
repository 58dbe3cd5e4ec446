-- ===== src/Provider.antt =====
-- internal/provider: the upstream providers, their keys, and the choice between them.
pub mod Pool
pub mod Breaker
pub mod EventStream
pub mod Transform
pub mod Registry
