-- ===== src/Server.antt =====
-- internal/server: the HTTP server.
pub mod InFlight
pub mod Attempts
pub mod Budget
pub mod Failover
pub mod Gate
pub mod Delivery
pub mod Guardrails
pub mod Payload
pub mod Overrides
pub mod FreeMode
