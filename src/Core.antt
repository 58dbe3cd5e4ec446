-- ===== src/Core.antt =====
-- internal/core: the translation between the protocols.
pub mod Stream
pub mod Collect
pub mod Synthetic
pub mod Respond
pub mod Passthrough
pub mod Request
pub mod Inbound
