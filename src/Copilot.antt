-- ===== src/Copilot.antt =====
-- internal/copilot: the client of the upstream service.
pub mod Models
pub mod Catalog
pub mod Framer
pub mod Terminal
pub mod Forward
pub mod Endpoints
pub mod Prepare
pub mod QuotaAnswer
pub mod Payload
pub mod Execute
