-- ===== src/Handlers.antt =====
-- The HTTP handlers of daemon/internal/server/handlers.
pub mod Minting
pub mod Queries
pub mod Sessions
pub mod Tokens
pub mod Exec
