-- ===== src/Store.antt =====
-- The SQLite store of daemon/internal/store: the tokens, sessions and messages tables and the
-- operations on them. A table is the list of its rows in the order of insertion; a statement
-- that the driver may fail takes the driver's verdict as an argument.
pub mod Tests
pub mod Secret
pub mod Tokens
pub mod Sessions
pub mod Messages
