-- ===== src/Keeper.antt =====
-- The keeper's server and its backends (internal/keeper).
pub mod Config
pub mod Client
pub mod Command
pub mod HttpBackend
pub mod ServerTls
pub mod Handler
pub mod Exec
pub mod LimitedWriter
