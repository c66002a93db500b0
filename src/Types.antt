-- ===== src/Types.antt =====
-- The shared types of agent/src/types.ts: names, and the part of `AppConfig` that is read.
pub mod Names
pub mod Config
unfoldable pub use Names.*
pub use Config.*
