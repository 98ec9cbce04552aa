-- ===== src/Tests.antt =====
-- The theorems at concrete inputs.
pub mod Sample
pub mod Downloads
pub mod Images
pub mod Buffers
pub mod Configs
pub mod Messages
pub mod Programs
pub mod Texts
pub mod Secure
pub mod Logs
pub mod Lives
pub mod Names
pub mod Paths
pub mod Contexts
pub mod Clients
pub mod Pngs
pub mod Loggers
pub mod Consoles
