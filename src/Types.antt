-- ===== src/Types.antt =====
-- The payloads of api/types: each child is one of its files.
mod Status
mod Command
mod Progress
mod Specification
mod Nodes
mod Consent
pub mod Split
unfoldable pub use Status.*
unfoldable pub use Command.*
unfoldable pub use Progress.*
pub use Specification.*
unfoldable pub use Nodes.*
unfoldable pub use Consent.*
