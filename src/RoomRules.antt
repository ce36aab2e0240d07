-- ===== src/RoomRules.antt =====
-- src/ygopro/room/domain/RuleMappings.ts and host-info/HostInfo.ts: what the options of a join command
-- set. A text is the list of its code units. Options hold no sign and no fraction where a mapping that
-- accepts them reads a number; numbers are exact, as they are below 2 ^ 53.
mod Texts
mod Modes
mod Formats
mod Priority
mod Tokens
pub mod Room
pub mod Keys
pub mod Ranges
mod Accepted
pub mod Tiers
pub mod Creation
pub mod ListNames
mod Tests
pub use Texts.*
pub use Modes.*
pub use Formats.*
pub use Priority.*
unfoldable pub use Tokens.*
