-- ===== src/RobotSettings.antt =====
-- lib/RobotSettings.
pub mod Numbers
pub mod Decimal
pub mod Table
pub mod Entries
pub mod Texts
pub mod File
pub mod Typed
pub mod Calls
pub mod Lines
pub mod Reading
pub mod RoundTrip
pub mod Size
pub mod SaveLoad
pub mod Merge
pub mod Appliers
pub mod Fields
pub mod Shell
mod Examples
