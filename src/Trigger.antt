-- ===== src/Trigger.antt =====
-- pkg/trigger/trigger.go.
pub mod Keyword
pub mod Engine
pub mod Definition
pub mod Variable
pub mod Eval
pub mod Convert
pub mod Filter
pub mod Function
pub mod Library
pub mod Process
pub mod Listeners
mod Tests
