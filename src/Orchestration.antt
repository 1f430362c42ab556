-- ===== src/Orchestration.antt =====
-- updatem/orchestration.
pub mod Operation
pub mod Session
pub mod Feedback
pub mod Consent
pub mod Signals
pub mod Apply
pub mod Inventories
pub mod Manager
pub mod Reboot
pub mod System
