-- ===== src/Governance.antt =====
-- governance/: the life cycle of proposals, and the changes that an accepted one makes.
pub mod StateMachine
pub mod Payload
pub mod Cycle
pub mod Build
pub mod Apply
