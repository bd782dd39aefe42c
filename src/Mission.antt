-- ===== src/Mission.antt =====
-- internal/controller/mission_controller.go: the mission controller, by its phases.
pub mod World
pub mod Run
pub mod Outcome
pub mod Pending
pub mod Assembler
pub mod Provisioning
pub mod Chains
pub mod Briefing
pub mod Costs
pub mod Active
pub mod Results
pub mod Cleanup
pub mod Notify
pub mod Reconcile
pub mod View
mod Tests
