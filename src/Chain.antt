-- ===== src/Chain.antt =====
-- internal/controller/chain_controller.go: the reconciler of chains.
pub mod World
pub mod Lookup
pub mod Output
pub mod Template
pub mod Kv
pub mod Poll
pub mod Dispatch
pub mod Run
pub mod Completion
pub mod Running
pub mod Schedule
pub mod Validate
pub mod Notification
pub mod Reconcile
pub mod Invariant
pub mod Progress
pub mod Tests
