-- ===== src/Mission/Assembler.antt =====
-- internal/mission/assembler.go: what the mission controller delegates.
pub mod Setup
pub mod Label
pub mod Knights
pub mod Warm
pub mod Assembling
