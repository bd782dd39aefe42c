-- ===== src/Mission/Tests.antt =====
-- Examples of the mission controller's theorems on concrete missions.
mod Outside
mod Lives
mod Handlers
