-- ===== src/Chain/Tests.antt =====
-- The theorems at concrete chains, and the outside world that they run in.
pub mod Outside
mod Dispatching
mod Passes
mod Notifying
mod Storing
mod Ending
