-- ===== src/Nats.antt =====
-- pkg/nats: subjects and payloads.
pub mod Subjects
pub mod Payload
mod Tests
