-- ===== src/Landing.antt =====
-- src/modules/landing-requests: the requests to land at an aerodrome, from the public form to the
-- decision of the coordinator.
pub mod Schedule
pub mod Store
pub mod Decide
pub mod Once
pub mod Decisions
mod Tests
