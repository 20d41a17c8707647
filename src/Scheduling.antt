-- ===== src/Scheduling.antt =====
-- core/scheduling: what runs next, and what is sent to the connectors.
pub mod Dispatcher
pub mod Admission
pub mod Paths
pub mod Keys
pub mod Triage
pub mod Gates
pub mod Repairs
