-- ===== src/Samples.antt =====
-- Concrete stores, queues and histories, and the theorems at work on them.
pub mod Coordination
pub mod Queues
pub mod Boards
pub mod Actions
pub mod Reviews
pub mod Gates
pub mod Repairs
pub mod Plans
pub mod Supervision
pub mod Scheduling
