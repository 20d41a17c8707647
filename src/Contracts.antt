-- ===== src/Contracts.antt =====
-- core/task_contract.py: what a task's contract asks for, and whether a plan of subtasks keeps to it.
pub mod Paths
pub mod Validation
pub mod Plans
