-- ===== src/Coordination.antt =====
-- src/tandem_agents/core/coordination: the durable ledger of tasks, leases, runs and workers, the
-- outbox and the approvals, as functions of the whole store and of the clock.
pub mod Rows
pub mod Status
pub mod Leases
pub mod Workers
pub mod Tasks
pub mod TaskKey
pub mod Dependencies
pub mod Claim
pub mod Exclusion
pub mod Reaping
pub mod Holding
pub mod Protocol
pub mod Outbox
pub mod Approvals
pub mod Runs
pub mod Ownership
