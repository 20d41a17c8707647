-- ===== src/ExternalActions.antt =====
-- core/external_actions/github_pr.py: what a run proposes to do with the pull requests that its task
-- names. How it is carried out stands in Coordination.Approvals.
pub mod Numbers
pub mod Plan
pub mod Queueing
