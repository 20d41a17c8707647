-- ===== src/PullRequests.antt =====
-- core/integrations/github_mcp.py: what a pull request's data says of its state, and when it may be
-- merged without a person.
pub mod Entries
pub mod State
pub mod Merge
pub mod Ready
pub mod Safety
pub mod Supervision
pub mod Watching
