-- ===== src/Verification.antt =====
-- Whether a change may pass: the checks of the repository and the policy over the reports of the
-- reviewer and the tester.
pub mod Json
pub mod RepoTruth
pub mod Reports
pub mod Policy
