-- ===== src/PullRequests/Supervision.antt =====
-- core/scheduling/coder_supervisor.py: _is_pr_lifecycle_supervisable, _refresh_pr_lifecycle_for_run
-- and _maybe_auto_merge_pr. What GitHub answers to a refresh is an input of it.
use tandem_agents.Prelude.{
  ℕ, String, Bool, true, false, ◌&&◌, ◌||◌, Option, none, some, List, [], ◌∷◌, str_eq, ltb,
  if◌then◌else◌, any, strip, lower, contains,
}
use tandem_agents.Budget.{Budget, Reason}
use tandem_agents.Scheduling.Repairs.{
  RepairConfig, Refresh, RepairState, PassOutcome, handed_over, start_pr_repair_pass,
}
use tandem_agents.PullRequests.Entries.{one_of}
use tandem_agents.PullRequests.Merge.{
  ReviewConfig, PullRequest, Approvals, Tools, Status, denied, pending_approval, merge_raised,
  merged, guarded_auto_merge,
}

-- The entry `pull_request_lifecycle` of the blackboard; `error` is "" where it is absent.
pub record Lifecycle : Type 0 where
  pub pull_request : PullRequest
  pub error : String

-- What refresh_pull_request_lifecycle does: it raises, or returns the metadata of the pull request.
pub data Fetched : Type 0 where
  raised : (message : String) → Fetched
  fetched : PullRequest → Fetched

-- The configuration that a refresh reads.
pub record SupervisorConfig : Type 0 where
  pub review : ReviewConfig
  pub repair : RepairConfig
  pub budget : Budget
  pub describe : List Reason → String

-- The inputs of one refresh: GitHub's answer, the feedback with the pull request of its context, the
-- approvals of an operator and the tools for a merge.
pub record Turn : Type 0 where
  pub answer : Fetched
  pub feedback : Refresh
  pub context_pull_request : Option PullRequest
  pub approvals : Approvals
  pub tools : Tools

unfoldable pub normalize_status : String → String
unfolding lower strip
normalize_status s = let n = lower (strip s) in if str_eq n "canceled" then "cancelled" else n

unfoldable pub has_number : Option ℕ → Bool
has_number none = false
has_number (some n) = ltb 0 n

unfoldable pub is_retryable_error : String → Bool
unfolding contains strip
is_retryable_error error =
    contains "Could not read GitHub pull request" (strip error)
    || contains "GitHub MCP" (strip error)

abbrev pub supervised_states : List String
supervised_states = "running" ∷ "waiting-for-review" ∷ "needs-repair" ∷ "ready-to-merge" ∷ []

-- _is_pr_lifecycle_supervisable
unfoldable pub is_pr_lifecycle_supervisable : (run_status : String) → Lifecycle → Bool
unfolding normalize_status has_number is_retryable_error one_of any strip
is_pr_lifecycle_supervisable run_status l =
    let state = strip l.pull_request.lifecycle_state in
    one_of ("completed" ∷ "running" ∷ []) (normalize_status run_status)
    && ((has_number l.pull_request.number && one_of supervised_states state)
        || (str_eq state "blocked" && is_retryable_error l.error))

unfoldable pub in_state : String → Bool → PullRequest → PullRequest
in_state state terminal pr = record pr { lifecycle_state = state; terminal = terminal }

unfoldable pub was_handed_over : PassOutcome → Bool
was_handed_over (handed_over commented) = true
was_handed_over _ = false

unfoldable pub did_merge : Status → Bool
did_merge merged = true
did_merge denied = false
did_merge pending_approval = false
did_merge merge_raised = false

-- _maybe_auto_merge_pr: whether it merged.
unfoldable pub maybe_auto_merge_pr : ReviewConfig → Tools → PullRequest → Approvals → Bool
unfolding lower strip guarded_auto_merge did_merge
maybe_auto_merge_pr cfg tools pr approvals =
    str_eq (lower (strip cfg.policy)) "auto_merge"
    && did_merge (guarded_auto_merge cfg tools pr approvals).status

abbrev pub retryable_states : List String
retryable_states =
    "running" ∷ "waiting-for-review" ∷ "needs-repair" ∷ "needs-rebase" ∷ "conflicted"
    ∷ "ready-to-merge" ∷ []

unfoldable pub after_error : String → Lifecycle → Lifecycle
unfolding one_of any strip in_state
after_error message l =
    let state = strip l.pull_request.lifecycle_state in
    record {
      pull_request =
          in_state (if one_of retryable_states state then state else "waiting-for-review") false
            l.pull_request;
      error = message;
    }

unfoldable pub or_pull_request : Option PullRequest → PullRequest → PullRequest
or_pull_request none pr = pr
or_pull_request (some p) pr = p

-- The refresh with the metadata `pr`: an update of the branch behind its base does not touch them.
unfoldable pub after_answer :
    SupervisorConfig → Turn → PullRequest → RepairState → Lifecycle × RepairState
unfolding strip one_of any start_pr_repair_pass was_handed_over in_state or_pull_request
    maybe_auto_merge_pr
after_answer cfg t pr s =
    let state = strip pr.lifecycle_state in
    let repaired = start_pr_repair_pass cfg.describe cfg.repair cfg.budget t.feedback s in
    let unchanged : Lifecycle = record { pull_request = pr; error = "" } in
    if one_of ("needs-repair" ∷ "conflicted" ∷ []) state
    then (
      if was_handed_over repaired.1
          then record {
            pull_request = in_state "needs-human" false (or_pull_request t.context_pull_request pr);
            error = "";
          }
          else unchanged,
      repaired.0,
    )
    else if str_eq state "ready-to-merge" && maybe_auto_merge_pr cfg.review t.tools pr t.approvals
    then (
      record { pull_request = record (in_state "merged" true pr) { merged = true }; error = "" },
      s,
    )
    else (unchanged, s)

unfoldable pub refresh_pr_lifecycle_for_run :
    SupervisorConfig → Turn → Lifecycle → RepairState → Lifecycle × RepairState
unfolding after_error after_answer
refresh_pr_lifecycle_for_run cfg t l s = elim t.answer [
  | raised message ↦ (after_error message l, s)
  | fetched pr ↦ after_answer cfg t pr s
]
