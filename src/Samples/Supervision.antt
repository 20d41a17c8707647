-- ===== src/Samples/Supervision.antt =====
-- A pull request that a refresh finds behind its base.
use tandem_agents.Prelude.{String, ◌≡◌, refl, true, false, none, some, [], ◌∷◌, any, strip}
use tandem_agents.Verification.Json.{Json, text, end, field}
use tandem_agents.Scheduling.Repairs.{new_breaker, RepairState, start_pr_repair_pass}
use tandem_agents.PullRequests.Merge.{
  nothing, plain, ReviewConfig, PullRequest, answered, normalize_pull_request_metadata,
}
use tandem_agents.PullRequests.Entries.{one_of}
use tandem_agents.PullRequests.Supervision.{
  normalize_status, has_number, Lifecycle, SupervisorConfig, Turn, fetched,
  is_pr_lifecycle_supervisable, was_handed_over, maybe_auto_merge_pr, refresh_pr_lifecycle_for_run,
}
use tandem_agents.PullRequests.Watching.{stays_watched, supervised_exactly}

abbrev show : Json → String
show v = "..."

abbrev behind : PullRequest
behind = normalize_pull_request_metadata show (some 7) "aca/fix" "acme/app" (
    field "mergeStateStatus" (text "BEHIND")
      (field "reviewDecision" (text "APPROVED") (field "checks_status" (text "success") end)))

abbrev review_config : ReviewConfig
review_config = record {
  policy = "human_review";
  auto_merge_strategy = "squash";
  auto_merge_allowed_strategies = "squash";
  merge_requires_approval = true;
  branch_delete_requires_approval = true;
  delete_branch_after_merge = false;
  repository_slug = "acme/app";
}

abbrev supervisor : SupervisorConfig
supervisor = record {
  review = review_config;
  repair = record { max_repair_attempts = none; repair_cooldown_base_ms = none };
  budget = record { max_tokens = 0; max_cost_usd = 0; max_coder_executions = 0 };
  describe = λ rs. "...";
}

abbrev turn : Turn
turn = record {
  answer = fetched behind;
  feedback = record {
    actionable = true;
    signature = "a";
    now_ms = 1000;
    result = record { own = []; parts = [] };
  };
  context_pull_request = none;
  approvals = record { merge = plain nothing; branch_delete = plain nothing };
  tools = record {
    merge_pull_request = λ pr s. answered true;
    delete_branch = λ pr. answered true;
    delete_ref = λ pr. answered true;
  };
}

abbrev opened : Lifecycle
opened = record {
  pull_request = record behind { lifecycle_state = "waiting-for-review" };
  error = "";
}

abbrev breaker_state : RepairState
breaker_state = record { breaker = new_breaker; issue_spend = none }

-- It was refreshed, its branch is updated, and it is not refreshed again.
not_again :
    is_pr_lifecycle_supervisable "completed"
      (refresh_pr_lifecycle_for_run supervisor turn opened breaker_state).0
    ≡ false
unfolding is_pr_lifecycle_supervisable refresh_pr_lifecycle_for_run normalize_pull_request_metadata
not_again = refl

is_completed : one_of ("completed" ∷ "running" ∷ []) (normalize_status "completed") ≡ true
unfolding one_of any normalize_status
is_completed = refl

is_numbered : has_number behind.number ≡ true
unfolding has_number normalize_pull_request_metadata
is_numbered = refl

supervised_exactly_example :
    is_pr_lifecycle_supervisable "completed"
      (refresh_pr_lifecycle_for_run supervisor turn opened breaker_state).0
    ≡ stays_watched
        (strip behind.lifecycle_state)
        (was_handed_over
          (start_pr_repair_pass supervisor.describe supervisor.repair supervisor.budget
            turn.feedback breaker_state).1)
        (maybe_auto_merge_pr review_config turn.tools behind turn.approvals)
supervised_exactly_example =
    supervised_exactly supervisor turn "completed" behind opened breaker_state is_completed
      is_numbered refl
