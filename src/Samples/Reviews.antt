-- ===== src/Samples/Reviews.antt =====
-- A review and a test that pass, a validation of files and commands, and a pull request that is
-- ready to merge.
use tandem_agents.Prelude.{
  ℕ, String, ◌≡◌, refl, Bool, true, false, not, ◌&&◌, Option, none, some, [], ◌∷◌, str_eq, leb,
  if◌then◌else◌, any,
}
use tandem_agents.Verification.Json.{Json, Fields, text, object, end, field}
use tandem_agents.Verification.RepoTruth.{
  Tree, is_some, RepoValidation, deterministic_repo_validation,
}
use tandem_agents.Verification.Reports.{Codec}
use tandem_agents.Verification.Policy.{CommandResult, Decision, evaluate_verification_policy}
use tandem_agents.Verification.Policy.Decisions.{is_pass, passes_exactly, pass_is_clean}
use tandem_agents.PullRequests.Merge.{
  nothing, flag, said, plain, entry, ReviewConfig, Approvals, Tools, answered,
  normalize_pull_request_metadata, guarded_auto_merge,
}
use tandem_agents.PullRequests.Ready.{is_ready}
use tandem_agents.PullRequests.Safety.{is_merge, policy_allows, merges_only_ready}

abbrev files : Tree
files = record { is_file = λ f. not (str_eq f "b.py"); is_readable = λ f. true }

-- The command passes at the second attempt.
abbrev passes : String → ℕ → Bool
passes c n = leb 2 n

-- The only text that is read as JSON is "{ok}".
abbrev codec : Codec
codec = record {
  loads = λ s. if str_eq s "{ok}" then some (object (field "status" (text "pass") end)) else none;
  dumps = λ d. "{}";
  show = λ v. "...";
}

abbrev good : CommandResult
good = record { stdout = "{ok}"; returncode = some 0 }

abbrev validation : Option RepoValidation
validation = some (deterministic_repo_validation files passes 2 ("a.py" ∷ []) ("pytest" ∷ []))

decided : (d : Decision) × (evaluate_verification_policy codec good good validation ≡ some d)
unfolding evaluate_verification_policy deterministic_repo_validation
decided = (_, refl)

decided_pass : is_pass decided.0.outcome ≡ true
unfolding decided is_pass
decided_pass = refl

passes_exactly_example : is_pass decided.0.outcome ≡ (
    is_pass decided.0.review_outcome
    && is_pass decided.0.test_outcome
    && not (is_some decided.0.repo_blocker))
passes_exactly_example = passes_exactly codec good good validation decided.0 decided.1

pass_is_clean_example :
    (decided.0.review_blocker ≡ none)
    × (decided.0.test_blocker ≡ none)
    × (decided.0.repo_blocker ≡ none)
    × (decided.0.validation_blocker ≡ none)
    × (decided.0.should_retry ≡ false)
pass_is_clean_example = pass_is_clean codec good good validation decided.0 decided.1 decided_pass

abbrev config : ReviewConfig
config = record {
  policy = "auto_merge";
  auto_merge_strategy = "squash";
  auto_merge_allowed_strategies = "squash,rebase";
  merge_requires_approval = false;
  branch_delete_requires_approval = false;
  delete_branch_after_merge = false;
  repository_slug = "acme/app";
}

abbrev tools : Tools
tools = record {
  merge_pull_request = λ pr s. answered true;
  delete_branch = λ pr. answered true;
  delete_ref = λ pr. answered true;
}

abbrev approvals : Approvals
approvals = record { merge = entry nothing (said "Approved"); branch_delete = plain (flag false) }

abbrev show : Json → String
show v = "..."

abbrev pull_request : Fields
pull_request =
    field "reviewDecision" (text "APPROVED")
      (field "checks_status" (text "success") (field "state" (text "OPEN") end))

asks_merge :
    any is_merge
      (guarded_auto_merge config tools
        (normalize_pull_request_metadata show (some 7) "aca/fix" "acme/app" pull_request)
        approvals).calls
    ≡ true
unfolding guarded_auto_merge normalize_pull_request_metadata any is_merge
asks_merge = refl

merges_only_ready_example :
    (policy_allows config
        (normalize_pull_request_metadata show (some 7) "aca/fix" "acme/app" pull_request)
        approvals
      ≡ true)
    × (is_ready show pull_request ≡ true)
merges_only_ready_example =
    merges_only_ready show config tools (some 7) "aca/fix" "acme/app" pull_request approvals
      asks_merge
