-- ===== src/PullRequests/Merge.antt =====
-- core/integrations/github_mcp.py: evaluate_auto_merge_gates, guarded_auto_merge and
-- delete_remote_branch. The calls of GitHub's tools are parameters.
use tandem_agents.Prelude.{
  ℕ, String, Bool, true, false, not, ◌&&◌, ◌||◌, Option, none, some, List, [], ◌∷◌, str_eq,
  if◌then◌else◌, any, strip, lower, str_or, starts_with, contains, split_on,
}
use tandem_agents.Verification.Json.{Json, Fields}
use tandem_agents.PullRequests.Entries.{one_of}
use tandem_agents.PullRequests.State.{
  reviews_state, checks_state, is_merged, pull_request_lifecycle_state,
}

-- The `review` section of the configuration, and the slug of the repository.
pub record ReviewConfig : Type 0 where
  pub policy : String
  pub auto_merge_strategy : String
  pub auto_merge_allowed_strategies : String
  pub merge_requires_approval : Bool
  pub branch_delete_requires_approval : Bool
  pub delete_branch_after_merge : Bool
  pub repository_slug : String

-- The metadata of a pull request; a number that is missing or "" is `none`.
pub record PullRequest : Type 0 where
  pub number : Option ℕ
  pub head_branch : String
  pub base_repo : String
  pub lifecycle_state : String
  pub review_state : String
  pub checks_state : String
  pub terminal : Bool
  pub merged : Bool

-- normalize_pull_request_metadata of the data `p`, whose number, branch and repository were read.
unfoldable pub normalize_pull_request_metadata :
    (Json → String) → Option ℕ → (head_branch base_repo : String) → Fields → PullRequest
unfolding pull_request_lifecycle_state reviews_state checks_state is_merged
normalize_pull_request_metadata show number head_branch base_repo p =
    let state = pull_request_lifecycle_state show p in
    record {
      number = number;
      head_branch = head_branch;
      base_repo = base_repo;
      lifecycle_state = state;
      review_state = reviews_state show p;
      checks_state = checks_state show p;
      terminal = str_eq state "merged" || str_eq state "blocked";
      merged = is_merged p;
    }

pub data Denial : Type 0 where
  policy_not_auto_merge : Denial
  strategy_not_supported : Denial
  strategy_not_allowed : Denial
  branch_not_created_here : Denial
  repository_differs : Denial
  not_ready_to_merge : Denial
  checks_not_clean : Denial
  review_not_approved : Denial
  already_terminal : Denial
  number_missing : Denial
  repository_missing : Denial

-- A value of an approval: a truth value, any other value by its text, or none, which also stands
-- for a value that Python takes for false.
pub data Value : Type 0 where
  nothing : Value
  flag : Bool → Value
  said : String → Value

-- An entry of the approvals: a value, or a dictionary with `approved` and `status`.
pub data Approval : Type 0 where
  plain : Value → Approval
  entry : (approved status : Value) → Approval

-- What an operator approved.
pub record Approvals : Type 0 where
  pub merge : Approval
  pub branch_delete : Approval

is_said : Value → Bool
is_said nothing = false
is_said (flag b) = b
is_said (said s) = not (str_eq s "")

-- value.get("approved") or value.get("status")
unfoldable pub value_of : Approval → Value
unfolding is_said
value_of (plain v) = v
value_of (entry approved status) = if is_said approved then approved else status

unfoldable pub approval_granted : Approval → Bool
unfolding value_of one_of any lower strip
approval_granted a = elim (value_of a) [
  | nothing ↦ false
  | flag b ↦ b
  | said s ↦
      one_of ("approved" ∷ "approve" ∷ "granted" ∷ "true" ∷ "yes" ∷ "1" ∷ []) (lower (strip s))
]

unfoldable pub strategy_of : ReviewConfig → String
unfolding lower strip str_or
strategy_of cfg = lower (strip (str_or cfg.auto_merge_strategy "squash"))

allowed_parts : List String → List String
unfolding strip lower
allowed_parts [] = []
allowed_parts (s ∷ ss) =
    let rest = allowed_parts ss in if str_eq (strip s) "" then rest else lower (strip s) ∷ rest

unfoldable pub allowed_merge_strategies : ReviewConfig → List String
unfolding split_on allowed_parts
allowed_merge_strategies cfg = allowed_parts (split_on b',' cfg.auto_merge_allowed_strategies)

unfoldable pub deny : Bool → Denial → List Denial → List Denial
deny b d rest = if b then d ∷ rest else rest

unfoldable pub is_missing : Option ℕ → Bool
is_missing none = true
is_missing (some n) = false

unfoldable pub denials_of : ReviewConfig → PullRequest → List Denial
unfolding deny strategy_of allowed_merge_strategies one_of any strip lower starts_with contains
    is_missing
denials_of cfg pr =
    let base_repo = strip pr.base_repo in
    let expected = strip cfg.repository_slug in
    deny (not (str_eq (lower (strip cfg.policy)) "auto_merge")) policy_not_auto_merge (
      deny (not (one_of ("merge" ∷ "squash" ∷ "rebase" ∷ []) (strategy_of cfg)))
        strategy_not_supported
        (deny (not (one_of (allowed_merge_strategies cfg) (strategy_of cfg))) strategy_not_allowed (
          deny (not (starts_with "aca/" (strip pr.head_branch))) branch_not_created_here (
            deny
              (not (str_eq expected "")
                && not (str_eq base_repo "")
                && not (str_eq base_repo expected))
              repository_differs
              (deny (not (str_eq (strip pr.lifecycle_state) "ready-to-merge")) not_ready_to_merge (
                deny (not (str_eq (strip pr.checks_state) "success")) checks_not_clean (
                  deny (not (str_eq (strip pr.review_state) "approved")) review_not_approved (
                    deny (pr.terminal || pr.merged) already_terminal (
                      deny (is_missing pr.number) number_missing (
                        deny (str_eq base_repo "" || not (contains "/" base_repo))
                          repository_missing []))))))))))

unfoldable pub no_denials : List Denial → Bool
no_denials [] = true
no_denials (d ∷ ds) = false

-- The approvals that are still pending, of the merge and of the deletion of the branch.
pub record Gates : Type 0 where
  pub denials : List Denial
  pub merge_pending : Bool
  pub delete_pending : Bool

unfoldable pub evaluate_auto_merge_gates : ReviewConfig → PullRequest → Approvals → Gates
unfolding denials_of no_denials approval_granted
evaluate_auto_merge_gates cfg pr approvals =
    let denials = denials_of cfg pr in
    record {
      denials = denials;
      merge_pending =
          no_denials denials
          && cfg.merge_requires_approval
          && not (approval_granted approvals.merge);
      delete_pending =
          no_denials denials
          && cfg.delete_branch_after_merge
          && cfg.branch_delete_requires_approval
          && not (approval_granted approvals.branch_delete);
    }

-- The answer of a tool: an exception or a failure, or whether it says that it did the work.
pub data Answer : Type 0 where
  failed : Answer
  answered : (did : Bool) → Answer

-- The tools that are called, in the order of the calls.
pub record Tools : Type 0 where
  pub merge_pull_request : PullRequest → String → Answer
  pub delete_branch : PullRequest → Answer
  pub delete_ref : PullRequest → Answer

pub data Call : Type 0 where
  call_merge : Call
  call_delete_branch : Call
  call_delete_ref : Call

-- delete_remote_branch: its calls, and whether the branch was deleted.
unfoldable pub delete_remote_branch : Tools → String → PullRequest → List Call × Bool
unfolding strip contains starts_with str_or
delete_remote_branch tools slug pr =
    let base_repo = strip (str_or pr.base_repo slug) in
    let by_ref : List Call × Bool = elim (tools.delete_ref pr) [
      | failed ↦ (call_delete_branch ∷ call_delete_ref ∷ [], false)
      | answered did ↦ (call_delete_branch ∷ call_delete_ref ∷ [], did)
    ] in
    let by_branch : List Call × Bool = elim (tools.delete_branch pr) [
      | failed ↦ by_ref
      | answered did ↦ (call_delete_branch ∷ [], did)
    ] in
    if str_eq base_repo "" || not (contains "/" base_repo) || str_eq (strip pr.head_branch) ""
    then ([], false)
    else by_branch

pub data Status : Type 0 where
  denied : Status
  pending_approval : Status
  -- the merge was asked for and GitHub's tool failed, which raises an error
  merge_raised : Status
  merged : Status

pub record MergeResult : Type 0 where
  pub status : Status
  pub calls : List Call
  pub branch_deleted : Bool

-- The part behind a merge that GitHub answered.
unfoldable pub after_merge :
    ReviewConfig → Tools → PullRequest → (delete_pending : Bool) → MergeResult
unfolding delete_remote_branch
after_merge cfg tools pr delete_pending =
    let deletion = delete_remote_branch tools cfg.repository_slug pr in
    if delete_pending
    then record { status = merged; calls = call_merge ∷ []; branch_deleted = false }
    else if cfg.delete_branch_after_merge
    then record { status = merged; calls = call_merge ∷ deletion.0; branch_deleted = deletion.1 }
    else record { status = merged; calls = call_merge ∷ []; branch_deleted = false }

unfoldable pub guarded_auto_merge : ReviewConfig → Tools → PullRequest → Approvals → MergeResult
unfolding evaluate_auto_merge_gates no_denials strategy_of after_merge
guarded_auto_merge cfg tools pr approvals =
    let gates = evaluate_auto_merge_gates cfg pr approvals in
    let sent : MergeResult = elim (tools.merge_pull_request pr (strategy_of cfg)) [
      | failed ↦ record { status = merge_raised; calls = call_merge ∷ []; branch_deleted = false }
      | answered did ↦ after_merge cfg tools pr gates.delete_pending
    ] in
    if not (no_denials gates.denials)
    then record { status = denied; calls = []; branch_deleted = false }
    else if gates.merge_pending
    then record { status = pending_approval; calls = []; branch_deleted = false }
    else sent
