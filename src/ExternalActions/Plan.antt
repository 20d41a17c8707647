-- ===== src/ExternalActions/Plan.antt =====
-- core/external_actions/github_pr.py: default_action_plan, which proposes the actions of a run.
pub mod Closing
use Prim.Native.String.{◌++◌}
use mathlib.Core.List.{◌++◌ as append}
use tandem_agents.Prelude.{
  ℕ, String, Bool, true, false, ◌&&◌, ◌||◌, Option, none, some, List, [], ◌∷◌, str_eq, ltb, ◌==◌,
  if◌then◌else◌, select, any, strip, str_or, join_with,
}
use tandem_agents.Coordination.Rows.{Dict}
use tandem_agents.ExternalActions.Numbers.{decimal}

-- What a plan reads of its task. `close_policy` is the entry `external_action`, if it is a
-- dictionary: whether closing is allowed, and the numbers to which it is restricted (those that
-- `int` accepts, a negative one as `none`).
pub record PlanTask : Type 0 where
  pub title : String
  pub task_id : String
  pub identifier : String
  pub source_type : String
  pub close_policy : Option (Bool × List (Option ℕ))

pub record PrContext : Type 0 where
  pub number : ℕ
  pub base_repo : String

pub record Action : Type 0 where
  pub action_type : String
  pub target : Dict
  pub payload : Dict
  pub risk_level : String
  pub verification_marker : String

unfoldable pub close_opt_in : PlanTask → Bool × List (Option ℕ)
close_opt_in t = elim t.close_policy [ none ↦ (false, []) | some p ↦ p ]

no_numbers : List (Option ℕ) → Bool
no_numbers [] = true
no_numbers (n ∷ ns) = false

is_number : ℕ → Option ℕ → Bool
is_number n none = false
is_number n (some m) = m == n

-- Closing this pull request is asked for.
unfoldable pub close_requested : PlanTask → PrContext → Bool
unfolding close_opt_in no_numbers any is_number
close_requested t pr =
    let (allow, numbers) = close_opt_in t in
    allow && (no_numbers numbers || any (is_number pr.number) numbers)

unfoldable pub marker_of : String → PrContext → String
unfolding decimal
marker_of run_id pr = "aca:github-pr-action:" ++ run_id ++ ":pr-" ++ decimal pr.number

comment_body : String → PlanTask → PrContext → String → String
unfolding marker_of strip str_or
comment_body run_id t pr decision = strip (
    "ACA reviewed this PR from `"
    ++ strip (str_or t.title "ACA PR action")
    ++ "`.\n\nDecision: **"
    ++ decision
    ++ "**.\n\nThis action was proposed by ACA and executed only after operator approval.\n\n<!-- "
    ++ marker_of run_id pr
    ++ " -->")

unfoldable pub target_of : PrContext → Dict
unfolding decimal
target_of pr = ("pr_number", decimal pr.number) ∷ ("base_repo", pr.base_repo) ∷ []

unfoldable pub comment_action : String → PlanTask → PrContext → Action
unfolding close_requested comment_body target_of marker_of
comment_action run_id t pr = record {
  action_type = "comment_pr";
  target = target_of pr;
  payload =
      (
        "body",
        comment_body run_id t pr (
            if close_requested t pr
            then "close as duplicate/stale generated PR"
            else "reviewed; leaving open for operator decision"),
      )
      ∷ [];
  risk_level = "medium";
  verification_marker = marker_of run_id pr;
}

unfoldable pub decision_action : String → PlanTask → PrContext → Action
unfolding close_requested target_of marker_of
decision_action run_id t pr =
    let close : Action = record {
      action_type = "close_pr";
      target = target_of pr;
      payload = ("state", "closed") ∷ [];
      risk_level = "high";
      verification_marker = marker_of run_id pr;
    } in
    let leave : Action = record {
      action_type = "leave_open";
      target = target_of pr;
      payload = ("reason", "close_pr not opted in; leaving open for operator decision.") ∷ [];
      risk_level = "low";
      verification_marker = "";
    } in
    if close_requested t pr then close else leave

-- The actions for the pull requests; one without a number is passed over.
unfoldable pub pr_actions : String → PlanTask → List PrContext → List Action
unfolding comment_action decision_action
pr_actions run_id t [] = []
pr_actions run_id t (pr ∷ prs) =
    let rest = pr_actions run_id t prs in
    if ltb 0 pr.number
    then comment_action run_id t pr ∷ decision_action run_id t pr ∷ rest
    else rest

unfoldable pub has_type : String → Action → Bool
has_type ty a = str_eq a.action_type ty

pr_number : Dict → String
pr_number [] = "None"
pr_number ((k, v) ∷ d) = let rest = pr_number d in if str_eq k "pr_number" then v else rest

hashed : List Action → List String
unfolding pr_number
hashed [] = []
hashed (a ∷ more) = ("#" ++ pr_number a.target) ∷ hashed more

or_none : String → String
or_none s = str_or s "none"

unfoldable pub build_linear_summary : String → PlanTask → List Action → String
unfolding select has_type hashed join_with or_none strip str_or
build_linear_summary run_id t actions = strip (
    "ACA external-action plan for `"
    ++ run_id
    ++ "`.\n\nTask: "
    ++ str_or (str_or t.title t.task_id) "GitHub PR action"
    ++ "\n\nApproved close targets: "
    ++ or_none (join_with ", " (hashed (select (has_type "close_pr") actions)))
    ++ "\nLeft open / manual review: "
    ++ or_none (join_with ", " (hashed (select (has_type "leave_open") actions)))
    ++ "\n\nAll GitHub writes are approval-gated and verified after execution.\n\n<!-- aca:linear-external-action:"
    ++ run_id
    ++ " -->")

unfoldable pub summary_action : String → PlanTask → List Action → Action
unfolding build_linear_summary str_or
summary_action run_id t actions = record {
  action_type = "post_linear_summary";
  target = ("identifier", str_or t.identifier t.task_id) ∷ [];
  payload = ("body", build_linear_summary run_id t actions) ∷ [];
  risk_level = "medium";
  verification_marker = "aca:linear-external-action:" ++ run_id;
}

unfoldable pub default_action_plan : String → PlanTask → List PrContext → List Action
unfolding pr_actions summary_action
default_action_plan run_id t prs =
    let actions = pr_actions run_id t prs in append actions (summary_action run_id t actions ∷ [])
