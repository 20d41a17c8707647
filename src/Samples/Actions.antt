-- ===== src/Samples/Actions.antt =====
-- What a run spends, the issue that triage does not accept, and the actions that a run proposes.
use tandem_agents.Prelude.{
  ℕ, ◌≤◌, String, ◌≡◌, refl, true, not, ◌&&◌, none, some, List, [], ◌∷◌, map, arith, str_eq, ltb,
  ◌==◌, if◌then◌else◌, select, count, any, join_with,
}
use tandem_agents.Coordination.Rows.{Dict, ApprovalRow}
use tandem_agents.Coordination.Outbox.{Message, has_dedupe_key}
use tandem_agents.Scheduling.Triage.{Issue, TriageConfig, Verdict, triage_task}
use tandem_agents.Scheduling.Triage.Escalation.{
  escalation, escalate_triaged_task, escalation_reopens,
}
use tandem_agents.Budget.{
  Budget, CoderResult, executions, is_exhausted, record_passes, executions_exhaust,
}
use tandem_agents.ExternalActions.Numbers.{extract_pr_numbers, numbers_of, first_mentions}
use tandem_agents.ExternalActions.Plan.{PlanTask, PrContext, has_type, default_action_plan}
use tandem_agents.ExternalActions.Plan.Closing.{permits, closing_of, plan-closes}
use tandem_agents.ExternalActions.Queueing.{
  raw_of, RawAction, enqueue_approvals_for_plan, queueing-approves_none,
}

abbrev budget : Budget
budget = record { max_tokens = 0; max_cost_usd = 0; max_coder_executions = 2 }

abbrev silent_pass : CoderResult
silent_pass = record { own = ("status", 0) ∷ []; parts = [] }

two_executions : 2 ≤ executions ((silent_pass, 1) ∷ (silent_pass, 1) ∷ [])
unfolding executions
two_executions = omega arith

executions_exhaust_example :
    is_exhausted (record_passes ((silent_pass, 1) ∷ (silent_pass, 1) ∷ []) none) budget ≡ true
executions_exhaust_example =
    executions_exhaust ((silent_pass, 1) ∷ (silent_pass, 1) ∷ []) budget (omega arith)
      two_executions

abbrev vague_issue : Issue
vague_issue = record {
  task_key = "github:acme/app:7";
  task_id = "7";
  title = "Make it nicer";
  description = "";
  raw_issue_body = "";
  labels = [];
  source_labels = [];
  contract_criteria = none;
  criteria = none;
  source_type = "github";
}

abbrev triage_config : TriageConfig
triage_config = record { enabled = true; enforce = true; allowed_classes = "" }

abbrev vague_verdict : Verdict
vague_verdict = triage_task triage_config vague_issue

sent : (m : Message) × (escalation vague_issue vague_verdict ≡ some m)
unfolding escalation triage_task
sent = (_, refl)

escalation_reopens_example :
    count
      (λ o. has_dedupe_key sent.0.dedupe_key o && not (str_eq o.status "pending"))
      (escalate_triaged_task 100 vague_issue vague_verdict []).0
    ≡ 0
escalation_reopens_example = escalation_reopens 100 vague_issue vague_verdict sent.0 [] sent.1

mentioned :
    extract_pr_numbers (record {
      title = "Close #12 and #7";
      description = "see #305, #7";
      acceptance_criteria = "#4" ∷ "#5" ∷ [];
      raw_issue_body = "#77";
    })
    ≡ 12 ∷ 7 ∷ 305 ∷ 4 ∷ 5 ∷ 77 ∷ []
unfolding extract_pr_numbers numbers_of first_mentions join_with any
mentioned = refl

-- The task asks to close the pull request 12.
abbrev plan_task : PlanTask
plan_task = record {
  title = "Tidy the pull requests";
  task_id = "T-1";
  identifier = "ACME-1";
  source_type = "linear";
  close_policy = some (true, some 12 ∷ []);
}

abbrev contexts : List PrContext
contexts =
    record { number = 12; base_repo = "acme/app" }
    ∷ record { number = 14; base_repo = "acme/app" }
    ∷ []

plan-closes_example :
    map
      (λ a. (a.target, a.payload))
      (select (has_type "close_pr") (default_action_plan "run-1" plan_task contexts))
    ≡ map closing_of
        (select (λ pr. ltb 0 pr.number && permits plan_task.close_policy pr.number) contexts)
plan-closes_example = plan-closes "run-1" plan_task contexts

abbrev dumps : Dict → String
dumps d = "{}"

abbrev action_id : ℕ → String
action_id n = if n == 0 then "a-0" else "a-1"

abbrev proposed : List RawAction
proposed = map raw_of (default_action_plan "run-1" plan_task contexts)

queueing-approves_none_example :
    let after =
      (enqueue_approvals_for_plan dumps (λ n. 100) action_id "run-1" plan_task proposed []).0 in
    (count (λ a. str_eq a.action_type "leave_open") after
      ≡ count (λ (a : ApprovalRow). str_eq a.action_type "leave_open") [])
    × (count (λ a. str_eq a.status "approved") after
        ≡ count (λ (a : ApprovalRow). str_eq a.status "approved") [])
queueing-approves_none_example =
    queueing-approves_none dumps (λ n. 100) action_id "run-1" plan_task proposed []
