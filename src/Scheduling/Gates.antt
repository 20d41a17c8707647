-- ===== src/Scheduling/Gates.antt =====
-- core/scheduling/scheduler.py, plan_task_admissions before its queues: the gates that withhold a
-- queued task, and the plan over the tasks that pass them.
pub mod Passing
use tandem_agents.Prelude.{
  ℕ, String, Bool, not, ◌&&◌, ◌||◌, Option, none, some, List, [], ◌∷◌, map, str_eq, if◌then◌else◌,
  length, any, strip, lower, str_or,
}
use tandem_agents.Coordination.Rows.{OutboxRow}
use tandem_agents.Coordination.TaskKey.{nonempty}
use tandem_agents.Scheduling.Admission.{Task, Config, Plan, Queues, plan_task_admissions}
use tandem_agents.Scheduling.Keys.{LedgerTask, dict_or, planned_task}
use tandem_agents.Scheduling.Triage.{Issue, Outcome, TriageConfig, is_accepted, triage_task}
use tandem_agents.Scheduling.Triage.Escalation.{escalate_triaged_task}

-- A queued task: its entry in the ledger, what triage reads of it, and whether its
-- `dependency_status` says that it is blocked.
pub record Candidate : Type 0 where
  pub ledger : LedgerTask
  pub issue : Issue
  pub dependency_blocked : Bool

-- What `list_active_coder_task_refs` tells of a coder run.
pub record CoderRef : Type 0 where
  pub task_key : String
  pub task_id : String

-- The configuration of triage, the reason for which the Linear server cannot be used, if any, and
-- the coder runs that are active.
pub record Surroundings : Type 0 where
  pub triage : TriageConfig
  pub linear_blocker : Option String
  pub coder_runs : List CoderRef

pub data Gate : Type 0 where
  triage_gate : Outcome → Gate
  linear_gate : (reason : String) → Gate
  dependency_gate : Gate
  coder_run_gate : Gate

unfoldable pub task_source_type : LedgerTask → String
unfolding dict_or nonempty lower
task_source_type t =
    lower (
      str_or (nonempty (dict_or t.source t.source_source) "type") (nonempty t.fields "source_type"))

unfoldable pub is_linear : Candidate → Bool
unfolding task_source_type
is_linear c = str_eq (task_source_type c.ledger) "linear"

-- _linear_mcp_admission_blocker
unfoldable pub linear_admission_blocker : Surroundings → List Candidate → Option String
unfolding any is_linear
linear_admission_blocker env queued = if any is_linear queued then env.linear_blocker else none

-- A coder run works on the task, by its key or by its id.
unfoldable pub coder_run_active : List CoderRef → Candidate → Bool
unfolding any nonempty strip
coder_run_active refs c =
    let task_key = nonempty c.ledger.fields "task_key" in
    let task_id = nonempty c.ledger.fields "task_id" in
    (not (str_eq task_key "") && any (λ (r : CoderRef). str_eq (strip r.task_key) task_key) refs)
    || (not (str_eq task_id "") && any (λ (r : CoderRef). str_eq (strip r.task_id) task_id) refs)

withheld_by_triage : Surroundings → Candidate → Bool
unfolding triage_task is_accepted
withheld_by_triage env c =
    env.triage.enabled
    && env.triage.enforce
    && not (is_accepted (triage_task env.triage c.issue).verdict)

linear_gate_of : Option String → Candidate → Option Gate
unfolding is_linear
linear_gate_of none c = none
linear_gate_of (some reason) c = if is_linear c then some (linear_gate reason) else none

-- The first gate that withholds the task, where `blocker` is what blocks the tasks from Linear.
unfoldable pub gate : Surroundings → Option String → Candidate → Option Gate
unfolding withheld_by_triage triage_task linear_gate_of coder_run_active
gate env blocker c =
    if withheld_by_triage env c
    then some (triage_gate (triage_task env.triage c.issue).verdict)
    else elim (linear_gate_of blocker c) [
      | some g ↦ some g
      | none ↦
          if c.dependency_blocked
          then some dependency_gate
          else if coder_run_active env.coder_runs c
          then some coder_run_gate
          else none
    ]

-- The tasks that the gates withhold, those that pass, and the outbox with the escalations.
pub record Gated : Type 0 where
  pub withheld : List (Candidate × Gate)
  pub passed : List Candidate
  pub outbox : List OutboxRow

withhold : Candidate → Gate → Gated → Gated
withhold c g r = record r { withheld = (c, g) ∷ r.withheld }

let_pass : Candidate → Gated → Gated
let_pass c r = record r { passed = c ∷ r.passed }

-- The outbox after the gate of triage.
unfoldable pub after_triage : Surroundings → ℕ → Candidate → List OutboxRow → List OutboxRow
unfolding withheld_by_triage escalate_triaged_task triage_task
after_triage env now c rows =
    if withheld_by_triage env c
    then (escalate_triaged_task now c.issue (triage_task env.triage c.issue) rows).0
    else rows

-- The loop over the queued tasks. A message is sent at the time `ticks n` with n tasks left.
unfoldable pub pass_gates :
    Surroundings → Option String → (ℕ → ℕ) → List Candidate → List OutboxRow → Gated
unfolding gate after_triage withhold let_pass
pass_gates env blocker ticks [] rows = record { withheld = []; passed = []; outbox = rows }
pass_gates env blocker ticks (c ∷ cs) rows =
    let rest = pass_gates env blocker ticks cs (after_triage env (ticks (length cs)) c rows) in
    elim (gate env blocker c) [ some g ↦ withhold c g rest | none ↦ let_pass c rest ]

unfoldable pub planned : Candidate → Task
unfolding planned_task
planned c = planned_task c.ledger

-- The whole plan: the gates, then the queues over the tasks that pass.
unfoldable pub plan_with_gates :
    Config
    → Surroundings
    → (ℕ → ℕ)
    → (active : List Task) → (queued : List Candidate) → List OutboxRow
    → Gated × Plan × Queues
unfolding pass_gates linear_admission_blocker plan_task_admissions planned
plan_with_gates cfg env ticks active queued rows =
    let gated = pass_gates env (linear_admission_blocker env queued) ticks queued rows in
    let outcome =
      plan_task_admissions cfg (length env.coder_runs) active (map planned gated.passed) in
    (gated, outcome.0, outcome.1)
