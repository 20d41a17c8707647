-- ===== src/Samples/Scheduling.antt =====
-- A plan with a running task and three queued ones, and a tick of the dispatcher.
use tandem_agents.Prelude.{
  ℕ, ◌+◌, ◌≤◌, max, String, ◌≡◌, refl, ◌⊎◌, true, false, ◌&&◌, none, some, List, [], ◌∷◌, map,
  str_eq, if◌then◌else◌, length, All, count, any, strip,
}
use tandem_agents.Coordination.Rows.{OutboxRow}
use tandem_agents.Coordination.Outbox.{enqueue_outbox, has_id}
use tandem_agents.Scheduling.Admission.{
  is_nil, Task, Scope, Config, limits_of, plan_admissions, plan_task_admissions, any_waiting,
}
use tandem_agents.Scheduling.Admission.Rounds.{plan-exhausts}
use tandem_agents.Scheduling.Admission.Capacity.{plan-total_limit}
use tandem_agents.Scheduling.Admission.Quotas.{plan-limits}
use tandem_agents.Scheduling.Admission.Overlap.{Clear, plan-no_clash}
use tandem_agents.Scheduling.Keys.{LedgerTask, same_scope, task_file_scopes}
use tandem_agents.Scheduling.Keys.Scopes.{task_file_scopes-distinct}
use tandem_agents.Scheduling.Dispatcher.{
  unreadable, Connectors, warning, broken, dispatch_outbox_tick,
}
use tandem_agents.Scheduling.Dispatcher.Settling.{tick-settles}

abbrev sample_config : Config
sample_config = record {
  max_active_tasks = 3;
  max_concurrent_worker_runs = 3;
  max_active_tasks_per_project = 2;
  max_active_tasks_per_repo = 3;
}

abbrev task_of : String → String → List Scope → Task
task_of key project scopes = record {
  task_key = key;
  project_key = project;
  repo_key = "acme/app";
  scopes = scopes;
}

abbrev running : List Task
running = task_of "t-0" "ops" (("src" ∷ "api" ∷ []) ∷ []) ∷ []

-- The second overlaps with the running task, the fourth finds no slot.
abbrev queue : List Task
queue =
    task_of "t-1" "web" (("docs" ∷ []) ∷ [])
    ∷ task_of "t-2" "ops" (("src" ∷ "api" ∷ "db.py" ∷ []) ∷ [])
    ∷ task_of "t-3" "web" (("tests" ∷ []) ∷ [])
    ∷ task_of "t-4" "web" (("web" ∷ []) ∷ [])
    ∷ []

plan-no_clash_example :
    Clear running
      (map (λ e. e.task) (plan_task_admissions sample_config 1 running queue).0.admitted)
plan-no_clash_example = plan-no_clash sample_config 1 running queue

plan-total_limit_example :
    length running + length (plan_task_admissions sample_config 1 running queue).0.admitted
    ≤ max (length running) (max 1 sample_config.max_active_tasks)
plan-total_limit_example = plan-total_limit sample_config 1 running queue

plan-limits_example :
    let admitted = (plan_task_admissions sample_config 1 running queue).0.admitted in
    (count (λ t. str_eq "web" t.project_key) running
        + count (λ e. str_eq "web" e.task.project_key) admitted
      ≤ max
          (count (λ t. str_eq "web" t.project_key) running)
          (max 1 sample_config.max_active_tasks_per_project))
    × (count (λ t. str_eq "acme/app" t.repo_key) running
          + count (λ e. str_eq "acme/app" e.task.repo_key) admitted
        ≤ max
            (count (λ t. str_eq "acme/app" t.repo_key) running)
            (max 1 sample_config.max_active_tasks_per_repo))
    × ((sample_config.max_concurrent_worker_runs ≡ 0)
        ⊎ (max (length running) 1 + length admitted
            ≤ max (max (length running) 1) sample_config.max_concurrent_worker_runs))
plan-limits_example = plan-limits sample_config 1 running queue "web" "acme/app"

still_waiting : any_waiting (plan_admissions (limits_of sample_config 1 1) running queue).1 ≡ true
unfolding plan_admissions limits_of any_waiting any
still_waiting = refl

plan-exhausts_example :
    (limits_of sample_config 1 1).max_total
    ≤ length (plan_admissions (limits_of sample_config 1 1) running queue).0.admitted
plan-exhausts_example = plan-exhausts (limits_of sample_config 1 1) running queue still_waiting

abbrev outbox : List OutboxRow
outbox =
    (enqueue_outbox 100
      (record {
        kind = "github_issue.comment";
        aggregate_type = "issue";
        aggregate_id = "7";
        payload = ("body", "done") ∷ [];
        dedupe_key = some "c-7";
      })
      []).0

-- GitHub raises, Linear cannot be reached.
abbrev connectors : Connectors
connectors = record {
  connection_error = λ c. if str_eq c "linear" then some "offline" else none;
  update_status = λ o. warning none;
  comment = λ o body. broken "timeout";
  create_pull_request = λ o. warning (some "no url");
  comment_body = λ d. "report";
  labels = λ d. [];
  marker_present = λ o m. unreadable "Linear returned no comments";
}

abbrev noon : ℕ → ℕ
noon n = 2000

tick-settles_example :
    let o = dispatch_outbox_tick connectors noon 1000 25 outbox in
    All (λ r. count (λ x. has_id r.id x && str_eq x.status "processing") o.0 ≡ 0) o.1.claimed
    × (length o.1.settled ≡ length o.1.claimed)
tick-settles_example = tick-settles connectors noon 1000 25 outbox

abbrev ledger_task : LedgerTask
ledger_task = record {
  fields = ("task_key", "t-9") ∷ [];
  repo = ("slug", "acme/app") ∷ [];
  source = [];
  source_repo = [];
  source_source = [];
  paths = ("./src/api" ∷ "/src//api/" ∷ []) ∷ [] ∷ ("docs" ∷ []) ∷ [];
}

task_file_scopes-distinct_example :
    (count (same_scope ("src" ∷ "api" ∷ [])) (task_file_scopes ledger_task) ≤ 1)
    × All (λ x. is_nil x ≡ false) (task_file_scopes ledger_task)
task_file_scopes-distinct_example = task_file_scopes-distinct ledger_task ("src" ∷ "api" ∷ [])

two_scopes : task_file_scopes ledger_task ≡ ("src" ∷ "api" ∷ []) ∷ ("docs" ∷ []) ∷ []
unfolding task_file_scopes strip any
two_scopes = refl
