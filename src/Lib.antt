-- ===== src/Lib.antt =====
-- Verification of tandem-agents: the durable ledger by which workers share tasks, and the scheduler
-- on top of it.
--
-- The program. Workers on several hosts take tasks from one database. A worker that takes a task
-- holds a lease on it and keeps the lease alive by heartbeats. Reapers end the leases that expired
-- and those of workers that were not seen for a while, and the task can be taken again. A scheduler
-- plans which of the queued tasks may start next to the running ones. What a run has to tell GitHub
-- or Linear goes through an outbox, which a dispatcher empties; what a run wants to change there
-- waits for the approval of a person. Before a task is planned, triage decides whether workers may
-- take it on their own; after the work, a policy decides from the reports of a reviewer and a tester
-- and from the checks of the repository whether it passes, and a pull request is merged without
-- a person only behind a list of gates. What an issue has spent counts against a budget. The tasks
-- of a repository without a tracker stand on a board in a file.
--
-- The parts (paths below src/tandem_agents/core of the repository):
--   Prelude               lists, tables with the SQL statements on them, texts
--   Coordination.Rows     coordination/schema.py, a record for each table
--   Coordination.Status   coordination/constants.py, task states of coordination/tasks.py
--   Coordination.Leases   coordination/leases.py: heartbeat_lease, release_lease, the reaper
--   Coordination.Workers  coordination/workers.py: register_worker, heartbeat_worker, the reaper
--   Coordination.TaskKey  coordination/tasks.py: _task_key, _task_payload
--   Coordination.Tasks    coordination/tasks.py: register_task, transition_task_state, mark_task_...
--   Coordination.Dependencies  task_contract.py: dependency_status_for_task
--   Coordination.Claim    coordination/tasks.py: claim_task, with its outcomes below it
--   Coordination.Exclusion, Reaping, Holding  properties of the leases
--   Coordination.Protocol the operations above as one state machine
--   Coordination.Ownership  coordination/tasks.py: task_ownership, list_tasks
--   Coordination.Runs     coordination/runners.py
--   Coordination.Outbox   coordination/outbox.py
--   Coordination.Approvals  coordination/approvals.py, and execute_approved_actions of
--                         external_actions/github_pr.py
--   ExternalActions       external_actions/github_pr.py: extract_pr_numbers, default_action_plan,
--                         validate_action, enqueue_approvals_for_plan
--   Scheduling.Admission  scheduling/scheduler.py: plan_task_admissions from its queues on
--   Scheduling.Gates      scheduling/scheduler.py: plan_task_admissions, the gates before the queues
--   Scheduling.Triage     triage.py
--   Scheduling.Keys, Paths  scheduling/scheduler.py: task_project_key, task_repo_key,
--                         task_file_scopes
--   Scheduling.Dispatcher scheduling/outbox_dispatcher.py: dispatch_outbox_tick
--   Scheduling.Repairs    scheduling/coder_supervisor.py: _repair_gate_decision, and the decision and
--                         the outcomes of _start_pr_repair_pass
--   Contracts             task_contract.py: task_contract_completeness, task_plan_validation
--   Budget                budget.py
--   Board                 repository/board.py
--   Verification.RepoTruth  repository/repo_truth.py: run_command_checks,
--                         deterministic_repo_validation, its message and kind of blocker
--   Verification.Reports, Policy  verification/verification_policy.py
--   PullRequests          integrations/github_mcp.py: the states of a pull request and
--                         guarded_auto_merge
--   PullRequests.Supervision, Watching  scheduling/coder_supervisor.py:
--                         _is_pr_lifecycle_supervisable, _refresh_pr_lifecycle_for_run
--   Samples               concrete stores, queues and histories
--
-- How the model reads the code. A table is the list of its rows, an UPDATE or an upsert a function
-- of it, a method a function of the store that returns the store and its result; the tables that an
-- operation does not touch are left out of its arguments. A transaction is one step, at the time
-- `now` that the method reads from its clock, and no order of these times is assumed. The unique
-- index on active leases is a test after the insert, and its exception a result. A refused claim
-- returns before its commit, so its reaping is rolled back. Identifiers that the code draws at
-- random are arguments. The calls of the connectors are parameters, which may answer or raise as
-- they like, also in the dispatcher. A JSON column holds what the code writes to it as data. A JSON
-- value that comes from outside (a report, a card, the data of a pull request) is a value of
-- Verification.Json with Python's truth and `str`, of which only the text of a list, of a dictionary
-- and of a number is a parameter. Where Python raises a TypeError the result is `none`. The clock of
-- a loop over several items is a function of the number of items that are left.
--
-- Bounds. Numbers have no upper bound, as in Python. Comparisons with a time minus a duration are
-- written with a sum, and the remaining subtractions stop at 0 where the source has `max(0, ...)`.
-- The loop of the scheduler runs on fuel, the number of queued tasks, and each round takes a task
-- off a queue. Costs are whole numbers of a unit that is small enough.
--
-- Not modelled: the connections, locks and threads of SQLite and Postgres; the parser of issue
-- bodies; letters outside ASCII in `lower`, `slugify` and the words of triage; how the state of the
-- Linear server is asked for; the choice of files and commands to check, which reads the file system;
-- the clients of GitHub and Linear but for the parts above; the text of the board in Markdown; the
-- phases of a run with their prompts, the command line, the HTTP interface and
-- the configuration, which are input and output around this core.
pub mod Prelude
pub mod Coordination
pub mod Scheduling
pub mod Verification
pub mod Contracts
pub mod Board
pub mod Budget
pub mod ExternalActions
pub mod PullRequests
pub mod Samples
