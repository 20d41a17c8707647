-- ===== src/Coordination/Claim.antt =====
-- core/coordination/tasks.py, `claim_task`: the transaction by which a worker takes a task.
pub mod Exclusive
pub mod Outcome
pub mod Refusal
pub mod Grant
pub mod Resolved
use tandem_agents.Prelude.{
  Bool, ℕ, ◌+◌, String, true, false, not, ◌&&◌, Option, none, some, List, [], ◌∷◌, str_eq, ltb,
  if◌then◌else◌, select, fetch_one, count, upsert, order_desc,
}
use tandem_agents.Coordination.Rows.{
  Dict, TaskDict, task, repo, text, TaskRow, RunRow, WorkerRow, LeaseRow, Store,
}
use tandem_agents.Coordination.Status.{
  default_lease_ttl_seconds, default_worker_stale_after_seconds, duration_ms,
}
use tandem_agents.Coordination.Leases.{
  has_lease_id, active_for, get_lease, next_attempt, reap_expired_leases_locked,
}
use tandem_agents.Coordination.Workers.{has_worker_id, reap_stale_workers_locked}
use tandem_agents.Coordination.Tasks.{
  is_task, get_task, payload_row, Transition, apply_task_state_locked,
}
use tandem_agents.Coordination.TaskKey.{task_payload}
use tandem_agents.Coordination.Dependencies.{DependencyStatus, dependency_status_for_task}

-- The arguments of `claim_task`.
pub record ClaimRequest : Type 0 where
  pub task : TaskDict
  pub repo : Dict
  pub run_id : String
  pub worker_id : String
  pub host_id : String
  pub role : String
  pub lease_ttl_seconds : ℕ
  pub branch_name : Option String

pub data ClaimResult : Type 0 where
  claimed : Option LeaseRow → Option TaskRow → ClaimResult
  dependency_blocked : DependencyStatus → ClaimResult
  active_lease_exists : Option TaskRow → LeaseRow → ClaimResult
  -- the exception that a violated index raises
  integrity_error : ClaimResult

text_of : Option String → String
text_of none = ""
text_of (some s) = s

-- The row of a new lease.
unfoldable pub new_lease : ℕ → String → ℕ → ClaimRequest → LeaseRow
unfolding task_payload duration_ms text_of
new_lease now lease_id attempt r =
    let p = task_payload r.task r.repo in
    record {
      lease_id = lease_id;
      task_key = p.task_key;
      task_id = p.task_id;
      run_id = r.run_id;
      worker_id = r.worker_id;
      host_id = r.host_id;
      role = r.role;
      status = "active";
      attempt = attempt;
      acquired_at_ms = now;
      heartbeat_at_ms = now;
      expires_at_ms = now + duration_ms default_lease_ttl_seconds r.lease_ttl_seconds;
      released_at_ms = none;
      release_reason = none;
      metadata =
          ("task", task r.task)
          ∷ ("repo", repo r.repo)
          ∷ ("branch_name", text (text_of r.branch_name))
          ∷ [];
    }

-- INSERT INTO leases … ON CONFLICT(lease_id) DO UPDATE, under the unique index on the task keys of
-- the active leases; `none` is the violation.
unfoldable pub insert_lease : LeaseRow → List LeaseRow → Option (List LeaseRow)
unfolding has_lease_id active_for upsert count
insert_lease row leases =
    let leases' = upsert (has_lease_id row.lease_id) (λ _. row) row leases in
    if ltb 1 (count (active_for row.task_key) leases') then none else some leases'

-- INSERT INTO runs … DO UPDATE: a known run keeps its status, phase and times.
unfoldable pub insert_run : ℕ → LeaseRow → ClaimRequest → List RunRow → List RunRow
unfolding task_payload upsert
insert_run now lease r =
    let p = task_payload r.task r.repo in
    let row : RunRow = record {
      run_id = r.run_id;
      task_key = p.task_key;
      task_id = p.task_id;
      repo_slug = p.repo_slug;
      repo_path = p.repo_path;
      branch_name = r.branch_name;
      status = "created";
      phase = "bootstrap";
      worker_id = r.worker_id;
      host_id = r.host_id;
      lease_id = some lease.lease_id;
      created_at_ms = now;
      updated_at_ms = now;
      started_at_ms = none;
      completed_at_ms = none;
      error = none;
      metadata = ("task", task r.task) ∷ ("repo", repo r.repo) ∷ [];
    } in
    upsert (λ x. str_eq x.run_id r.run_id)
      (λ x. record row {
        status = x.status;
        phase = x.phase;
        created_at_ms = x.created_at_ms;
        started_at_ms = x.started_at_ms;
        completed_at_ms = x.completed_at_ms;
        error = x.error;
      })
      row

-- INSERT INTO tasks … DO UPDATE: only `created_at_ms` is kept.
unfoldable pub insert_task : ℕ → LeaseRow → ClaimRequest → List TaskRow → List TaskRow
unfolding task_payload payload_row upsert
insert_task now lease r =
    let p = task_payload r.task r.repo in
    let row : TaskRow = record (payload_row now "claimed" p) {
      claimed_run_id = some r.run_id;
      claimed_lease_id = some lease.lease_id;
      claimed_by = some r.worker_id;
      claimed_host_id = some r.host_id;
      lease_expires_at_ms = some lease.expires_at_ms;
    } in
    upsert (is_task p.task_key) (λ t. record row { created_at_ms = t.created_at_ms }) row

-- INSERT INTO workers … DO UPDATE: a known worker keeps its capabilities.
unfoldable pub insert_worker : ℕ → LeaseRow → ClaimRequest → List WorkerRow → List WorkerRow
unfolding upsert
insert_worker now lease r =
    let row : WorkerRow = record {
      worker_id = r.worker_id;
      host_id = r.host_id;
      role = r.role;
      status = "busy";
      capabilities = [];
      current_run_id = some r.run_id;
      current_lease_id = some lease.lease_id;
      last_seen_at_ms = now;
      created_at_ms = now;
      updated_at_ms = now;
    } in
    upsert (has_worker_id r.worker_id)
      (λ w. record row { capabilities = w.capabilities; created_at_ms = w.created_at_ms }) row

unfoldable pub claim_transition : LeaseRow → ClaimRequest → Transition
claim_transition lease r = record {
  status = some "claimed";
  lease_expires_at_ms = some lease.expires_at_ms;
  run_id = some r.run_id;
  lease_id = some lease.lease_id;
  worker_id = some r.worker_id;
  host_id = some r.host_id;
  reason = none;
  metadata = ("task", task r.task) ∷ ("repo", repo r.repo) ∷ [];
  clear_claim = false;
}

-- The inserts behind the checks, on the leases that the first one wrote.
unfoldable pub record_claim : ℕ → LeaseRow → ClaimRequest → List LeaseRow → Store → Store
unfolding insert_run insert_task insert_worker claim_transition apply_task_state_locked
record_claim now lease r leases s =
    apply_task_state_locked now lease.task_key "claimed" (claim_transition lease r) (record s {
      leases = leases;
      runs = insert_run now lease r s.runs;
      tasks = insert_task now lease r s.tasks;
      workers = insert_worker now lease r s.workers;
    })

-- What the transaction reads: the store after both reapers ran in it.
unfoldable pub reaped : ℕ → Store → Store
unfolding reap_expired_leases_locked reap_stale_workers_locked
reaped now s =
    reap_stale_workers_locked now default_worker_stale_after_seconds
      (reap_expired_leases_locked now s)

-- `known_tasks if known_tasks else None`, the task itself left out.
unfoldable pub known_tasks : String → List TaskRow → Option (List TaskRow)
unfolding is_task select
known_tasks task_key tasks = elim (select (λ t. not (is_task task_key t)) tasks) [
  | [] ↦ none
  | t ∷ ts ↦ some (t ∷ ts)
]

unfoldable pub claim_dependencies : ClaimRequest → Store → DependencyStatus
unfolding known_tasks dependency_status_for_task
claim_dependencies r s =
    dependency_status_for_task r.task (known_tasks (task_payload r.task r.repo).task_key s.tasks)

-- The active lease that stands in the way, the one that expires last first.
unfoldable pub blocking_lease : ℕ → String → List LeaseRow → Option LeaseRow
unfolding active_for select order_desc fetch_one
blocking_lease now task_key leases =
    fetch_one (λ _. true)
      (order_desc (λ l. l.expires_at_ms)
        (select (λ l. active_for task_key l && ltb now l.expires_at_ms) leases))

-- What the body of `claim_task` leaves: the tables in its transaction, whether it reached the commit,
-- and what it returns or raises.
pub record Attempt : Type 0 where
  pub working : Store
  pub committed : Bool
  pub result : ClaimResult

-- The body, from the reapers to the commit. What a granted claim returns is read after the commit.
unfoldable pub claim_body : ℕ → String → ClaimRequest → Store → Attempt
unfolding reaped claim_dependencies blocking_lease insert_lease record_claim new_lease get_lease
    get_task
claim_body now lease_id r s =
    let key = (task_payload r.task r.repo).task_key in
    let s1 = reaped now s in
    let dependencies = claim_dependencies r s1 in
    let lease = new_lease now lease_id (next_attempt key s1.leases) r in
    if dependencies.blocked
    then record { working = s1; committed = false; result = dependency_blocked dependencies }
    else elim (blocking_lease now key s1.leases) [
      | some active ↦ record {
        working = s1;
        committed = false;
        result = active_lease_exists (get_task key s1.tasks) active;
      }
      | none ↦ elim (insert_lease lease s1.leases) [
        | none ↦ record { working = s1; committed = false; result = integrity_error }
        | some leases ↦
            let s2 = record_claim now lease r leases s1 in
            record {
              working = s2;
              committed = true;
              result = claimed (get_lease lease_id s2.leases) (get_task key s2.tasks);
            }
      ]
    ]

-- Closing the connection rolls back what was not committed.
unfoldable pub closed : Store → Attempt → Store × ClaimResult
closed s a = (if a.committed then a.working else s, a.result)

unfoldable pub claim_task : ℕ → String → ClaimRequest → Store → Store × ClaimResult
unfolding closed claim_body
claim_task now lease_id r s = closed s (claim_body now lease_id r s)
