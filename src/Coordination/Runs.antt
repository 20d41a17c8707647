-- ===== src/Coordination/Runs.antt =====
-- core/coordination/runners.py: the records of runs.
use mathlib.Core.Option
use tandem_agents.Prelude.{
  ℕ, String, ◌≡◌, refl, ap, ◌∙◌, inl, inr, Bool, Option, none, some, List, [], ◌∷◌, str_eq,
  if◌then◌else◌, Bool-cases, fetch_one, update_where, upsert, fetch_one-update,
}
use tandem_agents.Coordination.Rows.{Dict, TaskDict, task, repo, Metadata, RunRow, coalesce}
use tandem_agents.Coordination.TaskKey.{task_payload}

unfoldable pub has_run_id : String → RunRow → Bool
has_run_id run_id r = str_eq r.run_id run_id

unfoldable pub get_run : String → List RunRow → Option RunRow
unfolding has_run_id
get_run run_id = fetch_one (has_run_id run_id)

-- The arguments of `record_run_start`.
pub record RunStart : Type 0 where
  pub run_id : String
  pub task : TaskDict
  pub repo : Dict
  pub worker_id : String
  pub host_id : String
  pub lease_id : Option String
  pub branch_name : Option String
  pub phase : String
  pub status : String

unfoldable pub started_run : ℕ → RunStart → RunRow
unfolding task_payload
started_run now r =
    let p = task_payload r.task r.repo in
    record {
      run_id = r.run_id;
      task_key = p.task_key;
      task_id = p.task_id;
      repo_slug = p.repo_slug;
      repo_path = p.repo_path;
      branch_name = r.branch_name;
      status = r.status;
      phase = r.phase;
      worker_id = r.worker_id;
      host_id = r.host_id;
      lease_id = r.lease_id;
      created_at_ms = now;
      updated_at_ms = now;
      started_at_ms = some now;
      completed_at_ms = none;
      error = none;
      metadata = ("task", task r.task) ∷ ("repo", repo r.repo) ∷ [];
    }

-- ON CONFLICT(run_id) DO UPDATE: the creation, the first start, the completion and the error stay.
unfoldable pub restarted_run : RunRow → RunRow → RunRow
unfolding coalesce
restarted_run new old = record new {
  created_at_ms = old.created_at_ms;
  started_at_ms = coalesce old.started_at_ms new.started_at_ms;
  completed_at_ms = old.completed_at_ms;
  error = old.error;
}

-- For `none` the code returns a small dictionary with the status and the phase.
unfoldable pub record_run_start : ℕ → RunStart → List RunRow → List RunRow × Option RunRow
unfolding has_run_id started_run restarted_run get_run
record_run_start now r runs =
    let row = started_run now r in
    let runs' = upsert (has_run_id r.run_id) (restarted_run row) row runs in
    (runs', get_run r.run_id runs')

-- The keyword arguments of `update_run`; `none` leaves a column.
pub record RunUpdate : Type 0 where
  pub status : Option String
  pub phase : Option String
  pub error : Option String
  pub lease_id : Option String
  pub branch_name : Option String
  pub metadata : Option Metadata
  pub started : Bool
  pub completed : Bool

given {ℓ} : {A : Type ℓ} → Option A → A → A
given none old = old
given (some new) old = new

unfoldable pub updated_run : ℕ → RunUpdate → RunRow → RunRow
unfolding given coalesce
updated_run now u r = record r {
  updated_at_ms = now;
  status = given u.status r.status;
  phase = given u.phase r.phase;
  error = coalesce u.error r.error;
  lease_id = coalesce u.lease_id r.lease_id;
  branch_name = coalesce u.branch_name r.branch_name;
  started_at_ms = if u.started then coalesce r.started_at_ms (some now) else r.started_at_ms;
  completed_at_ms = if u.completed then some now else r.completed_at_ms;
  metadata = given u.metadata r.metadata;
}

unfoldable pub update_run : ℕ → String → RunUpdate → List RunRow → List RunRow × Option RunRow
unfolding get_run has_run_id updated_run
update_run now run_id u runs = elim (get_run run_id runs) [
  | none ↦ (runs, none)
  | some row ↦
      let runs' = update_where (has_run_id run_id) (updated_run now u) runs in
      (runs', get_run run_id runs')
]

updated-keeps_start :
    (now at : ℕ) (u : RunUpdate) (r : RunRow)
    → r.started_at_ms ≡ some at
    → (updated_run now u r).started_at_ms ≡ some at
unfolding updated_run coalesce
updated-keeps_start now at u r h = elim (Bool-cases u.started) [
  | inl e ↦ rw (e, h) refl
  | inr e ↦ rw e h
]

-- The first start of a run stays: after any update of a run that started at a time, with or without
-- `started`, the update returns the row with that start.
pub update_run-keeps_start :
    (now at : ℕ) (run_id : String) (u : RunUpdate) (runs : List RunRow) (r : RunRow)
    → get_run run_id runs ≡ some r
    → r.started_at_ms ≡ some at
    → (row : RunRow) × ((update_run now run_id u runs).1 ≡ some row) × (row.started_at_ms ≡ some at)
unfolding update_run get_run has_run_id updated_run
update_run-keeps_start now at run_id u runs r e h = (
  updated_run now u r,
  rw (e, update_run)
      (fetch_one-update (has_run_id run_id) (updated_run now u) runs (λ x q. q)
        ∙ ap (Option.map (updated_run now u)) e),
  updated-keeps_start now at u r h,
)
