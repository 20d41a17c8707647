-- ===== src/Scheduling/Admission/Quotas.antt =====
-- core/scheduling/scheduler.py, plan_task_admissions: all limits of a plan at once.
use tandem_agents.Prelude.{
  ℕ, ◌+◌, ◌≤◌, max, String, ◌≡◌, refl, sym, ap, ◌⊎◌, inl, inr, List, [], ◌∷◌, arith, str_eq, ◌==◌,
  if◌then◌else◌, Bool-cases, length, All, count,
}
use tandem_agents.Scheduling.Admission.{Task, Config, Entry, plan_task_admissions}
use tandem_agents.Scheduling.Admission.Origin.{plan-own_project}
use tandem_agents.Scheduling.Admission.Capacity.{
  plan-project_limit, plan-repo_limit, plan-worker_limit,
}

worker_limit_or_none :
    (cfg : Config) (coder_runs : ℕ) (active queued : List Task)
    → (cfg.max_concurrent_worker_runs ≡ 0)
      ⊎ (max (length active) coder_runs
            + length (plan_task_admissions cfg coder_runs active queued).0.admitted
          ≤ max (max (length active) coder_runs) cfg.max_concurrent_worker_runs)
worker_limit_or_none cfg coder_runs active queued =
    elim (Bool-cases (cfg.max_concurrent_worker_runs == 0)) [
      | inl e ↦ inl (ground (arith, e))
      | inr e ↦ inr (plan-worker_limit cfg coder_runs active queued (ground (arith, e)))
    ]

-- The entries that wait under a project are the tasks of that project.
count-labels :
    (project : String) (es : List Entry)
    → All (λ e. e.project ≡ e.task.project_key) es
    → count (λ e. str_eq project e.project) es ≡ count (λ e. str_eq project e.task.project_key) es
unfolding count
count-labels project [] h = refl
count-labels project (e ∷ es) h = omega (
  arith,
  ap {B = ℕ} (λ (k : String). if str_eq project k then 1 else 0) h.0,
  count-labels project es h.1,
)

-- For each project key and each repository key, the running and the admitted tasks with this key are not more than
-- `max_active_tasks_per_project` and `max_active_tasks_per_repo` (each at least 1), and the busy
-- workers (the running tasks or the coder's runs, whichever are more) with the admitted tasks not
-- more than `max_concurrent_worker_runs` where this is set, unless more were running or busy before.
pub plan-limits :
    (cfg : Config) (coder_runs : ℕ) (active queued : List Task) (project repo : String)
    → let admitted = (plan_task_admissions cfg coder_runs active queued).0.admitted in
      (count (λ t. str_eq project t.project_key) active
          + count (λ e. str_eq project e.task.project_key) admitted
        ≤ max
            (count (λ t. str_eq project t.project_key) active)
            (max 1 cfg.max_active_tasks_per_project))
      × (count (λ t. str_eq repo t.repo_key) active
            + count (λ e. str_eq repo e.task.repo_key) admitted
          ≤ max (count (λ t. str_eq repo t.repo_key) active) (max 1 cfg.max_active_tasks_per_repo))
      × ((cfg.max_concurrent_worker_runs ≡ 0)
          ⊎ (max (length active) coder_runs + length admitted
              ≤ max (max (length active) coder_runs) cfg.max_concurrent_worker_runs))
plan-limits cfg coder_runs active queued project repo = (
  rw
      (sym (
        count-labels project (plan_task_admissions cfg coder_runs active queued).0.admitted
          (plan-own_project cfg coder_runs active queued)))
      (plan-project_limit cfg coder_runs active queued project),
  plan-repo_limit cfg coder_runs active queued repo,
  worker_limit_or_none cfg coder_runs active queued,
)
