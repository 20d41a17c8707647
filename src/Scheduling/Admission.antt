-- ===== src/Scheduling/Admission.antt =====
-- core/scheduling/scheduler.py, plan_task_admissions: which queued tasks may start next to those
-- that run. A task stands for itself with the keys and scopes that task_project_key, task_repo_key
-- and task_file_scopes compute from it.
pub mod Capacity
pub mod Quotas
pub mod Overlap
pub mod Rounds
pub mod Origin
pub mod Conservation
use Prim.Native.String as NativeString
use Prim.Native.Nat.{Ordering}
use tandem_agents.Prelude.{
  ℕ, zero, suc, ◌+◌, ◌-◌, min, max, String, Bool, true, false, not, ◌&&◌, Option, none, some, List,
  [], ◌∷◌, ◌++◌, str_eq, ltb, leb, if◌then◌else◌, length, any,
}

-- The components of a path.
abbrev pub Scope : Type 0
Scope = List String

pub record Task : Type 0 where
  pub task_key : String
  pub project_key : String
  pub repo_key : String
  pub scopes : List Scope

unfoldable pub is_nil {ℓ} : {A : Type ℓ} → List A → Bool
is_nil [] = true
is_nil (x ∷ xs) = false

-- One path is a prefix of the other, and neither is empty.
unfoldable pub agree : Scope → Scope → Bool
agree [] ys = true
agree (x ∷ xs) [] = true
agree (x ∷ xs) (y ∷ ys) = str_eq x y && agree xs ys

unfoldable pub paths_overlap : Scope → Scope → Bool
unfolding is_nil agree
paths_overlap left right = not (is_nil left) && not (is_nil right) && agree left right

unfoldable pub overlaps : List Scope → List Scope → Bool
unfolding paths_overlap
overlaps candidate active = any (λ a. any (λ s. paths_overlap s a) candidate) active

pub data Reason : Type 0 where
  project_capacity_reached : Reason
  repo_capacity_reached : Reason
  repo_overlap_reached : Reason
  file_overlap_reached : Reason
  worker_concurrency_reached : Reason
  active_capacity_reached : Reason

-- The limits of one plan, as the configuration and the running tasks give them.
pub record Limits : Type 0 where
  pub max_total : ℕ
  pub max_per_project : ℕ
  pub max_per_repo : ℕ

pub record Config : Type 0 where
  pub max_active_tasks : ℕ
  pub max_concurrent_worker_runs : ℕ
  pub max_active_tasks_per_project : ℕ
  pub max_active_tasks_per_repo : ℕ

-- `coder_runs` is the number of runs of the coder that are active. Subtraction stops at 0, as the
-- `max(0, …)` around it.
unfoldable pub limits_of : Config → ℕ → ℕ → Limits
limits_of cfg active_total coder_runs =
    let slots = max 1 cfg.max_active_tasks - active_total in
    let worker_slots =
      if ltb 0 cfg.max_concurrent_worker_runs
      then cfg.max_concurrent_worker_runs - max active_total coder_runs
      else slots in
    record {
      max_total = min slots worker_slots;
      max_per_project = max 1 cfg.max_active_tasks_per_project;
      max_per_repo = max 1 cfg.max_active_tasks_per_repo;
    }

-- A task under the key of the project whose queue it waited in.
pub record Entry : Type 0 where
  pub project : String
  pub task : Task

-- The dictionaries with a default of the plan are functions.
pub record Plan : Type 0 where
  pub by_project : String → ℕ
  pub by_repo : String → ℕ
  pub locked : String → Bool
  pub scopes_by_repo : String → List Scope
  pub admitted : List Entry
  pub blocked : List (Entry × Reason)

abbrev pub empty_plan : Plan
empty_plan = record {
  by_project = λ _. 0;
  by_repo = λ _. 0;
  locked = λ _. false;
  scopes_by_repo = λ _. [];
  admitted = [];
  blocked = [];
}

unfoldable pub bump : String → (String → ℕ) → String → ℕ
bump key counts k = if str_eq k key then counts k + 1 else counts k

-- A running or admitted task takes its place in the counters, and its scopes or its repository.
unfoldable pub occupy : Entry → Plan → Plan
unfolding bump is_nil
occupy e p = record p {
  by_project = bump e.project p.by_project;
  by_repo = bump e.task.repo_key p.by_repo;
  scopes_by_repo = λ k.
      if str_eq k e.task.repo_key then p.scopes_by_repo k ++ e.task.scopes else p.scopes_by_repo k;
  locked = λ k. if str_eq k e.task.repo_key && is_nil e.task.scopes then true else p.locked k;
}

unfoldable pub active_entry : Task → Entry
active_entry t = record { project = t.project_key; task = t }

unfoldable pub occupy_all : List Task → Plan → Plan
unfolding occupy active_entry
occupy_all [] p = p
occupy_all (t ∷ ts) p = occupy_all ts (occupy (active_entry t) p)

-- Why the task may not start now, in the order of the tests.
unfoldable pub verdict : Limits → Plan → Entry → Option Reason
unfolding is_nil overlaps
verdict l p e =
    let running = p.scopes_by_repo e.task.repo_key in
    if leb l.max_per_project (p.by_project e.project)
    then some project_capacity_reached
    else if leb l.max_per_repo (p.by_repo e.task.repo_key)
    then some repo_capacity_reached
    else if p.locked e.task.repo_key
    then some repo_overlap_reached
    else if is_nil e.task.scopes && not (is_nil running)
    then some repo_overlap_reached
    else if overlaps e.task.scopes running
    then some file_overlap_reached
    else none

unfoldable pub admit : Entry → Plan → Plan
unfolding occupy
admit e p = record (occupy e p) { admitted = p.admitted ++ e ∷ [] }

unfoldable pub block : Entry → Reason → Plan → Plan
block e r p = record p { blocked = p.blocked ++ (e, r) ∷ [] }

-- The plan after the first task of a queue, and whether the round stops there.
unfoldable pub consider : Limits → Entry → Plan → Plan × Bool
unfolding verdict admit block
consider l e p = elim (verdict l p e) [
  | some r ↦ (block e r p, false)
  | none ↦ (admit e p, leb l.max_total (length p.admitted + 1))
]

abbrev pub Queues : Type 0
Queues = List (String × List Task)

-- grouped.setdefault(key, deque()).append(task), the keys kept sorted.
unfoldable pub enqueue : Task → Queues → Queues
enqueue t [] = (t.project_key, t ∷ []) ∷ []
enqueue t ((k, ts) ∷ qs) =
    let rest = enqueue t qs in
    elim (NativeString.compare t.project_key k) [
      | Ordering.lt ↦ (t.project_key, t ∷ []) ∷ (k, ts) ∷ qs
      | Ordering.eq ↦ (k, ts ++ t ∷ []) ∷ qs
      | Ordering.gt ↦ (k, ts) ∷ rest
    ]

unfoldable pub group : List Task → Queues → Queues
unfolding enqueue
group [] qs = qs
group (t ∷ ts) qs = group ts (enqueue t qs)

-- One pass over the projects: the plan, the queues, and whether any task was looked at.
unfoldable pub round : Limits → Queues → Plan → Plan × Queues × Bool
unfolding consider
round l [] p = (p, [], false)
round l ((k, []) ∷ qs) p =
    let (p', qs', progressed) = round l qs p in (p', (k, []) ∷ qs', progressed)
round l ((k, t ∷ ts) ∷ qs) p =
    let (p', stop) = consider l (record { project = k; task = t }) p in
    let (p'', qs', progressed) = round l qs p' in
    if stop then (p', (k, ts) ∷ qs, true) else (p'', (k, ts) ∷ qs', true)

unfoldable pub any_waiting : Queues → Bool
unfolding is_nil
any_waiting qs = any (λ q. not (is_nil q.1)) qs

-- The `while` loop, on fuel.
unfoldable pub rounds : ℕ → Limits → Queues → Plan → Plan × Queues
unfolding any_waiting round
rounds zero l qs p = (p, qs)
rounds (suc n) l qs p =
    let (p', qs', progressed) = round l qs p in
    let rest = rounds n l qs' p' in
    if ltb (length p.admitted) l.max_total && any_waiting qs
    then (if progressed then rest else (p', qs'))
    else (p, qs)

unfoldable pub waiting : Queues → ℕ
waiting [] = 0
waiting ((k, ts) ∷ qs) = length ts + waiting qs

unfoldable pub plan_admissions : Limits → List Task → List Task → Plan × Queues
unfolding occupy_all group rounds waiting
plan_admissions l active queued =
    let queues = group queued [] in rounds (waiting queues) l queues (occupy_all active empty_plan)

-- What stopped the plan, where the capacity is used up by the `admitted` tasks.
unfoldable pub capacity_reason : Config → ℕ → ℕ → ℕ → Option Reason
capacity_reason cfg active_total coder_runs admitted =
    if ltb 0 cfg.max_concurrent_worker_runs
      && leb cfg.max_concurrent_worker_runs (max active_total coder_runs + admitted)
    then some worker_concurrency_reached
    else if leb (max 1 cfg.max_active_tasks) (active_total + admitted)
    then some active_capacity_reached
    else none

unfoldable pub block_all : Reason → List Task → Plan → Plan
unfolding block active_entry
block_all r [] p = p
block_all r (t ∷ ts) p = block_all r ts (block (active_entry t) r p)

-- The tasks left in the queues are blocked when the capacity is used up, else they remain.
unfoldable pub block_queues : Reason → Queues → Plan → Plan
unfolding block_all
block_queues r [] p = p
block_queues r ((k, ts) ∷ qs) p = block_queues r qs (block_all r ts p)

unfoldable pub plan_task_admissions : Config → ℕ → List Task → List Task → Plan × Queues
unfolding limits_of plan_admissions capacity_reason block_queues
plan_task_admissions cfg coder_runs active queued =
    let (p, qs) = plan_admissions (limits_of cfg (length active) coder_runs) active queued in
    elim (capacity_reason cfg (length active) coder_runs (length p.admitted)) [
      | none ↦ (p, qs)
      | some r ↦ (block_queues r qs p, [])
    ]
