-- ===== src/Scheduling/Admission/Capacity.antt =====
-- The limits of the plan: how many tasks it admits in all, for a project and for a repository.
use mathlib.Core.Path.{subst}
use tandem_agents.Prelude.{
  ℕ, zero, suc, ◌+◌, ◌≤◌, ◌<◌, max, String, ◌≡◌, refl, sym, ◌∙◌, inl, inr, Bool, true, false, ◌&&◌,
  none, List, [], ◌∷◌, arith, str_eq, eq_iff, ltb, Bool-cases, Option-cases, length, length-append,
  count, count-append_one, and_left,
}
use tandem_agents.Scheduling.Admission.{
  Task, Config, Limits, limits_of, Entry, active_entry, Plan, empty_plan, Reason, verdict, admit,
  block, consider, Queues, group, any_waiting, round, rounds, waiting, bump, occupy, occupy_all,
  plan_admissions, capacity_reason, block_all, block_queues, plan_task_admissions,
}
use tandem_agents.Scheduling.Admission.Rounds.{rounds-keeps}

consider-bound :
    (l : Limits) (e : Entry) (p : Plan)
    → length p.admitted < l.max_total
    → (length (consider l e p).0.admitted ≤ l.max_total)
      × ((consider l e p).1 ≡ false → length (consider l e p).0.admitted < l.max_total)
unfolding consider admit block
consider-bound l e p h = elim (Option-cases (verdict l p e)) [
  | inl v ↦
      rw (v, consider)
        (
          omega (arith, length-append p.admitted (e ∷ [])),
          λ s. ground (arith, length-append p.admitted (e ∷ [])),
        )
  | inr (r, v) ↦ rw (v, consider) (omega arith, λ s. h)
]

round-bound :
    (l : Limits) (qs : Queues) (p : Plan)
    → length p.admitted < l.max_total
    → length (round l qs p).0.admitted ≤ l.max_total
unfolding round
round-bound l [] p h = omega arith
round-bound l ((k, []) ∷ qs) p h = round-bound l qs p h
round-bound l ((k, t ∷ ts) ∷ qs) p h =
    let e : Entry = record { project = k; task = t } in
    let (within, below) = consider-bound l e p h in
    elim (Bool-cases (consider l e p).1) [
      | inl s ↦ rw (s, round) within
      | inr s ↦ rw (s, round) (round-bound l qs (consider l e p).0 (below s))
    ]

rounds-bound :
    (n : ℕ) (l : Limits) (qs : Queues) (p : Plan)
    → length p.admitted ≤ l.max_total
    → length (rounds n l qs p).0.admitted ≤ l.max_total
unfolding rounds
rounds-bound zero l qs p h = h
rounds-bound (suc n) l qs p h =
    let next = round l qs p in
    elim (Bool-cases (ltb (length p.admitted) l.max_total && any_waiting qs)) [
      | inl c ↦
          let b = round-bound l qs p (below (and_left _ (any_waiting qs) c)) in
          elim (Bool-cases next.2) [
            | inl s ↦ rw (c, s, rounds) (rounds-bound n l next.1 next.0 b)
            | inr s ↦ rw (c, s, rounds) b
          ]
      | inr c ↦ rw (c, rounds) h
    ]
  where
    below : ltb (length p.admitted) l.max_total ≡ true → length p.admitted < l.max_total
    below e = ground arith

pub occupy_all-admitted : (ts : List Task) (p : Plan) → (occupy_all ts p).admitted ≡ p.admitted
unfolding occupy_all occupy
occupy_all-admitted [] p = refl
occupy_all-admitted (t ∷ ts) p = occupy_all-admitted ts (occupy (active_entry t) p)

block_all-admitted :
    (r : Reason) (ts : List Task) (p : Plan) → (block_all r ts p).admitted ≡ p.admitted
unfolding block_all block
block_all-admitted r [] p = refl
block_all-admitted r (t ∷ ts) p = block_all-admitted r ts (block (active_entry t) r p)

block_queues-admitted :
    (r : Reason) (qs : Queues) (p : Plan) → (block_queues r qs p).admitted ≡ p.admitted
unfolding block_queues
block_queues-admitted r [] p = refl
block_queues-admitted r ((k, ts) ∷ qs) p =
    block_queues-admitted r qs (block_all r ts p) ∙ block_all-admitted r ts p

-- The last step of the plan admits nothing.
pub plan-admitted :
    (cfg : Config) (coder_runs : ℕ) (active queued : List Task)
    → (plan_task_admissions cfg coder_runs active queued).0.admitted
      ≡ (plan_admissions (limits_of cfg (length active) coder_runs) active queued).0.admitted
unfolding plan_task_admissions
plan-admitted cfg coder_runs active queued =
    let o = plan_admissions (limits_of cfg (length active) coder_runs) active queued in
    elim (Option-cases (capacity_reason cfg (length active) coder_runs (length o.0.admitted))) [
      | inl e ↦ rw (e, plan_task_admissions) refl
      | inr (r, e) ↦ rw (e, plan_task_admissions) (block_queues-admitted r o.1 o.0)
    ]

admitted-bound :
    (cfg : Config) (coder_runs : ℕ) (active queued : List Task)
    → length (plan_task_admissions cfg coder_runs active queued).0.admitted
      ≤ (limits_of cfg (length active) coder_runs).max_total
unfolding plan_admissions
admitted-bound cfg coder_runs active queued =
    let l = limits_of cfg (length active) coder_runs in
    let start = occupy_all active empty_plan in
    rw (plan-admitted cfg coder_runs active queued) (
      rounds-bound (waiting (group queued [])) l (group queued []) start
        (rw (occupy_all-admitted active empty_plan) (omega arith)))

-- The running and the admitted tasks are not more than `max_active_tasks` (at least 1), unless more
-- ran before.
pub plan-total_limit :
    (cfg : Config) (coder_runs : ℕ) (active queued : List Task)
    → length active + length (plan_task_admissions cfg coder_runs active queued).0.admitted
      ≤ max (length active) (max 1 cfg.max_active_tasks)
unfolding limits_of
plan-total_limit cfg coder_runs active queued =
    ground (arith, admitted-bound cfg coder_runs active queued)

-- Where the worker runs are limited, the busy workers (the running tasks or the coder's runs,
-- whichever are more) and the admitted tasks are not more than that limit, unless more were busy
-- before.
pub plan-worker_limit :
    (cfg : Config) (coder_runs : ℕ) (active queued : List Task)
    → 0 < cfg.max_concurrent_worker_runs
    → max (length active) coder_runs
        + length (plan_task_admissions cfg coder_runs active queued).0.admitted
      ≤ max (max (length active) coder_runs) cfg.max_concurrent_worker_runs
unfolding limits_of
plan-worker_limit cfg coder_runs active queued h =
    ground (arith, admitted-bound cfg coder_runs active queued)

-- A counter of the plan, by the key of an entry, and its limit.
record IsCounter (counter : Plan → String → ℕ) (key : Entry → String) (limit : Limits → ℕ)
    : Type 0 where
  at_occupy :
      (e : Entry) (p : Plan) (k : String) → counter (occupy e p) k ≡ bump (key e) (counter p) k
  at_admit :
      (e : Entry) (p : Plan) (k : String) → counter (admit e p) k ≡ bump (key e) (counter p) k
  at_block :
      (e : Entry) (r : Reason) (p : Plan) (k : String) → counter (block e r p) k ≡ counter p k
  below : (l : Limits) (p : Plan) (e : Entry) → verdict l p e ≡ none → counter p (key e) < limit l

module _ (counter : Plan → String → ℕ) (key : Entry → String) (limit : Limits → ℕ)
    (c : IsCounter counter key limit) where
  with_key : String → Entry → Bool
  with_key k e = str_eq k (key e)

  -- The counter counts the running and the admitted tasks, and respects the limit.
  record Counts (l : Limits) (k : String) (base : ℕ) (p : Plan) : Type 0 where
    exact : counter p k ≡ base + count (with_key k) p.admitted
    within : counter p k ≤ max base (limit l)

  consider-Counts :
      (l : Limits) (k : String) (base : ℕ) (e : Entry) (p : Plan)
      → Counts l k base p
      → Counts l k base (consider l e p).0
  unfolding consider with_key bump
  consider-Counts l k base e p h = elim (Option-cases (verdict l p e)) [
    | inl v ↦
        rw (v, consider)
          (record {
            exact =
                unfold admit in
                ground
                  (arith, c.at_admit e p k, h.exact, count-append_one (with_key k) p.admitted e);
            within = elim (Bool-cases (str_eq k (key e))) [
              | inl s ↦
                  let b =
                    subst (λ (j : String). counter p j < limit l) (sym ((eq_iff k (key e)).0 s))
                      (c.below l p e v) in
                  ground (arith, c.at_admit e p k, b)
              | inr s ↦ ground (arith, c.at_admit e p k, h.within)
            ];
          })
    | inr (r, v) ↦
        rw (v, consider)
          (record {
            exact = unfold block in (c.at_block e r p k ∙ h.exact);
            within = rw (c.at_block e r p k) h.within;
          })
  ]

  occupy_all-counter :
      (ts : List Task) (p : Plan) (k : String)
      → counter (occupy_all ts p) k ≡ counter p k + count (λ t. with_key k (active_entry t)) ts
  unfolding occupy_all with_key bump count
  occupy_all-counter [] p k = omega arith
  occupy_all-counter (t ∷ ts) p k =
      ground (
        arith,
        occupy_all-counter ts (occupy (active_entry t) p) k,
        c.at_occupy (active_entry t) p k,
      )

  plan-Counts :
      (cfg : Config) (coder_runs : ℕ) (active queued : List Task) (k : String)
      → counter empty_plan k ≡ 0
      → count (λ t. with_key k (active_entry t)) active
          + count (with_key k) (plan_task_admissions cfg coder_runs active queued).0.admitted
        ≤ max
            (count (λ t. with_key k (active_entry t)) active)
            (limit (limits_of cfg (length active) coder_runs))
  unfolding plan_admissions
  plan-Counts cfg coder_runs active queued k z =
      let l = limits_of cfg (length active) coder_runs in
      let start = occupy_all active empty_plan in
      let base = count (λ t. with_key k (active_entry t)) active in
      let first : Counts l k base start = record {
        exact =
            rw (occupy_all-admitted active empty_plan)
              (unfold count in omega (arith, occupy_all-counter active empty_plan k, z));
        within = omega (arith, occupy_all-counter active empty_plan k, z);
      } in
      let last =
        rounds-keeps l (Counts l k base) (consider-Counts l k base) (waiting (group queued []))
          (group queued []) start first in
      rw (plan-admitted cfg coder_runs active queued) (omega (arith, last.exact, last.within))

by_project-IsCounter : IsCounter (λ p. p.by_project) (λ e. e.project) (λ l. l.max_per_project)
unfolding occupy admit block
by_project-IsCounter = record {
  at_occupy = λ e p k. refl;
  at_admit = λ e p k. refl;
  at_block = λ e r p k. refl;
  below = λ l p e v. unfold verdict in ground arith;
}

by_repo-IsCounter : IsCounter (λ p. p.by_repo) (λ e. e.task.repo_key) (λ l. l.max_per_repo)
unfolding occupy admit block
by_repo-IsCounter = record {
  at_occupy = λ e p k. refl;
  at_admit = λ e p k. refl;
  at_block = λ e r p k. refl;
  below = λ l p e v. unfold verdict in ground arith;
}

-- For each project, the running tasks and the ones admitted from its queue are not more than
-- `max_active_tasks_per_project` (at least 1), unless more ran before.
pub plan-project_limit :
    (cfg : Config) (coder_runs : ℕ) (active queued : List Task) (k : String)
    → count (λ t. str_eq k t.project_key) active
        + count
            (λ e. str_eq k e.project)
            (plan_task_admissions cfg coder_runs active queued).0.admitted
      ≤ max (count (λ t. str_eq k t.project_key) active) (max 1 cfg.max_active_tasks_per_project)
unfolding limits_of active_entry with_key
plan-project_limit cfg coder_runs active queued k =
    plan-Counts (λ p. p.by_project) (λ e. e.project) (λ l. l.max_per_project) by_project-IsCounter
      cfg coder_runs active queued k refl

-- For each repository, the running and the admitted tasks are not more than
-- `max_active_tasks_per_repo` (at least 1), unless more ran before.
pub plan-repo_limit :
    (cfg : Config) (coder_runs : ℕ) (active queued : List Task) (k : String)
    → count (λ t. str_eq k t.repo_key) active
        + count
            (λ e. str_eq k e.task.repo_key)
            (plan_task_admissions cfg coder_runs active queued).0.admitted
      ≤ max (count (λ t. str_eq k t.repo_key) active) (max 1 cfg.max_active_tasks_per_repo)
unfolding limits_of active_entry with_key
plan-repo_limit cfg coder_runs active queued k =
    plan-Counts (λ p. p.by_repo) (λ e. e.task.repo_key) (λ l. l.max_per_repo) by_repo-IsCounter cfg
      coder_runs active queued k refl
