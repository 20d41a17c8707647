-- ===== src/Scheduling/Admission/Conservation.antt =====
-- core/scheduling/scheduler.py, plan_task_admissions: the plan and its queues hold each queued task
-- once.
use Prim.Native.String as NativeString
use tandem_agents.Prelude.{
  ℕ, zero, suc, ◌+◌, ◌≡◌, refl, ◌∙◌, inl, inr, Bool, ◌&&◌, List, [], ◌∷◌, arith, ltb, if◌then◌else◌,
  Bool-cases, Option-cases, length, count, count-append_one,
}
use tandem_agents.Scheduling.Admission.{
  Task, Config, Limits, limits_of, Entry, active_entry, Plan, empty_plan, Reason, verdict, admit,
  block, consider, Queues, enqueue, group, any_waiting, round, rounds, waiting, occupy, occupy_all,
  plan_admissions, capacity_reason, block_all, block_queues, plan_task_admissions,
}
use tandem_agents.Scheduling.Admission.Rounds.{Ordering-cases}

module _ (f : Task → Bool) where
  -- How many of the tasks that wait satisfy `f`.
  unfoldable pub waiting_of : Queues → ℕ
  waiting_of [] = 0
  waiting_of ((k, ts) ∷ qs) = count f ts + waiting_of qs

  -- How many of the tasks that the plan has dealt with satisfy `f`.
  unfoldable pub tally : Plan → ℕ
  tally p = count (λ e. f e.task) p.admitted + count (λ b. f b.0.task) p.blocked

  waiting_of-enqueue :
      (t : Task) (qs : Queues) → waiting_of (enqueue t qs) ≡ waiting_of qs + (if f t then 1 else 0)
  unfolding enqueue waiting_of count
  waiting_of-enqueue t [] = omega arith
  waiting_of-enqueue t ((k, ts) ∷ qs) =
      elim (Ordering-cases (NativeString.compare t.project_key k)) [
        | inl e ↦ rw (e, enqueue) (omega arith)
        | inr (inl e) ↦ rw (e, enqueue) (omega (arith, count-append_one f ts t))
        | inr (inr e) ↦ rw (e, enqueue) (omega (arith, waiting_of-enqueue t qs))
      ]

  waiting_of-group :
      (ts : List Task) (qs : Queues) → waiting_of (group ts qs) ≡ waiting_of qs + count f ts
  unfolding group count
  waiting_of-group [] qs = omega arith
  waiting_of-group (t ∷ ts) qs =
      omega (arith, waiting_of-group ts (enqueue t qs), waiting_of-enqueue t qs)

  tally-consider :
      (l : Limits) (e : Entry) (p : Plan)
      → tally (consider l e p).0 ≡ tally p + (if f e.task then 1 else 0)
  unfolding tally consider admit block occupy
  tally-consider l e p = elim (Option-cases (verdict l p e)) [
    | inl v ↦ rw (v, consider) (omega (arith, count-append_one (λ x. f x.task) p.admitted e))
    | inr (r, v) ↦
        rw (v, consider) (omega (arith, count-append_one (λ b. f b.0.task) p.blocked (e, r)))
  ]

  tally-round :
      (l : Limits) (qs : Queues) (p : Plan)
      → waiting_of (round l qs p).1 + tally (round l qs p).0 ≡ waiting_of qs + tally p
  unfolding round waiting_of count
  tally-round l [] p = refl
  tally-round l ((k, []) ∷ qs) p = omega (arith, tally-round l qs p)
  tally-round l ((k, t ∷ ts) ∷ qs) p =
      let e : Entry = record { project = k; task = t } in
      elim (Bool-cases (consider l e p).1) [
        | inl s ↦ rw (s, round) (omega (arith, tally-consider l e p))
        | inr s ↦
            rw (s, round) (omega (arith, tally-round l qs (consider l e p).0, tally-consider l e p))
      ]

  tally-rounds :
      (n : ℕ) (l : Limits) (qs : Queues) (p : Plan)
      → waiting_of (rounds n l qs p).1 + tally (rounds n l qs p).0 ≡ waiting_of qs + tally p
  unfolding rounds
  tally-rounds zero l qs p = refl
  tally-rounds (suc n) l qs p =
      let next = round l qs p in
      elim (Bool-cases (ltb (length p.admitted) l.max_total && any_waiting qs)) [
        | inl c ↦ elim (Bool-cases next.2) [
          | inl s ↦ rw (c, s, rounds) (tally-rounds n l next.1 next.0 ∙ tally-round l qs p)
          | inr s ↦ rw (c, s, rounds) (tally-round l qs p)
        ]
        | inr c ↦ rw (c, rounds) refl
      ]

  occupy_all-keeps : (ts : List Task) (p : Plan) → tally (occupy_all ts p) ≡ tally p
  unfolding occupy_all occupy tally
  occupy_all-keeps [] p = refl
  occupy_all-keeps (t ∷ ts) p = occupy_all-keeps ts (occupy (active_entry t) p)

  tally-block_all :
      (r : Reason) (ts : List Task) (p : Plan) → tally (block_all r ts p) ≡ count f ts + tally p
  unfolding block_all block tally count active_entry
  tally-block_all r [] p = omega arith
  tally-block_all r (t ∷ ts) p = omega (
    arith,
    tally-block_all r ts (block (active_entry t) r p),
    count-append_one (λ b. f b.0.task) p.blocked (active_entry t, r),
  )

  tally-block_queues :
      (r : Reason) (qs : Queues) (p : Plan) → tally (block_queues r qs p) ≡ waiting_of qs + tally p
  unfolding block_queues waiting_of
  tally-block_queues r [] p = omega arith
  tally-block_queues r ((k, ts) ∷ qs) p =
      omega (arith, tally-block_queues r qs (block_all r ts p), tally-block_all r ts p)

  empty_tally : tally empty_plan ≡ 0
  unfolding tally count
  empty_tally = omega arith

  tally-plan_admissions :
      (l : Limits) (active queued : List Task)
      → waiting_of (plan_admissions l active queued).1 + tally (plan_admissions l active queued).0
        ≡ count f queued
  unfolding plan_admissions waiting_of
  tally-plan_admissions l active queued =
      let qs = group queued [] in
      let p = occupy_all active empty_plan in
      omega (
        arith,
        tally-rounds (waiting qs) l qs p,
        occupy_all-keeps active empty_plan,
        waiting_of-group queued [],
        empty_tally,
      )

  -- Each queued task is admitted, blocked or left in its queue, and once.
  pub plan-conserves :
      (cfg : Config) (coder_runs : ℕ) (active queued : List Task)
      → count (λ e. f e.task) (plan_task_admissions cfg coder_runs active queued).0.admitted
          + count (λ b. f b.0.task) (plan_task_admissions cfg coder_runs active queued).0.blocked
          + waiting_of (plan_task_admissions cfg coder_runs active queued).1
        ≡ count f queued
  unfolding plan_task_admissions waiting_of tally
  plan-conserves cfg coder_runs active queued =
      let l = limits_of cfg (length active) coder_runs in
      let o = plan_admissions l active queued in
      let sum = tally-plan_admissions l active queued in
      elim (Option-cases (capacity_reason cfg (length active) coder_runs (length o.0.admitted))) [
        | inl e ↦ rw (e, plan_task_admissions) (unfold tally in omega (arith, sum))
        | inr (r, e) ↦
            rw (e, plan_task_admissions)
              (unfold tally in omega (arith, sum, tally-block_queues r o.1 o.0))
      ]
