-- ===== src/Scheduling/Admission/Origin.antt =====
-- Where the entries that plan_task_admissions admits come from, and under which project.
use Prim.Native.String as NativeString
use Prim.Native.Nat.{Ordering}
use mathlib.Core.Path.{subst}
use tandem_agents.Prelude.{
  ℕ, zero, suc, String, ◌≡◌, refl, ◌∙◌, inl, inr, ◌&&◌, List, [], ◌∷◌, eq_iff, ltb, Bool-cases,
  Option-cases, length, All, All-append, All-always,
}
use tandem_agents.Scheduling.Admission.{
  Task, Config, Limits, Reason, Entry, Plan, Queues, empty_plan, limits_of, occupy_all, verdict,
  admit, block, consider, enqueue, group, round, any_waiting, rounds, waiting, plan_admissions,
  capacity_reason, block_all, block_queues, active_entry, occupy, plan_task_admissions,
}
use tandem_agents.Scheduling.Admission.Rounds.{Ordering-cases}

-- A task under the label of its queue.
abbrev entry_of : String → Task → Entry
entry_of k t = record { project = k; task = t }

same_text : (s t : String) → NativeString.compare s t ≡ Ordering.eq → s ≡ t
same_text s t e = (eq_iff s t).0 (rw e refl)

module _ {ℓ} (P : Entry → Type ℓ) where
  abbrev AllWaiting : Queues → Type ℓ
  AllWaiting qs = All (λ q. All (λ t. P (entry_of q.0 t)) q.1) qs

  abbrev AllAdmitted : Plan → Type ℓ
  AllAdmitted p = All P p.admitted

  enqueue-AllWaiting :
      (t : Task) (qs : Queues) → P (active_entry t) → AllWaiting qs → AllWaiting (enqueue t qs)
  unfolding enqueue active_entry
  enqueue-AllWaiting t [] h w = ((h, tt), tt)
  enqueue-AllWaiting t ((k, ts) ∷ qs) h w =
      elim (Ordering-cases (NativeString.compare t.project_key k)) [
        | inl e ↦ rw (e, enqueue) ((h, tt), w)
        | inr (inl e) ↦
            rw (e, enqueue)
              (
                All-append (λ x. P (entry_of k x)) ts (t ∷ []) w.0
                    (subst (λ (i : String). P (entry_of i t)) (same_text t.project_key k e) h, tt),
                w.1,
              )
        | inr (inr e) ↦ rw (e, enqueue) (w.0, enqueue-AllWaiting t qs h w.1)
      ]

  group-AllWaiting :
      (ts : List Task) (qs : Queues)
      → All (λ t. P (active_entry t)) ts
      → AllWaiting qs
      → AllWaiting (group ts qs)
  unfolding group
  group-AllWaiting [] qs h w = w
  group-AllWaiting (t ∷ ts) qs h w =
      group-AllWaiting ts (enqueue t qs) h.1 (enqueue-AllWaiting t qs h.0 w)

  consider-AllAdmitted :
      (l : Limits) (e : Entry) (p : Plan) → P e → AllAdmitted p → AllAdmitted (consider l e p).0
  unfolding consider admit block
  consider-AllAdmitted l e p h a = elim (Option-cases (verdict l p e)) [
    | inl v ↦ rw (v, consider) (All-append P p.admitted (e ∷ []) a (h, tt))
    | inr (r, v) ↦ rw (v, consider) a
  ]

  round-All :
      (l : Limits) (qs : Queues) (p : Plan)
      → AllWaiting qs
      → AllAdmitted p
      → AllAdmitted (round l qs p).0 × AllWaiting (round l qs p).1
  unfolding round
  round-All l [] p w a = (a, tt)
  round-All l ((k, []) ∷ qs) p w a = let rest = round-All l qs p w.1 a in (rest.0, (tt, rest.1))
  round-All l ((k, t ∷ ts) ∷ qs) p w a =
      let e : Entry = record { project = k; task = t } in
      let first = consider-AllAdmitted l e p w.0.0 a in
      elim (Bool-cases (consider l e p).1) [
        | inl s ↦ rw (s, round) (first, (w.0.1, w.1))
        | inr s ↦
            rw (s, round)
              (let rest = round-All l qs (consider l e p).0 w.1 first in (rest.0, (w.0.1, rest.1)))
      ]

  rounds-All :
      (n : ℕ) (l : Limits) (qs : Queues) (p : Plan)
      → AllWaiting qs
      → AllAdmitted p
      → AllAdmitted (rounds n l qs p).0
  unfolding rounds
  rounds-All zero l qs p w a = a
  rounds-All (suc n) l qs p w a =
      let next = round-All l qs p w a in
      elim (Bool-cases (ltb (length p.admitted) l.max_total && any_waiting qs)) [
        | inl c ↦ elim (Bool-cases (round l qs p).2) [
          | inl s ↦
              rw (c, s, rounds) (rounds-All n l (round l qs p).1 (round l qs p).0 next.1 next.0)
          | inr s ↦ rw (c, s, rounds) next.0
        ]
        | inr c ↦ rw (c, rounds) a
      ]

occupy_all-admitted : (ts : List Task) (p : Plan) → (occupy_all ts p).admitted ≡ p.admitted
unfolding occupy_all occupy
occupy_all-admitted [] p = refl
occupy_all-admitted (t ∷ ts) p = occupy_all-admitted ts (occupy (active_entry t) p)

block_all-admitted :
    (r : Reason) (ts : List Task) (p : Plan) → (block_all r ts p).admitted ≡ p.admitted
unfolding block_all block
block_all-admitted r [] p = refl
block_all-admitted r (t ∷ ts) p = block_all-admitted r ts (block (active_entry t) r p)

block_queues-admitted :
    (r : Reason) (qs : Queues) (p : Plan) → (block_queues r qs p).admitted ≡ p.admitted
unfolding block_queues
block_queues-admitted r [] p = refl
block_queues-admitted r ((k, ts) ∷ qs) p =
    block_queues-admitted r qs (block_all r ts p) ∙ block_all-admitted r ts p

-- What holds of each queued task under its own project holds of each admitted entry.
plan-entries {ℓ} :
    (P : Entry → Type ℓ) (cfg : Config) (coder_runs : ℕ) (active queued : List Task)
    → All (λ t. P (active_entry t)) queued
    → All P (plan_task_admissions cfg coder_runs active queued).0.admitted
unfolding plan_task_admissions plan_admissions
plan-entries P cfg coder_runs active queued h =
    let l = limits_of cfg (length active) coder_runs in
    let o = plan_admissions l active queued in
    let qs = group queued [] in
    let start = occupy_all active empty_plan in
    let all : All P o.0.admitted =
      rounds-All P (waiting qs) l qs start (group-AllWaiting P queued [] h tt)
        (rw (occupy_all-admitted active empty_plan) tt) in
    elim (Option-cases (capacity_reason cfg (length active) coder_runs (length o.0.admitted))) [
      | inl e ↦ rw (e, plan_task_admissions) all
      | inr (r, e) ↦ rw (e, plan_task_admissions, block_queues-admitted) all
    ]

-- What holds of each queued task holds of each admitted one.
pub plan-origin {ℓ} :
    (P : Task → Type ℓ) (cfg : Config) (coder_runs : ℕ) (active queued : List Task)
    → All P queued
    → All (λ e. P e.task) (plan_task_admissions cfg coder_runs active queued).0.admitted
unfolding active_entry
plan-origin P cfg coder_runs active queued h =
    plan-entries (λ e. P e.task) cfg coder_runs active queued h

-- An admitted task comes from the queue of its own project.
pub plan-own_project :
    (cfg : Config) (coder_runs : ℕ) (active queued : List Task)
    → All
        (λ e. e.project ≡ e.task.project_key)
        (plan_task_admissions cfg coder_runs active queued).0.admitted
unfolding active_entry
plan-own_project cfg coder_runs active queued =
    plan-entries (λ e. e.project ≡ e.task.project_key) cfg coder_runs active queued
      (All-always (λ t. (active_entry t).project ≡ (active_entry t).task.project_key) (λ t. refl)
        queued)
