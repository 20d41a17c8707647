-- ===== src/Scheduling/Gates/Passing.antt =====
-- Which tasks pass the gates, and that the plan with its gates loses none.
use tandem_agents.Prelude.{
  ℕ, ◌+◌, String, ◌≡◌, refl, ap, inl, inr, Bool, true, false, not, ◌&&◌, ◌||◌, Option, none, some,
  List, [], ◌∷◌, map, arith, str_eq, eq_refl, if◌then◌else◌, Bool-cases, Option-cases, length, All,
  All-map, select, count, any, All-of_map, All-select_to, All-any, All-both,
}
use tandem_agents.Coordination.Rows.{OutboxRow}
use tandem_agents.Scheduling.Admission.{Task, Config}
use tandem_agents.Scheduling.Admission.Conservation.{waiting_of, plan-conserves}
use tandem_agents.Scheduling.Admission.Origin.{plan-origin}
use tandem_agents.Scheduling.Triage.{is_accepted, triage_task}
use tandem_agents.Scheduling.Gates.{
  Candidate, Surroundings, is_linear, linear_admission_blocker, coder_run_active,
  withheld_by_triage, linear_gate_of, gate, withhold, let_pass, pass_gates, planned,
  plan_with_gates, after_triage,
}

is_none {ℓ} : {A : Type ℓ} → Option A → Bool
is_none none = true
is_none (some a) = false

is_none-eq {ℓ} : {A : Type ℓ} (o : Option A) → is_none o ≡ true → o ≡ none
unfolding is_none
is_none-eq none h = refl
is_none-eq (some a) h = cc

-- What must hold of a task that may start, said without the order of the gates: triage is not
-- enforced or accepts it, Linear can be used if the task is of Linear, its dependencies are done
-- and no coder run works on it.
unfoldable pub may_start : Surroundings → Candidate → Bool
unfolding is_none
may_start env c =
    (not env.triage.enabled
      || not env.triage.enforce
      || is_accepted (triage_task env.triage c.issue).verdict)
    && (not (is_linear c) || is_none env.linear_blocker)
    && not c.dependency_blocked
    && not (coder_run_active env.coder_runs c)

pass_gates-passed :
    (env : Surroundings) (blocker : Option String) (ticks : ℕ → ℕ) (cs : List Candidate)
    (rows : List OutboxRow)
    → (pass_gates env blocker ticks cs rows).passed ≡ select (λ c. is_none (gate env blocker c)) cs
unfolding pass_gates select is_none let_pass withhold
pass_gates-passed env blocker ticks [] rows = refl
pass_gates-passed env blocker ticks (c ∷ cs) rows =
    let rows' = after_triage env (ticks (length cs)) c rows in
    elim (Option-cases (gate env blocker c)) [
      | inl e ↦
          rw (e, pass_gates) (ap (λ xs. c ∷ xs) (pass_gates-passed env blocker ticks cs rows'))
      | inr (g, e) ↦ rw (e, pass_gates) (pass_gates-passed env blocker ticks cs rows')
    ]

count-pass_gates :
    (f : Candidate → Bool) (env : Surroundings) (blocker : Option String) (ticks : ℕ → ℕ)
    (cs : List Candidate) (rows : List OutboxRow)
    → count (λ w. f w.0) (pass_gates env blocker ticks cs rows).withheld
        + count f (pass_gates env blocker ticks cs rows).passed
      ≡ count f cs
unfolding pass_gates let_pass withhold count
count-pass_gates f env blocker ticks [] rows = omega arith
count-pass_gates f env blocker ticks (c ∷ cs) rows =
    let rows' = after_triage env (ticks (length cs)) c rows in
    elim (Option-cases (gate env blocker c)) [
      | inl e ↦ rw (e, pass_gates) (omega (arith, count-pass_gates f env blocker ticks cs rows'))
      | inr (g, e) ↦
          rw (e, pass_gates) (omega (arith, count-pass_gates f env blocker ticks cs rows'))
    ]

count-planned :
    (f : Task → Bool) (cs : List Candidate)
    → count f (map planned cs) ≡ count (λ c. f (planned c)) cs
unfolding count
count-planned f [] = refl
count-planned f (c ∷ cs) = omega (arith, count-planned f cs)

linear_gate-none :
    (linear : Bool) (blocker : Option String) (c : Candidate)
    → (is_linear c ≡ true → linear ≡ true)
    → linear_gate_of (if linear then blocker else none) c ≡ none
    → (not (is_linear c) || is_none blocker) ≡ true
unfolding linear_gate_of is_none
linear_gate-none linear blocker c seen h = elim (Bool-cases (is_linear c)) [
  | inr e ↦ rw e refl
  | inl e ↦ elim (Option-cases blocker) [
    | inl n ↦ rw (e, n) refl
    | inr (r, n) ↦ absurd (cc (rw (seen e, n, e, linear_gate_of) at h))
  ]
]

gate-may_start :
    (env : Surroundings) (linear : Bool) (c : Candidate)
    → (is_linear c ≡ true → linear ≡ true)
    → gate env (if linear then env.linear_blocker else none) c ≡ none
    → may_start env c ≡ true
unfolding gate may_start withheld_by_triage
gate-may_start env linear c seen h =
    let blocker = if linear then env.linear_blocker else none in
    elim (Option-cases (linear_gate_of blocker c)) [
      | inl e ↦
          let k = rw (e, gate) at h in
          ground (arith, k, linear_gate-none linear env.linear_blocker c seen e)
      | inr (g, e) ↦ let k = rw (e, gate) at h in absurd (ground (arith, k))
    ]

-- A queued task with this key may start.
startable : Surroundings → List Candidate → Task → Bool
startable env queued t = any (λ c. str_eq (planned c).task_key t.task_key && may_start env c) queued

passed-startable :
    (env : Surroundings) (ticks : ℕ → ℕ) (queued : List Candidate) (rows : List OutboxRow)
    → All
        (λ t. startable env queued t ≡ true)
        (map planned
          (pass_gates env (linear_admission_blocker env queued) ticks queued rows).passed)
unfolding linear_admission_blocker startable
passed-startable env ticks queued rows =
    let blocker = linear_admission_blocker env queued in
    let self =
      All-any
        (λ (x y : Candidate). str_eq (planned y).task_key (planned x).task_key && may_start env y)
        queued in
    let linear = All-any (λ (x y : Candidate). is_linear y) queued in
    let all =
      All-map _
        (λ (c : Candidate).
          is_none (gate env blocker c) ≡ true → startable env queued (planned c) ≡ true)
        queued
        (λ c both h. both.0 (
          rw
            (
              eq_refl (planned c).task_key,
              gate-may_start env (any is_linear queued) c both.1 (is_none-eq _ h),
            )
            refl))
        (All-both _ _ queued self linear) in
    rw pass_gates-passed (
      All-of_map (λ t. startable env queued t ≡ true) planned
        (select (λ c. is_none (gate env blocker c)) queued)
        (All-select_to _ _ (λ c. is_none (gate env blocker c)) queued (λ c h k. k h) all))

-- Each task that the plan admits has the key of a queued one that may start: triage is not enforced
-- or accepts it, Linear can be used if it is of Linear, it is not blocked by its dependencies and no
-- coder run works on it.
pub admitted_may_start :
    (cfg : Config) (env : Surroundings) (ticks : ℕ → ℕ) (active : List Task)
    (queued : List Candidate) (rows : List OutboxRow)
    → All
        (λ e.
          any (λ c. str_eq (planned c).task_key e.task.task_key && may_start env c) queued ≡ true)
        (plan_with_gates cfg env ticks active queued rows).1.admitted
unfolding plan_with_gates startable
admitted_may_start cfg env ticks active queued rows =
    plan-origin (λ t. startable env queued t ≡ true) cfg (length env.coder_runs) active _
      (passed-startable env ticks queued rows)

-- No task is lost and none is there twice: for each test on tasks, as many of the withheld, the
-- admitted and the blocked ones and of those left in a queue pass it, together, as of the queued ones.
pub gated_plan-conserves :
    (f : Task → Bool) (cfg : Config) (env : Surroundings) (ticks : ℕ → ℕ) (active : List Task)
    (queued : List Candidate) (rows : List OutboxRow)
    → let o = plan_with_gates cfg env ticks active queued rows in
      count (λ w. f (planned w.0)) o.0.withheld
        + count (λ e. f e.task) o.1.admitted
        + count (λ b. f b.0.task) o.1.blocked
        + waiting_of f o.2
      ≡ count (λ c. f (planned c)) queued
unfolding plan_with_gates
gated_plan-conserves f cfg env ticks active queued rows =
    let blocker = linear_admission_blocker env queued in
    let passed = (pass_gates env blocker ticks queued rows).passed in
    omega (
      arith,
      count-pass_gates (λ c. f (planned c)) env blocker ticks queued rows,
      plan-conserves f cfg (length env.coder_runs) active (map planned passed),
      count-planned f passed,
    )
