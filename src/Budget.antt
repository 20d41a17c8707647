-- ===== src/Budget.antt =====
-- core/budget.py: what an issue has spent, and when it may spend no more. Costs are whole numbers of
-- a unit that is small enough for the amounts of the engine and of the configuration.
use mathlib.Core.List.{◌++◌ as append}
use tandem_agents.Prelude.{
  ℕ, ◌+◌, ◌≤◌, ◌<◌, max, String, ◌≡◌, refl, inl, inr, Bool, true, false, not, ◌&&◌, ◌||◌, Option,
  none, some, List, [], ◌∷◌, arith, str_eq, ltb, leb, if◌then◌else◌, Bool-cases, fetch_one,
}

-- The numeric entries of a dictionary; `_num` reads all others as 0.
abbrev pub Container : Type 0
Container = List (String × ℕ)

unfoldable pub num : Container → String → ℕ
num [] k = 0
num ((j, n) ∷ c) k = let rest = num c k in if str_eq j k then n else rest

pub record Usage : Type 0 where
  pub total_tokens : ℕ
  pub cost_usd : ℕ

-- An entry of a coder result that is a dictionary, with its own entry `usage` if that is one.
pub record Part : Type 0 where
  pub key : String
  pub own : Container
  pub usage : Option Container

-- A coder result: its numeric entries and its entries that are dictionaries.
pub record CoderResult : Type 0 where
  pub own : Container
  pub parts : List Part

unfoldable pub usage_from_container : Container → Usage
unfolding num
usage_from_container c = record {
  total_tokens =
      max
        (max (max (num c "total_tokens") (max (num c "tokens") (num c "token_count")))
          (num c "input_tokens" + num c "output_tokens"))
        (num c "prompt_tokens" + num c "completion_tokens");
  cost_usd =
      max (max (num c "cost_usd") (num c "total_cost_usd"))
        (max (num c "cost") (num c "total_cost"));
}

abbrev pub container_keys : List String
container_keys = "usage" ∷ "run" ∷ "coder_run" ∷ "execute_response" ∷ "run_response" ∷ []

part_containers : Option Part → List Container
part_containers none = []
part_containers (some p) = p.own ∷ elim p.usage [ none ↦ [] | some u ↦ u ∷ [] ]

containers_at : List String → List Part → List Container
unfolding fetch_one part_containers
containers_at [] parts = []
containers_at (k ∷ ks) parts =
    append (part_containers (fetch_one (λ (p : Part). str_eq p.key k) parts))
      (containers_at ks parts)

unfoldable pub containers_of : CoderResult → List Container
unfolding containers_at
containers_of r = r.own ∷ containers_at container_keys r.parts

unfoldable pub largest : List Container → Usage
unfolding usage_from_container
largest [] = record { total_tokens = 0; cost_usd = 0 }
largest (c ∷ cs) =
    let u = usage_from_container c in
    let rest = largest cs in
    record {
      total_tokens = max u.total_tokens rest.total_tokens;
      cost_usd = max u.cost_usd rest.cost_usd;
    }

unfoldable pub extract_usage : CoderResult → Usage
unfolding containers_of largest
extract_usage r = largest (containers_of r)

pub record Spend : Type 0 where
  pub total_tokens : ℕ
  pub cost_usd : ℕ
  pub coder_executions : ℕ

abbrev pub empty_spend : Spend
empty_spend = record { total_tokens = 0; cost_usd = 0; coder_executions = 0 }

unfoldable pub accumulate : Spend → Usage → ℕ → Spend
accumulate s u executions_delta = record {
  total_tokens = s.total_tokens + u.total_tokens;
  cost_usd = s.cost_usd + u.cost_usd;
  coder_executions = s.coder_executions + executions_delta;
}

-- The `budget` section of the configuration; an axis at 0 or below is disabled, and reads as 0.
pub record Budget : Type 0 where
  pub max_tokens : ℕ
  pub max_cost_usd : ℕ
  pub max_coder_executions : ℕ

-- A reason names the axis that is exhausted, with what was spent and its limit.
pub data Reason : Type 0 where
  tokens : (spent limit : ℕ) → Reason
  cost : (spent limit : ℕ) → Reason
  coder_executions : (spent limit : ℕ) → Reason

unfoldable pub over : ℕ → ℕ → Bool
over spent limit = ltb 0 limit && leb limit spent

no_reasons : List Reason → Bool
no_reasons [] = true
no_reasons (r ∷ rs) = false

unfoldable pub budget_status : Spend → Budget → Bool × List Reason
unfolding over no_reasons
budget_status s b =
    let reasons =
      append
        (if over s.total_tokens b.max_tokens then tokens s.total_tokens b.max_tokens ∷ [] else [])
        (append (if over s.cost_usd b.max_cost_usd then cost s.cost_usd b.max_cost_usd ∷ [] else [])
          (if over s.coder_executions b.max_coder_executions
            then coder_executions s.coder_executions b.max_coder_executions ∷ []
            else [])) in
    (not (no_reasons reasons), reasons)

-- load_issue_spend, of the entry `issue_spend` of the run's metadata.
unfoldable pub load_issue_spend : Option Spend → Spend
load_issue_spend none = empty_spend
load_issue_spend (some s) = s

-- record_coder_spend: the entry that it writes to the run's metadata.
unfoldable pub record_coder_spend : Option Spend → CoderResult → ℕ → Option Spend
unfolding load_issue_spend accumulate extract_usage
record_coder_spend entry r delta =
    some (accumulate (load_issue_spend entry) (extract_usage r) delta)

-- The passes of the coder over one issue, each recorded with its number of executions.
unfoldable pub record_passes : List (CoderResult × ℕ) → Option Spend → Option Spend
unfolding record_coder_spend
record_passes [] entry = entry
record_passes ((r, delta) ∷ rs) entry = record_passes rs (record_coder_spend entry r delta)

unfoldable pub executions : List (CoderResult × ℕ) → ℕ
executions [] = 0
executions ((r, delta) ∷ rs) = delta + executions rs

unfoldable pub is_exhausted : Option Spend → Budget → Bool
unfolding budget_status load_issue_spend
is_exhausted entry b = (budget_status (load_issue_spend entry) b).0

exhausted_iff :
    (s : Spend) (b : Budget)
    → (budget_status s b).0 ≡ (
        over s.total_tokens b.max_tokens
        || over s.cost_usd b.max_cost_usd
        || over s.coder_executions b.max_coder_executions)
unfolding budget_status
exhausted_iff s b = elim (Bool-cases (over s.total_tokens b.max_tokens)) [
  | inl e ↦ rw (e, budget_status) refl
  | inr e ↦ elim (Bool-cases (over s.cost_usd b.max_cost_usd)) [
    | inl f ↦ rw (e, f, budget_status) refl
    | inr f ↦ elim (Bool-cases (over s.coder_executions b.max_coder_executions)) [
      | inl g ↦ rw (e, f, g, budget_status) refl
      | inr g ↦ rw (e, f, g, budget_status) refl
    ]
  ]
]

record-exhausted :
    (entry : Option Spend) (r : CoderResult) (delta : ℕ) (b : Budget)
    → is_exhausted entry b ≡ true
    → is_exhausted (record_coder_spend entry r delta) b ≡ true
unfolding is_exhausted record_coder_spend accumulate over
record-exhausted entry r delta b h =
    let s = load_issue_spend entry in
    ground (arith, h, exhausted_iff s b, exhausted_iff (accumulate s (extract_usage r) delta) b)

-- An issue that has exhausted its budget stays exhausted, whatever the coder passes after that
-- report.
pub stays_exhausted :
    (rs : List (CoderResult × ℕ)) (entry : Option Spend) (b : Budget)
    → is_exhausted entry b ≡ true
    → is_exhausted (record_passes rs entry) b ≡ true
unfolding record_passes
stays_exhausted [] entry b h = h
stays_exhausted ((r, delta) ∷ rs) entry b h =
    stays_exhausted rs (record_coder_spend entry r delta) b (record-exhausted entry r delta b h)

spent_executions :
    (rs : List (CoderResult × ℕ)) (entry : Option Spend)
    → (load_issue_spend (record_passes rs entry)).coder_executions
      ≡ (load_issue_spend entry).coder_executions + executions rs
unfolding record_passes record_coder_spend accumulate executions load_issue_spend
spent_executions [] entry = omega arith
spent_executions ((r, delta) ∷ rs) entry =
    omega (arith, spent_executions rs (record_coder_spend entry r delta))

-- The executions of the coder are a backstop: once the number of those recorded for an issue that had
-- no entry reaches a limit that is set, the issue is exhausted, also where no pass reported any
-- tokens or costs.
pub executions_exhaust :
    (rs : List (CoderResult × ℕ)) (b : Budget)
    → 0 < b.max_coder_executions
    → b.max_coder_executions ≤ executions rs
    → is_exhausted (record_passes rs none) b ≡ true
unfolding is_exhausted over
executions_exhaust rs b h k =
    ground
      (arith, spent_executions rs none, exhausted_iff (load_issue_spend (record_passes rs none)) b)
