-- ===== src/Scheduling/Repairs.antt =====
-- core/scheduling/coder_supervisor.py: the circuit breaker of the repair passes over a pull request,
-- with the budget of the issue. The coder is a parameter: what it returns is part of a refresh.
pub mod Steps
pub mod Bounded
use Prim.Native.Nat.{◌^◌}
use Prim.Native.String.{◌++◌}
use tandem_agents.Prelude.{
  ℕ, zero, suc, ◌+◌, ◌-◌, ◌*◌, ◌/◌, ◌≤◌, ◌<◌, min, max, String, ◌≡◌, refl, sym, ap, ◌∙◌, ◌≢◌, ◌↔◌,
  ◌⊎◌, inl, inr, Bool, true, false, not, ◌&&◌, ◌||◌, Option, none, some, List, [], ◌∷◌, map, arith,
  str_eq, eq_iff, eq_refl, ltb, leb, ◌==◌, if◌then◌else◌, or_else, Bool-cases, Option-cases, length,
  take, All, All-map, All-append, All-take, length-append, length-take-le, select, fetch_one, count,
  any, update_where, upsert, order_desc, order_asc, count-update_le, count-update_keep,
  count-update_add, count-append_one, count-zero_of_any, count-zero_of_fetch, fetch_one-holds,
  count_mono, All-update, update-none, All-select, select-holds, All-update_to, select-covers,
  count-zero_of_select, nil_of_order_desc, fetch_one-update, fetch_one-upsert, count-and_le,
  count-pos_of_fetch, count-update_none, fetch_one-update_key, strip, lower, colons_to_slashes,
  str_or, lstrip_hash, prefix, slugify, length-order_asc, All-order_asc, length-select, length-take,
  length-map, All-of_map, All-always, All-update_set, All-select_to, not_other, and_left, and_right,
  true-false, All-of_fetch_none, any-order_asc, All-any, All-of_key, All-order_desc, All-both,
  count-none, lstrip_by, rstrip_by, starts_with, contains, text_length, split_on, join_with,
  sorted_set, strip_by,
}
use tandem_agents.Budget.{
  Budget, Reason, Spend, CoderResult, budget_status, load_issue_spend, record_coder_spend,
}

-- The entry `pull_request_repair_state` of the metadata of the run, with its defaults.
pub record Breaker : Type 0 where
  pub attempts : ℕ
  pub last_attempt_ms : ℕ
  pub last_signature : String
  pub escalated : Bool
  pub reason : String

abbrev pub new_breaker : Breaker
new_breaker = record {
  attempts = 0;
  last_attempt_ms = 0;
  last_signature = "";
  escalated = false;
  reason = "";
}

pub data RepairDecision : Type 0 where
  proceed : RepairDecision
  defer : RepairDecision
  escalate : RepairDecision
  skip : RepairDecision

abbrev pub repair_max_attempts_default : ℕ
repair_max_attempts_default = 5

abbrev pub repair_cooldown_base_ms_default : ℕ
repair_cooldown_base_ms_default = 60000

abbrev pub repair_cooldown_max_shift : ℕ
repair_cooldown_max_shift = 6

-- The numbers of the `review` section; one that is no number is `none`, one below 0 is 0.
pub record RepairConfig : Type 0 where
  pub max_repair_attempts : Option ℕ
  pub repair_cooldown_base_ms : Option ℕ

positive_or : ℕ → Option ℕ → ℕ
positive_or d none = d
positive_or d (some n) = if ltb 0 n then n else d

unfoldable pub repair_max_attempts : RepairConfig → ℕ
unfolding positive_or
repair_max_attempts cfg = positive_or repair_max_attempts_default cfg.max_repair_attempts

unfoldable pub cooldown_base_ms : RepairConfig → ℕ
unfolding positive_or
cooldown_base_ms cfg = positive_or repair_cooldown_base_ms_default cfg.repair_cooldown_base_ms

-- How long the next pass waits, after this number of passes.
unfoldable pub cooldown_ms : (cooldown_base_ms attempts : ℕ) → ℕ
cooldown_ms base attempts = base * 2 ^ min (attempts - 1) repair_cooldown_max_shift

unfoldable pub escalated_for : String → Breaker → Breaker
escalated_for reason s = record s { escalated = true; reason = reason }

unfoldable pub attempted : ℕ → String → Breaker → Breaker
attempted now signature s = record s {
  attempts = s.attempts + 1;
  last_attempt_ms = now;
  last_signature = signature;
}

-- _repair_gate_decision
unfoldable pub repair_gate_decision :
    Breaker
    → (signature : String) → (now_ms max_attempts cooldown_base_ms : ℕ)
    → RepairDecision × Breaker × String
unfolding cooldown_ms escalated_for attempted str_or
repair_gate_decision s signature now max_attempts base =
    if s.escalated
    then (skip, s, str_or s.reason "already_escalated")
    else if leb max_attempts s.attempts
    then (escalate, escalated_for "max_attempts" s, "max_attempts")
    else if ltb 0 s.attempts && ltb now (s.last_attempt_ms + cooldown_ms base s.attempts)
    then (defer, s, "cooldown")
    else if ltb 0 s.attempts && not (str_eq signature "") && str_eq signature s.last_signature
    then (escalate, escalated_for "no_new_feedback" s, "no_new_feedback")
    else (proceed, attempted now signature s, "")

-- A refresh that finds the pull request in need of repair: whether its feedback can be acted on, the
-- signature of the feedback, the time, and what the coder returns if a pass is sent to it.
pub record Refresh : Type 0 where
  pub actionable : Bool
  pub signature : String
  pub now_ms : ℕ
  pub result : CoderResult

-- The entries of the run's metadata that a refresh reads and writes.
pub record RepairState : Type 0 where
  pub breaker : Breaker
  pub issue_spend : Option Spend

pub data PassOutcome : Type 0 where
  no_action : PassOutcome
  deferred : PassOutcome
  -- a person takes over; the first time a comment says so
  handed_over : (commented : Bool) → PassOutcome
  dispatched : PassOutcome

-- The breaker decides, or the budget if it is exhausted.
unfoldable pub pass_decision :
    (List Reason → String)
    → RepairConfig
    → Budget
    → Refresh
    → RepairState
    → RepairDecision × Breaker
unfolding budget_status load_issue_spend escalated_for repair_gate_decision repair_max_attempts
    cooldown_base_ms
pass_decision describe cfg b r s =
    let status = budget_status (load_issue_spend s.issue_spend) b in
    let decided =
      repair_gate_decision s.breaker r.signature r.now_ms (repair_max_attempts cfg)
        (cooldown_base_ms cfg) in
    if status.0
    then (
      if s.breaker.escalated then skip else escalate,
      escalated_for ("budget_exhausted (" ++ describe status.1 ++ ")") s.breaker,
    )
    else (decided.0, decided.1)

-- What the decision leads to. A pass that is sent counts as one execution of the coder, also where it
-- fails.
unfoldable pub carried_out :
    RepairDecision → Breaker → Refresh → RepairState → RepairState × PassOutcome
unfolding record_coder_spend
carried_out defer breaker r s = (record s { breaker = breaker }, deferred)
carried_out escalate breaker r s = (record s { breaker = breaker }, handed_over true)
carried_out skip breaker r s = (record s { breaker = breaker }, handed_over false)
carried_out proceed breaker r s = (
  record { breaker = breaker; issue_spend = record_coder_spend s.issue_spend r.result 1 },
  dispatched,
)

unfoldable pub start_pr_repair_pass :
    (List Reason → String)
    → RepairConfig
    → Budget
    → Refresh
    → RepairState
    → RepairState × PassOutcome
unfolding pass_decision carried_out
start_pr_repair_pass describe cfg b r s =
    let decided = pass_decision describe cfg b r s in
    if r.actionable then carried_out decided.0 decided.1 r s else (s, no_action)

-- The outcomes of the refreshes of one pull request, in their order.
unfoldable pub repair_passes :
    (List Reason → String) → RepairConfig → Budget → List Refresh → RepairState → List PassOutcome
unfolding start_pr_repair_pass
repair_passes describe cfg b [] s = []
repair_passes describe cfg b (r ∷ rs) s =
    let after = start_pr_repair_pass describe cfg b r s in
    after.1 ∷ repair_passes describe cfg b rs after.0
