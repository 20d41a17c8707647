-- ===== src/Scheduling/Repairs/Bounded.antt =====
-- core/scheduling/coder_supervisor.py: the repair passes over a pull request are bounded, and a
-- person is told once.
use Prim.Native.String.{◌++◌}
use tandem_agents.Prelude.{
  ℕ, ◌+◌, ◌≤◌, max, String, ◌≡◌, ap, ◌∙◌, Bool, not, ◌&&◌, ◌||◌, List, [], ◌∷◌, arith, str_eq, ltb,
  leb, ◌==◌, count,
}
use tandem_agents.Budget.{Budget, Reason, budget_status, load_issue_spend, is_exhausted}
use tandem_agents.Scheduling.Repairs.{
  new_breaker, RepairConfig, repair_max_attempts, cooldown_base_ms, cooldown_ms,
  repair_gate_decision, Refresh, RepairState, pass_decision, carried_out, start_pr_repair_pass,
  repair_passes,
}
use tandem_agents.Scheduling.Repairs.Steps.{
  is_dispatched, is_told, bit, gate_by, budget_first, pass-StepsTo, acts-is_dispatched,
  carried-is_dispatched, gate-is_proceed, budget-is_proceed,
}

-- Over any refreshes, with the passes that were made before, no more passes are dispatched than
-- `max_repair_attempts` (5 if it is not set), unless more were made before.
passes-within :
    (describe : List Reason → String) (cfg : RepairConfig) (b : Budget) (rs : List Refresh)
    (s : RepairState)
    → count is_dispatched (repair_passes describe cfg b rs s) + s.breaker.attempts
      ≤ max s.breaker.attempts (repair_max_attempts cfg)
unfolding repair_passes count bit
passes-within describe cfg b [] s = omega arith
passes-within describe cfg b (r ∷ rs) s =
    let step = pass-StepsTo describe cfg b r s in
    let rest = passes-within describe cfg b rs (start_pr_repair_pass describe cfg b r s).0 in
    ground (arith, step.counted, step.below, rest)

told-once :
    (describe : List Reason → String) (cfg : RepairConfig) (b : Budget) (rs : List Refresh)
    (s : RepairState)
    → count is_told (repair_passes describe cfg b rs s) + bit s.breaker.escalated ≤ 1
unfolding repair_passes count bit
told-once describe cfg b [] s = ground arith
told-once describe cfg b (r ∷ rs) s =
    let step = pass-StepsTo describe cfg b r s in
    let rest = told-once describe cfg b rs (start_pr_repair_pass describe cfg b r s).0 in
    ground (arith, step.told, rest)

-- Over any refreshes of a pull request whose breaker is new, at most `max_repair_attempts` passes
-- (5 if it is not set) are dispatched to the coder, and a person is told at most once that they end.
pub repairs_bounded :
    (describe : List Reason → String) (cfg : RepairConfig) (b : Budget) (rs : List Refresh)
    (s : RepairState)
    → s.breaker ≡ new_breaker
    → (count is_dispatched (repair_passes describe cfg b rs s) ≤ repair_max_attempts cfg)
      × (count is_told (repair_passes describe cfg b rs s) ≤ 1)
repairs_bounded describe cfg b rs s e = (
  omega (arith, passes-within describe cfg b rs s, ap (λ x. x.attempts) e),
  omega (arith, told-once describe cfg b rs s),
)

tests-equal :
    (acts exhausted e : Bool) (limit n last wait now : ℕ) (unsigned same : Bool)
    → (acts
        && (not exhausted
            && (not e
                && not (leb limit n)
                && not (ltb 0 n && ltb now (last + wait))
                && not (ltb 0 n && not unsigned && same))))
      ≡ (acts
          && not exhausted
          && not e
          && ltb n limit
          && (n == 0 || (leb (last + wait) now && (unsigned || not same))))
tests-equal acts exhausted e limit n last wait now unsigned same = ground arith

-- A pass is dispatched exactly when the feedback can be acted on, the budget is not exhausted, nobody
-- took over, the limit is not reached, and, behind an earlier pass, its time to wait is over and the
-- feedback is not the one that it was sent for, where the feedback has a signature.
pub dispatched_exactly :
    (describe : List Reason → String) (cfg : RepairConfig) (b : Budget) (r : Refresh)
    (s : RepairState)
    → is_dispatched (start_pr_repair_pass describe cfg b r s).1 ≡ (
        r.actionable
        && not (is_exhausted s.issue_spend b)
        && not s.breaker.escalated
        && ltb s.breaker.attempts (repair_max_attempts cfg)
        && (s.breaker.attempts == 0
            || (leb
                  (s.breaker.last_attempt_ms
                    + cooldown_ms (cooldown_base_ms cfg) s.breaker.attempts)
                  r.now_ms
                && (str_eq r.signature "" || not (str_eq r.signature s.breaker.last_signature)))))
unfolding start_pr_repair_pass pass_decision repair_gate_decision gate_by budget_first is_exhausted
dispatched_exactly describe cfg b r s =
    let limit = repair_max_attempts cfg in
    let x = s.breaker in
    let decided = pass_decision describe cfg b r s in
    let gate = repair_gate_decision x r.signature r.now_ms limit (cooldown_base_ms cfg) in
    let status = budget_status (load_issue_spend s.issue_spend) b in
    let reason = "budget_exhausted (" ++ describe status.1 ++ ")" in
    let full = leb limit x.attempts in
    let wait =
      ltb 0 x.attempts
      && ltb r.now_ms (x.last_attempt_ms + cooldown_ms (cooldown_base_ms cfg) x.attempts) in
    let same =
      ltb 0 x.attempts && not (str_eq r.signature "") && str_eq r.signature x.last_signature in
    acts-is_dispatched s r.actionable (carried_out decided.0 decided.1 r s)
    ∙ ap (λ z. r.actionable && z)
        (carried-is_dispatched decided.0 decided.1 r s
          ∙ budget-is_proceed limit x r.now_ms r.signature status.0 reason gate
          ∙ ap (λ z. not (is_exhausted s.issue_spend b) && z)
              (gate-is_proceed limit x r.now_ms r.signature x.escalated full wait same))
    ∙ tests-equal r.actionable (is_exhausted s.issue_spend b) x.escalated limit x.attempts
        x.last_attempt_ms (cooldown_ms (cooldown_base_ms cfg) x.attempts) r.now_ms
        (str_eq r.signature "") (str_eq r.signature x.last_signature)
