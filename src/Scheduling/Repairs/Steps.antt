-- ===== src/Scheduling/Repairs/Steps.antt =====
-- core/scheduling/coder_supervisor.py: what one refresh does to the breaker of the repair passes.
use Prim.Native.String.{◌++◌}
use tandem_agents.Prelude.{
  ℕ, ◌+◌, ◌≤◌, max, String, ◌≡◌, refl, inl, inr, Bool, true, false, not, ◌&&◌, List, arith, str_eq,
  ltb, leb, if◌then◌else◌, Bool-cases, str_or,
}
use tandem_agents.Budget.{Budget, Reason, budget_status, load_issue_spend}
use tandem_agents.Scheduling.Repairs.{
  Breaker, RepairDecision, proceed, defer, escalate, skip, RepairConfig, repair_max_attempts,
  cooldown_base_ms, cooldown_ms, escalated_for, attempted, repair_gate_decision, Refresh,
  RepairState, PassOutcome, no_action, deferred, handed_over, dispatched, pass_decision,
  carried_out, start_pr_repair_pass,
}

unfoldable pub is_dispatched : PassOutcome → Bool
is_dispatched dispatched = true
is_dispatched no_action = false
is_dispatched deferred = false
is_dispatched (handed_over b) = false

-- A person was told that the passes end.
unfoldable pub is_told : PassOutcome → Bool
is_told (handed_over b) = b
is_told dispatched = false
is_told no_action = false
is_told deferred = false

unfoldable pub bit : Bool → ℕ
bit b = if b then 1 else 0

-- A step of the breaker counts the pass that it lets through, which is one below the limit, and the
-- first hand-over sets the flag.
pub record StepsTo (limit : ℕ) (d : PassOutcome) (s t : Breaker) : Type 0 where
  pub counted : t.attempts ≡ s.attempts + bit (is_dispatched d)
  pub below : t.attempts ≤ max s.attempts limit
  pub told : bit (is_told d) + bit s.escalated ≤ bit t.escalated

outcome_of : RepairDecision → PassOutcome
outcome_of proceed = dispatched
outcome_of defer = deferred
outcome_of escalate = handed_over true
outcome_of skip = handed_over false

unfoldable pub is_proceed : RepairDecision → Bool
is_proceed proceed = true
is_proceed defer = false
is_proceed escalate = false
is_proceed skip = false

-- The tests of the gate, one below the other.
module _ (limit : ℕ) (s : Breaker) (now : ℕ) (signature : String) where
  unfoldable pub gate_by : (e full wait same : Bool) → RepairDecision × Breaker × String
  gate_by e full wait same =
      if e
      then (skip, s, str_or s.reason "already_escalated")
      else if full
      then (escalate, escalated_for "max_attempts" s, "max_attempts")
      else if wait
      then (defer, s, "cooldown")
      else if same
      then (escalate, escalated_for "no_new_feedback" s, "no_new_feedback")
      else (proceed, attempted now signature s, "")

  gate-StepsTo :
      (e full wait same : Bool)
      → e ≡ s.escalated
      → full ≡ leb limit s.attempts
      → StepsTo limit (outcome_of (gate_by e full wait same).0) s (gate_by e full wait same).1
  unfolding gate_by outcome_of escalated_for attempted is_dispatched is_told bit
  gate-StepsTo true full wait same h k = record {
    counted = omega arith;
    below = omega arith;
    told = ground (arith, h);
  }
  gate-StepsTo false true wait same h k = record {
    counted = omega arith;
    below = omega arith;
    told = ground (arith, h);
  }
  gate-StepsTo false false true same h k = record {
    counted = omega arith;
    below = omega arith;
    told = ground (arith, h);
  }
  gate-StepsTo false false false true h k = record {
    counted = omega arith;
    below = omega arith;
    told = ground (arith, h);
  }
  gate-StepsTo false false false false h k = record {
    counted = omega arith;
    below = ground (arith, k);
    told = ground (arith, h);
  }

  pub gate-is_proceed :
      (e full wait same : Bool)
      → is_proceed (gate_by e full wait same).0 ≡ (not e && not full && not wait && not same)
  unfolding gate_by is_proceed
  gate-is_proceed true full wait same = refl
  gate-is_proceed false true wait same = refl
  gate-is_proceed false false true same = refl
  gate-is_proceed false false false true = refl
  gate-is_proceed false false false false = refl

  -- The budget comes before the gate.
  unfoldable pub budget_first :
      Bool → String → RepairDecision × Breaker × String → RepairDecision × Breaker
  budget_first exhausted reason decided =
      if exhausted
      then (if s.escalated then skip else escalate, escalated_for reason s)
      else (decided.0, decided.1)

  hand_over :
      (e : Bool)
      → (bit (is_dispatched (outcome_of (if e then skip else escalate))) ≡ 0)
        × (bit (is_told (outcome_of (if e then skip else escalate))) + bit e ≡ 1)
  unfolding bit is_dispatched is_told outcome_of
  hand_over true = (refl, refl)
  hand_over false = (refl, refl)

  budget-StepsTo :
      (exhausted : Bool) (reason : String) (decided : RepairDecision × Breaker × String)
      → StepsTo limit (outcome_of decided.0) s decided.1
      → StepsTo limit
          (outcome_of (budget_first exhausted reason decided).0)
          s
          (budget_first exhausted reason decided).1
  unfolding budget_first escalated_for bit
  budget-StepsTo false reason decided h = h
  budget-StepsTo true reason decided h =
      let told = hand_over s.escalated in
      record { counted = omega (arith, told.0); below = omega arith; told = omega (arith, told.1) }

  pub budget-is_proceed :
      (exhausted : Bool) (reason : String) (decided : RepairDecision × Breaker × String)
      → is_proceed (budget_first exhausted reason decided).0
        ≡ (not exhausted && is_proceed decided.0)
  unfolding budget_first is_proceed
  budget-is_proceed false reason decided = refl
  budget-is_proceed true reason decided = elim (Bool-cases s.escalated) [
    | inl e ↦ simp e
    | inr e ↦ simp e
  ]

carried-StepsTo :
    (limit : ℕ) (d : RepairDecision) (t : Breaker) (r : Refresh) (s : RepairState)
    → StepsTo limit (outcome_of d) s.breaker t
    → StepsTo limit (carried_out d t r s).1 s.breaker (carried_out d t r s).0.breaker
unfolding carried_out outcome_of
carried-StepsTo limit proceed t r s h = h
carried-StepsTo limit defer t r s h = h
carried-StepsTo limit escalate t r s h = h
carried-StepsTo limit skip t r s h = h

pub carried-is_dispatched :
    (d : RepairDecision) (t : Breaker) (r : Refresh) (s : RepairState)
    → is_dispatched (carried_out d t r s).1 ≡ is_proceed d
unfolding carried_out is_dispatched is_proceed
carried-is_dispatched proceed t r s = refl
carried-is_dispatched defer t r s = refl
carried-is_dispatched escalate t r s = refl
carried-is_dispatched skip t r s = refl

acts-StepsTo :
    (limit : ℕ) (s : RepairState) (a : Bool) (p : RepairState × PassOutcome)
    → StepsTo limit p.1 s.breaker p.0.breaker
    → StepsTo limit
        (if a then p else (s, no_action)).1
        s.breaker
        (if a then p else (s, no_action)).0.breaker
unfolding is_dispatched is_told bit
acts-StepsTo limit s true p h = h
acts-StepsTo limit s false p h = record {
  counted = omega arith;
  below = omega arith;
  told = omega arith;
}

pub acts-is_dispatched :
    (s : RepairState) (a : Bool) (p : RepairState × PassOutcome)
    → is_dispatched (if a then p else (s, no_action)).1 ≡ (a && is_dispatched p.1)
unfolding is_dispatched
acts-is_dispatched s true p = refl
acts-is_dispatched s false p = refl

pub pass-StepsTo :
    (describe : List Reason → String) (cfg : RepairConfig) (b : Budget) (r : Refresh)
    (s : RepairState)
    → StepsTo
        (repair_max_attempts cfg)
        (start_pr_repair_pass describe cfg b r s).1
        s.breaker
        (start_pr_repair_pass describe cfg b r s).0.breaker
unfolding start_pr_repair_pass pass_decision repair_gate_decision gate_by budget_first
pass-StepsTo describe cfg b r s =
    let limit = repair_max_attempts cfg in
    let x = s.breaker in
    let decided = pass_decision describe cfg b r s in
    let gate = repair_gate_decision x r.signature r.now_ms limit (cooldown_base_ms cfg) in
    let status = budget_status (load_issue_spend s.issue_spend) b in
    let reason = "budget_exhausted (" ++ describe status.1 ++ ")" in
    let full = leb limit x.attempts in
    let wait =
      ltb 0 x.attempts
      && ltb r.now_ms (x.last_attempt_ms + cooldown_ms (cooldown_base_ms cfg) x.attempts) in
    let same =
      ltb 0 x.attempts && not (str_eq r.signature "") && str_eq r.signature x.last_signature in
    let acted = carried-StepsTo limit decided.0 decided.1 r s (
      budget-StepsTo limit x r.now_ms r.signature status.0 reason gate
        (gate-StepsTo limit x r.now_ms r.signature x.escalated full wait same refl refl)) in
    acts-StepsTo limit s r.actionable (carried_out decided.0 decided.1 r s) acted
