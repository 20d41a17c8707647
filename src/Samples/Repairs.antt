-- ===== src/Samples/Repairs.antt =====
-- A pull request that stays in need of repair while it is refreshed.
use tandem_agents.Prelude.{
  ℕ, ◌+◌, ◌≤◌, String, ◌≡◌, refl, true, false, not, ◌&&◌, ◌||◌, none, some, List, [], ◌∷◌, str_eq,
  ltb, leb, ◌==◌, count,
}
use tandem_agents.Budget.{Budget, Reason, is_exhausted}
use tandem_agents.Scheduling.Repairs.{
  new_breaker, RepairConfig, repair_max_attempts, cooldown_base_ms, cooldown_ms, Refresh,
  RepairState, start_pr_repair_pass, repair_passes,
}
use tandem_agents.Scheduling.Repairs.Steps.{is_dispatched, is_told}
use tandem_agents.Scheduling.Repairs.Bounded.{repairs_bounded, dispatched_exactly}

abbrev describe : List Reason → String
describe rs = "..."

abbrev two_attempts : RepairConfig
two_attempts = record { max_repair_attempts = some 2; repair_cooldown_base_ms = none }

abbrev no_budget : Budget
no_budget = record { max_tokens = 0; max_cost_usd = 0; max_coder_executions = 0 }

abbrev refresh_at : ℕ → String → Refresh
refresh_at now signature = record {
  actionable = true;
  signature = signature;
  now_ms = now;
  result = record { own = []; parts = [] };
}

-- The second refresh comes too early, the last ones find the limit reached.
abbrev refreshes : List Refresh
refreshes =
    refresh_at 1000 "a"
    ∷ refresh_at 31000 "b"
    ∷ refresh_at 61000 "b"
    ∷ refresh_at 300000 "c"
    ∷ refresh_at 330000 "d"
    ∷ []

abbrev at_first : RepairState
at_first = record { breaker = new_breaker; issue_spend = none }

two_dispatched :
    count is_dispatched (repair_passes describe two_attempts no_budget refreshes at_first) ≡ 2
unfolding repair_passes count is_dispatched
two_dispatched = refl

repairs_bounded_example :
    (count is_dispatched (repair_passes describe two_attempts no_budget refreshes at_first)
      ≤ repair_max_attempts two_attempts)
    × (count is_told (repair_passes describe two_attempts no_budget refreshes at_first) ≤ 1)
repairs_bounded_example = repairs_bounded describe two_attempts no_budget refreshes at_first refl

dispatched_exactly_example :
    is_dispatched
      (start_pr_repair_pass describe two_attempts no_budget (refresh_at 1000 "a") at_first).1
    ≡ (true
        && not (is_exhausted none no_budget)
        && not false
        && ltb 0 (repair_max_attempts two_attempts)
        && (0 == 0
            || (leb (0 + cooldown_ms (cooldown_base_ms two_attempts) 0) 1000
                && (str_eq "a" "" || not (str_eq "a" "")))))
dispatched_exactly_example =
    dispatched_exactly describe two_attempts no_budget (refresh_at 1000 "a") at_first
