-- ===== src/Coordination/Status.antt =====
-- core/coordination/constants.py, and how tasks.py maps the statuses of leases to task states.
use tandem_agents.Prelude.{
  ℕ, ◌*◌, String, ◌||◌, List, [], ◌∷◌, str_eq, strip, lower, any, or_else, max, if◌then◌else◌,
}

abbrev pub default_lease_ttl_seconds : ℕ
default_lease_ttl_seconds = 300

abbrev pub default_outbox_stale_after_seconds : ℕ
default_outbox_stale_after_seconds = 300

abbrev pub default_worker_stale_after_seconds : ℕ
default_worker_stale_after_seconds = 90

abbrev pub task_states : List String
task_states = "queued" ∷ "claimed" ∷ "active" ∷ "review" ∷ "blocked" ∷ "done" ∷ "stale" ∷ []

-- `max(1, int(seconds or default)) * 1000`
unfoldable pub duration_ms : ℕ → ℕ → ℕ
duration_ms default seconds = max 1 (or_else seconds default) * 1000

-- `_nonempty(value).lower()`
unfoldable pub normalized : String → String
unfolding strip lower
normalized s = lower (strip s)

unfoldable pub normalize_task_state : String → String
unfolding normalized any
normalize_task_state state =
    if any (str_eq (normalized state)) task_states then normalized state else "queued"

unfoldable pub task_state_from_lease_status : String → String
unfolding normalize_task_state
task_state_from_lease_status status =
    let n = normalized status in
    if str_eq n "completed"
    then "done"
    else if str_eq n "blocked" || str_eq n "failed" || str_eq n "cancelled"
    then "blocked"
    else if str_eq n "stale"
    then "stale"
    else normalize_task_state n
