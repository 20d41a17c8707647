-- ===== src/Coordination/Leases.antt =====
-- core/coordination/leases.py, with the claim of a task that a lease holds (tasks.py): heartbeats,
-- releases and the reaping of expired leases. `now` is what `now_ms()` returns.
use tandem_agents.Prelude.{
  ℕ, ◌+◌, max, String, Bool, ◌&&◌, ◌||◌, Option, none, some, List, [], ◌∷◌, str_eq, leb, ◌==◌,
  if◌then◌else◌, take, select, fetch_one, count, update_where, order_desc,
}
use tandem_agents.Coordination.Rows.{TaskRow, WorkerRow, LeaseRow, Store, column_eq}
use tandem_agents.Coordination.Status.{
  default_lease_ttl_seconds, duration_ms, normalized, normalize_task_state,
  task_state_from_lease_status,
}

unfoldable pub has_lease_id : String → LeaseRow → Bool
has_lease_id lease_id l = str_eq l.lease_id lease_id

unfoldable pub has_task_key : String → LeaseRow → Bool
has_task_key task_key l = str_eq l.task_key task_key

-- status = 'active'
unfoldable pub is_active : LeaseRow → Bool
is_active l = str_eq l.status "active"

-- The rows of the unique index `idx_leases_active_task_key` for one key.
unfoldable pub active_for : String → LeaseRow → Bool
unfolding is_active has_task_key
active_for task_key l = is_active l && has_task_key task_key l

-- status = 'active' AND expires_at_ms <= now
unfoldable pub is_expired : ℕ → LeaseRow → Bool
unfolding is_active
is_expired now l = is_active l && leb l.expires_at_ms now

unfoldable pub get_lease : String → List LeaseRow → Option LeaseRow
unfolding has_lease_id
get_lease lease_id leases = fetch_one (has_lease_id lease_id) leases

unfoldable pub next_attempt : String → List LeaseRow → ℕ
unfolding has_task_key
next_attempt task_key leases = count (has_task_key task_key) leases + 1

-- The columns that a lease set are cleared only where the task still names that lease.
unfoldable pub cleared_claim : String → ℕ → String → String → TaskRow → TaskRow
unfolding column_eq
cleared_claim lease_id now state status t =
    let mine = column_eq t.claimed_lease_id (some lease_id) in
    record t {
      status = status;
      state = state;
      claimed_run_id = if mine then none else t.claimed_run_id;
      claimed_lease_id = if mine then none else t.claimed_lease_id;
      claimed_by = if mine then none else t.claimed_by;
      claimed_host_id = if mine then none else t.claimed_host_id;
      lease_expires_at_ms = if mine then none else t.lease_expires_at_ms;
      updated_at_ms = now;
    }

-- `status` is always given by the callers, never empty.
unfoldable pub clear_task_claim_for_lease_locked :
    String → String → ℕ → String → String → List TaskRow → List TaskRow
unfolding cleared_claim
clear_task_claim_for_lease_locked task_key lease_id now state status =
    update_where (λ t. str_eq t.task_key task_key)
      (cleared_claim lease_id now (normalize_task_state state) status)

unfoldable pub stale_lease : ℕ → String → LeaseRow → LeaseRow
stale_lease now reason l = record l {
  status = "stale";
  released_at_ms = some now;
  release_reason = some reason;
}

unfoldable pub idle_worker : ℕ → WorkerRow → WorkerRow
idle_worker now w = record w {
  status = "idle";
  current_lease_id = none;
  current_run_id = none;
  updated_at_ms = now;
}

-- The lease is marked stale, and its task's claim goes with it.
unfoldable pub expire_lease : ℕ → String → LeaseRow → Store → Store
unfolding has_lease_id stale_lease clear_task_claim_for_lease_locked
expire_lease now reason row s = record s {
  leases = update_where (has_lease_id row.lease_id) (stale_lease now reason) s.leases;
  tasks = clear_task_claim_for_lease_locked row.task_key row.lease_id now "stale" "stale" s.tasks;
}

-- UPDATE workers SET status = 'idle', … WHERE worker_id = ?
unfoldable pub idle : ℕ → String → Store → Store
unfolding idle_worker
idle now worker_id s = record s {
  workers = update_where (λ w. str_eq w.worker_id worker_id) (idle_worker now) s.workers;
}

unfoldable pub reap_leases : ℕ → List LeaseRow → Store → Store
unfolding expire_lease idle
reap_leases now [] s = s
reap_leases now (row ∷ rows) s =
    reap_leases now rows (idle now row.worker_id (expire_lease now "expired" row s))

unfoldable pub reap_expired_leases_locked : ℕ → Store → Store
unfolding is_expired reap_leases
reap_expired_leases_locked now s = reap_leases now (select (is_expired now) s.leases) s

unfoldable pub reap_expired_leases : ℕ → Store → Store × List LeaseRow
unfolding reap_expired_leases_locked
reap_expired_leases now s = (reap_expired_leases_locked now s, select (is_expired now) s.leases)

unfoldable pub refreshed_lease : ℕ → ℕ → LeaseRow → LeaseRow
refreshed_lease now expires_at l = record l { heartbeat_at_ms = now; expires_at_ms = expires_at }

unfoldable pub refresh : ℕ → ℕ → LeaseRow → Store → Store
unfolding has_lease_id is_active refreshed_lease
refresh now expires_at row s = record s {
  leases =
      update_where (λ l. has_lease_id row.lease_id l && is_active l)
        (refreshed_lease now expires_at) s.leases;
  tasks =
      update_where (λ t. str_eq t.task_key row.task_key)
        (λ t. record t { lease_expires_at_ms = some expires_at; updated_at_ms = now }) s.tasks;
  workers =
      update_where (λ w. str_eq w.worker_id row.worker_id)
        (λ w. record w {
          last_seen_at_ms = now;
          updated_at_ms = now;
          current_lease_id = some row.lease_id;
        })
        s.workers;
}

-- `none` is the heartbeat miss: the lease is gone or no longer active.
unfoldable pub heartbeat_lease : ℕ → ℕ → String → Store → Store × Option LeaseRow
unfolding get_lease refresh has_lease_id is_active duration_ms
heartbeat_lease now lease_ttl_seconds lease_id s = elim (get_lease lease_id s.leases) [
  | none ↦ (s, none)
  | some row ↦
      if count (λ l. has_lease_id lease_id l && is_active l) s.leases == 0
      then (s, none)
      else let s' =
          refresh now (now + duration_ms default_lease_ttl_seconds lease_ttl_seconds) row s in
        (s', get_lease lease_id s'.leases)
]

unfoldable pub released_lease : ℕ → String → Option String → LeaseRow → LeaseRow
released_lease now status reason l = record l {
  status = status;
  released_at_ms = some now;
  release_reason = reason;
}

unfoldable pub released_worker : ℕ → String → WorkerRow → WorkerRow
released_worker now status w = record w {
  status =
      if str_eq status "completed" || str_eq status "blocked" || str_eq status "failed"
      then "idle"
      else status;
  current_lease_id = none;
  current_run_id = none;
  updated_at_ms = now;
}

unfoldable pub release : ℕ → String → Option String → LeaseRow → Store → Store
unfolding has_lease_id is_active released_lease released_worker cleared_claim
release now status reason row s =
    let task_state = task_state_from_lease_status status in
    record s {
      leases =
          update_where (λ l. has_lease_id row.lease_id l && is_active l)
            (released_lease now status reason) s.leases;
      tasks =
          update_where (λ t. str_eq t.task_key row.task_key)
            (cleared_claim row.lease_id now task_state task_state) s.tasks;
      workers =
          update_where (λ w. str_eq w.worker_id row.worker_id) (released_worker now status)
            s.workers;
    }

unfoldable pub release_lease : ℕ → String → String → Option String → Store → Store × Option LeaseRow
unfolding get_lease release has_lease_id is_active
release_lease now lease_id status reason s = elim (get_lease lease_id s.leases) [
  | none ↦ (s, none)
  | some row ↦
      if count (λ l. has_lease_id lease_id l && is_active l) s.leases == 0
      then (s, get_lease lease_id s.leases)
      else let s' = release now status reason row s in (s', get_lease lease_id s'.leases)
]

-- The WHERE clause of `list_leases`; "" stands for a filter that is not given.
unfoldable pub lease_matches : ℕ → String → String → LeaseRow → Bool
unfolding is_expired has_task_key
lease_matches now status task_key l =
    let wanted = normalized status in
    (if str_eq wanted "expired"
      then is_expired now l
      else (str_eq wanted "" || str_eq wanted "all" || str_eq l.status wanted))
    && (str_eq task_key "" || has_task_key task_key l)

unfoldable pub list_leases : ℕ → String → String → ℕ → List LeaseRow → List LeaseRow
unfolding lease_matches
list_leases now status task_key limit leases =
    take (max 1 limit)
      (order_desc (λ l. l.heartbeat_at_ms) (select (lease_matches now status task_key) leases))
