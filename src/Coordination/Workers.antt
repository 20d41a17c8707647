-- ===== src/Coordination/Workers.antt =====
-- core/coordination/workers.py: registration, heartbeats, and the reaping of the leases of workers
-- that were not seen for a while.
use tandem_agents.Prelude.{
  ℕ, ◌+◌, max, String, Bool, true, false, not, ◌&&◌, ◌||◌, Option, none, some, List, [], ◌∷◌, ◌++◌,
  str_eq, ltb, leb, if◌then◌else◌, take, select, fetch_one, count, update_where, upsert, order_desc,
  order_asc, strip,
}
use tandem_agents.Coordination.Rows.{Dict, WorkerRow, LeaseRow, Store, coalesce}
use tandem_agents.Coordination.Status.{default_worker_stale_after_seconds, duration_ms, normalized}
use tandem_agents.Coordination.Leases.{get_lease, expire_lease, idle}

unfoldable pub has_worker_id : String → WorkerRow → Bool
has_worker_id worker_id w = str_eq w.worker_id worker_id

-- INSERT INTO workers … ON CONFLICT(worker_id) DO UPDATE: `created_at_ms` is kept.
unfoldable pub register_worker : WorkerRow → List WorkerRow → List WorkerRow
unfolding has_worker_id
register_worker row =
    upsert (has_worker_id row.worker_id) (λ w. record row { created_at_ms = w.created_at_ms }) row

-- The row that `register_worker` inserts.
unfoldable pub new_worker :
    ℕ → String → String → String → String → Dict → Option String → Option String → WorkerRow
new_worker now worker_id host_id role status capabilities run_id lease_id = record {
  worker_id = worker_id;
  host_id = host_id;
  role = role;
  status = status;
  capabilities = capabilities;
  current_run_id = run_id;
  current_lease_id = lease_id;
  last_seen_at_ms = now;
  created_at_ms = now;
  updated_at_ms = now;
}

-- The arguments of `heartbeat_worker` that may be left out.
pub record WorkerUpdate : Type 0 where
  pub host_id : Option String
  pub role : Option String
  pub status : Option String
  pub capabilities : Option Dict
  pub current_run_id : Option String
  pub current_lease_id : Option String

or_keep : {A : Type 0} → Option A → A → A
or_keep none a = a
or_keep (some b) a = b

unfoldable pub beaten_worker : ℕ → WorkerUpdate → WorkerRow → WorkerRow
unfolding or_keep coalesce
beaten_worker now u w = record w {
  last_seen_at_ms = now;
  updated_at_ms = now;
  host_id = or_keep u.host_id w.host_id;
  role = or_keep u.role w.role;
  status = or_keep u.status w.status;
  capabilities = or_keep u.capabilities w.capabilities;
  current_run_id = coalesce u.current_run_id w.current_run_id;
  current_lease_id = coalesce u.current_lease_id w.current_lease_id;
}

unfoldable pub get_worker : String → List WorkerRow → Option WorkerRow
unfolding has_worker_id
get_worker worker_id = fetch_one (has_worker_id worker_id)

-- `none` if no such worker is registered.
unfoldable pub heartbeat_worker :
    ℕ → String → WorkerUpdate → List WorkerRow → List WorkerRow × Option WorkerRow
unfolding get_worker beaten_worker
heartbeat_worker now worker_id u workers = elim (get_worker worker_id workers) [
  | none ↦ (workers, none)
  | some row ↦
      let workers' = update_where (has_worker_id worker_id) (beaten_worker now u) workers in
      (workers', get_worker worker_id workers')
]

unfoldable pub list_workers : ℕ → List WorkerRow → List WorkerRow
list_workers limit workers = take (max 1 limit) (order_desc (λ w. w.updated_at_ms) workers)

-- current_lease_id IS NOT NULL
unfoldable pub holds_lease : WorkerRow → Bool
holds_lease w = elim w.current_lease_id [ none ↦ false | some _ ↦ true ]

-- The cut-off is moved to the other side, so that no subtraction goes below 0.
unfoldable pub is_stale_worker : ℕ → ℕ → WorkerRow → Bool
unfolding holds_lease
is_stale_worker now stale_after_ms w = holds_lease w && leb (w.last_seen_at_ms + stale_after_ms) now

-- `host_id in dead_hosts`: every one of the host's several busy workers is stale.
unfoldable pub host_is_dead : List WorkerRow → List WorkerRow → String → Bool
unfolding holds_lease
host_is_dead stale_rows workers host =
    let stale_count = count (λ w. str_eq (strip w.host_id) host) stale_rows in
    let active_count = count (λ w. str_eq w.host_id host && holds_lease w) workers in
    not (str_eq host "") && (ltb 1 active_count && leb active_count stale_count)

-- The lease that the row names, as the table has it when the round starts.
unfoldable pub lease_of : WorkerRow → List LeaseRow → Option LeaseRow
unfolding get_lease
lease_of row leases = elim row.current_lease_id [
  | none ↦ none
  | some raw ↦ if str_eq (strip raw) "" then none else get_lease (strip raw) leases
]

unfoldable pub is_owned : WorkerRow → LeaseRow → Bool
unfolding normalized
is_owned row l =
    str_eq (normalized l.status) "active" && str_eq (strip l.worker_id) (strip row.worker_id)

unfoldable pub should_reap : ℕ → ℕ → Bool → WorkerRow → LeaseRow → Bool
unfolding is_owned
should_reap now stale_after_ms dead row l =
    is_owned row l && (leb (l.heartbeat_at_ms + stale_after_ms) now || dead)

-- A stale worker that was idled, with its lease if that was reaped.
abbrev pub StaleWorker : Type 0
StaleWorker = WorkerRow × Option LeaseRow

-- One round: a live lease that the worker owns is left alone, a dead one is reaped, and a worker
-- without a live lease of its own is only idled.
unfoldable pub reap_worker : ℕ → ℕ → Bool → WorkerRow → Store → Store × List StaleWorker
unfolding lease_of should_reap is_owned expire_lease idle
reap_worker now stale_after_ms dead row s = elim (lease_of row s.leases) [
  | none ↦ (idle now row.worker_id s, (row, none) ∷ [])
  | some l ↦
      if should_reap now stale_after_ms dead row l
      then (idle now row.worker_id (expire_lease now "worker stale" l s), (row, some l) ∷ [])
      else if is_owned row l
      then (s, [])
      else (idle now row.worker_id s, (row, none) ∷ [])
]

unfoldable pub reap_workers :
    ℕ → ℕ → (String → Bool) → List WorkerRow → Store → Store × List StaleWorker
unfolding reap_worker
reap_workers now stale_after_ms dead [] s = (s, [])
reap_workers now stale_after_ms dead (row ∷ rows) s =
    let (s', first) = reap_worker now stale_after_ms (dead (strip row.host_id)) row s in
    let (s'', rest) = reap_workers now stale_after_ms dead rows s' in (s'', first ++ rest)

unfoldable pub reap_stale_workers : ℕ → ℕ → Store → Store × List StaleWorker
unfolding is_stale_worker host_is_dead reap_workers duration_ms
reap_stale_workers now stale_after_seconds s =
    let stale_after_ms = duration_ms default_worker_stale_after_seconds stale_after_seconds in
    let rows =
      order_asc (λ w. w.last_seen_at_ms) (select (is_stale_worker now stale_after_ms) s.workers) in
    reap_workers now stale_after_ms (host_is_dead rows s.workers) rows s

-- The copy of the loop that `claim_task` runs inside its transaction, in the table's order.
unfoldable pub reap_stale_workers_locked : ℕ → ℕ → Store → Store
unfolding is_stale_worker host_is_dead reap_workers duration_ms
reap_stale_workers_locked now stale_after_seconds s =
    let stale_after_ms = duration_ms default_worker_stale_after_seconds stale_after_seconds in
    let rows = select (is_stale_worker now stale_after_ms) s.workers in
    (reap_workers now stale_after_ms (host_is_dead rows s.workers) rows s).0
