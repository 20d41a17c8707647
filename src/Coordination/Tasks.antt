-- ===== src/Coordination/Tasks.antt =====
-- core/coordination/tasks.py: registration, state transitions and ownership of tasks.
use tandem_agents.Prelude.{
  ℕ, String, Bool, true, false, not, ◌&&◌, Option, none, some, List, [], ◌∷◌, str_eq, if◌then◌else◌,
  select, fetch_one, update_where, upsert, strip,
}
use tandem_agents.Coordination.Rows.{
  Entry, text, Metadata, TaskRow, WorkerRow, LeaseRow, Store, column_eq, coalesce,
}
use tandem_agents.Coordination.Status.{normalized, normalize_task_state}
use tandem_agents.Coordination.Leases.{active_for, get_lease, stale_lease, idle_worker}

unfoldable pub is_task : String → TaskRow → Bool
is_task task_key t = str_eq t.task_key task_key

unfoldable pub get_task : String → List TaskRow → Option TaskRow
unfolding is_task
get_task task_key = fetch_one (is_task task_key)

-- d[k] = v
unfoldable pub put_entry : String → Entry → Metadata → Metadata
put_entry k v [] = (k, v) ∷ []
put_entry k v ((j, w) ∷ m) = if str_eq j k then (k, v) ∷ m else (j, w) ∷ put_entry k v m

-- {**m, **n}
unfoldable pub merge : Metadata → Metadata → Metadata
unfolding put_entry
merge m [] = m
merge m ((k, v) ∷ n) = merge (put_entry k v m) n

-- What `_task_payload` extracts from a task and its repository.
pub record Payload : Type 0 where
  pub task_key : String
  pub task_id : Option String
  pub source_type : String
  pub source_ref : String
  pub title : String
  pub repo_slug : String
  pub repo_path : String
  pub board_path : String
  pub metadata : Metadata

unfoldable pub payload_row : ℕ → String → Payload → TaskRow
payload_row now state p = record {
  task_key = p.task_key;
  task_id = p.task_id;
  source_type = p.source_type;
  source_ref = p.source_ref;
  title = p.title;
  repo_slug = p.repo_slug;
  repo_path = p.repo_path;
  board_path = p.board_path;
  status = state;
  state = state;
  claimed_run_id = none;
  claimed_lease_id = none;
  claimed_by = none;
  claimed_host_id = none;
  lease_expires_at_ms = none;
  created_at_ms = now;
  updated_at_ms = now;
  metadata = p.metadata;
}

-- DO UPDATE of `register_task`: the claim and `created_at_ms` are kept.
unfoldable pub registered : TaskRow → TaskRow → TaskRow
registered new t = record new {
  claimed_run_id = t.claimed_run_id;
  claimed_lease_id = t.claimed_lease_id;
  claimed_by = t.claimed_by;
  claimed_host_id = t.claimed_host_id;
  lease_expires_at_ms = t.lease_expires_at_ms;
  created_at_ms = t.created_at_ms;
}

unfoldable pub without_claim : ℕ → TaskRow → TaskRow
without_claim now t = record t {
  claimed_run_id = none;
  claimed_lease_id = none;
  claimed_by = none;
  claimed_host_id = none;
  lease_expires_at_ms = none;
  updated_at_ms = now;
}

-- The claim that the task names belongs to a lease that is no longer active, or is gone.
unfoldable pub is_reclaimable : List LeaseRow → TaskRow → Bool
unfolding get_lease normalized
is_reclaimable leases t = elim t.claimed_lease_id [
  | none ↦ false
  | some raw ↦ if str_eq (strip raw) "" then false else elim (get_lease (strip raw) leases) [
    | none ↦ true
    | some l ↦ not (str_eq (normalized l.status) "active")
  ]
]

unfoldable pub clear_reclaimable_task_claim_locked :
    String → ℕ → List LeaseRow → List TaskRow → List TaskRow
unfolding get_task is_reclaimable without_claim
clear_reclaimable_task_claim_locked task_key now leases tasks = elim (get_task task_key tasks) [
  | none ↦ tasks
  | some t ↦
      if is_reclaimable leases t
      then update_where (is_task task_key) (without_claim now) tasks
      else tasks
]

unfoldable pub register_task : ℕ → Payload → String → Store → Store × Option TaskRow
unfolding payload_row registered clear_reclaimable_task_claim_locked get_task
register_task now p status s =
    let row = payload_row now (normalize_task_state status) p in
    let stored = upsert (is_task p.task_key) (registered row) row s.tasks in
    let tasks' = clear_reclaimable_task_claim_locked p.task_key now s.leases stored in
    (record s { tasks = tasks' }, get_task p.task_key tasks')

-- The keyword arguments of `transition_task_state`.
pub record Transition : Type 0 where
  pub status : Option String
  pub lease_expires_at_ms : Option ℕ
  pub run_id : Option String
  pub lease_id : Option String
  pub worker_id : Option String
  pub host_id : Option String
  pub reason : Option String
  pub metadata : Metadata
  pub clear_claim : Bool

-- `value or default` on texts.
unfoldable pub text_or : Option String → String → String
text_or none d = d
text_or (some s) d = if str_eq s "" then d else s

with_reason : Option String → Metadata → Metadata
unfolding put_entry
with_reason none m = m
with_reason (some r) m = if str_eq r "" then m else put_entry "state_reason" (text r) m

unfoldable pub transitioned : ℕ → String → Transition → Metadata → TaskRow → TaskRow
unfolding with_reason text_or coalesce merge
transitioned now state a current t =
    let next_state = normalize_task_state state in
    record t {
      status = text_or a.status next_state;
      state = next_state;
      claimed_run_id = coalesce a.run_id t.claimed_run_id;
      claimed_lease_id = coalesce a.lease_id t.claimed_lease_id;
      claimed_by = coalesce a.worker_id t.claimed_by;
      claimed_host_id = coalesce a.host_id t.claimed_host_id;
      lease_expires_at_ms = a.lease_expires_at_ms;
      updated_at_ms = now;
      metadata = with_reason a.reason (merge current a.metadata);
    }

-- The workers that still name one of the leases that were active.
idle_holders : ℕ → List LeaseRow → List WorkerRow → List WorkerRow
unfolding column_eq idle_worker
idle_holders now [] workers = workers
idle_holders now (l ∷ ls) workers = idle_holders now ls (
    update_where
      (λ w. str_eq w.worker_id l.worker_id && column_eq w.current_lease_id (some l.lease_id))
      (idle_worker now) workers)

unfoldable pub clear_claim : ℕ → String → Option String → Store → Store
unfolding active_for stale_lease idle_holders is_task without_claim text_or
clear_claim now task_key reason s = record s {
  leases =
      update_where (active_for task_key)
        (stale_lease now (text_or reason "operator cleared task claim")) s.leases;
  workers = idle_holders now (select (active_for task_key) s.leases) s.workers;
  tasks = update_where (is_task task_key) (without_claim now) s.tasks;
}

unfoldable pub apply_task_state_locked : ℕ → String → String → Transition → Store → Store
unfolding get_task transitioned clear_claim
apply_task_state_locked now task_key state a s = elim (get_task task_key s.tasks) [
  | none ↦ s
  | some row ↦
      let s' = record s {
        tasks = update_where (is_task task_key) (transitioned now state a row.metadata) s.tasks;
      } in
      if a.clear_claim then clear_claim now task_key a.reason s' else s'
]

unfoldable pub transition_task_state :
    ℕ → String → String → Transition → Store → Store × Option TaskRow
unfolding apply_task_state_locked get_task
transition_task_state now task_key state a s =
    let s' = apply_task_state_locked now task_key state a s in (s', get_task task_key s'.tasks)

-- Who holds a claim, as the `mark_task_…` methods are told.
pub record Holder : Type 0 where
  pub run_id : Option String
  pub lease_id : Option String
  pub worker_id : Option String
  pub host_id : Option String

unfoldable pub mark : String → Holder → Option ℕ → Option String → Transition
mark status h expires reason = record {
  status = some status;
  lease_expires_at_ms = expires;
  run_id = h.run_id;
  lease_id = h.lease_id;
  worker_id = h.worker_id;
  host_id = h.host_id;
  reason = reason;
  metadata = [];
  clear_claim = false;
}

module _ (now : ℕ) (task_key : String) (h : Holder) where
  unfoldable pub mark_task_claimed : ℕ → Option String → Store → Store × Option TaskRow
  unfolding transition_task_state mark
  mark_task_claimed expires reason =
      transition_task_state now task_key "claimed" (mark "claimed" h (some expires) reason)

  unfoldable pub mark_task_active : ℕ → Option String → Store → Store × Option TaskRow
  unfolding transition_task_state mark
  mark_task_active expires reason =
      transition_task_state now task_key "active" (mark "active" h (some expires) reason)

  unfoldable pub mark_task_review : ℕ → Option String → Store → Store × Option TaskRow
  unfolding transition_task_state mark
  mark_task_review expires reason =
      transition_task_state now task_key "review" (mark "review" h (some expires) reason)

  unfoldable pub mark_task_blocked : Option String → Store → Store × Option TaskRow
  unfolding transition_task_state mark
  mark_task_blocked reason =
      transition_task_state now task_key "blocked" (mark "blocked" h none reason)

  unfoldable pub mark_task_done : Option String → Store → Store × Option TaskRow
  unfolding transition_task_state mark
  mark_task_done reason = transition_task_state now task_key "done" (mark "done" h none reason)
