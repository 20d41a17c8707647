-- ===== src/Coordination/Exclusion.antt =====
-- The leases of the ledger as a table with a primary key and the unique index of schema.py on the
-- task keys of the active leases: which statements keep both.
use tandem_agents.Prelude.{
  ℕ, ◌≤◌, String, ◌≡◌, refl, inl, inr, Bool, true, ◌&&◌, Option, List, [], ◌∷◌, arith, Bool-cases,
  Option-cases, select, count, update_where, order_asc, count-update_le, count-update_keep, strip,
}
use tandem_agents.Coordination.Rows.{WorkerRow, LeaseRow, Store}
use tandem_agents.Coordination.Status.{default_worker_stale_after_seconds, duration_ms}
use tandem_agents.Coordination.Leases.{
  has_lease_id, is_active, active_for, is_expired, stale_lease, expire_lease, idle, reap_leases,
  reap_expired_leases_locked, refreshed_lease, released_lease,
}
use tandem_agents.Coordination.Workers.{
  should_reap, is_owned, lease_of, is_stale_worker, host_is_dead, reap_worker, reap_workers,
  reap_stale_workers, reap_stale_workers_locked,
}

-- At most one active lease for each task, and at most one row for each lease id.
pub record IsExclusive (leases : List LeaseRow) : Type 0 where
  pub one_active : (k : String) → count (active_for k) leases ≤ 1
  pub one_row : (i : String) → count (has_lease_id i) leases ≤ 1

-- What an update of the leases must not do: make a lease active for a task, or change its id.
pub record IsSafeUpdate (q : LeaseRow → Bool) (f : LeaseRow → LeaseRow) : Type 0 where
  pub no_new :
      (k : String) (l : LeaseRow) → q l ≡ true → active_for k (f l) ≡ true → active_for k l ≡ true
  pub same_id : (i : String) (l : LeaseRow) → q l ≡ true → has_lease_id i (f l) ≡ has_lease_id i l

pub IsExclusive-update :
    (q : LeaseRow → Bool) (f : LeaseRow → LeaseRow) (leases : List LeaseRow)
    → IsSafeUpdate q f
    → IsExclusive leases
    → IsExclusive (update_where q f leases)
IsExclusive-update q f leases safe h = record {
  one_active =
      λ k. omega (arith, count-update_le (active_for k) q f leases (safe.no_new k), h.one_active k);
  one_row = λ i.
      omega (arith, count-update_keep (has_lease_id i) q f leases (safe.same_id i), h.one_row i);
}

pub stale_lease-IsSafeUpdate :
    (q : LeaseRow → Bool) (now : ℕ) (reason : String) → IsSafeUpdate q (stale_lease now reason)
unfolding active_for has_lease_id stale_lease
stale_lease-IsSafeUpdate q now reason = record { no_new = λ k l e h. cc; same_id = λ i l e. refl }

pub refreshed_lease-IsSafeUpdate :
    (q : LeaseRow → Bool) (now expires_at : ℕ) → IsSafeUpdate q (refreshed_lease now expires_at)
unfolding active_for has_lease_id refreshed_lease
refreshed_lease-IsSafeUpdate q now expires_at = record {
  no_new = λ k l e h. h;
  same_id = λ i l e. refl;
}

pub released_lease-IsSafeUpdate :
    (i : String) (now : ℕ) (status : String) (reason : Option String)
    → IsSafeUpdate (λ l. has_lease_id i l && is_active l) (released_lease now status reason)
unfolding active_for has_lease_id released_lease
released_lease-IsSafeUpdate i now status reason = record {
  no_new = λ k l e h. ground arith;
  same_id = λ i l e. refl;
}

pub expire_lease-IsExclusive :
    (now : ℕ) (reason : String) (row : LeaseRow) (s : Store)
    → IsExclusive s.leases
    → IsExclusive (expire_lease now reason row s).leases
unfolding expire_lease
expire_lease-IsExclusive now reason row s h =
    IsExclusive-update _ _ s.leases (stale_lease-IsSafeUpdate _ now reason) h

reap_leases-IsExclusive :
    (now : ℕ) (rows : List LeaseRow) (s : Store)
    → IsExclusive s.leases
    → IsExclusive (reap_leases now rows s).leases
unfolding reap_leases idle
reap_leases-IsExclusive now [] s h = h
reap_leases-IsExclusive now (row ∷ rows) s h =
    reap_leases-IsExclusive now rows (idle now row.worker_id (expire_lease now "expired" row s))
      (expire_lease-IsExclusive now "expired" row s h)

pub reap_expired_leases_locked-IsExclusive :
    (now : ℕ) (s : Store)
    → IsExclusive s.leases
    → IsExclusive (reap_expired_leases_locked now s).leases
unfolding reap_expired_leases_locked
reap_expired_leases_locked-IsExclusive now s h =
    reap_leases-IsExclusive now (select (is_expired now) s.leases) s h

-- A round of the reaper of workers leaves the leases alone or expires one.
pub data ReapStep (now : ℕ) (leases : List LeaseRow) : List LeaseRow → Type 0 where
  kept : ReapStep now leases leases
  expired :
      (row : LeaseRow)
      → ReapStep now leases
          (update_where (has_lease_id row.lease_id) (stale_lease now "worker stale") leases)

pub reap_worker-ReapStep :
    (now stale_after_ms : ℕ) (dead : Bool) (row : WorkerRow) (s : Store)
    → ReapStep now s.leases (reap_worker now stale_after_ms dead row s).0.leases
unfolding reap_worker expire_lease idle
reap_worker-ReapStep now stale_after_ms dead row s = elim (Option-cases (lease_of row s.leases)) [
  | inl e ↦ rw (e, reap_worker) kept
  | inr (l, e) ↦ elim (Bool-cases (should_reap now stale_after_ms dead row l)) [
    | inl r ↦ rw (e, r, reap_worker) (expired l)
    | inr r ↦ elim (Bool-cases (is_owned row l)) [
      | inl o ↦ rw (e, r, o, reap_worker) kept
      | inr o ↦ rw (e, r, o, reap_worker) kept
    ]
  ]
]

ReapStep-IsExclusive :
    {now : ℕ} {leases leases' : List LeaseRow}
    → ReapStep now leases leases'
    → IsExclusive leases
    → IsExclusive leases'
ReapStep-IsExclusive kept h = h
ReapStep-IsExclusive {now} {leases} (expired row) h =
    IsExclusive-update _ _ leases (stale_lease-IsSafeUpdate _ now "worker stale") h

pub reap_workers-IsExclusive :
    (now stale_after_ms : ℕ) (dead : String → Bool) (rows : List WorkerRow) (s : Store)
    → IsExclusive s.leases
    → IsExclusive (reap_workers now stale_after_ms dead rows s).0.leases
unfolding reap_workers
reap_workers-IsExclusive now stale_after_ms dead [] s h = h
reap_workers-IsExclusive now stale_after_ms dead (row ∷ rows) s h =
    reap_workers-IsExclusive now stale_after_ms dead rows _ (
      ReapStep-IsExclusive
        (reap_worker-ReapStep now stale_after_ms (dead (strip row.host_id)) row s) h)

pub reap_stale_workers-IsExclusive :
    (now stale_after_seconds : ℕ) (s : Store)
    → IsExclusive s.leases
    → IsExclusive (reap_stale_workers now stale_after_seconds s).0.leases
unfolding reap_stale_workers
reap_stale_workers-IsExclusive now stale_after_seconds s h =
    let ms = duration_ms default_worker_stale_after_seconds stale_after_seconds in
    let rows = order_asc (λ w. w.last_seen_at_ms) (select (is_stale_worker now ms) s.workers) in
    reap_workers-IsExclusive now ms (host_is_dead rows s.workers) rows s h

pub reap_stale_workers_locked-IsExclusive :
    (now stale_after_seconds : ℕ) (s : Store)
    → IsExclusive s.leases
    → IsExclusive (reap_stale_workers_locked now stale_after_seconds s).leases
unfolding reap_stale_workers_locked
reap_stale_workers_locked-IsExclusive now stale_after_seconds s h =
    let ms = duration_ms default_worker_stale_after_seconds stale_after_seconds in
    let rows = select (is_stale_worker now ms) s.workers in
    reap_workers-IsExclusive now ms (host_is_dead rows s.workers) rows s h
