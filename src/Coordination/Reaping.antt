-- ===== src/Coordination/Reaping.antt =====
-- The expired leases after the reapers of leases.py and workers.py.
use tandem_agents.Prelude.{
  ℕ, String, ◌≡◌, refl, Bool, true, false, List, [], ◌∷◌, arith, eq_refl, All, All-map, select, any,
  All-update, All-update_to, select-covers, strip,
}
use tandem_agents.Coordination.Rows.{WorkerRow, LeaseRow, Store}
use tandem_agents.Coordination.Status.{default_worker_stale_after_seconds, duration_ms}
use tandem_agents.Coordination.Leases.{
  has_lease_id, is_expired, stale_lease, expire_lease, idle, reap_leases,
  reap_expired_leases_locked,
}
use tandem_agents.Coordination.Workers.{
  is_stale_worker, host_is_dead, reap_workers, reap_stale_workers_locked,
}
use tandem_agents.Coordination.Exclusion.{ReapStep, kept, expired, reap_worker-ReapStep}

abbrev pub NoneExpired : ℕ → List LeaseRow → Type 0
NoneExpired now = All (λ l. is_expired now l ≡ false)

-- Every expired lease is named by one of the rows.
abbrev Covered : ℕ → List LeaseRow → List LeaseRow → Type 0
Covered now rows =
    All (λ l. is_expired now l ≡ true → any (λ r. has_lease_id r.lease_id l) rows ≡ true)

stale_lease-not_expired :
    (now : ℕ) (reason : String) (at : ℕ) (l : LeaseRow)
    → is_expired now (stale_lease at reason l) ≡ false
unfolding is_expired stale_lease
stale_lease-not_expired now reason at l = refl

NoneExpired-of_Covered :
    (now : ℕ) (leases : List LeaseRow) → Covered now [] leases → NoneExpired now leases
unfolding any
NoneExpired-of_Covered now leases h = All-map _ _ leases (λ l c. ground (arith, c)) h

Covered-expire :
    (now : ℕ) (reason : String) (row : LeaseRow) (rows : List LeaseRow) (s : Store)
    → Covered now (row ∷ rows) s.leases
    → Covered now rows (expire_lease now reason row s).leases
unfolding expire_lease any
Covered-expire now reason row rows s h =
    All-update_to _ _ (has_lease_id row.lease_id) (stale_lease now reason) s.leases
      (λ l e c x. cc (stale_lease-not_expired now reason now l)) (λ l e c x. ground (arith, c x)) h

NoneExpired-reap_leases :
    (now : ℕ) (rows : List LeaseRow) (s : Store)
    → Covered now rows s.leases
    → NoneExpired now (reap_leases now rows s).leases
unfolding reap_leases idle
NoneExpired-reap_leases now [] s h = NoneExpired-of_Covered now s.leases h
NoneExpired-reap_leases now (row ∷ rows) s h =
    NoneExpired-reap_leases now rows (idle now row.worker_id (expire_lease now "expired" row s))
      (Covered-expire now "expired" row rows s h)

-- After `reap_expired_leases` no active lease is past its expiry.
pub reap_expired-NoneExpired :
    (now : ℕ) (s : Store) → NoneExpired now (reap_expired_leases_locked now s).leases
unfolding reap_expired_leases_locked has_lease_id
reap_expired-NoneExpired now s = NoneExpired-reap_leases now (select (is_expired now) s.leases) s (
    select-covers (is_expired now) (λ r l. has_lease_id r.lease_id l) (λ l. eq_refl l.lease_id)
      s.leases)

NoneExpired-ReapStep :
    {now : ℕ} {leases leases' : List LeaseRow}
    → ReapStep now leases leases'
    → NoneExpired now leases
    → NoneExpired now leases'
NoneExpired-ReapStep kept h = h
NoneExpired-ReapStep {now} {leases} (expired row) h =
    All-update _ (has_lease_id row.lease_id) (stale_lease now "worker stale") leases
      (λ l e c. stale_lease-not_expired now "worker stale" now l) h

NoneExpired-reap_workers :
    (now stale_after_ms : ℕ) (dead : String → Bool) (rows : List WorkerRow) (s : Store)
    → NoneExpired now s.leases
    → NoneExpired now (reap_workers now stale_after_ms dead rows s).0.leases
unfolding reap_workers
NoneExpired-reap_workers now stale_after_ms dead [] s h = h
NoneExpired-reap_workers now stale_after_ms dead (row ∷ rows) s h =
    NoneExpired-reap_workers now stale_after_ms dead rows _ (
      NoneExpired-ReapStep
        (reap_worker-ReapStep now stale_after_ms (dead (strip row.host_id)) row s) h)

pub NoneExpired-reap_stale :
    (now stale_after_seconds : ℕ) (s : Store)
    → NoneExpired now s.leases
    → NoneExpired now (reap_stale_workers_locked now stale_after_seconds s).leases
unfolding reap_stale_workers_locked
NoneExpired-reap_stale now stale_after_seconds s h =
    let ms = duration_ms default_worker_stale_after_seconds stale_after_seconds in
    let rows = select (is_stale_worker now ms) s.workers in
    NoneExpired-reap_workers now ms (host_is_dead rows s.workers) rows s h
