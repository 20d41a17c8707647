-- ===== src/Coordination/Claim/Exclusive.antt =====
-- The steps of `claim_task` on the leases: the reaping, the insert and the unique index.
use mathlib.Core.Path.{subst}
use mathlib.Core.Bool.{false≢true}
use tandem_agents.Prelude.{
  ℕ, ◌≤◌, String, ◌≡◌, refl, sym, ap, ◌∙◌, ◌≢◌, inl, inr, true, false, ◌&&◌, Option, none, some,
  List, [], ◌∷◌, arith, str_eq, eq_iff, ltb, if◌then◌else◌, Bool-cases, All-map, select, fetch_one,
  count, any, upsert, order_desc, count-update_le, count-update_keep, count-update_add,
  count-append_one, count-zero_of_any, count_mono, count-zero_of_select, nil_of_order_desc,
}
use tandem_agents.Coordination.Rows.{LeaseRow, Store}
use tandem_agents.Coordination.Status.{default_worker_stale_after_seconds}
use tandem_agents.Coordination.Leases.{
  has_lease_id, active_for, is_expired, reap_expired_leases_locked,
}
use tandem_agents.Coordination.TaskKey.{task_payload}
use tandem_agents.Coordination.Exclusion.{
  IsExclusive, reap_expired_leases_locked-IsExclusive, reap_stale_workers_locked-IsExclusive,
}
use tandem_agents.Coordination.Reaping.{
  NoneExpired, reap_expired-NoneExpired, NoneExpired-reap_stale,
}
use tandem_agents.Coordination.Claim.{ClaimRequest, new_lease, insert_lease, reaped, blocking_lease}

pub reaped-IsExclusive :
    (now : ℕ) (s : Store) → IsExclusive s.leases → IsExclusive (reaped now s).leases
unfolding reaped
reaped-IsExclusive now s h =
    reap_stale_workers_locked-IsExclusive now default_worker_stale_after_seconds
      (reap_expired_leases_locked now s) (reap_expired_leases_locked-IsExclusive now s h)

pub reaped-NoneExpired : (now : ℕ) (s : Store) → NoneExpired now (reaped now s).leases
unfolding reaped
reaped-NoneExpired now s =
    NoneExpired-reap_stale now default_worker_stale_after_seconds (reap_expired_leases_locked now s)
      (reap_expired-NoneExpired now s)

pub new_lease-fields :
    (now : ℕ) (lease_id : String) (attempt : ℕ) (r : ClaimRequest)
    → let l = new_lease now lease_id attempt r in
      (l.lease_id ≡ lease_id)
      × (l.task_key ≡ (task_payload r.task r.repo).task_key)
      × (l.status ≡ "active")
unfolding new_lease
new_lease-fields now lease_id attempt r = (refl, refl, refl)

within_index :
    (c : List LeaseRow → ℕ) (written leases' : List LeaseRow)
    → ◌≡◌ {A = Option (List LeaseRow)}
        (if ltb 1 (c written) then none else some written)
        (some leases')
    → (leases' ≡ written) × (c leases' ≤ 1)
within_index c written leases' e = ground arith

pub insert_lease-some :
    (row : LeaseRow) (leases leases' : List LeaseRow)
    → insert_lease row leases ≡ some leases'
    → (leases' ≡ upsert (has_lease_id row.lease_id) (λ _. row) row leases)
      × (count (active_for row.task_key) leases' ≤ 1)
unfolding insert_lease
insert_lease-some row leases leases' e =
    within_index (count (active_for row.task_key))
      (upsert (has_lease_id row.lease_id) (λ _. row) row leases) leases' e

-- The active leases of a key that is not the new row's are no more than before.
count-upsert_other :
    (k : String) (row : LeaseRow) (leases : List LeaseRow)
    → active_for k row ≡ false
    → count (active_for k) (upsert (has_lease_id row.lease_id) (λ _. row) row leases)
      ≤ count (active_for k) leases
unfolding upsert
count-upsert_other k row leases off = elim (Bool-cases (any (has_lease_id row.lease_id) leases)) [
  | inl a ↦ rw a (
      count-update_le (active_for k) (has_lease_id row.lease_id) (λ _. row) leases
        (λ x q on. absurd (false≢true (sym off ∙ on))))
  | inr a ↦ rw a (ground (arith, count-append_one (active_for k) leases row))
]

count-upsert_id :
    (i : String) (row : LeaseRow) (leases : List LeaseRow)
    → count (has_lease_id i) leases ≤ 1
    → count (has_lease_id i) (upsert (has_lease_id row.lease_id) (λ _. row) row leases) ≤ 1
unfolding upsert has_lease_id
count-upsert_id i row leases h = elim (Bool-cases (any (has_lease_id row.lease_id) leases)) [
  | inl a ↦ rw a (
      rw
        (count-update_keep (has_lease_id i) (has_lease_id row.lease_id) (λ _. row) leases
          (λ x q. ap (λ (z : String). str_eq z i) (sym ((eq_iff x.lease_id row.lease_id).0 q))))
        h)
  | inr a ↦
      rw (a, count-append_one (has_lease_id i) leases row)
        (elim (Bool-cases (str_eq row.lease_id i)) [
          | inl same ↦
              let z = count-zero_of_any (has_lease_id row.lease_id) leases a in
              ground (arith, rw ((eq_iff row.lease_id i).0 same) at z)
          | inr other ↦ ground arith
        ])
]

key_of_active_for : (k : String) (row : LeaseRow) → active_for k row ≡ true → row.task_key ≡ k
unfolding active_for
key_of_active_for k row h = (eq_iff row.task_key k).0 (ground arith)

-- The leases that the insert yields pass the index for every key, since it passed for its own.
pub insert_lease-IsExclusive :
    (row : LeaseRow) (leases leases' : List LeaseRow)
    → insert_lease row leases ≡ some leases'
    → IsExclusive leases
    → IsExclusive leases'
insert_lease-IsExclusive row leases leases' e h =
    let (written, fits) = insert_lease-some row leases leases' e in
    record {
      one_active = λ k. elim (Bool-cases (active_for k row)) [
        | inl on ↦
            subst (λ (j : String). count (active_for j) leases' ≤ 1) (key_of_active_for k row on)
              fits
        | inr off ↦ rw written (omega (arith, count-upsert_other k row leases off, h.one_active k))
      ];
      one_row = λ i. rw written (count-upsert_id i row leases (h.one_row i));
    }

-- Where no lease is active for the key the insert goes through.
pub insert_lease-free :
    (row : LeaseRow) (leases : List LeaseRow)
    → IsExclusive leases
    → count (active_for row.task_key) leases ≡ 0
    → insert_lease row leases ≢ none
unfolding insert_lease
insert_lease-free row leases h z e = elim (Bool-cases (any (has_lease_id row.lease_id) leases)) [
  | inl a ↦ ground (
    arith,
    count-update_add (active_for row.task_key) (has_lease_id row.lease_id) (λ _. row) leases,
    h.one_row row.lease_id,
  )
  | inr a ↦ ground (arith, count-append_one (active_for row.task_key) leases row)
]

nil_of_fetch {ℓ} : {A : Type ℓ} (xs : List A) → fetch_one (λ _. true) xs ≡ none → xs ≡ []
unfolding fetch_one
nil_of_fetch [] h = refl
nil_of_fetch (x ∷ xs) h = cc

is_live :
    (now : ℕ) (k : String) (l : LeaseRow)
    → is_expired now l ≡ false
    → active_for k l ≡ true
    → (active_for k l && ltb now l.expires_at_ms) ≡ true
unfolding is_expired active_for
is_live now k l f on = ground arith

-- No lease of the key is active once nothing blocks the claim, for none of them is expired.
pub count-zero_of_blocking :
    (now : ℕ) (k : String) (leases : List LeaseRow)
    → NoneExpired now leases
    → blocking_lease now k leases ≡ none
    → count (active_for k) leases ≡ 0
unfolding blocking_lease
count-zero_of_blocking now k leases fresh h =
    let live = λ (l : LeaseRow). active_for k l && ltb now l.expires_at_ms in
    let none_live : count live leases ≡ 0 = count-zero_of_select live leases (
      nil_of_order_desc (λ l. l.expires_at_ms) (select live leases)
        (nil_of_fetch (order_desc (λ l. l.expires_at_ms) (select live leases)) h)) in
    omega (
      arith,
      none_live,
      count_mono (active_for k) live leases
          (All-map _ _ leases (λ l f on. is_live now k l f on) fresh),
    )
