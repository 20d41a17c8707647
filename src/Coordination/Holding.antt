-- ===== src/Coordination/Holding.antt =====
-- What `heartbeat_lease` and `release_lease` of leases.py promise to the holder of a lease.
use mathlib.Core.Option
use tandem_agents.Prelude.{
  ℕ, ◌+◌, ◌<◌, String, ◌≡◌, ap, ◌∙◌, inl, inr, Bool, true, false, ◌&&◌, Option, none, some, List,
  arith, str_eq, eq_iff, ◌==◌, Bool-cases, Option-cases, count, update_where, count-zero_of_fetch,
  fetch_one-holds, count-and_le, count-update_none, fetch_one-update_key,
}
use tandem_agents.Coordination.Rows.{LeaseRow, Store}
use tandem_agents.Coordination.Status.{default_lease_ttl_seconds, duration_ms}
use tandem_agents.Coordination.Leases.{
  has_lease_id, is_active, get_lease, refreshed_lease, refresh, heartbeat_lease, released_lease,
  release, release_lease,
}
use tandem_agents.Coordination.Exclusion.{
  IsExclusive, IsExclusive-update, refreshed_lease-IsSafeUpdate, released_lease-IsSafeUpdate,
}

-- The row that `heartbeat_lease` and `release_lease` update.
abbrev pub held : String → LeaseRow → Bool
held lease_id l = has_lease_id lease_id l && is_active l

count-held_of_none :
    (lease_id : String) (leases : List LeaseRow)
    → get_lease lease_id leases ≡ none
    → count (held lease_id) leases ≡ 0
unfolding get_lease
count-held_of_none lease_id leases h = omega (
  arith,
  count-zero_of_fetch (has_lease_id lease_id) leases h,
  count-and_le (has_lease_id lease_id) is_active leases,
)

id_of_get_lease :
    (lease_id : String) (leases : List LeaseRow) (row : LeaseRow)
    → get_lease lease_id leases ≡ some row
    → row.lease_id ≡ lease_id
unfolding get_lease has_lease_id
id_of_get_lease lease_id leases row h =
    (eq_iff row.lease_id lease_id).0 (fetch_one-holds (has_lease_id lease_id) leases row h)

-- A heartbeat of a lease that is not held is a miss: it returns `none` and changes nothing.
pub heartbeat_miss :
    (now ttl : ℕ) (lease_id : String) (s : Store)
    → count (held lease_id) s.leases ≡ 0
    → heartbeat_lease now ttl lease_id s ≡ (s, none)
unfolding heartbeat_lease
heartbeat_miss now ttl lease_id s h = elim (Option-cases (get_lease lease_id s.leases)) [
  | inl e ↦ rw (e, heartbeat_lease)
  | inr (row, e) ↦ rw (e, heartbeat_lease) (rw h)
]

none_held : (n : ℕ) → 0 < n → (n == 0) ≡ false
none_held n h = ground arith

heartbeat_runs :
    (now ttl : ℕ) (lease_id : String) (s : Store) (row : LeaseRow)
    → 0 < count (held lease_id) s.leases
    → get_lease lease_id s.leases ≡ some row
    → heartbeat_lease now ttl lease_id s ≡ (
        let s' = refresh now (now + duration_ms default_lease_ttl_seconds ttl) row s in
        (s', get_lease lease_id s'.leases))
unfolding heartbeat_lease refresh get_lease
heartbeat_runs now ttl lease_id s row h e =
    rw (e, heartbeat_lease) (rw (none_held (count (held lease_id) s.leases) h))

-- On exclusive leases a heartbeat of a held lease returns its row with the heartbeat at `now` and
-- the expiry one time-to-live later; all other columns are kept.
pub heartbeat_hit :
    (now ttl : ℕ) (lease_id : String) (s : Store)
    → IsExclusive s.leases
    → 0 < count (held lease_id) s.leases
    → (row : LeaseRow) × (get_lease lease_id s.leases ≡ some row)
      × ((heartbeat_lease now ttl lease_id s).1
          ≡ some (record row {
            heartbeat_at_ms = now;
            expires_at_ms = now + duration_ms default_lease_ttl_seconds ttl;
          }))
unfolding refreshed_lease
heartbeat_hit now ttl lease_id s x h = elim (Option-cases (get_lease lease_id s.leases)) [
  | inl e ↦ absurd (omega (arith, count-held_of_none lease_id s.leases e))
  | inr (row, e) ↦
      let at = now + duration_ms default_lease_ttl_seconds ttl in
      let id = id_of_get_lease lease_id s.leases row e in
      let found : get_lease lease_id
            (update_where (held lease_id) (refreshed_lease now at) s.leases)
          ≡ some (refreshed_lease now at row) =
        unfold get_lease in
        (fetch_one-update_key (has_lease_id lease_id) is_active (refreshed_lease now at) s.leases
            (λ l q. unfold has_lease_id refreshed_lease in q) (x.one_row lease_id) h
          ∙ ap (Option.map (refreshed_lease now at)) e) in
      (
        row,
        e,
        ap (λ (p : Store × Option LeaseRow). p.1) (heartbeat_runs now ttl lease_id s row h e)
            ∙ unfold refresh in
              (ap
                  (λ (i : String).
                    get_lease lease_id (update_where (held i) (refreshed_lease now at) s.leases))
                  id
                ∙ found),
      )
]

released-not_held :
    (lease_id : String) (now : ℕ) (status : String) (reason : Option String)
    → str_eq status "active" ≡ false
    → (l : LeaseRow) → held lease_id l ≡ true
    → held lease_id (released_lease now status reason l) ≡ false
unfolding is_active released_lease
released-not_held lease_id now status reason off l h = ground arith

release_skips :
    (now : ℕ) (lease_id status : String) (reason : Option String) (s : Store)
    → count (held lease_id) s.leases ≡ 0
    → (release_lease now lease_id status reason s).0 ≡ s
unfolding release_lease
release_skips now lease_id status reason s h = elim (Option-cases (get_lease lease_id s.leases)) [
  | inl e ↦ rw (e, release_lease)
  | inr (row, e) ↦ rw (e, release_lease) (rw h)
]

count-held_after_release :
    (now : ℕ) (lease_id status : String) (reason : Option String) (s : Store)
    → str_eq status "active" ≡ false
    → count (held lease_id) (release_lease now lease_id status reason s).0.leases ≡ 0
unfolding release_lease
count-held_after_release now lease_id status reason s off =
    elim (Option-cases (get_lease lease_id s.leases)) [
      | inl e ↦ rw (e, release_lease) (count-held_of_none lease_id s.leases e)
      | inr (row, e) ↦ elim (Bool-cases (count (held lease_id) s.leases == 0)) [
        | inl z ↦ rw (e, release_lease) (rw z (ground arith))
        | inr p ↦
            rw (e, release_lease)
              (rw p (
                unfold release in
                rw (id_of_get_lease lease_id s.leases row e) (
                  count-update_none (held lease_id) (released_lease now status reason) s.leases
                    (released-not_held lease_id now status reason off))))
      ]
    ]

-- A second release, at any time and with any status and reason, changes nothing: what the first
-- one wrote, with a status that is not "active", stays.
pub release_again :
    (now later : ℕ) (lease_id status other : String) (reason reason' : Option String) (s : Store)
    → str_eq status "active" ≡ false
    → (release_lease later lease_id other reason' (release_lease now lease_id status reason s).0).0
      ≡ (release_lease now lease_id status reason s).0
release_again now later lease_id status other reason reason' s off =
    release_skips later lease_id other reason' (release_lease now lease_id status reason s).0
      (count-held_after_release now lease_id status reason s off)

pub heartbeat-IsExclusive :
    (now ttl : ℕ) (lease_id : String) (s : Store)
    → IsExclusive s.leases
    → IsExclusive (heartbeat_lease now ttl lease_id s).0.leases
unfolding heartbeat_lease
heartbeat-IsExclusive now ttl lease_id s x = elim (Option-cases (get_lease lease_id s.leases)) [
  | inl e ↦ rw (e, heartbeat_lease) x
  | inr (row, e) ↦ elim (Bool-cases (count (held lease_id) s.leases == 0)) [
    | inl z ↦ rw (e, heartbeat_lease) (rw z x)
    | inr p ↦
        rw (e, heartbeat_lease)
          (rw p (
            unfold refresh in
            IsExclusive-update _ _ s.leases (refreshed_lease-IsSafeUpdate _ now _) x))
  ]
]

pub release-IsExclusive :
    (now : ℕ) (lease_id status : String) (reason : Option String) (s : Store)
    → IsExclusive s.leases
    → IsExclusive (release_lease now lease_id status reason s).0.leases
unfolding release_lease
release-IsExclusive now lease_id status reason s x =
    elim (Option-cases (get_lease lease_id s.leases)) [
      | inl e ↦ rw (e, release_lease) x
      | inr (row, e) ↦ elim (Bool-cases (count (held lease_id) s.leases == 0)) [
        | inl z ↦ rw (e, release_lease) (rw z x)
        | inr p ↦
            rw (e, release_lease)
              (rw p (
                unfold release in
                IsExclusive-update _ _ s.leases
                  (released_lease-IsSafeUpdate row.lease_id now status reason) x))
      ]
    ]
