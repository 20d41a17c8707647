-- ===== src/Coordination/Outbox/Batches.antt =====
-- What a claim, a retry and the reaper promise to the workers that take rows of the outbox.
use tandem_agents.Prelude.{
  ℕ, ◌+◌, ◌*◌, ◌≤◌, ◌<◌, min, max, String, ◌≡◌, refl, sym, ap, ◌∙◌, inl, inr, true, false, not,
  ◌&&◌, none, List, [], ◌∷◌, arith, str_eq, ◌==◌, Bool-cases, Option-cases, length, All, All-map,
  All-take, select, count, any, order_asc, All-update, All-update_to, select-covers,
  length-order_asc, All-order_asc, length-select, length-take, length-map, All-of_map,
  All-update_set, All-select_to, not_other, and_left, true-false, All-of_fetch_none, any-order_asc,
  count-none,
}
use tandem_agents.Coordination.Rows.{OutboxRow}
use tandem_agents.Coordination.Status.{duration_ms, default_outbox_stale_after_seconds}
use tandem_agents.Coordination.Outbox.{
  has_id, dispatched, is_due, processing, begin_processing, claimed_item, due_batch,
  claim_pending_outbox, get_outbox, complete_outbox, wait_seconds, retried, retry_outbox,
  is_stale_claim, reset_claim, reset_claims, reap_stale_outbox_claims,
}
use tandem_agents.Coordination.Status.{duration_ms, default_outbox_stale_after_seconds}

due-not_processing :
    (now : ℕ) (o : OutboxRow) → is_due now o ≡ true → str_eq o.status "processing" ≡ false
unfolding is_due
due-not_processing now o d = not_other o.status "pending" "processing" refl (and_left _ _ d)

-- An update of other rows, or of this one by a status that is kept, keeps a status.
begin_processing-keeps :
    (now : ℕ) (i : ℕ) (cs rows : List OutboxRow)
    → All (λ o. has_id i o ≡ true → str_eq o.status "processing" ≡ true) rows
    → All
        (λ o. has_id i o ≡ true → str_eq o.status "processing" ≡ true)
        (begin_processing now cs rows)
unfolding begin_processing has_id processing
begin_processing-keeps now i [] rows h = h
begin_processing-keeps now i (c ∷ cs) rows h = begin_processing-keeps now i cs _ (
    All-update (λ o. has_id i o ≡ true → str_eq o.status "processing" ≡ true) (has_id c.id)
      (processing now (c.attempts + 1)) rows (λ o e p q. refl) h)

begin_processing-marks :
    (now : ℕ) (cs rows : List OutboxRow)
    → All
        (λ c.
          All
            (λ o. has_id c.id o ≡ true → str_eq o.status "processing" ≡ true)
            (begin_processing now cs rows))
        cs
unfolding begin_processing processing
begin_processing-marks now [] rows = tt
begin_processing-marks now (c ∷ cs) rows = (
  begin_processing-keeps now c.id cs _ (
      All-update_set (λ o. has_id c.id o ≡ true → str_eq o.status "processing" ≡ true) (has_id c.id)
        (processing now (c.attempts + 1)) rows (λ o e q. refl) (λ o e q. absurd (cc))),
  begin_processing-marks now cs _,
)

-- The rows of a batch are among the selected ones.
All-due_batch {ℓ} :
    (P : OutboxRow → Type ℓ) (now limit : ℕ) (rows : List OutboxRow)
    → All P (select (is_due now) rows)
    → All P (due_batch now limit rows)
unfolding due_batch
All-due_batch P now limit rows h = All-take P (max 1 limit) _ (All-order_asc (λ o. o.id) P _ h)

-- A claim takes every due row, or as many as the limit (at least one) allows.
pub length-claim :
    (now limit : ℕ) (rows : List OutboxRow)
    → length (claim_pending_outbox now limit rows).1 ≡ min (max 1 limit) (count (is_due now) rows)
unfolding claim_pending_outbox due_batch
length-claim now limit rows = omega (
  arith,
  length-map (claimed_item now) (due_batch now limit rows),
  length-take (max 1 limit) (order_asc (λ o. o.id) (select (is_due now) rows)),
  length-order_asc (λ o. o.id) (select (is_due now) rows),
  length-select (is_due now) rows,
)

-- A second claim after a first one, at any time and with any limit, returns no row with the id of a
-- row that the first one returned.
pub claim_disjoint :
    (now limit later limit' : ℕ) (rows : List OutboxRow)
    → All
        (λ c.
          All
            (λ o. has_id c.id o ≡ false)
            (claim_pending_outbox later limit' (claim_pending_outbox now limit rows).0).1)
        (claim_pending_outbox now limit rows).1
unfolding claim_pending_outbox has_id is_due claimed_item
claim_disjoint now limit later limit' rows =
    let batch = due_batch now limit rows in
    let table = begin_processing now batch rows in
    All-of_map _ (claimed_item now) batch (
      All-map _ _ batch
        (λ c h. All-of_map _ (claimed_item later) (due_batch later limit' table) (
          All-due_batch _ later limit' table (
            All-select_to _ _ (is_due later) table
              (λ o d p. elim (Bool-cases (o.id == c.id)) [
                | inl e ↦ absurd (true-false (p e) (due-not_processing later o d))
                | inr e ↦ e
              ])
              h)))
        (begin_processing-marks now batch rows))

not_claimed :
    (id later limit : ℕ) (rows : List OutboxRow)
    → All (λ o. has_id id o ≡ true → is_due later o ≡ false) rows
    → All (λ o. has_id id o ≡ false) (claim_pending_outbox later limit rows).1
unfolding claim_pending_outbox has_id claimed_item
not_claimed id later limit rows h = All-of_map _ (claimed_item later) (due_batch later limit rows) (
    All-due_batch _ later limit rows (
      All-select_to _ _ (is_due later) rows
        (λ o d p. elim (Bool-cases (o.id == id)) [
          | inl e ↦ absurd (true-false d (p e))
          | inr e ↦ e
        ])
        h))

-- After `complete_outbox` of an id, the next claim, at any time, returns no row with that id.
pub complete_not_claimed :
    (now later limit id : ℕ) (rows : List OutboxRow)
    → All
        (λ o. has_id id o ≡ false)
        (claim_pending_outbox later limit (complete_outbox now id rows).0).1
unfolding complete_outbox get_outbox is_due dispatched has_id
complete_not_claimed now later limit id rows =
    not_claimed id later limit _ (elim (Option-cases (get_outbox id rows)) [
      | inl e ↦
          rw (e, complete_outbox)
            (All-map _ _ rows (λ o n q. absurd (true-false q n))
              (All-of_fetch_none (has_id id) rows e))
      | inr (row, e) ↦
          rw (e, complete_outbox)
            (All-update_set (λ o. has_id id o ≡ true → is_due later o ≡ false) (has_id id)
              (dispatched now) rows (λ o e' q. refl) (λ o e' q. absurd (true-false q e')))
    ])

default_wait-bounds :
    (attempts : ℕ) → (5 ≤ wait_seconds none attempts) × (wait_seconds none attempts ≤ 300)
unfolding wait_seconds
default_wait-bounds attempts = (omega arith, omega arith)

retried-not_due :
    (now later wait : ℕ) (error : String) (o : OutboxRow)
    → 5 ≤ wait
    → later < now + 5000
    → is_due later (retried now (now + max 1 wait * 1000) error o) ≡ false
unfolding is_due retried
retried-not_due now later wait error o w l = ground arith

retried-due :
    (now later wait : ℕ) (error : String) (o : OutboxRow)
    → 5 ≤ wait
    → wait ≤ 300
    → now + 300000 ≤ later
    → is_due later (retried now (now + max 1 wait * 1000) error o) ≡ true
unfolding is_due retried
retried-due now later wait error o w v l = ground arith

-- After `retry_outbox` of an id, not terminal and without a delay of the caller, a claim that comes
-- less than five seconds later returns no row with that id.
pub retry_not_claimed :
    (now later limit id : ℕ) (error : String) (rows : List OutboxRow)
    → later < now + 5000
    → All
        (λ o. has_id id o ≡ false)
        (claim_pending_outbox later limit (retry_outbox now id error false none rows).0).1
unfolding retry_outbox get_outbox has_id
retry_not_claimed now later limit id error rows l =
    not_claimed id later limit _ (elim (Option-cases (get_outbox id rows)) [
      | inl e ↦
          rw (e, retry_outbox)
            (All-map _ _ rows (λ o n q. absurd (true-false q n))
              (All-of_fetch_none (has_id id) rows e))
      | inr (row, e) ↦
          rw (e, retry_outbox)
            (All-update_set (λ o. has_id id o ≡ true → is_due later o ≡ false) (has_id id)
              (retried now _ error) rows
              (λ o e' q.
                retried-not_due now later (wait_seconds none row.attempts) error o
                  (default_wait-bounds row.attempts).0 l)
              (λ o e' q. absurd (true-false q e')))
    ])

retried-not_late :
    (now later : ℕ) (id : ℕ) (error : String) (rows : List OutboxRow)
    → now + 300000 ≤ later
    → All
        (λ o. has_id id o ≡ true → not (is_due later o) ≡ false)
        (retry_outbox now id error false none rows).0
unfolding retry_outbox get_outbox has_id
retried-not_late now later id error rows l = elim (Option-cases (get_outbox id rows)) [
  | inl e ↦
      rw (e, retry_outbox)
        (All-map _ _ rows (λ o n q. absurd (true-false q n)) (All-of_fetch_none (has_id id) rows e))
  | inr (row, e) ↦
      rw (e, retry_outbox)
        (All-update_set (λ o. has_id id o ≡ true → not (is_due later o) ≡ false) (has_id id)
          (retried now _ error) rows
          (λ o e' q. ap not (
            retried-due now later (wait_seconds none row.attempts) error o
              (default_wait-bounds row.attempts).0 (default_wait-bounds row.attempts).1 l))
          (λ o e' q. absurd (true-false q e')))
]

-- After `retry_outbox` of an id, not terminal and without a delay of the caller, each row with that
-- id is due from five minutes later on, whatever its number of attempts.
pub retry_due :
    (now later id : ℕ) (error : String) (rows : List OutboxRow)
    → now + 300000 ≤ later
    → count (λ o. has_id id o && not (is_due later o)) (retry_outbox now id error false none rows).0
      ≡ 0
retry_due now later id error rows l =
    count-none (has_id id) (λ o. not (is_due later o)) _
      (retried-not_late now later id error rows l)

reset_claims-none_stale :
    (now ms : ℕ) (cs rows : List OutboxRow)
    → All (λ o. any (λ c. has_id c.id o) cs ≡ false → is_stale_claim now ms o ≡ false) rows
    → All (λ o. is_stale_claim now ms o ≡ false) (reset_claims now cs rows)
unfolding reset_claims is_stale_claim any reset_claim has_id
reset_claims-none_stale now ms [] rows h = All-map _ _ rows (λ o f. f refl) h
reset_claims-none_stale now ms (c ∷ cs) rows h = reset_claims-none_stale now ms cs _ (
    All-update_to
      (λ o. any (λ c'. has_id c'.id o) (c ∷ cs) ≡ false → is_stale_claim now ms o ≡ false)
      (λ o. any (λ c'. has_id c'.id o) cs ≡ false → is_stale_claim now ms o ≡ false) (has_id c.id)
      (reset_claim now) rows (λ o e f n. refl) (λ o e f n. f (rw e n)) h)

-- After the reaper of claims ran, no row is in processing for the given time or longer.
pub reap_stale_outbox-none_stale :
    (now stale_after_seconds : ℕ) (rows : List OutboxRow)
    → All
        (λ o.
          is_stale_claim now (duration_ms default_outbox_stale_after_seconds stale_after_seconds) o
          ≡ false)
        (reap_stale_outbox_claims now stale_after_seconds rows).0
unfolding reap_stale_outbox_claims has_id
reap_stale_outbox-none_stale now stale_after_seconds rows =
    let ms = duration_ms default_outbox_stale_after_seconds stale_after_seconds in
    let stale = is_stale_claim now ms in
    reset_claims-none_stale now ms (order_asc (λ o. o.id) (select stale rows)) rows (
      All-map (λ o. stale o ≡ true → any (λ c. has_id c.id o) (select stale rows) ≡ true) _ rows
        (λ o f n. elim (Bool-cases (stale o)) [
          | inl e ↦ absurd (
              true-false (f e)
                (sym (any-order_asc (λ c. c.id) (λ c. has_id c.id o) (select stale rows)) ∙ n))
          | inr e ↦ e
        ])
        (select-covers stale (λ c o. has_id c.id o) (λ o. ground arith) rows))
