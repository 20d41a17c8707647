-- ===== src/Coordination/Outbox.antt =====
-- core/coordination/outbox.py: the queue of updates for the connectors. An operation returns the
-- table and what the method returns.
pub mod Batches
pub mod Backoff
use tandem_agents.Prelude.{
  ℕ, ◌+◌, ◌*◌, min, max, String, Bool, true, false, ◌&&◌, ◌||◌, Option, none, some, List, [], ◌∷◌,
  map, str_eq, leb, ◌==◌, if◌then◌else◌, take, select, fetch_one, update_where, upsert, order_desc,
  order_asc,
}
use tandem_agents.Coordination.Rows.{Dict, OutboxRow, next_id, column_eq}
use tandem_agents.Coordination.Status.{duration_ms, default_outbox_stale_after_seconds}

unfoldable pub has_id : ℕ → OutboxRow → Bool
has_id id o = o.id == id

unfoldable pub has_dedupe_key : Option String → OutboxRow → Bool
unfolding column_eq
has_dedupe_key key o = column_eq key o.dedupe_key

-- The keyword arguments of `enqueue_outbox`.
pub record Message : Type 0 where
  pub kind : String
  pub aggregate_type : String
  pub aggregate_id : String
  pub payload : Dict
  pub dedupe_key : Option String

unfoldable pub new_row : ℕ → ℕ → Message → OutboxRow
new_row now id m = record {
  id = id;
  kind = m.kind;
  aggregate_type = m.aggregate_type;
  aggregate_id = m.aggregate_id;
  payload = m.payload;
  status = "pending";
  attempts = 0;
  next_attempt_at_ms = now;
  last_error = none;
  created_at_ms = now;
  updated_at_ms = now;
  dedupe_key = m.dedupe_key;
}

-- ON CONFLICT(dedupe_key) DO UPDATE: `attempts` is kept.
unfoldable pub reopened : ℕ → Dict → OutboxRow → OutboxRow
reopened now payload o = record o {
  payload = payload;
  status = "pending";
  next_attempt_at_ms = now;
  updated_at_ms = now;
  last_error = none;
}

-- The row that `enqueue_outbox` reads back.
unfoldable pub is_enqueued : Message → OutboxRow → Bool
unfolding has_dedupe_key
is_enqueued m o =
    has_dedupe_key m.dedupe_key o
    || (elim o.dedupe_key [ none ↦ true | some _ ↦ false ]
        && (str_eq o.kind m.kind && str_eq o.aggregate_id m.aggregate_id))

unfoldable pub newest : (OutboxRow → Bool) → List OutboxRow → Option OutboxRow
newest p rows = fetch_one (λ _. true) (order_desc (λ o. o.id) (select p rows))

unfoldable pub enqueue_outbox : ℕ → Message → List OutboxRow → List OutboxRow × Option OutboxRow
unfolding has_dedupe_key reopened new_row is_enqueued newest
enqueue_outbox now m rows =
    let rows' =
      upsert (has_dedupe_key m.dedupe_key) (reopened now m.payload)
        (new_row now (next_id (λ o. o.id) rows) m) rows in
    (
      rows',
      elim (newest (is_enqueued m) rows') [ none ↦ newest (λ _. true) rows' | some row ↦ some row ],
    )

unfoldable pub dispatched : ℕ → OutboxRow → OutboxRow
dispatched now o = record o { status = "dispatched"; updated_at_ms = now; last_error = none }

unfoldable pub mark_outbox_dispatched : ℕ → ℕ → List OutboxRow → List OutboxRow
unfolding has_id dispatched
mark_outbox_dispatched now id = update_where (has_id id) (dispatched now)

unfoldable pub list_pending_outbox : List OutboxRow → List OutboxRow
list_pending_outbox rows = order_asc (λ o. o.id) (select (λ o. str_eq o.status "pending") rows)

unfoldable pub is_due : ℕ → OutboxRow → Bool
is_due now o = str_eq o.status "pending" && leb o.next_attempt_at_ms now

unfoldable pub processing : ℕ → ℕ → OutboxRow → OutboxRow
processing now attempts o = record o {
  status = "processing";
  attempts = attempts;
  updated_at_ms = now;
  last_error = none;
}

-- The loop of `claim_pending_outbox` over the rows that it read.
unfoldable pub begin_processing : ℕ → List OutboxRow → List OutboxRow → List OutboxRow
unfolding has_id processing
begin_processing now [] rows = rows
begin_processing now (c ∷ cs) rows =
    begin_processing now cs (update_where (has_id c.id) (processing now (c.attempts + 1)) rows)

-- `{**row, "status": …, "attempts": …, "updated_at_ms": …}`
unfoldable pub claimed_item : ℕ → OutboxRow → OutboxRow
claimed_item now o = record o {
  status = "processing";
  attempts = o.attempts + 1;
  updated_at_ms = now;
}

unfoldable pub due_batch : ℕ → ℕ → List OutboxRow → List OutboxRow
unfolding is_due
due_batch now limit rows = take (max 1 limit) (order_asc (λ o. o.id) (select (is_due now) rows))

unfoldable pub claim_pending_outbox : ℕ → ℕ → List OutboxRow → List OutboxRow × List OutboxRow
unfolding due_batch begin_processing claimed_item
claim_pending_outbox now limit rows =
    let batch = due_batch now limit rows in
    (begin_processing now batch rows, map (claimed_item now) batch)

unfoldable pub get_outbox : ℕ → List OutboxRow → Option OutboxRow
unfolding has_id
get_outbox id = fetch_one (has_id id)

unfoldable pub complete_outbox : ℕ → ℕ → List OutboxRow → List OutboxRow × Option OutboxRow
unfolding get_outbox has_id dispatched
complete_outbox now id rows = elim (get_outbox id rows) [
  | none ↦ (rows, none)
  | some row ↦ (update_where (has_id id) (dispatched now) rows, some row)
]

-- The wait before the next attempt: the caller's, or five seconds for each attempt, from five to
-- three hundred.
unfoldable pub wait_seconds : Option ℕ → ℕ → ℕ
wait_seconds (some delay) attempts = delay
wait_seconds none attempts = min 300 (max 5 (attempts * 5))

unfoldable pub failed : ℕ → String → OutboxRow → OutboxRow
failed now error o = record o { status = "failed"; updated_at_ms = now; last_error = some error }

unfoldable pub retried : ℕ → ℕ → String → OutboxRow → OutboxRow
retried now next_attempt error o = record o {
  status = "pending";
  next_attempt_at_ms = next_attempt;
  updated_at_ms = now;
  last_error = some error;
}

unfoldable pub retry_outbox :
    ℕ → ℕ → String → Bool → Option ℕ → List OutboxRow → List OutboxRow × Option OutboxRow
unfolding get_outbox has_id failed retried wait_seconds
retry_outbox now id error terminal delay rows = elim (get_outbox id rows) [
  | none ↦ (rows, none)
  | some row ↦ (
    if terminal
        then update_where (has_id id) (failed now error) rows
        else update_where (has_id id)
            (retried now (now + max 1 (wait_seconds delay row.attempts) * 1000) error) rows,
    some row,
  )
]

-- The cut-off is moved to the other side, so that no subtraction goes below 0.
unfoldable pub is_stale_claim : ℕ → ℕ → OutboxRow → Bool
is_stale_claim now stale_after_ms o =
    str_eq o.status "processing" && leb (o.updated_at_ms + stale_after_ms) now

unfoldable pub reset_claim : ℕ → OutboxRow → OutboxRow
reset_claim now o = record o {
  status = "pending";
  next_attempt_at_ms = now;
  updated_at_ms = now;
  last_error = elim o.last_error [ none ↦ some "processing claim expired" | some e ↦ some e ];
}

unfoldable pub reset_claims : ℕ → List OutboxRow → List OutboxRow → List OutboxRow
unfolding has_id reset_claim
reset_claims now [] rows = rows
reset_claims now (c ∷ cs) rows =
    reset_claims now cs (update_where (has_id c.id) (reset_claim now) rows)

unfoldable pub reap_stale_outbox_claims : ℕ → ℕ → List OutboxRow → List OutboxRow × List OutboxRow
unfolding is_stale_claim reset_claims duration_ms
reap_stale_outbox_claims now stale_after_seconds rows =
    let stale_after_ms = duration_ms default_outbox_stale_after_seconds stale_after_seconds in
    let stale = order_asc (λ o. o.id) (select (is_stale_claim now stale_after_ms) rows) in
    (reset_claims now stale rows, stale)
