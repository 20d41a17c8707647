-- ===== src/Scheduling/Dispatcher/Settling.antt =====
-- How dispatch_outbox_tick of core/scheduling/outbox_dispatcher.py settles the rows that it claims.
use mathlib.Core.Path.{subst}
use tandem_agents.Prelude.{
  ℕ, ◌+◌, ◌*◌, max, String, ◌≡◌, refl, inl, inr, Bool, true, false, ◌&&◌, none, List, [], ◌∷◌,
  arith, str_eq, if◌then◌else◌, Bool-cases, Option-cases, length, All, All-map, count, update_where,
  All-update, All-update_set, true-false, All-of_fetch_none, count-none,
}
use tandem_agents.Coordination.Rows.{OutboxRow}
use tandem_agents.Coordination.Status.{normalized, default_outbox_stale_after_seconds}
use tandem_agents.Coordination.Outbox.{
  has_id, get_outbox, dispatched, failed, retried, complete_outbox, retry_outbox,
  claim_pending_outbox, reap_stale_outbox_claims, wait_seconds,
}
use tandem_agents.Scheduling.Dispatcher.{
  connector_error, Answer, Sent, answered, raised, Connectors, dispatch_outbox_item,
  outbox_connector, retry_claimed, settle_answer, settle, settle_all, dispatch_outbox_tick,
}
use tandem_agents.Scheduling.Dispatcher.Answers.{AnswersFor, dispatch-AnswersFor}

-- No row with the id is in processing.
abbrev IsQuiet : ℕ → List OutboxRow → Type 0
IsQuiet id rows = All (λ o. has_id id o ≡ true → str_eq o.status "processing" ≡ false) rows

IsQuiet-absent : (id : ℕ) (rows : List OutboxRow) → get_outbox id rows ≡ none → IsQuiet id rows
unfolding get_outbox
IsQuiet-absent id rows e =
    All-map _ _ rows (λ o n h. absurd (true-false h n)) (All-of_fetch_none (has_id id) rows e)

-- What an update that ends a claim does: its rows are not in processing.
IsQuiet-update :
    (id j : ℕ) (f : OutboxRow → OutboxRow) (rows : List OutboxRow)
    → ((o : OutboxRow) → str_eq (f o).status "processing" ≡ false)
    → ((o : OutboxRow) → has_id j (f o) ≡ has_id j o)
    → IsQuiet j rows
    → IsQuiet j (update_where (has_id id) f rows)
IsQuiet-update id j f rows quiet same h =
    All-update (λ o. has_id j o ≡ true → str_eq o.status "processing" ≡ false) (has_id id) f rows
      (λ o e p n. quiet o) h

IsQuiet-own :
    (id : ℕ) (f : OutboxRow → OutboxRow) (rows : List OutboxRow)
    → ((o : OutboxRow) → str_eq (f o).status "processing" ≡ false)
    → IsQuiet id (update_where (has_id id) f rows)
IsQuiet-own id f rows quiet =
    All-update_set (λ o. has_id id o ≡ true → str_eq o.status "processing" ≡ false) (has_id id) f
      rows (λ o e h. quiet o) (λ o e h. absurd (true-false h e))

-- A step that settles the rows of one id and disturbs no other.
record Settles (id : ℕ) (before after : List OutboxRow) : Type 0 where
  own : IsQuiet id after
  others : (j : ℕ) → IsQuiet j before → IsQuiet j after

Settles-absent : (id : ℕ) (rows : List OutboxRow) → get_outbox id rows ≡ none → Settles id rows rows
Settles-absent id rows e = record { own = IsQuiet-absent id rows e; others = λ j h. h }

Settles-update :
    (id : ℕ) (f : OutboxRow → OutboxRow) (rows : List OutboxRow)
    → ((o : OutboxRow) → str_eq (f o).status "processing" ≡ false)
    → ((j : ℕ) (o : OutboxRow) → has_id j (f o) ≡ has_id j o)
    → Settles id rows (update_where (has_id id) f rows)
Settles-update id f rows quiet same = record {
  own = IsQuiet-own id f rows quiet;
  others = λ j h. IsQuiet-update id j f rows quiet (same j) h;
}

complete-Settles :
    (now id : ℕ) (rows : List OutboxRow) → Settles id rows (complete_outbox now id rows).0
unfolding complete_outbox dispatched has_id
complete-Settles now id rows = elim (Option-cases (get_outbox id rows)) [
  | inl e ↦ rw (e, complete_outbox) (Settles-absent id rows e)
  | inr (row, e) ↦
      rw (e, complete_outbox) (Settles-update id (dispatched now) rows (λ o. refl) (λ j o. refl))
]

retry-Settles :
    (now id : ℕ) (error : String) (terminal : Bool) (rows : List OutboxRow)
    → Settles id rows (retry_outbox now id error terminal none rows).0
unfolding retry_outbox failed retried has_id
retry-Settles now id error terminal rows = elim (Option-cases (get_outbox id rows)) [
  | inl e ↦ rw (e, retry_outbox) (Settles-absent id rows e)
  | inr (row, e) ↦ rw (e, retry_outbox) (branch terminal row)
]
  where
    branch :
        (b : Bool) (row : OutboxRow)
        → Settles id rows (
            if b
            then update_where (has_id id) (failed now error) rows
            else update_where
                (has_id id)
                (retried now (now + max 1 (wait_seconds none row.attempts) * 1000) error)
                rows)
    branch true row = Settles-update id (failed now error) rows (λ o. refl) (λ j o. refl)
    branch false row = Settles-update id (retried now _ error) rows (λ o. refl) (λ j o. refl)

settle_answer-Settles :
    (now : ℕ) (a : Answer) (rows : List OutboxRow)
    → Settles a.outbox_id rows (settle_answer now a rows).0
unfolding settle_answer
settle_answer-Settles now a rows = elim (Bool-cases (str_eq (normalized a.status) "dispatched")) [
  | inl e ↦ rw (e, settle_answer) (complete-Settles now a.outbox_id rows)
  | inr e ↦ rw (e, settle_answer) (retry-Settles now a.outbox_id _ a.terminal rows)
]

module _ (c : Connectors) (clock : ℕ → ℕ) where
  settle-Settles :
      (now : ℕ) (o : OutboxRow) (rows : List OutboxRow)
      → Settles o.id rows (settle c clock now o rows).0
  unfolding settle retry_claimed
  settle-Settles now o rows =
      elim (Option-cases (connector_error c clock (outbox_connector o.kind))) [
        | inr (e, p) ↦ rw (p, settle) (retry-Settles now o.id e _ rows)
        | inl p ↦ go (dispatch_outbox_item c o) refl p
      ]
    where
      own_id : {a : Answer} → dispatch_outbox_item c o ≡ answered a → a.outbox_id ≡ o.id
      own_id q = subst (AnswersFor o) q (dispatch-AnswersFor c o)

      go :
          (s : Sent)
          → dispatch_outbox_item c o ≡ s
          → connector_error c clock (outbox_connector o.kind) ≡ none
          → Settles o.id rows (settle c clock now o rows).0
      go (raised e) q p = rw (p, q, settle) (retry-Settles now o.id _ _ rows)
      go (answered a) q p =
          rw (p, q, settle)
            (subst (λ (i : ℕ). Settles i rows (settle_answer now a rows).0) (own_id q)
              (settle_answer-Settles now a rows))

  settle_all-keeps :
      (j : ℕ) (batch rows : List OutboxRow)
      → IsQuiet j rows
      → IsQuiet j (settle_all c clock batch rows).0
  unfolding settle_all
  settle_all-keeps j [] rows h = h
  settle_all-keeps j (o ∷ os) rows h =
      let first = settle-Settles (clock (length os)) o rows in
      settle_all-keeps j os _ (first.others j h)

  settle_all-IsQuiet :
      (batch rows : List OutboxRow)
      → All (λ o. IsQuiet o.id (settle_all c clock batch rows).0) batch
  unfolding settle_all
  settle_all-IsQuiet [] rows = tt
  settle_all-IsQuiet (o ∷ os) rows =
      let first = settle-Settles (clock (length os)) o rows in
      (settle_all-keeps o.id os _ first.own, settle_all-IsQuiet os _)

  length-settle_all :
      (batch rows : List OutboxRow) → length (settle_all c clock batch rows).1 ≡ length batch
  unfolding settle_all
  length-settle_all [] rows = refl
  length-settle_all (o ∷ os) rows =
      omega (arith, length-settle_all os (settle c clock (clock (length os)) o rows).0)

-- After a tick no row with the id of a row that it claimed is in processing, whatever the
-- connectors answered or raised, and each claimed row was settled.
pub tick-settles :
    (c : Connectors) (clock : ℕ → ℕ) (now limit : ℕ) (rows : List OutboxRow)
    → let o = dispatch_outbox_tick c clock now limit rows in
      All (λ r. count (λ x. has_id r.id x && str_eq x.status "processing") o.0 ≡ 0) o.1.claimed
      × (length o.1.settled ≡ length o.1.claimed)
unfolding dispatch_outbox_tick
tick-settles c clock now limit rows =
    let rows1 = (reap_stale_outbox_claims now default_outbox_stale_after_seconds rows).0 in
    let claim = claim_pending_outbox now limit rows1 in
    (
      All-map _ _ claim.1 (λ r h. count-none (has_id r.id) (λ x. str_eq x.status "processing") _ h)
          (settle_all-IsQuiet c clock claim.1 claim.0),
      length-settle_all c clock claim.1 claim.0,
    )
