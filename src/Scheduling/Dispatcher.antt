-- ===== src/Scheduling/Dispatcher.antt =====
-- core/scheduling/outbox_dispatcher.py: the tick that sends the rows of the outbox to the
-- connectors and settles each.
pub mod Answers
pub mod Settling
use Prim.Native.String.{◌++◌}
use tandem_agents.Prelude.{
  ℕ, zero, suc, ◌+◌, ◌-◌, ◌*◌, ◌/◌, ◌≤◌, ◌<◌, min, max, String, ◌≡◌, refl, sym, ap, ◌∙◌, ◌≢◌, ◌↔◌,
  ◌⊎◌, inl, inr, Bool, true, false, not, ◌&&◌, ◌||◌, Option, none, some, List, [], ◌∷◌, map, arith,
  str_eq, eq_iff, eq_refl, ltb, leb, ◌==◌, if◌then◌else◌, or_else, Bool-cases, Option-cases, length,
  take, All, All-map, All-append, All-take, length-append, length-take-le, select, fetch_one, count,
  any, update_where, upsert, order_desc, order_asc, count-update_le, count-update_keep,
  count-update_add, count-append_one, count-zero_of_any, count-zero_of_fetch, fetch_one-holds,
  count_mono, All-update, update-none, All-select, select-holds, All-update_to, select-covers,
  count-zero_of_select, nil_of_order_desc, fetch_one-update, fetch_one-upsert, count-and_le,
  count-pos_of_fetch, count-update_none, fetch_one-update_key, strip, lower, colons_to_slashes,
  str_or, lstrip_hash, prefix, slugify, length-order_asc, All-order_asc, length-select, length-take,
  length-map, All-of_map, All-always, All-update_set, All-select_to, not_other, and_left, and_right,
  true-false, All-of_fetch_none, any-order_asc, All-any, All-of_key, All-order_desc, All-both,
}
use tandem_agents.Coordination.Rows.{Dict, get, OutboxRow}
use tandem_agents.Coordination.Status.{normalized, default_outbox_stale_after_seconds}
use tandem_agents.Coordination.Outbox.{
  claim_pending_outbox, complete_outbox, retry_outbox, reap_stale_outbox_claims,
}

abbrev pub default_outbox_max_attempts : ℕ
default_outbox_max_attempts = 5

-- What a dispatch returns, or the exception that it raises.
pub record Answer : Type 0 where
  pub outbox_id : ℕ
  pub status : String
  pub terminal : Bool
  pub error : String

pub data Sent : Type 0 where
  answered : Answer → Sent
  raised : String → Sent

unfoldable pub dispatched_answer : OutboxRow → Answer
dispatched_answer o = record {
  outbox_id = o.id;
  status = "dispatched";
  terminal = false;
  error = "";
}

unfoldable pub failed_answer : OutboxRow → String → Answer
failed_answer o error = record {
  outbox_id = o.id;
  status = "failed";
  terminal = true;
  error = error;
}

-- The answer of a connector: a warning, none if the call did what it should, or an exception.
pub data Reply : Type 0 where
  warning : Option String → Reply
  broken : String → Reply

-- What reading the comments of an issue back tells of a marker, or the exception that it raises.
pub data Readback : Type 0 where
  found : Bool → Readback
  unreadable : String → Readback

-- The connectors, the texts that their modules build from a payload, the list under `labels`, and
-- the reading of the run's marker back from Linear.
pub record Connectors : Type 0 where
  pub connection_error : String → Option String
  pub update_status : OutboxRow → Reply
  pub comment : OutboxRow → String → Reply
  pub create_pull_request : OutboxRow → Reply
  pub comment_body : Dict → String
  pub labels : Dict → List String
  pub marker_present : OutboxRow → String → Readback

-- `payload.get(a) or payload.get(b) or ""`, stripped.
unfoldable pub either_of : String → String → Dict → String
either_of a b d = strip (if str_eq (get d a) "" then get d b else get d a)

unfoldable pub answer_of : OutboxRow → Reply → Sent
unfolding failed_answer dispatched_answer
answer_of o (warning none) = answered (dispatched_answer o)
answer_of o (warning (some w)) = answered (failed_answer o w)
answer_of o (broken e) = raised e

-- What follows the reading of the marker: a comment without it failed.
unfoldable pub verified : OutboxRow → Readback → Sent
unfolding failed_answer dispatched_answer
verified o (found true) = answered (dispatched_answer o)
verified o (found false) = answered (
    failed_answer o
      "Linear comment creation could not be verified by reading the run marker back from Linear.")
verified o (unreadable e) = raised e

module _ (c : Connectors) where
  unfoldable pub dispatch_status_update : OutboxRow → Sent
  unfolding either_of answer_of failed_answer
  dispatch_status_update o =
      if str_eq (either_of "target_status" "status_name" o.payload) ""
      then answered
          (failed_answer o "Outbox payload missing target_status for GitHub Project status update.")
      else answer_of o (c.update_status o)

  -- The body of a comment: the payload's, or the one built from it.
  unfoldable pub body_of : OutboxRow → String
  body_of o =
      let body = strip (get o.payload "body") in
      if str_eq body "" then c.comment_body o.payload else body

  unfoldable pub dispatch_issue_comment : OutboxRow → Sent
  unfolding body_of answer_of failed_answer
  dispatch_issue_comment o =
      if str_eq (strip (body_of o)) ""
      then answered (failed_answer o "Outbox payload missing comment body.")
      else answer_of o (c.comment o (body_of o))

  unfoldable pub dispatch_pull_request_create : OutboxRow → Sent
  unfolding answer_of failed_answer
  dispatch_pull_request_create o =
      if str_eq (strip (get o.payload "head_branch")) ""
        || str_eq (strip (get o.payload "title")) ""
      then answered (failed_answer o "Outbox payload missing PR head branch or title.")
      else answer_of o (c.create_pull_request o)

  unfoldable pub dispatch_linear_status_update : OutboxRow → Sent
  unfolding either_of answer_of failed_answer
  dispatch_linear_status_update o =
      if str_eq (either_of "target_status" "status" o.payload) ""
        && not (any (λ l. not (str_eq (strip l) "")) (c.labels o.payload))
      then answered (
          failed_answer o "Outbox payload missing target_status or labels for Linear issue update.")
      else answer_of o (c.update_status o)

  unfoldable pub dispatch_linear_comment : OutboxRow → Sent
  unfolding body_of verified failed_answer dispatched_answer
  dispatch_linear_comment o =
      let marker = strip (get o.payload "run_id") in
      if str_eq (strip (body_of o)) ""
      then answered (failed_answer o "Outbox payload missing Linear comment body.")
      else elim (c.comment o (body_of o)) [
        | broken e ↦ raised e
        | warning (some w) ↦ answered (failed_answer o w)
        | warning none ↦
            if str_eq marker ""
            then answered (dispatched_answer o)
            else verified o (c.marker_present o marker)
      ]

  unfoldable pub dispatch_outbox_item : OutboxRow → Sent
  unfolding dispatch_status_update dispatch_issue_comment dispatch_pull_request_create
      dispatch_linear_status_update dispatch_linear_comment failed_answer
  dispatch_outbox_item o =
      let kind = strip o.kind in
      if str_eq kind "github_project.status_update"
      then dispatch_status_update o
      else if str_eq kind "github_issue.comment"
      then dispatch_issue_comment o
      else if str_eq kind "github_pull_request.create"
      then dispatch_pull_request_create o
      else if str_eq kind "linear_issue.status_update"
      then dispatch_linear_status_update o
      else if str_eq kind "linear_issue.comment"
      then dispatch_linear_comment o
      else answered (failed_answer o ("Unsupported outbox kind: " ++ str_or kind "unknown"))

unfoldable pub outbox_connector : String → String
outbox_connector kind =
    if str_eq (prefix 7 kind) "github_"
    then "github"
    else if str_eq (prefix 7 kind) "linear_"
    then "linear"
    else ""

-- How a row was settled.
pub data Settled : Type 0 where
  was_dispatched : Settled
  was_retried : Settled
  was_failed : Settled

-- `retry_claimed_outbox`: the fifth attempt is the last.
unfoldable pub retry_claimed : ℕ → OutboxRow → String → List OutboxRow → List OutboxRow × Settled
unfolding retry_outbox
retry_claimed now o error rows =
    let terminal = leb default_outbox_max_attempts o.attempts in
    (
      (retry_outbox now o.id error terminal none rows).0,
      if terminal then was_failed else was_retried,
    )

unfoldable pub settle_answer : ℕ → Answer → List OutboxRow → List OutboxRow × Settled
unfolding complete_outbox retry_outbox normalized
settle_answer now a rows =
    if str_eq (normalized a.status) "dispatched"
    then ((complete_outbox now a.outbox_id rows).0, was_dispatched)
    else (
      (retry_outbox now a.outbox_id (str_or (strip a.error) "outbox dispatch failed") a.terminal
          none rows).0,
      if a.terminal then was_failed else was_retried,
    )

-- What a tick returns, the items without their texts.
pub record Tick : Type 0 where
  pub reaped : ℕ
  pub claimed : List OutboxRow
  pub settled : List Settled

-- `clock` tells the time of each update, by the number of rows that are left.
module _ (c : Connectors) (clock : ℕ → ℕ) where
  -- Why the connector of a row cannot be used; a row without a connector has no error here.
  unfoldable pub connector_error : String → Option String
  connector_error connector =
      if str_eq connector "" then none else elim (c.connection_error connector) [
        | none ↦ none
        | some e ↦ some (
            str_or (strip e) (
              if str_eq connector "github"
              then "Failed to connect GitHub MCP server"
              else "Failed to connect Linear MCP server"))
      ]

  -- The body of the loop over the claimed rows.
  unfoldable pub settle : ℕ → OutboxRow → List OutboxRow → List OutboxRow × Settled
  unfolding outbox_connector connector_error dispatch_outbox_item settle_answer retry_claimed
  settle now o rows = elim (connector_error (outbox_connector o.kind)) [
    | some e ↦ retry_claimed now o e rows
    | none ↦ elim (dispatch_outbox_item c o) [
      | raised e ↦ retry_claimed now o (str_or (strip e) "outbox dispatch raised an exception") rows
      | answered a ↦ settle_answer now a rows
    ]
  ]

  unfoldable pub settle_all : List OutboxRow → List OutboxRow → List OutboxRow × List Settled
  unfolding settle
  settle_all [] rows = (rows, [])
  settle_all (o ∷ os) rows =
      let (rows', first) = settle (clock (length os)) o rows in
      let (rows'', rest) = settle_all os rows' in (rows'', first ∷ rest)

  unfoldable pub dispatch_outbox_tick : ℕ → ℕ → List OutboxRow → List OutboxRow × Tick
  unfolding settle_all claim_pending_outbox reap_stale_outbox_claims
  dispatch_outbox_tick now limit rows =
      let (rows1, stale) = reap_stale_outbox_claims now default_outbox_stale_after_seconds rows in
      let (rows2, batch) = claim_pending_outbox now limit rows1 in
      let (rows3, settled) = settle_all batch rows2 in
      (rows3, record { reaped = length stale; claimed = batch; settled = settled })
