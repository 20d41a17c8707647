-- ===== src/Coordination/Outbox/Backoff.antt =====
-- core/coordination/outbox.py, retry_outbox: between which times a failed message is tried again.
use tandem_agents.Prelude.{ℕ, ◌+◌, ◌≤◌, ◌<◌, String, ◌≡◌, false, not, ◌&&◌, none, List, All, count}
use tandem_agents.Coordination.Rows.{OutboxRow}
use tandem_agents.Coordination.Outbox.{has_id, is_due, retry_outbox, claim_pending_outbox}
use tandem_agents.Coordination.Outbox.Batches.{retry_not_claimed, retry_due}

-- After `retry_outbox` of an id, not terminal and without a delay of the caller, a claim that comes
-- less than five seconds later returns no row with that id, and from five minutes later on each row
-- with the id is due, whatever its number of attempts.
pub retry-backoff :
    (now soon late limit id : ℕ) (error : String) (rows : List OutboxRow)
    → soon < now + 5000
    → now + 300000 ≤ late
    → All
        (λ o. has_id id o ≡ false)
        (claim_pending_outbox soon limit (retry_outbox now id error false none rows).0).1
      × (count
            (λ o. has_id id o && not (is_due late o))
            (retry_outbox now id error false none rows).0
          ≡ 0)
retry-backoff now soon late limit id error rows h k =
    (retry_not_claimed now soon limit id error rows h, retry_due now late id error rows k)
