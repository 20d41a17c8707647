-- ===== src/Scheduling/Triage/Escalation.antt =====
-- core/triage.py: escalate_triaged_task, which tells the tracker of a task that is not accepted.
use Prim.Native.String.{◌++◌}
use mathlib.Core.List.{◌++◌ as append}
use tandem_agents.Prelude.{
  ℕ, String, ◌≡◌, refl, ap, ◌∙◌, inl, inr, Bool, true, false, not, ◌&&◌, ◌||◌, Option, none, some,
  List, [], ◌∷◌, arith, str_eq, eq_refl, if◌then◌else◌, Bool-cases, Option-cases, length, count,
  any, update_where, upsert, count-append_one, count-zero_of_any, All-update_to, count-and_le,
  strip, str_or, All-always, count-none,
}
use tandem_agents.Coordination.Rows.{OutboxRow, column_eq}
use tandem_agents.Coordination.Status.{normalized}
use tandem_agents.Coordination.Outbox.{Message, has_dedupe_key, reopened, new_row, enqueue_outbox}
use tandem_agents.Scheduling.Triage.{
  Issue, Outcome, accepted, refused, needs_clarification, Verdict, is_accepted,
}

unfoldable pub outcome_text : Outcome → String
outcome_text accepted = "accepted"
outcome_text refused = "refused"
outcome_text needs_clarification = "needs_clarification"

unfoldable pub escalation_comment_kind : Issue → String
unfolding normalized
escalation_comment_kind t =
    let source_type = normalized t.source_type in
    if str_eq source_type "linear"
    then "linear_issue.comment"
    else if str_eq source_type "github" || str_eq source_type "github_project"
    then "github_issue.comment"
    else ""

or_unknown : Option String → String
or_unknown none = "unknown"
or_unknown (some c) = str_or c "unknown"

unfoldable pub build_triage_escalation_comment : Issue → Verdict → String
unfolding outcome_text or_unknown strip str_or
build_triage_escalation_comment t v =
    "ACA triage did not accept **"
    ++ strip (str_or (str_or t.title t.task_id) "this issue")
    ++ "** for autonomous execution (verdict: `"
    ++ outcome_text v.verdict
    ++ "`, detected class: `"
    ++ or_unknown v.issue_class
    ++ "`).\n\n"
    ++ strip v.reason
    ++ "\n\nThis issue needs a human to scope or reassign it — the fleet will not attempt it automatically."

-- The message of an escalation, if one is sent. Its payload leaves the task itself out.
unfoldable pub escalation : Issue → Verdict → Option Message
unfolding is_accepted escalation_comment_kind strip str_or outcome_text
    build_triage_escalation_comment
escalation t v =
    let kind = escalation_comment_kind t in
    let task_key = strip (str_or t.task_key t.task_id) in
    let message : Message = record {
      kind = kind;
      aggregate_type = "task";
      aggregate_id = task_key;
      payload =
          ("body", build_triage_escalation_comment t v) ∷ ("outcome", "triage_escalated") ∷ [];
      dedupe_key = some (task_key ++ ":triage-escalation:" ++ outcome_text v.verdict);
    } in
    if is_accepted v.verdict || str_eq kind "" || str_eq task_key "" then none else some message

unfoldable pub escalate_triaged_task : ℕ → Issue → Verdict → List OutboxRow → List OutboxRow × Bool
unfolding escalation enqueue_outbox
escalate_triaged_task now t v rows = elim (escalation t v) [
  | none ↦ (rows, false)
  | some m ↦ ((enqueue_outbox now m rows).0, true)
]

any-same :
    (p : OutboxRow → Bool) (f : OutboxRow → OutboxRow) (rows : List OutboxRow)
    → ((o : OutboxRow) → p (f o) ≡ p o)
    → any p (update_where p f rows) ≡ any p rows
unfolding any update_where
any-same p f [] h = refl
any-same p f (o ∷ os) h = ground (arith, h o, any-same p f os h)

any-append_hit :
    (p : OutboxRow → Bool) (rows : List OutboxRow) (o : OutboxRow)
    → p o ≡ true
    → any p (append rows (o ∷ [])) ≡ true
unfolding any
any-append_hit p [] o h = rw h refl
any-append_hit p (x ∷ xs) o h = ground (arith, any-append_hit p xs o h)

length-update :
    (p : OutboxRow → Bool) (f : OutboxRow → OutboxRow) (rows : List OutboxRow)
    → length (update_where p f rows) ≡ length rows
unfolding update_where
length-update p f [] = refl
length-update p f (o ∷ os) = omega (arith, length-update p f os)

-- After a message with a key was put into the outbox, a row has this key.
any-enqueue :
    (now : ℕ) (m : Message) (k : String) (rows : List OutboxRow)
    → m.dedupe_key ≡ some k
    → any (has_dedupe_key m.dedupe_key) (enqueue_outbox now m rows).0 ≡ true
unfolding enqueue_outbox has_dedupe_key reopened new_row column_eq upsert any
any-enqueue now m k rows e = elim (Bool-cases (any (has_dedupe_key m.dedupe_key) rows)) [
  | inl h ↦
      rw (h, upsert)
        (any-same (has_dedupe_key m.dedupe_key) (reopened now m.payload) rows (λ o. refl) ∙ h)
  | inr h ↦ rw (h, upsert) (any-append_hit (has_dedupe_key m.dedupe_key) rows _ (rw e (eq_refl k)))
]

-- A message whose key is known adds no row.
length-enqueue_again :
    (now : ℕ) (m : Message) (rows : List OutboxRow)
    → any (has_dedupe_key m.dedupe_key) rows ≡ true
    → length (enqueue_outbox now m rows).0 ≡ length rows
unfolding enqueue_outbox upsert
length-enqueue_again now m rows h =
    rw (h, upsert) (length-update (has_dedupe_key m.dedupe_key) (reopened now m.payload) rows)

-- The key of the task and the verdict is on each message.
escalation-keyed :
    (t : Issue) (v : Verdict) (m : Message)
    → escalation t v ≡ some m
    → m.dedupe_key
      ≡ some
          (strip (str_or t.task_key t.task_id) ++ ":triage-escalation:" ++ outcome_text v.verdict)
unfolding escalation
escalation-keyed t v m h =
    elim (Bool-cases (
      is_accepted v.verdict
      || str_eq (escalation_comment_kind t) ""
      || str_eq (strip (str_or t.task_key t.task_id)) "")) [
        | inl e ↦ absurd (cc (rw (e, escalation) at h))
        | inr e ↦ let k = rw (e, escalation) at h in cc k
      ]

escalate-none :
    (now : ℕ) (t : Issue) (v : Verdict) (rows : List OutboxRow)
    → escalation t v ≡ none
    → (escalate_triaged_task now t v rows).0 ≡ rows
unfolding escalate_triaged_task
escalate-none now t v rows e = rw (e, escalate_triaged_task) refl

pub escalate-some :
    (now : ℕ) (t : Issue) (v : Verdict) (m : Message) (rows : List OutboxRow)
    → escalation t v ≡ some m
    → (escalate_triaged_task now t v rows).0 ≡ (enqueue_outbox now m rows).0
unfolding escalate_triaged_task
escalate-some now t v m rows e = rw (e, escalate_triaged_task) refl

-- A second escalation of the same task with the same verdict adds no row to the outbox, at whatever
-- times the two are made.
pub escalated_once :
    (now later : ℕ) (t : Issue) (v : Verdict) (rows : List OutboxRow)
    → length (escalate_triaged_task later t v (escalate_triaged_task now t v rows).0).0
      ≡ length (escalate_triaged_task now t v rows).0
escalated_once now later t v rows = elim (Option-cases (escalation t v)) [
  | inl e ↦ ap length (escalate-none later t v (escalate_triaged_task now t v rows).0 e)
  | inr (m, e) ↦
      rw
        (
          escalate-some later t v m (escalate_triaged_task now t v rows).0 e,
          escalate-some now t v m rows e,
        )
        (length-enqueue_again later m (enqueue_outbox now m rows).0
          (any-enqueue now m _ rows (escalation-keyed t v m e)))
]

-- After an escalation that sends a message, each row of the outbox with the key of the message is
-- pending, also one that was completed before.
pub escalation_reopens :
    (now : ℕ) (t : Issue) (v : Verdict) (m : Message) (rows : List OutboxRow)
    → escalation t v ≡ some m
    → count
        (λ o. has_dedupe_key m.dedupe_key o && not (str_eq o.status "pending"))
        (escalate_triaged_task now t v rows).0
      ≡ 0
unfolding enqueue_outbox upsert reopened new_row count
escalation_reopens now t v m rows e =
    let key = has_dedupe_key m.dedupe_key in
    elim (Bool-cases (any key rows)) [
      | inl h ↦
          rw (escalate-some now t v m rows e, h)
            (count-none key (λ o. not (str_eq o.status "pending")) _
              (All-update_to (λ _. Unit {0})
                (λ o. key o ≡ true → not (str_eq o.status "pending") ≡ false) key
                (reopened now m.payload) rows (λ o k u p. refl) (λ o k u p. cc)
                (All-always (λ _. Unit {0}) (λ _. tt) rows)))
      | inr h ↦
          rw (escalate-some now t v m rows e, h, count-append_one)
            (ground (
              arith,
              count-and_le key (λ o. not (str_eq o.status "pending")) rows,
              count-zero_of_any key rows h,
            ))
    ]
