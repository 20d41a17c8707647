-- ===== src/Coordination/Approvals/History.antt =====
-- The approvals as a state machine: a history is a list of operations on the table, and the
-- connectors may answer in any way.
use tandem_agents.Prelude.{
  ℕ, ◌≤◌, String, ◌≡◌, refl, inl, inr, Bool, true, false, ◌||◌, none, some, List, [], ◌∷◌, ◌++◌,
  arith, str_eq, eq_iff, Bool-cases, All, All-append, count, any, update_where, upsert,
  count-update_keep, count-append_one, count-zero_of_any, All-update,
}
use mathlib.Core.Path.{subst}
use tandem_agents.Coordination.Rows.{ApprovalRow}
use tandem_agents.Coordination.Approvals.{
  has_approval_id, has_dedupe_key, Request, new_approval, requested_again, enqueue_approval,
  decided, decide_approval, approve_pending, reapproved, retry_approval, retry_failed_approvals,
  Execution, execute_approved_actions,
}

pub data Operation : Type 0 where
  enqueue : (now : ℕ) → (approval_id : String) → Request → Operation
  decide : (now : ℕ) → (approval_id decision actor reason : String) → Operation
  approve_all : (now : ℕ) → (run_id actor reason : String) → Operation
  retry : (now : ℕ) → (approval_id actor reason : String) → Operation
  retry_all : (now : ℕ) → (run_id actor reason : String) → Operation
  carry_out : (ApprovalRow → Execution) → (clock : ℕ → ℕ) → (run_id : String) → Operation

-- An enqueue that raises leaves the table as it was.
unfoldable pub perform : Operation → List ApprovalRow → List ApprovalRow
unfolding enqueue_approval decide_approval approve_pending retry_approval retry_failed_approvals
    execute_approved_actions
perform (enqueue now id r) rows = elim (enqueue_approval now id r rows) [
  | none ↦ rows
  | some (rows', _) ↦ rows'
]
perform (decide now id decision actor reason) rows =
    (decide_approval now id decision actor reason rows).0
perform (approve_all now run_id actor reason) rows =
    (approve_pending now run_id actor reason rows).0
perform (retry now id actor reason) rows = (retry_approval now id actor reason rows).0
perform (retry_all now run_id actor reason) rows =
    (retry_failed_approvals now run_id actor reason rows).0
perform (carry_out execute clock run_id) rows =
    (execute_approved_actions execute clock run_id rows).0

unfoldable pub run : List Operation → List ApprovalRow → List ApprovalRow
unfolding perform
run [] rows = rows
run (o ∷ os) rows = run os (perform o rows)

abbrev pub is_decided : ApprovalRow → Bool
is_decided a = elim a.decided_by [ none ↦ false | some _ ↦ true ]

-- An action that is neither pending nor rejected names who decided on it.
abbrev pub is_sound : ApprovalRow → Bool
is_sound a = str_eq a.status "pending" || str_eq a.status "rejected" || is_decided a

-- No two actions have the same id, and each is sound.
pub record IsSound (rows : List ApprovalRow) : Type 0 where
  pub one_row : (i : String) → count (has_approval_id i) rows ≤ 1
  pub sound : All (λ a. is_sound a ≡ true) rows

pub IsSound-update :
    (q : ApprovalRow → Bool) (f : ApprovalRow → ApprovalRow) (rows : List ApprovalRow)
    → ((i : String) (a : ApprovalRow) → has_approval_id i (f a) ≡ has_approval_id i a)
    → ((a : ApprovalRow) → q a ≡ true → is_sound a ≡ true → is_sound (f a) ≡ true)
    → IsSound rows
    → IsSound (update_where q f rows)
IsSound-update q f rows same keep s = record {
  one_row = λ i.
      omega (arith, count-update_keep (has_approval_id i) q f rows (λ a e. same i a), s.one_row i);
  sound = All-update (λ a. is_sound a ≡ true) q f rows keep s.sound;
}

pub IsSound-decided :
    (q : ApprovalRow → Bool) (now : ℕ) (status actor reason : String) (rows : List ApprovalRow)
    → IsSound rows
    → IsSound (update_where q (decided now status actor reason) rows)
unfolding decided has_approval_id
IsSound-decided q now status actor reason rows s =
    IsSound-update q (decided now status actor reason) rows (λ i a. refl) (λ a e h. ground arith) s

pub IsSound-reapproved :
    (q : ApprovalRow → Bool) (now : ℕ) (actor reason : String) (rows : List ApprovalRow)
    → IsSound rows
    → IsSound (update_where q (reapproved now actor reason) rows)
unfolding reapproved has_approval_id
IsSound-reapproved q now actor reason rows s =
    IsSound-update q (reapproved now actor reason) rows (λ i a. refl) (λ a e h. ground arith) s

requested_again_sound :
    (now : ℕ) (r : Request) (a : ApprovalRow)
    → is_sound a ≡ true
    → is_sound (requested_again now r a) ≡ true
unfolding requested_again
requested_again_sound now r a h =
    elim (Bool-cases (str_eq a.status "executed" || str_eq a.status "approved")) [
      | inl e ↦ rw (e, requested_again) h
      | inr e ↦ rw (e, requested_again) refl
    ]

pub IsSound-append :
    (now id : ℕ) (i : String) (r : Request) (rows : List ApprovalRow)
    → any (has_approval_id i) rows ≡ false
    → IsSound rows
    → IsSound (rows ++ new_approval now i id r ∷ [])
unfolding new_approval has_approval_id
IsSound-append now id i r rows n s = record {
  one_row = λ j. elim (Bool-cases (str_eq i j)) [
    | inl e ↦
        let none_yet =
          subst (λ (k : String). count (has_approval_id k) rows ≡ 0) ((eq_iff i j).0 e)
            (count-zero_of_any (has_approval_id i) rows n) in
        ground
          (arith, none_yet, count-append_one (has_approval_id j) rows (new_approval now i id r))
    | inr e ↦
        ground
          (arith, s.one_row j, count-append_one (has_approval_id j) rows (new_approval now i id r))
  ];
  sound = All-append _ rows _ s.sound (refl, tt);
}

pub IsSound-enqueue :
    (now : ℕ) (i : String) (r : Request) (rows : List ApprovalRow)
    → IsSound rows
    → IsSound (perform (enqueue now i r) rows)
unfolding perform enqueue_approval requested_again has_approval_id upsert
IsSound-enqueue now i r rows s = elim (Bool-cases (any (has_approval_id i) rows)) [
  | inl e ↦ rw (e, perform, enqueue_approval) s
  | inr e ↦ elim (Bool-cases (any (has_dedupe_key r.dedupe_key) rows)) [
    | inl d ↦
        rw (e, perform, enqueue_approval)
          (rw (d, upsert)
            (IsSound-update (has_dedupe_key r.dedupe_key) (requested_again now r) rows (λ j a. refl)
              (λ a q h. requested_again_sound now r a h) s))
    | inr d ↦ rw (e, perform, enqueue_approval) (rw (d, upsert) (IsSound-append now _ i r rows e s))
  ]
]
