-- ===== src/Board/Traces.antt =====
-- The history of a card tells its lane, over all changes of a board.
use mathlib.Core.List.{◌++◌ as append}
use tandem_agents.Prelude.{
  ℕ, String, ◌≡◌, refl, inl, inr, Option, none, some, List, [], ◌∷◌, Option-cases, All, All-append,
}
use tandem_agents.Verification.Json.{Json}
use tandem_agents.Board.Cards.{Card, HistoryEntry, Task, task_to_card, created_entry}
use tandem_agents.Board.Moves.{
  find_card, change_card, change_card-All, moved, claimed, claim_card, move_card,
}

unfoldable pub last_lane : List HistoryEntry → Option String
last_lane [] = none
last_lane (e ∷ es) = elim (last_lane es) [ none ↦ some e.lane | some lane ↦ some lane ]

-- What is done with a board: a task is put on it, a card is claimed or moved. A claim or a move of a
-- card that is not there raises an error and leaves the board.
pub data BoardStep : Type 0 where
  put : (now : ℕ) → (suffix lane : String) → Task → BoardStep
  claim : (now : ℕ) → (card_id run_id actor : String) → BoardStep
  move : (now : ℕ) → (card_id lane actor note : String) → BoardStep

abbrev IsTraced : Card → Type 0
IsTraced c = last_lane c.history ≡ c.lane

last_lane-append :
    (h : List HistoryEntry) (e : HistoryEntry) → last_lane (append h (e ∷ [])) ≡ some e.lane
unfolding last_lane
last_lane-append [] e = refl
last_lane-append (x ∷ xs) e = rw (last_lane-append xs e) refl

module _ (show : Json → String) where
  unfoldable pub or_same : List Card → Option (List Card × Card) → List Card
  or_same cs none = cs
  or_same cs (some (cs', c)) = cs'

  unfoldable pub board_step : BoardStep → List Card → List Card
  unfolding or_same claim_card move_card task_to_card
  board_step (put now suffix lane t) cs = append cs (task_to_card show now suffix lane t ∷ [])
  board_step (claim now card_id run_id actor) cs =
      or_same cs (claim_card show now card_id run_id actor cs)
  board_step (move now card_id lane actor note) cs =
      or_same cs (move_card show now card_id lane actor note cs)

  unfoldable pub board_after : List BoardStep → List Card → List Card
  unfolding board_step
  board_after [] cs = cs
  board_after (o ∷ os) cs = board_after os (board_step o cs)

  change-IsTraced :
      (card_id : String) (f : Card → Card) (cs : List Card)
      → ((c : Card) → IsTraced (f c))
      → All IsTraced cs
      → All IsTraced (change_card show card_id f cs)
  change-IsTraced card_id f cs h all = change_card-All show IsTraced card_id f cs (λ c _. h c) all

  board_step-IsTraced :
      (o : BoardStep) (cs : List Card) → All IsTraced cs → All IsTraced (board_step o cs)
  unfolding board_step task_to_card created_entry last_lane claim_card move_card claimed moved
      or_same
  board_step-IsTraced (put now suffix lane t) cs h = All-append IsTraced cs _ h (refl, tt)
  board_step-IsTraced (claim now card_id run_id actor) cs h =
      elim (Option-cases (find_card show card_id cs)) [
        | inl e ↦ rw (e, claim_card) h
        | inr (c, e) ↦
            rw (e, claim_card)
              (change-IsTraced card_id (claimed now run_id actor) cs
                (λ c. last_lane-append c.history _) h)
      ]
  board_step-IsTraced (move now card_id lane actor note) cs h =
      elim (Option-cases (find_card show card_id cs)) [
        | inl e ↦ rw (e, move_card) h
        | inr (c, e) ↦
            rw (e, move_card)
              (change-IsTraced card_id (moved now lane actor note) cs
                (λ c. last_lane-append c.history _) h)
      ]

  board_after-IsTraced :
      (os : List BoardStep) (cs : List Card) → All IsTraced cs → All IsTraced (board_after os cs)
  unfolding board_after
  board_after-IsTraced [] cs h = h
  board_after-IsTraced (o ∷ os) cs h =
      board_after-IsTraced os (board_step o cs) (board_step-IsTraced o cs h)

  -- After any tasks were put on an empty board and any claims and moves, those that fail included,
  -- each card is in the lane that the last entry of its history names.
  pub cards_are_traced :
      (os : List BoardStep) → All (λ c. last_lane c.history ≡ c.lane) (board_after os [])
  cards_are_traced os = board_after-IsTraced os [] tt
