-- ===== src/Board/LaneMap.antt =====
-- What a board promises: a map from the ids of its cards to their lanes. The cards implement it.
use mathlib.Core.Path.{fun_ext}
use mathlib.Core.List.{◌++◌ as append}
use tandem_agents.Prelude.{
  String, ◌≡◌, refl, ap, ◌∙◌, inl, inr, Option, none, some, List, [], ◌∷◌, arith, str_eq, eq_iff,
  if◌then◌else◌, Bool-cases, Option-cases, fetch_one, str_or,
}
use tandem_agents.Verification.Json.{Json, str}
use tandem_agents.Board.Cards.{Card, task_to_card}
use tandem_agents.Board.Lanes.{lane_of}
use tandem_agents.Board.Moves.{
  has_card_id, find_card, change_card, moved, claimed, claim_card, move_card,
}
use tandem_agents.Board.Traces.{BoardStep, put, claim, move, or_same, board_step, board_after}

abbrev pub LaneMap : Type 0
LaneMap = String → Option String

lane_of_card : Option Card → Option String
lane_of_card none = none
lane_of_card (some c) = some (lane_of c)

-- An id that is known keeps its lane, a new one gets it.
unfoldable pub put_lane : String → String → LaneMap → LaneMap
put_lane id lane m j = elim (m j) [
  | some l ↦ some l
  | none ↦ if str_eq id j then some lane else none
]

-- A known id changes its lane; an unknown one is refused.
unfoldable pub set_lane : String → String → LaneMap → LaneMap
set_lane id lane m j = elim (m id) [ none ↦ m j | some l ↦ if str_eq id j then some lane else m j ]

module _ (show : Json → String) where
  -- The map of a board.
  unfoldable pub lane_map : List Card → LaneMap
  unfolding lane_of_card find_card
  lane_map cs j = lane_of_card (find_card show j cs)

  -- The same steps on the map. A card is put under the id that task_to_card gives it; the lane "" is
  -- the backlog.
  unfoldable pub map_step : BoardStep → LaneMap → LaneMap
  unfolding put_lane set_lane str_or
  map_step (put now suffix lane t) m =
      put_lane (str show (task_to_card show now suffix lane t).id) (str_or lane "backlog") m
  map_step (claim now card_id run_id actor) m = set_lane card_id "in_progress" m
  map_step (move now card_id lane actor note) m = set_lane card_id (str_or lane "backlog") m

  unfoldable pub map_after : List BoardStep → LaneMap → LaneMap
  unfolding map_step
  map_after [] m = m
  map_after (o ∷ os) m = map_after os (map_step o m)

  find_card-append :
      (cs : List Card) (c : Card) (j : String)
      → lane_map (append cs (c ∷ [])) j ≡ put_lane (str show c.id) (lane_of c) (lane_map cs) j
  unfolding lane_map find_card fetch_one put_lane has_card_id lane_of_card
  find_card-append [] c j = elim (Bool-cases (str_eq (str show c.id) j)) [
    | inl e ↦ rw (e, lane_map, put_lane) refl
    | inr e ↦ rw (e, lane_map, put_lane) refl
  ]
  find_card-append (x ∷ xs) c j = elim (Bool-cases (str_eq (str show x.id) j)) [
    | inl e ↦ rw (e, lane_map, put_lane) refl
    | inr e ↦ rw (e, lane_map, put_lane) (find_card-append xs c j)
  ]

  lane_map-cons :
      (x : Card) (xs : List Card) (j : String)
      → lane_map (x ∷ xs) j ≡ (if str_eq (str show x.id) j then some (lane_of x) else lane_map xs j)
  unfolding lane_map find_card fetch_one has_card_id lane_of_card
  lane_map-cons x xs j = elim (Bool-cases (str_eq (str show x.id) j)) [
    | inl e ↦ rw (e, lane_map) refl
    | inr e ↦ rw (e, lane_map) refl
  ]

  -- A change of a card that keeps its id changes the map at this id only.
  find_card-change :
      (id lane : String) (f : Card → Card) (cs : List Card) (j : String)
      → ((c : Card) → (f c).id ≡ c.id)
      → ((c : Card) → lane_of (f c) ≡ lane)
      → lane_map (change_card show id f cs) j ≡ set_lane id lane (lane_map cs) j
  unfolding change_card has_card_id set_lane
  find_card-change id lane f [] j same put_in = unfold lane_map in refl
  find_card-change id lane f (x ∷ xs) j same put_in =
      let sx = str show x.id in
      elim (Bool-cases (str_eq sx id)) [
        | inl e ↦
            let head =
              lane_map-cons (f x) xs j
              ∙ ap (λ i. if str_eq (str show i) j then some (lane_of (f x)) else lane_map xs j)
                  (same x) in
            rw (e, change_card)
              (ground (
                arith,
                head,
                put_in x,
                lane_map-cons x xs j,
                lane_map-cons x xs id,
                eq_iff sx id,
                eq_iff sx j,
                eq_iff id j,
              ))
        | inr e ↦
            rw (e, change_card)
              (ground (
                arith,
                lane_map-cons x (change_card show id f xs) j,
                lane_map-cons x xs j,
                lane_map-cons x xs id,
                find_card-change id lane f xs j same put_in,
                eq_iff sx id,
                eq_iff sx j,
                eq_iff id j,
              ))
      ]

  or_same_none :
      (card_id lane : String) (cs : List Card)
      → find_card show card_id cs ≡ none
      → lane_map cs ≡ set_lane card_id lane (lane_map cs)
  unfolding lane_map set_lane lane_of_card
  or_same_none card_id lane cs e = fun_ext (λ j. rw (e, set_lane) refl)

  -- One step of the board is the same step of its map.
  board_step-refines :
      (o : BoardStep) (cs : List Card) → lane_map (board_step show o cs) ≡ map_step o (lane_map cs)
  unfolding board_step map_step moved claimed lane_of task_to_card or_same
  board_step-refines (put now suffix lane t) cs =
      fun_ext (λ j. find_card-append cs (task_to_card show now suffix lane t) j)
  board_step-refines (claim now card_id run_id actor) cs =
      elim (Option-cases (find_card show card_id cs)) [
        | inl e ↦ rw (e, claim_card) (or_same_none card_id "in_progress" cs e)
        | inr (c, e) ↦
            rw (e, claim_card)
              (fun_ext (λ j.
                find_card-change card_id "in_progress" (claimed now run_id actor) cs j (λ c. refl)
                  (λ c. refl)))
      ]
  board_step-refines (move now card_id lane actor note) cs =
      elim (Option-cases (find_card show card_id cs)) [
        | inl e ↦ rw (e, move_card) (or_same_none card_id (str_or lane "backlog") cs e)
        | inr (c, e) ↦
            rw (e, move_card)
              (fun_ext (λ j.
                find_card-change card_id (str_or lane "backlog") (moved now lane actor note) cs j
                  (λ c. refl) (λ c. refl)))
      ]

  -- After any steps, those that fail included, the lanes of the cards by their ids are those of the
  -- map that took the same steps: the list of cards implements the map.
  pub board-refines :
      (os : List BoardStep) (cs : List Card)
      → lane_map (board_after show os cs) ≡ map_after os (lane_map cs)
  unfolding board_after map_after
  board-refines [] cs = refl
  board-refines (o ∷ os) cs =
      board-refines os (board_step show o cs) ∙ ap (map_after os) (board_step-refines o cs)
