-- ===== src/Board/Lanes.antt =====
-- core/repository/board.py: board_lanes, board_summary.
use mathlib.Core.List.{◌++◌ as append}
use tandem_agents.Prelude.{
  ℕ, ◌+◌, String, ◌≡◌, refl, ◌∙◌, inl, inr, Bool, Option, none, some, List, [], ◌∷◌, arith, str_eq,
  eq_iff, if◌then◌else◌, Bool-cases, length, length-append, count, any, str_or,
}
use tandem_agents.Board.Cards.{Card}
use tandem_agents.Board.Document.{Board, board_columns}

abbrev pub Lanes : Type 0
Lanes = List (String × List Card)

unfoldable pub has_lane : String → String × List Card → Bool
has_lane lane l = str_eq l.0 lane

-- {lane: [] for lane in columns}
unfoldable pub empty_lanes : List String → Lanes → Lanes
unfolding any has_lane
empty_lanes [] ls = ls
empty_lanes (c ∷ cs) ls =
    empty_lanes cs (if any (has_lane c) ls then ls else append ls ((c, []) ∷ []))

unfoldable pub columns_of : Board → List String
columns_of b = elim b.meta.columns [ none ↦ board_columns | some cs ↦ cs ]

-- card.get("lane") or "backlog"
unfoldable pub lane_of : Card → String
unfolding str_or
lane_of c = elim c.lane [ none ↦ "backlog" | some lane ↦ str_or lane "backlog" ]

-- lanes.setdefault(lane, []).append(card)
unfoldable pub put_card : String → Card → Lanes → Lanes
put_card lane c [] = (lane, c ∷ []) ∷ []
put_card lane c ((l, cs) ∷ ls) =
    let rest = put_card lane c ls in
    if str_eq l lane then (l, append cs (c ∷ [])) ∷ ls else (l, cs) ∷ rest

unfoldable pub put_cards : List Card → Lanes → Lanes
unfolding put_card lane_of
put_cards [] ls = ls
put_cards (c ∷ cs) ls = put_cards cs (put_card (lane_of c) c ls)

cards_of_board : Board → List Card
cards_of_board b = elim b.cards [ none ↦ [] | some cs ↦ cs ]

-- board_lanes, with no result where the cards are null.
unfoldable pub board_lanes : Board → Option Lanes
unfolding put_cards empty_lanes columns_of
board_lanes b = elim b.cards [
  | none ↦ none
  | some cs ↦ some (put_cards cs (empty_lanes (columns_of b) []))
]

unfoldable pub summary_of : Lanes → List (String × ℕ)
summary_of [] = []
summary_of ((l, cs) ∷ ls) = (l, length cs) ∷ summary_of ls

unfoldable pub board_summary : Board → Option (List (String × ℕ))
unfolding board_lanes summary_of
board_summary b = elim (board_lanes b) [ none ↦ none | some ls ↦ some (summary_of ls) ]

-- The number under a lane, 0 for a lane that is not there.
unfoldable pub count_in : String → List (String × ℕ) → ℕ
count_in lane [] = 0
count_in lane ((l, n) ∷ s) = (if str_eq l lane then n else 0) + count_in lane s

no_lanes : (lane : String) → count_in lane (summary_of []) ≡ 0
unfolding summary_of count_in
no_lanes lane = refl

count_in-append_empty :
    (lane c : String) (ls : Lanes)
    → count_in lane (summary_of (append ls ((c, []) ∷ []))) ≡ count_in lane (summary_of ls)
unfolding summary_of count_in
count_in-append_empty lane c [] = ground arith
count_in-append_empty lane c ((l, cs) ∷ ls) = omega (arith, count_in-append_empty lane c ls)

count_in-empty_lanes :
    (lane : String) (cs : List String) (ls : Lanes)
    → count_in lane (summary_of (empty_lanes cs ls)) ≡ count_in lane (summary_of ls)
unfolding empty_lanes
count_in-empty_lanes lane [] ls = refl
count_in-empty_lanes lane (c ∷ cs) ls = elim (Bool-cases (any (has_lane c) ls)) [
  | inl e ↦ rw (e, empty_lanes) (count_in-empty_lanes lane cs ls)
  | inr e ↦
      rw (e, empty_lanes)
        (count_in-empty_lanes lane cs (append ls ((c, []) ∷ [])) ∙ count_in-append_empty lane c ls)
]

-- The lane of a card is its own.
count_in-put_card :
    (lane own : String) (c : Card) (ls : Lanes)
    → count_in lane (summary_of (put_card own c ls))
      ≡ count_in lane (summary_of ls) + (if str_eq own lane then 1 else 0)
unfolding put_card summary_of count_in
count_in-put_card lane own c [] = ground arith
count_in-put_card lane own c ((l, cs) ∷ ls) =
    ground (arith, eq_iff l own, length-append cs (c ∷ []), count_in-put_card lane own c ls)

count_in-put_cards :
    (lane : String) (cs : List Card) (ls : Lanes)
    → count_in lane (summary_of (put_cards cs ls))
      ≡ count_in lane (summary_of ls) + count (λ c. str_eq (lane_of c) lane) cs
unfolding put_cards count
count_in-put_cards lane [] ls = omega arith
count_in-put_cards lane (c ∷ cs) ls = omega (
  arith,
  count_in-put_cards lane cs (put_card (lane_of c) c ls),
  count_in-put_card lane (lane_of c) c ls,
)

-- A board with cards has a summary, and this gives for each lane the number of the cards whose lane
-- it is, a card without a lane being of the backlog; a lane that the summary lacks has no card.
pub summary-counts :
    (b : Board) (cs : List Card) (lane : String)
    → b.cards ≡ some cs
    → (s : List (String × ℕ)) × (board_summary b ≡ some s)
      × (count_in lane s ≡ count (λ c. str_eq (lane_of c) lane) cs)
unfolding board_summary board_lanes
summary-counts b cs lane e =
    let ls = put_cards cs (empty_lanes (columns_of b) []) in
    (
      summary_of ls,
      rw (e, board_lanes) refl,
      omega (
        arith,
        count_in-put_cards lane cs (empty_lanes (columns_of b) []),
        count_in-empty_lanes lane (columns_of b) [],
        no_lanes lane,
      ),
    )
