-- ===== src/Board/Moves.antt =====
-- core/repository/board.py: find_card, select_card, claim_card and move_card, which change the card
-- in the list of the board. A ValueError is no result.
use Prim.Native.String.{◌++◌}
use mathlib.Core.List.{◌++◌ as append}
use tandem_agents.Prelude.{
  ℕ, ◌+◌, String, ◌≡◌, refl, ap, inl, inr, Bool, true, false, Option, none, some, List, [], ◌∷◌,
  arith, str_eq, if◌then◌else◌, Bool-cases, length, All, fetch_one, count, str_or,
}
use tandem_agents.Verification.Json.{Json, str}
use tandem_agents.Board.Cards.{Card}
use tandem_agents.Board.Lanes.{lane_of}

unfoldable pub moved : ℕ → (lane actor note : String) → Card → Card
moved now lane actor note c = record c {
  lane = some lane;
  updated_at_ms = now;
  history =
      append c.history (record { lane = lane; at_ms = now; by_actor = actor; note = note } ∷ []);
}

unfoldable pub claimed : ℕ → (run_id actor : String) → Card → Card
claimed now run_id actor c = record c {
  lane = some "in_progress";
  updated_at_ms = now;
  assigned_run_id = some run_id;
  claimed_by = some actor;
  history = append c.history (
      record { lane = "in_progress"; at_ms = now; by_actor = actor; note = "claimed by " ++ run_id }
      ∷ []);
}

-- for lane in lanes: for card in cards: if card.get("lane") == lane: return card
in_lane : String → Card → Bool
in_lane lane c = elim c.lane [ none ↦ false | some l ↦ str_eq l lane ]

first_in_lanes : List String → List Card → Option Card
unfolding fetch_one in_lane
first_in_lanes [] cs = none
first_in_lanes (lane ∷ lanes) cs =
    let rest = first_in_lanes lanes cs in
    elim (fetch_one (in_lane lane) cs) [ some c ↦ some c | none ↦ rest ]

module _ (show : Json → String) where
  -- str(card.get("id")) == str(card_id)
  unfoldable pub has_card_id : String → Card → Bool
  unfolding str
  has_card_id card_id c = str_eq (str show c.id) card_id

  unfoldable pub find_card : String → List Card → Option Card
  unfolding fetch_one has_card_id
  find_card card_id cs = fetch_one (has_card_id card_id) cs

  -- A change of the card that find_card gives, in its place.
  unfoldable pub change_card : String → (Card → Card) → List Card → List Card
  unfolding has_card_id
  change_card card_id f [] = []
  change_card card_id f (c ∷ cs) =
      let rest = change_card card_id f cs in if has_card_id card_id c then f c ∷ cs else c ∷ rest

  unfoldable pub claim_card :
      ℕ → (card_id run_id actor : String) → List Card → Option (List Card × Card)
  unfolding find_card change_card claimed
  claim_card now card_id run_id actor cs = elim (find_card card_id cs) [
    | none ↦ none
    | some c ↦ some (change_card card_id (claimed now run_id actor) cs, claimed now run_id actor c)
  ]

  unfoldable pub move_card :
      ℕ → (card_id lane actor note : String) → List Card → Option (List Card × Card)
  unfolding find_card change_card moved
  move_card now card_id lane actor note cs = elim (find_card card_id cs) [
    | none ↦ none
    | some c ↦
        some (change_card card_id (moved now lane actor note) cs, moved now lane actor note c)
  ]

  -- With an id, that card; else the first in the lanes that are preferred, or any.
  unfoldable pub select_card :
      (card_id : String) → (preferred : List String) → List Card → Option Card
  unfolding find_card first_in_lanes fetch_one
  select_card card_id preferred cs =
      let chosen : Option Card = elim (first_in_lanes preferred cs) [
        | some c ↦ some c
        | none ↦ fetch_one (λ _. true) cs
      ] in
      if str_eq card_id "" then chosen else find_card card_id cs

  change_card-count :
      (p : Card → Bool) (card_id : String) (f : Card → Card) (c : Card) (cs : List Card)
      → find_card card_id cs ≡ some c
      → count p (change_card card_id f cs) + (if p c then 1 else 0)
        ≡ count p cs + (if p (f c) then 1 else 0)
  unfolding find_card change_card count fetch_one
  change_card-count p card_id f c [] h = cc
  change_card-count p card_id f c (x ∷ xs) h = elim (Bool-cases (has_card_id card_id x)) [
    | inl e ↦
        (let k : x ≡ c = cc (rw (e, fetch_one, find_card) at h) in
          rw (e, ap p k, ap (λ z. p (f z)) k) (omega arith))
    | inr e ↦
        (rw e
          (omega (arith, change_card-count p card_id f c xs (rw (e, fetch_one, find_card) at h))))
  ]

  pub change_card-All {ℓ} :
      (P : Card → Type ℓ) (card_id : String) (f : Card → Card) (cs : List Card)
      → ((c : Card) → P c → P (f c))
      → All P cs
      → All P (change_card card_id f cs)
  unfolding change_card
  change_card-All P card_id f [] keep h = tt
  change_card-All P card_id f (c ∷ cs) keep h = elim (Bool-cases (has_card_id card_id c)) [
    | inl e ↦ rw e (keep c h.0, h.1)
    | inr e ↦ rw e (h.0, change_card-All P card_id f cs keep h.1)
  ]

  length-change_card :
      (card_id : String) (f : Card → Card) (cs : List Card)
      → length (change_card card_id f cs) ≡ length cs
  unfolding change_card
  length-change_card card_id f [] = refl
  length-change_card card_id f (c ∷ cs) = ground (arith, length-change_card card_id f cs)

  -- A move takes the card out of the lane that it was in and puts it into the new one: with it put
  -- back, each lane has as many cards as before. A move to the lane "" is one to the backlog.
  pub move-counts :
      (now : ℕ) (card_id lane actor note at_lane : String) (cs : List Card) (c : Card)
      → find_card card_id cs ≡ some c
      → (after : List Card) × (move_card now card_id lane actor note cs
          ≡ some (after, moved now lane actor note c))
        × (count (λ x. str_eq (lane_of x) at_lane) after
              + (if str_eq (lane_of c) at_lane then 1 else 0)
            ≡ count (λ x. str_eq (lane_of x) at_lane) cs
              + (if str_eq (str_or lane "backlog") at_lane then 1 else 0))
  unfolding move_card moved lane_of
  move-counts now card_id lane actor note at_lane cs c h = (
    change_card card_id (moved now lane actor note) cs,
    rw (h, move_card) refl,
    change_card-count (λ x. str_eq (lane_of x) at_lane) card_id (moved now lane actor note) c cs h,
  )
