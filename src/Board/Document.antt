-- ===== src/Board/Document.antt =====
-- core/repository/board.py: the document of a board, default_board, load_board and
-- ensure_board_template.
use tandem_agents.Prelude.{ℕ, String, ◌≡◌, refl, Option, none, some, List, [], ◌∷◌}
use tandem_agents.Board.Cards.{Card}

pub record Meta : Type 0 where
  pub id : Option String
  pub name : Option String
  pub columns : Option (List String)
  pub created_at_ms : Option ℕ
  pub updated_at_ms : Option ℕ

-- A board in memory; `cards` is `none` where the document has null there.
pub record Board : Type 0 where
  pub meta : Meta
  pub cards : Option (List Card)

-- An entry of a loaded mapping that may be absent or null.
pub data Entry {ℓ} (A : Type ℓ) : Type ℓ where
  absent : Entry A
  empty : Entry A
  present : A → Entry A

-- What load_yaml gives: a list, or a mapping with its entries `board` and `cards`.
pub data Loaded : Type 0 where
  sequence : List Card → Loaded
  mapping : Entry Meta → Entry (List Card) → Loaded

abbrev pub board_columns : List String
board_columns = "backlog" ∷ "ready" ∷ "in_progress" ∷ "review" ∷ "test" ∷ "blocked" ∷ "done" ∷ []

unfoldable pub new_meta : ℕ → String → String → Meta
new_meta now name id = record {
  id = some id;
  name = some name;
  columns = some board_columns;
  created_at_ms = some now;
  updated_at_ms = some now;
}

unfoldable pub default_board : ℕ → String → String → Board
unfolding new_meta
default_board now name id = record { meta = new_meta now name id; cards = some [] }

unfoldable pub default_to {ℓ} : {A : Type ℓ} → A → Option A → Option A
default_to d none = some d
default_to d (some a) = some a

abbrev empty_meta : Meta
empty_meta = record {
  id = none;
  name = none;
  columns = none;
  created_at_ms = none;
  updated_at_ms = none;
}

-- The defaults that load_board sets in the entry `board`.
unfoldable pub with_meta_defaults : ℕ → Meta → Meta
unfolding default_to
with_meta_defaults now m = record m {
  columns = default_to board_columns m.columns;
  created_at_ms = default_to now m.created_at_ms;
  updated_at_ms = default_to now m.updated_at_ms;
}

cards_of : Entry (List Card) → Option (List Card)
cards_of absent = some []
cards_of empty = none
cards_of (present cs) = some cs

-- load_board, where the file exists (`none` where it does not). It has no result where an entry
-- `board` that is null is used as a dictionary.
unfoldable pub load_board : ℕ → Option Loaded → Option Board
unfolding default_board new_meta with_meta_defaults cards_of
load_board now none = some (default_board now "ACA Kanban" "aca-main")
load_board now (some (sequence cs)) =
    some (record { meta = new_meta now "ACA Kanban" "aca-main"; cards = some cs })
load_board now (some (mapping absent cards)) =
    some (record { meta = new_meta now "ACA Kanban" "aca-main"; cards = some [] })
load_board now (some (mapping empty cards)) = none
load_board now (some (mapping (present m) cards)) =
    some (record { meta = with_meta_defaults now m; cards = cards_of cards })

-- What ensure_board_template does with the board that was loaded, and saves.
unfoldable pub with_template : ℕ → String → Board → Board
unfolding default_to
with_template now name b = record {
  meta = record b.meta {
    id = default_to "aca-main" b.meta.id;
    name = default_to name b.meta.name;
    columns = default_to board_columns b.meta.columns;
    created_at_ms = default_to now b.meta.created_at_ms;
    updated_at_ms = some now;
  };
  cards = default_to [] b.cards;
}

unfoldable pub ensure_board_template : ℕ → String → Option Loaded → Option Board
unfolding load_board with_template
ensure_board_template now name file = elim (load_board now file) [
  | none ↦ none
  | some b ↦ some (with_template now name b)
]

entry_of : Option (List Card) → Entry (List Card)
entry_of none = empty
entry_of (some cs) = present cs

-- The document that save_board writes.
unfoldable pub saved : ℕ → Board → Loaded
unfolding entry_of
saved now b = mapping (present (record b.meta { updated_at_ms = some now })) (entry_of b.cards)

cards-entry : (o : Option (List Card)) → cards_of (entry_of o) ≡ o
unfolding cards_of entry_of
cards-entry none = refl
cards-entry (some cs) = refl

-- A board that was saved is loaded again with its cards and its data, but for the time of the
-- update, and with the defaults for what it lacks.
pub load-saved :
    (now later : ℕ) (b : Board)
    → load_board later (some (saved now b))
      ≡ some (record b {
        meta = with_meta_defaults later (record b.meta { updated_at_ms = some now });
      })
unfolding load_board saved
load-saved now later b = rw (cards-entry b.cards) refl
