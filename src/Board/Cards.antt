-- ===== src/Board/Cards.antt =====
-- core/repository/board.py: cards and tasks, task_to_card and card_to_task.
use Prim.Native.String.{◌++◌}
use tandem_agents.Prelude.{
  ℕ, String, ◌≡◌, refl, ap, ◌∙◌, inl, inr, true, Option, none, some, List, [], ◌∷◌, arith, eq_iff,
  if◌then◌else◌, Bool-cases, slugify,
}
use tandem_agents.Verification.Json.{
  field, has-set, Json, Items, Fields, null, text, end, truthy, json_or, has_field, set_field, str,
}

pub record HistoryEntry : Type 0 where
  pub lane : String
  pub at_ms : ℕ
  pub by_actor : String
  pub note : String

-- What a card and a task say of the work. `title` and `description` are `none` where the entry is
-- absent; the other entries read the same absent and null.
pub record Content : Type 0 where
  pub title : Option Json
  pub description : Option Json
  pub project_name : Json
  pub project_column : Json
  pub project_schema : Fields
  pub priority : Json
  pub labels : Items
  pub acceptance_criteria : Items
  pub program_goal : Json
  pub local_goal : Json
  pub in_scope : Items
  pub out_of_scope : Items
  pub dependencies : Items
  pub deliverables : Items
  pub target_files : Items
  pub verification_commands : Items
  pub notes_for_agent : Json
  pub raw_issue_body : Json
  pub task_contract : Fields
  pub subtasks : Items
  pub source : Fields
  pub repo : Fields

-- A card; `lane` is `none` where it is absent, and "" where it is null.
pub record Card : Type 0 where
  pub id : Json
  pub content : Content
  pub lane : Option String
  pub created_at_ms : ℕ
  pub updated_at_ms : ℕ
  pub assigned_run_id : Option String
  pub claimed_by : Option String
  pub history : List HistoryEntry

pub record Task : Type 0 where
  pub card_id : Json
  pub task_id : Json
  pub content : Content
  pub lane : Option String

or_default : Json → Option Json → Option Json
or_default d none = some d
or_default d (some v) = some v

-- d.setdefault(k, v)
unfoldable pub setdefault : String → Json → Fields → Fields
unfolding has_field set_field
setdefault k v d = if has_field k d then d else set_field k v d

-- The content with the defaults of its title and its description.
unfoldable pub with_defaults : Content → Content
unfolding or_default
with_defaults c = record c {
  title = or_default (text "Untitled task") c.title;
  description = or_default (text "") c.description;
}

-- The title of which an id is made; slugify takes texts only.
title_text : (Json → String) → Option Json → String
unfolding str
title_text show none = "task"
title_text show (some v) = str show v

unfoldable pub created_entry : ℕ → String → HistoryEntry
created_entry now lane = record { lane = lane; at_ms = now; by_actor = "aca"; note = "created" }

-- `suffix` is the text that short_id draws.
unfoldable pub task_to_card :
    (Json → String) → ℕ → (suffix : String) → (lane : String) → Task → Card
unfolding json_or with_defaults title_text slugify created_entry
task_to_card show now suffix lane t = record {
  id =
      json_or (json_or t.card_id t.task_id)
        (text (slugify (title_text show t.content.title) ++ "-" ++ suffix));
  content = with_defaults t.content;
  lane = some lane;
  created_at_ms = now;
  updated_at_ms = now;
  assigned_run_id = none;
  claimed_by = none;
  history = created_entry now lane ∷ [];
}

source_with_board : Option String → Fields → Fields
unfolding setdefault
source_with_board none source = source
source_with_board (some path) source =
    setdefault "type" (text "kanban_board") (setdefault "board_path" (text path) source)

unfoldable pub card_to_task : Option String → Card → Task
unfolding or_default setdefault source_with_board
card_to_task board_path c = record {
  card_id = null;
  task_id = c.id;
  content = record c.content {
    title = or_default (text "Untitled task") c.content.title;
    description = or_default (text "") c.content.description;
    source = source_with_board board_path (setdefault "card_id" c.id c.content.source);
  };
  lane = some (elim c.lane [ none ↦ "ready" | some lane ↦ lane ]);
}

has-set_other :
    (k j : String) (v : Json) (d : Fields)
    → has_field k d ≡ true
    → has_field k (set_field j v d) ≡ true
unfolding has_field set_field
has-set_other k j v end h = cc
has-set_other k j v (field i w d) h =
    ground (arith, eq_iff j i, eq_iff k i, eq_iff k j, has-set_other k j v d)

has-setdefault_other :
    (k j : String) (v : Json) (d : Fields)
    → has_field k d ≡ true
    → has_field k (setdefault j v d) ≡ true
unfolding setdefault
has-setdefault_other k j v d h = elim (Bool-cases (has_field j d)) [
  | inl e ↦ rw e h
  | inr e ↦ rw e (has-set_other k j v d h)
]

has-setdefault : (k : String) (v : Json) (d : Fields) → has_field k (setdefault k v d) ≡ true
unfolding setdefault
has-setdefault k v d = elim (Bool-cases (has_field k d)) [
  | inl e ↦ rw (e, e) refl
  | inr e ↦ rw e (has-set k v d)
]

setdefault-present :
    (k : String) (v : Json) (d : Fields) → has_field k d ≡ true → setdefault k v d ≡ d
unfolding setdefault
setdefault-present k v d h = rw h refl

has-source_with_board :
    (k : String) (board_path : Option String) (d : Fields)
    → has_field k d ≡ true
    → has_field k (source_with_board board_path d) ≡ true
unfolding source_with_board
has-source_with_board k none d h = h
has-source_with_board k (some path) d h =
    has-setdefault_other k "type" _ _ (has-setdefault_other k "board_path" _ d h)

source_with_board-again :
    (board_path : Option String) (d : Fields)
    → source_with_board board_path (source_with_board board_path d) ≡ source_with_board board_path d
unfolding source_with_board
source_with_board-again none d = refl
source_with_board-again (some path) d =
    let board = setdefault "board_path" (text path) d in
    let known = setdefault "type" (text "kanban_board") board in
    ap (setdefault "type" (text "kanban_board")) (
      setdefault-present "board_path" (text path) known (
        has-setdefault_other "board_path" "type" (text "kanban_board") board
          (has-setdefault "board_path" (text path) d)))
    ∙ setdefault-present "type" (text "kanban_board") known
        (has-setdefault "type" (text "kanban_board") board)

or_default-again : (d : Json) (o : Option Json) → or_default d (or_default d o) ≡ or_default d o
unfolding or_default
or_default-again d none = refl
or_default-again d (some v) = refl

-- A task that was read from a card with an id, put on the board and read again, is the same task in
-- its new lane, whatever the clock, the drawn suffix and the lane.
pub task-card-task :
    (show : Json → String) (now : ℕ) (suffix lane : String) (board_path : Option String) (c : Card)
    → truthy c.id ≡ true
    → card_to_task board_path (task_to_card show now suffix lane (card_to_task board_path c))
      ≡ record (card_to_task board_path c) { lane = some lane }
unfolding task_to_card card_to_task json_or
task-card-task show now suffix lane board_path c h =
    let source = source_with_board board_path (setdefault "card_id" c.id c.content.source) in
    rw
      (
        h,
        or_default-again (text "Untitled task") c.content.title,
        or_default-again (text "Untitled task") c.content.title,
        or_default-again (text "") c.content.description,
        or_default-again (text "") c.content.description,
        setdefault-present "card_id" c.id source (
            has-source_with_board "card_id" board_path _
              (has-setdefault "card_id" c.id c.content.source)),
        source_with_board-again board_path (setdefault "card_id" c.id c.content.source),
      )
      refl
