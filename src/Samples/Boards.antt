-- ===== src/Samples/Boards.antt =====
-- A board with one task, which is claimed and moved.
use tandem_agents.Prelude.{String, ◌≡◌, refl, none, some, List, [], ◌∷◌, All}
use tandem_agents.Verification.Json.{Json, text, null, nil, end, truthy}
use tandem_agents.Board.Cards.{Content, Card, Task, task_to_card, card_to_task, task-card-task}
use tandem_agents.Board.Traces.{
  BoardStep, put, claim, move, last_lane, board_after, cards_are_traced,
}
use tandem_agents.Board.LaneMap.{lane_map, map_after, board-refines}

abbrev show : Json → String
show v = "..."

abbrev content : Content
content = record {
  title = some (text "Fix the build");
  description = none;
  project_name = null;
  project_column = null;
  project_schema = end;
  priority = text "high";
  labels = nil;
  acceptance_criteria = nil;
  program_goal = null;
  local_goal = null;
  in_scope = nil;
  out_of_scope = nil;
  dependencies = nil;
  deliverables = nil;
  target_files = nil;
  verification_commands = nil;
  notes_for_agent = null;
  raw_issue_body = null;
  task_contract = end;
  subtasks = nil;
  source = end;
  repo = end;
}

abbrev card : Card
card = record {
  id = text "card-1";
  content = content;
  lane = some "backlog";
  created_at_ms = 100;
  updated_at_ms = 100;
  assigned_run_id = none;
  claimed_by = none;
  history = [];
}

abbrev board_task : Task
board_task = record { card_id = text "card-1"; task_id = null; content = content; lane = none }

-- The last step is for a card that is not there.
abbrev steps : List BoardStep
steps =
    put 100 "a1" "backlog" board_task
    ∷ claim 200 "card-1" "run-1" "builder"
    ∷ move 300 "card-1" "review" "builder" "done"
    ∷ move 400 "card-9" "review" "builder" "lost"
    ∷ []

task-card-task_example :
    card_to_task
      (some "board.json")
      (task_to_card show 200 "b2" "review" (card_to_task (some "board.json") card))
    ≡ record (card_to_task (some "board.json") card) { lane = some "review" }
unfolding truthy
task-card-task_example = task-card-task show 200 "b2" "review" (some "board.json") card refl

board-refines_example :
    lane_map show (board_after show steps []) ≡ map_after show steps (lane_map show [])
board-refines_example = board-refines show steps []

cards_are_traced_example : All (λ c. last_lane c.history ≡ c.lane) (board_after show steps [])
cards_are_traced_example = cards_are_traced show steps
