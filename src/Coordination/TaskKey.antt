-- ===== src/Coordination/TaskKey.antt =====
-- core/coordination/tasks.py, `_task_key` and `_task_payload`: the key under which the ledger files
-- a task, and the columns of its row.
use Prim.Native.String.{◌++◌}
use tandem_agents.Prelude.{
  String, Option, none, some, [], ◌∷◌, str_eq, if◌then◌else◌, strip, str_or, slugify,
}
use tandem_agents.Coordination.Rows.{Dict, get, TaskDict, task, repo}
use tandem_agents.Coordination.Tasks.{Payload}

unfoldable pub nonempty : Dict → String → String
unfolding get
nonempty d k = strip (get d k)

title_slug : TaskDict → String
title_slug t = slugify (get t.fields "title")

unfoldable pub source_type_of : TaskDict → String
unfolding nonempty
source_type_of t = str_or (nonempty t.source "type") "unknown"

task_id_of : TaskDict → String
unfolding nonempty
task_id_of t = str_or (nonempty t.fields "task_id") (
    str_or (nonempty t.source "card_id")
      (str_or (nonempty t.source "item") (nonempty t.source "project_item_id")))

-- The `ref` of `_task_key`, by the type of the source.
unfoldable pub source_ref_of : TaskDict → String
unfolding title_slug task_id_of source_type_of
source_ref_of t =
    let source = t.source in
    let id_or_title = str_or (task_id_of t) (title_slug t) in
    let kind = source_type_of t in
    if str_eq kind "github_project"
    then nonempty source "owner"
      ++ "/"
      ++ nonempty source "project"
      ++ ":"
      ++ str_or (str_or (nonempty source "project_item_id") (nonempty source "item_id"))
          (str_or (nonempty source "issue_number") id_or_title)
    else if str_eq kind "linear"
    then nonempty source "team"
      ++ "/"
      ++ str_or (str_or (nonempty source "project") (nonempty source "project_name")) "issues"
      ++ ":"
      ++ str_or (str_or (nonempty source "issue_id") (nonempty source "identifier")) id_or_title
    else if str_eq kind "kanban_board"
    then str_or (nonempty source "board_path") (nonempty source "path") ++ ":" ++ id_or_title
    else if str_eq kind "local_backlog"
    then nonempty source "path" ++ ":" ++ id_or_title
    else if str_eq kind "manual"
    then "manual:"
      ++ slugify (str_or (nonempty source "prompt") (get t.fields "title"))
      ++ ":"
      ++ id_or_title
    else kind ++ ":" ++ str_or (nonempty source "source_name") id_or_title

unfoldable pub task_key_of : TaskDict → String
unfolding source_ref_of
task_key_of t = source_type_of t ++ ":" ++ source_ref_of t

or_null : String → Option String
or_null s = if str_eq s "" then none else some s

unfoldable pub task_payload : TaskDict → Dict → Payload
unfolding task_key_of or_null
task_payload t r = record {
  task_key = task_key_of t;
  task_id = or_null (nonempty t.fields "task_id");
  source_type = source_type_of t;
  source_ref = source_ref_of t;
  title = str_or (nonempty t.fields "title") "Untitled task";
  repo_slug = str_or (nonempty t.repo "slug") (nonempty r "slug");
  repo_path = str_or (nonempty t.repo "path") (nonempty r "path");
  board_path = nonempty t.source "board_path";
  metadata = ("task", task t) ∷ ("repo", repo r) ∷ [];
}
