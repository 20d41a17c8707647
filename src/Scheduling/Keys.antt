-- ===== src/Scheduling/Keys.antt =====
-- core/scheduling/scheduler.py: task_project_key, task_repo_key and task_file_scopes, from which the
-- plan gets the keys and scopes of a task.
pub mod Scopes
use Prim.Native.String.{◌++◌}
use mathlib.Core.List.{◌++◌ as append}
use tandem_agents.Prelude.{
  ℕ, zero, suc, ◌+◌, ◌-◌, ◌*◌, ◌/◌, ◌≤◌, ◌<◌, min, max, String, ◌≡◌, refl, sym, ap, ◌∙◌, ◌≢◌, ◌↔◌,
  ◌⊎◌, inl, inr, Bool, true, false, not, ◌&&◌, ◌||◌, Option, none, some, List, [], ◌∷◌, map, arith,
  str_eq, eq_iff, eq_refl, ltb, leb, ◌==◌, if◌then◌else◌, or_else, Bool-cases, Option-cases, length,
  take, All, All-map, All-append, All-take, length-append, length-take-le, select, fetch_one, count,
  any, update_where, upsert, order_desc, order_asc, count-update_le, count-update_keep,
  count-update_add, count-append_one, count-zero_of_any, count-zero_of_fetch, fetch_one-holds,
  count_mono, All-update, update-none, All-select, select-holds, All-update_to, select-covers,
  count-zero_of_select, nil_of_order_desc, fetch_one-update, fetch_one-upsert, count-and_le,
  count-pos_of_fetch, count-update_none, fetch_one-update_key, strip, lower, colons_to_slashes,
  str_or, lstrip_hash, prefix, slugify, length-order_asc, All-order_asc, length-select, length-take,
  length-map, All-of_map, All-always, All-update_set, All-select_to, not_other, and_left, and_right,
  true-false, All-of_fetch_none, any-order_asc, All-any, All-of_key, All-order_desc, All-both,
  count-none,
}
use tandem_agents.Coordination.Rows.{Dict, get}
use tandem_agents.Coordination.TaskKey.{nonempty}
use tandem_agents.Scheduling.Admission.{Task, Scope, is_nil}
use tandem_agents.Scheduling.Paths.{normalize_repo_relative_path, parts}

-- A task of the ledger: its scalar entries, the dictionaries under `repo` and `source` of the task
-- and of its `metadata.task`, and for the task, its metadata and its `metadata.task` the paths under
-- `files` and `target_files`.
pub record LedgerTask : Type 0 where
  pub fields : Dict
  pub repo : Dict
  pub source : Dict
  pub source_repo : Dict
  pub source_source : Dict
  pub paths : List (List String)

-- `task.get(…) or source_task.get(…) or {}`
unfoldable pub dict_or : Dict → Dict → Dict
unfolding is_nil
dict_or a b = if is_nil a then b else a

unfoldable pub project_name : Dict → String
unfolding nonempty
project_name source = str_or (nonempty source "project") (nonempty source "project_name")

-- The key by the source alone, "" where it names none.
unfoldable pub source_key : String → Dict → Dict → String
unfolding project_name nonempty
source_key source_type source fields =
    let owner = nonempty source "owner" in
    let team = nonempty source "team" in
    let project = project_name source in
    let path = str_or (nonempty source "board_path") (nonempty source "path") in
    let name = str_or (nonempty source "source_name") (nonempty fields "project_name") in
    if str_eq source_type "github_project" && not (str_eq owner "" && str_eq project "")
    then strip ("github_project:" ++ owner ++ "/" ++ project)
    else if str_eq source_type "linear" && not (str_eq team "" && str_eq project "")
    then strip ("linear:" ++ team ++ "/" ++ str_or project "issues")
    else if (str_eq source_type "kanban_board" || str_eq source_type "local_backlog")
        && not (str_eq path "")
    then source_type ++ ":" ++ path
    else if (str_eq source_type "manual" || str_eq source_type "custom") && not (str_eq name "")
    then source_type ++ ":" ++ name
    else ""

unfoldable pub repo_slug : LedgerTask → String
unfolding dict_or nonempty
repo_slug t =
    str_or (nonempty (dict_or t.repo t.source_repo) "slug") (nonempty t.fields "repo_slug")

unfoldable pub task_project_key : LedgerTask → String
unfolding dict_or nonempty source_key repo_slug
task_project_key t =
    let source = dict_or t.source t.source_source in
    let source_type =
      str_or (str_or (nonempty source "type") (nonempty t.fields "source_type")) "unknown" in
    let source_ref =
      str_or (str_or (nonempty t.fields "source_ref") (nonempty source "item"))
        (nonempty source "url") in
    let by_repo =
      if str_eq (repo_slug t) ""
      then source_type ++ ":" ++ str_or (str_or source_ref (nonempty t.fields "task_key")) "task"
      else source_type ++ ":" ++ repo_slug t in
    str_or (source_key source_type source t.fields) by_repo

unfoldable pub task_repo_key : LedgerTask → String
unfolding dict_or nonempty repo_slug
task_repo_key t =
    let path =
      str_or (nonempty (dict_or t.repo t.source_repo) "path") (nonempty t.fields "repo_path") in
    let source = dict_or t.source t.source_source in
    let by_source = str_or (nonempty source "repo_name") (nonempty source "repo") in
    str_or (str_or (repo_slug t) path)
      (str_or (str_or by_source (nonempty t.fields "task_key")) "repo")

unfoldable pub same_scope : Scope → Scope → Bool
same_scope [] [] = true
same_scope [] (y ∷ ys) = false
same_scope (x ∷ xs) [] = false
same_scope (x ∷ xs) (y ∷ ys) = str_eq x y && same_scope xs ys

-- The loop over the paths of one container: a path without components and one that was seen are
-- passed over.
unfoldable pub collect : List String → List Scope → List Scope
unfolding normalize_repo_relative_path parts is_nil same_scope
collect [] scopes = scopes
collect (raw ∷ rest) scopes =
    let scope = parts (normalize_repo_relative_path raw) in
    collect rest
      (if is_nil scope || any (same_scope scope) scopes then scopes else append scopes (scope ∷ []))

unfoldable pub collect_all : List (List String) → List Scope → List Scope
unfolding collect
collect_all [] scopes = scopes
collect_all (paths ∷ rest) scopes = collect_all rest (collect paths scopes)

unfoldable pub task_file_scopes : LedgerTask → List Scope
unfolding collect_all
task_file_scopes t = collect_all t.paths []

-- The task as the plan sees it.
unfoldable pub planned_task : LedgerTask → Task
unfolding task_project_key task_repo_key task_file_scopes nonempty
planned_task t = record {
  task_key = nonempty t.fields "task_key";
  project_key = task_project_key t;
  repo_key = task_repo_key t;
  scopes = task_file_scopes t;
}
