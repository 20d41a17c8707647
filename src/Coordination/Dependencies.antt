-- ===== src/Coordination/Dependencies.antt =====
-- core/task_contract.py, `dependency_status_for_task`: which declared dependencies of a task are
-- done, according to the other rows of the ledger.
pub mod Blocked
use tandem_agents.Prelude.{
  String, Bool, true, false, not, ◌&&◌, ◌||◌, Option, none, some, List, [], ◌∷◌, ◌++◌, str_eq,
  if◌then◌else◌, select, any, strip, colons_to_slashes, str_or, lstrip_hash,
}
use tandem_agents.Coordination.Rows.{Dict, get, TaskDict, text, task, repo, Metadata, TaskRow}
use tandem_agents.Coordination.Status.{normalized}

-- metadata.get("task")
unfoldable pub metadata_source : Metadata → Dict
metadata_source [] = []
metadata_source ((k, task t) ∷ m) =
    let rest = metadata_source m in if str_eq k "task" then t.source else rest
metadata_source ((k, text s) ∷ m) = metadata_source m
metadata_source ((k, repo d) ∷ m) = metadata_source m

unfoldable pub task_is_done : TaskRow → Bool
unfolding normalized str_or
task_is_done t =
    let state = normalized (str_or t.state t.status) in
    str_eq state "done" || str_eq state "completed"

text_of : Option String → String
text_of none = ""
text_of (some s) = s

raw_tokens : TaskRow → List String
unfolding metadata_source text_of
raw_tokens t =
    let source = metadata_source t.metadata in
    normalized t.task_key
    ∷ normalized (text_of t.task_id)
    ∷ normalized t.source_ref
    ∷ colons_to_slashes (normalized t.task_key)
    ∷ normalized (get source "card_id")
    ∷ normalized (get source "item")
    ∷ normalized (get source "project_item_id")
    ∷ normalized (get source "issue_number")
    ∷ normalized (get source "url")
    ∷ normalized (get source "item_url")
    ∷ normalized (get source "issue_url")
    ∷ []

-- text.lower().lstrip("#") after `_normalize_text`
unfoldable pub normalize_dependency_token : String → String
unfolding normalized lstrip_hash
normalize_dependency_token value = lstrip_hash (normalized value)

-- "" is dropped, and "#12" is known as "12" too.
cleaned : List String → List String
cleaned [] = []
cleaned (t ∷ ts) =
    let rest = cleaned ts in
    let token = strip t in
    let bare = lstrip_one token in if str_eq token "" then rest else token ∷ (bare ++ rest)
  where
    lstrip_one : String → List String
    lstrip_one String.[] = []
    lstrip_one (String.◌∷◌ c String.[]) = []
    lstrip_one (String.◌∷◌ c (String.◌∷◌ d s)) =
        if str_eq (String.◌∷◌ c "") "#" then String.◌∷◌ d s ∷ [] else []

unfoldable pub task_reference_tokens : TaskRow → List String
unfolding raw_tokens cleaned
task_reference_tokens t = cleaned (raw_tokens t)

-- The candidate stands in `lookup[token]`.
unfoldable pub is_referenced : String → TaskRow → Bool
unfolding task_reference_tokens normalize_dependency_token any
is_referenced token t =
    any (λ r. str_eq (normalize_dependency_token r) token) (task_reference_tokens t)

pub data Reason : Type 0 where
  not_done missing : Reason

pub record DependencyStatus : Type 0 where
  pub declared : List String
  pub resolved : List String
  pub unresolved : List (String × Reason)
  pub blocked : Bool
  pub satisfied : Option Bool
  pub unknown : Bool

unfoldable pub is_resolved : List TaskRow → String → Bool
unfolding is_referenced task_is_done any
is_resolved known d =
    any (λ t. is_referenced (normalize_dependency_token d) t && task_is_done t) known

reason_for : List TaskRow → String → Reason
unfolding is_referenced any
reason_for known d =
    if any (is_referenced (normalize_dependency_token d)) known then not_done else missing

unresolved_of : List TaskRow → List String → List (String × Reason)
unfolding is_resolved reason_for
unresolved_of known [] = []
unresolved_of known (d ∷ ds) =
    let rest = unresolved_of known ds in
    if is_resolved known d then rest else (d, reason_for known d) ∷ rest

is_nil {ℓ} : {A : Type ℓ} → List A → Bool
is_nil [] = true
is_nil (x ∷ xs) = false

unfoldable pub declared_of : TaskDict → List String
unfolding select strip
declared_of t = select (λ d. not (str_eq (strip d) "")) t.dependencies

-- `none` for tasks that are not known at all: the claim passes it when the ledger has no other row.
unfoldable pub dependency_status_for_task : TaskDict → Option (List TaskRow) → DependencyStatus
unfolding declared_of unresolved_of is_resolved is_nil select
dependency_status_for_task t known =
    let declared = declared_of t in
    if is_nil declared
    then record {
      declared = [];
      resolved = [];
      unresolved = [];
      blocked = false;
      satisfied = some true;
      unknown = false;
    }
    else elim known [
      | none ↦ record {
        declared = declared;
        resolved = [];
        unresolved = [];
        blocked = false;
        satisfied = none;
        unknown = true;
      }
      | some tasks ↦
          let unresolved = unresolved_of tasks declared in
          record {
            declared = declared;
            resolved = select (is_resolved tasks) declared;
            unresolved = unresolved;
            blocked = not (is_nil unresolved);
            satisfied = some (is_nil unresolved);
            unknown = false;
          }
    ]
