-- ===== src/Samples/Plans.antt =====
-- A plan with a subtask outside the scope of its task.
use tandem_agents.Prelude.{String, ◌≡◌, refl, false, some, any, strip}
use tandem_agents.Verification.Json.{Json, Items, null, text, array, object, nil, cons, end, field}
use tandem_agents.Contracts.Paths.{normalize_repo_relative_path}
use tandem_agents.Contracts.Validation.{
  scopes_of, Contract, Validation, conflicts, plan_issues, task_plan_validation,
}
use tandem_agents.Contracts.Plans.{all_sound, plan_ok_exactly}

quoted_path : normalize_repo_relative_path "see `./src/app.py` first" ≡ "src/app.py"
unfolding normalize_repo_relative_path strip
quoted_path = refl

bare_path : normalize_repo_relative_path "edit src//x ./docs/a.md now" ≡ "docs/a.md"
unfolding normalize_repo_relative_path strip
bare_path = refl

abbrev show : Json → String
show v = "..."

abbrev contract : Contract
contract = record {
  program_goal = null;
  local_goal = text "Fix the build";
  acceptance_criteria = null;
  target_files = array (cons (text "src/app.py") nil);
  deliverables = null;
  verification_commands = null;
  subtasks = null;
  out_of_scope = cons (text "infra/") (cons (text "`docs`") nil);
}

-- An entry that ends in a slash keeps it, and no file lies below it then.
slash_kept : conflicts show (scopes_of show contract.out_of_scope) "infra/main.tf" ≡ false
unfolding conflicts scopes_of normalize_repo_relative_path strip any
slash_kept = refl

abbrev subtask : String → String → Json
subtask title file = object (
    field "title" (text title)
      (field "files" (array (cons (text file) nil)) (field "acceptance" (text "tests pass") end)))

abbrev plan : Items
plan = cons (subtask "Edit" "src/app.py") (cons (subtask "Write" "docs/a.md") nil)

validated : (v : Validation) × (task_plan_validation show contract plan ≡ some v)
unfolding task_plan_validation plan_issues
validated = (_, refl)

not_accepted : validated.0.ok ≡ false
unfolding validated conflicts normalize_repo_relative_path
not_accepted = refl

plan_ok_exactly_example : validated.0.ok ≡ all_sound show contract 1 plan
plan_ok_exactly_example = plan_ok_exactly show contract plan validated.0 validated.1
