-- ===== src/Samples/Gates.antt =====
-- Two queued tasks of which one depends on work that is not done.
use tandem_agents.Prelude.{
  ◌+◌, String, ◌≡◌, refl, Bool, true, false, ◌&&◌, none, some, List, [], ◌∷◌, str_eq, length, All,
  count, any,
}
use tandem_agents.Scheduling.Admission.{Config}
use tandem_agents.Scheduling.Triage.{Issue, TriageConfig}
use tandem_agents.Scheduling.Gates.{Candidate, Surroundings, planned, plan_with_gates}
use tandem_agents.Scheduling.Admission.Conservation.{waiting_of}
use tandem_agents.Scheduling.Gates.Passing.{may_start, admitted_may_start, gated_plan-conserves}

abbrev plan_config : Config
plan_config = record {
  max_active_tasks = 3;
  max_concurrent_worker_runs = 3;
  max_active_tasks_per_project = 2;
  max_active_tasks_per_repo = 3;
}

abbrev issue_of : String → String → Issue
issue_of key title = record {
  task_key = key;
  task_id = key;
  title = title;
  description = "";
  raw_issue_body = "";
  labels = "bug" ∷ [];
  source_labels = [];
  contract_criteria = none;
  criteria = none;
  source_type = "github";
}

abbrev candidate_of : String → Bool → Candidate
candidate_of key is_blocked = record {
  ledger = record {
    fields = ("task_key", key) ∷ [];
    repo = ("slug", "acme/app") ∷ [];
    source = [];
    source_repo = [];
    source_source = [];
    paths = (key ∷ []) ∷ [];
  };
  issue = issue_of key "Fix the crash";
  dependency_blocked = is_blocked;
}

abbrev triage : TriageConfig
triage = record { enabled = true; enforce = true; allowed_classes = "" }

abbrev surroundings : Surroundings
surroundings = record { triage = triage; linear_blocker = some "offline"; coder_runs = [] }

abbrev candidates : List Candidate
candidates = candidate_of "t-1" false ∷ candidate_of "t-2" true ∷ []

one_admitted :
    length (plan_with_gates plan_config surroundings (λ n. 100) [] candidates []).1.admitted ≡ 1
unfolding plan_with_gates planned
one_admitted = refl

admitted_may_start_example :
    All
      (λ e.
        any
          (λ c. str_eq (planned c).task_key e.task.task_key && may_start surroundings c)
          candidates
        ≡ true)
      (plan_with_gates plan_config surroundings (λ n. 100) [] candidates []).1.admitted
admitted_may_start_example = admitted_may_start plan_config surroundings (λ n. 100) [] candidates []

-- The task of the first candidate is there once.
gated_plan-conserves_example :
    let o = plan_with_gates plan_config surroundings (λ n. 100) [] candidates [] in
    count (λ w. str_eq (planned w.0).task_key "t-1") o.0.withheld
      + count (λ e. str_eq e.task.task_key "t-1") o.1.admitted
      + count (λ b. str_eq b.0.task.task_key "t-1") o.1.blocked
      + waiting_of (λ t. str_eq t.task_key "t-1") o.2
    ≡ count (λ c. str_eq (planned c).task_key "t-1") candidates
gated_plan-conserves_example =
    gated_plan-conserves (λ t. str_eq t.task_key "t-1") plan_config surroundings (λ n. 100) []
      candidates []
