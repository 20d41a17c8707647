-- ===== src/Coordination/Rows.antt =====
-- core/coordination/schema.py: the tables, a record for each row and one for the whole store.
-- A nullable column is an `Option`, a timestamp a number of milliseconds.
use tandem_agents.Prelude.{
  ℕ, suc, String, Bool, false, Option, none, some, List, [], ◌∷◌, str_eq, max, if◌then◌else◌,
}

-- A JSON object with scalar entries, each as its text; an absent or null entry reads as "".
abbrev pub Dict : Type 0
Dict = List (String × String)

unfoldable pub get : Dict → String → String
get [] k = ""
get ((j, v) ∷ d) k = let rest = get d k in if str_eq j k then v else rest

-- A task as the intake hands it over. `dependencies` is that entry of its contract
-- (`task_contract_payload`).
pub record TaskDict : Type 0 where
  pub fields : Dict
  pub source : Dict
  pub repo : Dict
  pub dependencies : List String

-- The entries of `metadata_json` that the store writes.
pub data Entry : Type 0 where
  text : String → Entry
  task : TaskDict → Entry
  repo : Dict → Entry

abbrev pub Metadata : Type 0
Metadata = List (String × Entry)

pub record TaskRow : Type 0 where
  pub task_key : String
  pub task_id : Option String
  pub source_type : String
  pub source_ref : String
  pub title : String
  pub repo_slug : String
  pub repo_path : String
  pub board_path : String
  pub status : String
  pub state : String
  pub claimed_run_id : Option String
  pub claimed_lease_id : Option String
  pub claimed_by : Option String
  pub claimed_host_id : Option String
  pub lease_expires_at_ms : Option ℕ
  pub created_at_ms : ℕ
  pub updated_at_ms : ℕ
  pub metadata : Metadata

pub record RunRow : Type 0 where
  pub run_id : String
  pub task_key : String
  pub task_id : Option String
  pub repo_slug : String
  pub repo_path : String
  pub branch_name : Option String
  pub status : String
  pub phase : String
  pub worker_id : String
  pub host_id : String
  pub lease_id : Option String
  pub created_at_ms : ℕ
  pub updated_at_ms : ℕ
  pub started_at_ms : Option ℕ
  pub completed_at_ms : Option ℕ
  pub error : Option String
  pub metadata : Metadata

pub record WorkerRow : Type 0 where
  pub worker_id : String
  pub host_id : String
  pub role : String
  pub status : String
  pub capabilities : Dict
  pub current_run_id : Option String
  pub current_lease_id : Option String
  pub last_seen_at_ms : ℕ
  pub created_at_ms : ℕ
  pub updated_at_ms : ℕ

pub record LeaseRow : Type 0 where
  pub lease_id : String
  pub task_key : String
  pub task_id : Option String
  pub run_id : String
  pub worker_id : String
  pub host_id : String
  pub role : String
  pub status : String
  pub attempt : ℕ
  pub acquired_at_ms : ℕ
  pub heartbeat_at_ms : ℕ
  pub expires_at_ms : ℕ
  pub released_at_ms : Option ℕ
  pub release_reason : Option String
  pub metadata : Metadata

pub record OutboxRow : Type 0 where
  pub id : ℕ
  pub kind : String
  pub aggregate_type : String
  pub aggregate_id : String
  pub payload : Dict
  pub status : String
  pub attempts : ℕ
  pub next_attempt_at_ms : ℕ
  pub last_error : Option String
  pub created_at_ms : ℕ
  pub updated_at_ms : ℕ
  pub dedupe_key : Option String

pub record ApprovalRow : Type 0 where
  pub id : ℕ
  pub approval_id : String
  pub run_id : String
  pub task_id : String
  pub source_type : String
  pub adapter : String
  pub action_type : String
  pub target : Dict
  pub payload : Dict
  pub risk_level : String
  pub verification_marker : String
  pub status : String
  pub requested_by : String
  pub decided_by : Option String
  pub decision_reason : Option String
  pub result : Dict
  pub error : Option String
  pub created_at_ms : ℕ
  pub updated_at_ms : ℕ
  pub decided_at_ms : Option ℕ
  pub executed_at_ms : Option ℕ
  pub expires_at_ms : Option ℕ
  pub dedupe_key : Option String

-- The tables that the lease protocol reads and writes in one transaction.
pub record Store : Type 0 where
  pub tasks : List TaskRow
  pub runs : List RunRow
  pub workers : List WorkerRow
  pub leases : List LeaseRow

-- The key that AUTOINCREMENT gives to the next row.
unfoldable pub next_id {ℓ} : {A : Type ℓ} → (A → ℕ) → List A → ℕ
next_id key [] = 1
next_id key (x ∷ xs) = max (suc (key x)) (next_id key xs)

-- `column = ?` where either side may be NULL, which equals nothing.
unfoldable pub column_eq : Option String → Option String → Bool
column_eq (some a) (some b) = str_eq a b
column_eq (some a) none = false
column_eq none _ = false

-- COALESCE(?, column)
unfoldable pub coalesce {ℓ} : {A : Type ℓ} → Option A → Option A → Option A
coalesce none b = b
coalesce (some a) b = some a
