-- ===== src/Verification/RepoTruth.antt =====
-- core/repository/repo_truth.py: run_command_checks, deterministic_repo_validation and the blockers
-- that a failed validation raises. The file system and the shell are arguments.
use Prim.Native.String.{◌++◌}
use mathlib.Core.List.{◌++◌ as append}
use tandem_agents.Prelude.{
  ℕ, zero, suc, ◌+◌, ◌≤◌, min, max, String, ◌≡◌, refl, inl, inr, Bool, true, false, not, ◌&&◌,
  Option, none, some, List, [], ◌∷◌, arith, str_eq, if◌then◌else◌, Bool-cases, All, All-append,
  select, strip, join_with,
}

pub record Check : Type 0 where
  pub command : String
  pub status : String
  pub attempt_count : ℕ

-- An absent entry of the dictionary is an empty list, or false.
pub record RepoValidation : Type 0 where
  pub verification_missing : Bool
  pub unexpected_files : List String
  pub present_files : List String
  pub checked_files : List String
  pub missing_files : List String
  pub unreadable_files : List String
  pub command_checks : List Check
  pub command_failures : List Check
  pub ok : Bool

abbrev pub no_validation : RepoValidation
no_validation = record {
  verification_missing = false;
  unexpected_files = [];
  present_files = [];
  checked_files = [];
  missing_files = [];
  unreadable_files = [];
  command_checks = [];
  command_failures = [];
  ok = false;
}

-- The number that ACA_COMMAND_CHECK_ATTEMPTS gives, if it is one; a negative number as 0.
unfoldable pub command_check_attempt_count : Option ℕ → ℕ
command_check_attempt_count none = 2
command_check_attempt_count (some n) = max 1 (min 5 n)

-- The attempts that are left, from the one with this number: up to the first that passes.
-- `passes n` says that the shell ends with code 0 at attempt n.
unfoldable pub attempt_command :
    (ℕ → Bool) → (left attempt : ℕ) → String → Option Check → Option Check
attempt_command passes zero attempt command last = last
attempt_command passes (suc left) attempt command last =
    let passed : Option Check =
      some (record { command = command; status = "pass"; attempt_count = attempt }) in
    let next =
      attempt_command passes left (suc attempt) command
        (some (record { command = command; status = "fail"; attempt_count = attempt })) in
    if passes attempt then passed else next

add_check : Option Check → List Check → List Check
add_check none rest = rest
add_check (some c) rest = c ∷ rest

unfoldable pub run_command_checks : (String → ℕ → Bool) → (attempts : ℕ) → List String → List Check
unfolding attempt_command add_check
run_command_checks passes attempts [] = []
run_command_checks passes attempts (c ∷ cs) =
    add_check (attempt_command (passes c) attempts 1 c none) (run_command_checks passes attempts cs)

unfoldable pub is_failure : Check → Bool
is_failure c = not (str_eq c.status "pass")

is_empty {ℓ} : {A : Type ℓ} → List A → Bool
is_empty [] = true
is_empty (x ∷ xs) = false

-- A file of the work tree that a task expects.
pub record Tree : Type 0 where
  pub is_file : String → Bool
  pub is_readable : String → Bool

unfoldable pub deterministic_repo_validation :
    Tree
    → (String → ℕ → Bool)
    → (attempts : ℕ) → (expected_files commands : List String) → RepoValidation
unfolding select run_command_checks is_failure is_empty
deterministic_repo_validation tree passes attempts expected commands =
    let present = select tree.is_file expected in
    let missing = select (λ f. not (tree.is_file f)) expected in
    let unreadable = select (λ f. not (tree.is_readable f)) present in
    let results = run_command_checks passes attempts commands in
    let failures = select is_failure results in
    record {
      verification_missing = false;
      unexpected_files = [];
      present_files = present;
      checked_files = select tree.is_readable present;
      missing_files = missing;
      unreadable_files = unreadable;
      command_checks = results;
      command_failures = failures;
      ok = is_empty missing && is_empty unreadable && is_empty failures;
    }

failure_message : List Check → Option String
failure_message [] = none
failure_message (c ∷ cs) = some ("Repository validation command failed: " ++ strip c.command)

-- The message of the first list that is not empty.
files_message : String → List String → Option String → Option String
files_message label [] next = next
files_message label (f ∷ fs) next = some (label ++ join_with ", " (f ∷ fs))

unfoldable pub repo_validation_blocker_message : RepoValidation → Option String
unfolding files_message failure_message join_with
repo_validation_blocker_message v =
    if v.verification_missing
    then some "Verification commands are missing."
    else files_message "Unexpected repository files changed: " v.unexpected_files (
        files_message "Expected repository files are missing: " v.missing_files (
          files_message "Expected repository files are unreadable: " v.unreadable_files
            (failure_message v.command_failures)))

unfoldable pub repo_validation_blocker_kind : RepoValidation → Option String
unfolding is_empty
repo_validation_blocker_kind v =
    if v.verification_missing
    then some "verification_missing"
    else if not (is_empty v.unexpected_files)
    then some "unexpected_repo_changes"
    else if not (is_empty v.missing_files)
    then some "expected_files_missing"
    else if not (is_empty v.unreadable_files)
    then some "expected_files_unreadable"
    else if not (is_empty v.command_failures)
    then some "verification_failed"
    else none

unfoldable pub is_some {ℓ} : {A : Type ℓ} → Option A → Bool
is_some none = false
is_some (some a) = true

files_message-is_some :
    (label : String) (fs : List String) (next : Option String)
    → is_some (files_message label fs next) ≡ not (is_empty fs && not (is_some next))
unfolding files_message is_empty is_some
files_message-is_some label [] none = refl
files_message-is_some label [] (some m) = refl
files_message-is_some label (f ∷ fs) next = refl

failure_message-is_some : (cs : List Check) → is_some (failure_message cs) ≡ not (is_empty cs)
unfolding failure_message is_empty is_some
failure_message-is_some [] = refl
failure_message-is_some (c ∷ cs) = refl

files_blocker-is_some :
    (unexpected missing unreadable : List String) (failures : List Check)
    → is_some (
        files_message "Unexpected repository files changed: " unexpected (
          files_message "Expected repository files are missing: " missing (
            files_message "Expected repository files are unreadable: " unreadable
              (failure_message failures))))
      ≡ not (is_empty unexpected && is_empty missing && is_empty unreadable && is_empty failures)
files_blocker-is_some unexpected missing unreadable failures =
    let d = failure_message failures in
    let c = files_message "Expected repository files are unreadable: " unreadable d in
    let b = files_message "Expected repository files are missing: " missing c in
    ground (
      arith,
      files_message-is_some "Unexpected repository files changed: " unexpected b,
      files_message-is_some "Expected repository files are missing: " missing c,
      files_message-is_some "Expected repository files are unreadable: " unreadable d,
      failure_message-is_some failures,
    )

-- A validation has a kind of blocker exactly when it has a message for it.
pub blocker_kind-message :
    (v : RepoValidation)
    → is_some (repo_validation_blocker_kind v) ≡ is_some (repo_validation_blocker_message v)
unfolding repo_validation_blocker_kind repo_validation_blocker_message is_some
blocker_kind-message v = ground (
  arith,
  files_blocker-is_some v.unexpected_files v.missing_files v.unreadable_files v.command_failures,
)

-- The deterministic validation is fine exactly when it has nothing to block the run with.
pub validation_ok :
    (tree : Tree) (passes : String → ℕ → Bool) (attempts : ℕ) (expected commands : List String)
    → (deterministic_repo_validation tree passes attempts expected commands).ok
      ≡ not (
          is_some (
            repo_validation_blocker_message
              (deterministic_repo_validation tree passes attempts expected commands)))
unfolding deterministic_repo_validation repo_validation_blocker_message is_empty is_some
validation_ok tree passes attempts expected commands =
    let present = select tree.is_file expected in
    ground (
      arith,
      files_blocker-is_some [] (select (λ f. not (tree.is_file f)) expected)
          (select (λ f. not (tree.is_readable f)) present)
          (select is_failure (run_command_checks passes attempts commands)),
    )

-- A check tells of an attempt that was made, and of how it ended.
abbrev pub IsHonest : (String → ℕ → Bool) → ℕ → Check → Type 0
IsHonest passes attempts c =
    (passes c.command c.attempt_count ≡ not (is_failure c)) × (c.attempt_count ≤ attempts)

attempt-IsHonest :
    (passes : String → ℕ → Bool) (attempts left attempt : ℕ) (command : String)
    (last : Option Check)
    → left + attempt ≤ suc attempts
    → All (IsHonest passes attempts) (add_check last [])
    → All
        (IsHonest passes attempts)
        (add_check (attempt_command (passes command) left attempt command last) [])
unfolding attempt_command add_check
attempt-IsHonest passes attempts zero attempt command last h k = k
attempt-IsHonest passes attempts (suc left) attempt command last h k =
    elim (Bool-cases (passes command attempt)) [
      | inl e ↦ rw e ((unfold is_failure in e, omega arith), tt)
      | inr e ↦ rw e (
          attempt-IsHonest passes attempts left (suc attempt) command _ (omega arith)
            ((unfold is_failure in e, omega arith), tt))
    ]

add_check-append :
    (c : Option Check) (cs : List Check) → add_check c cs ≡ append (add_check c []) cs
unfolding add_check
add_check-append none cs = refl
add_check-append (some c) cs = refl

-- Each result of `run_command_checks` names an attempt, at most the last one allowed, and it is
-- a pass exactly when the command passed at that attempt.
pub checks_are_honest :
    (passes : String → ℕ → Bool) (attempts : ℕ) (commands : List String)
    → All
        (λ c.
          (passes c.command c.attempt_count ≡ not (is_failure c)) × (c.attempt_count ≤ attempts))
        (run_command_checks passes attempts commands)
unfolding run_command_checks
checks_are_honest passes attempts [] = tt
checks_are_honest passes attempts (c ∷ cs) = rw add_check-append (
    All-append (IsHonest passes attempts) _ _
      (attempt-IsHonest passes attempts attempts 1 c none (omega arith) tt)
      (checks_are_honest passes attempts cs))
