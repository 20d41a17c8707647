-- ===== src/Coordination/Dependencies/Blocked.antt =====
-- When the dependencies of a task block it, by dependency_status_for_task of core/task_contract.py.
use tandem_agents.Prelude.{
  String, ◌≡◌, refl, sym, ◌∙◌, inl, inr, true, false, not, some, List, [], ◌∷◌, Bool-cases, All,
  any, true-false,
}
use tandem_agents.Coordination.Rows.{TaskDict, TaskRow}
use tandem_agents.Coordination.Dependencies.{
  is_resolved, unresolved_of, is_nil, declared_of, dependency_status_for_task,
}

unresolved-any :
    (known : List TaskRow) (ds : List String)
    → not (is_nil (unresolved_of known ds)) ≡ any (λ d. not (is_resolved known d)) ds
unfolding unresolved_of is_nil any
unresolved-any known [] = refl
unresolved-any known (d ∷ ds) = elim (Bool-cases (is_resolved known d)) [
  | inl e ↦ rw e (unresolved-any known ds)
  | inr e ↦ rw e refl
]

-- Where other tasks are known, a task is blocked exactly when one of its declared dependencies is
-- not resolved: no known task that it refers to is done.
pub blocked-any :
    (t : TaskDict) (known : List TaskRow)
    → (dependency_status_for_task t (some known)).blocked
      ≡ any (λ d. not (is_resolved known d)) (declared_of t)
unfolding dependency_status_for_task
blocked-any t known = go (declared_of t) refl
  where
    go :
        (ds : List String)
        → declared_of t ≡ ds
        → (dependency_status_for_task t (some known)).blocked
          ≡ any (λ d. not (is_resolved known d)) (declared_of t)
    go [] e = rw (e, dependency_status_for_task) (unfold is_nil any in refl)
    go (d ∷ ds) e =
        rw (e, dependency_status_for_task) (unfold is_nil in unresolved-any known (d ∷ ds))

all_of_none :
    (known : List TaskRow) (ds : List String)
    → any (λ d. not (is_resolved known d)) ds ≡ false
    → All (λ d. is_resolved known d ≡ true) ds
unfolding any
all_of_none known [] h = tt
all_of_none known (d ∷ ds) h = elim (Bool-cases (is_resolved known d)) [
  | inl e ↦ (e, all_of_none known ds (rw e at h))
  | inr e ↦ absurd (true-false refl (rw e at h))
]

pub resolved_of_free :
    (t : TaskDict) (known : List TaskRow)
    → (dependency_status_for_task t (some known)).blocked ≡ false
    → All (λ d. is_resolved known d ≡ true) (declared_of t)
resolved_of_free t known h = all_of_none known (declared_of t) (sym (blocked-any t known) ∙ h)
