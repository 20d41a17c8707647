-- ===== src/Scheduling/Keys/Scopes.antt =====
-- The scopes that task_file_scopes of core/scheduling/scheduler.py collects.
use mathlib.Core.Path.{subst}
use tandem_agents.Prelude.{
  ◌≤◌, String, ◌≡◌, refl, sym, ap, ◌∙◌, inl, inr, true, false, List, [], ◌∷◌, ◌++◌, arith, eq_iff,
  Bool-cases, All, All-append, count, any, count-append_one, count-zero_of_any, and_left, and_right,
  true-false,
}
use tandem_agents.Scheduling.Admission.{Scope, is_nil}
use tandem_agents.Scheduling.Paths.{normalize_repo_relative_path, parts}
use tandem_agents.Scheduling.Keys.{LedgerTask, same_scope, collect, collect_all, task_file_scopes}

same_scope-eq : (a b : Scope) → same_scope a b ≡ true → a ≡ b
unfolding same_scope
same_scope-eq [] [] h = refl
same_scope-eq [] (y ∷ ys) h = absurd (true-false h refl)
same_scope-eq (x ∷ xs) [] h = absurd (true-false h refl)
same_scope-eq (x ∷ xs) (y ∷ ys) h =
    let first = (eq_iff x y).0 (and_left _ _ h) in
    let rest = same_scope-eq xs ys (and_right _ _ h) in
    ap (λ z. z ∷ xs) first ∙ ap (λ zs. y ∷ zs) rest

-- No scope stands twice, and none is empty.
record IsScopes (scopes : List Scope) : Type 0 where
  once : (s : Scope) → count (same_scope s) scopes ≤ 1
  proper : All (λ s. is_nil s ≡ false) scopes

IsScopes-append :
    (scope : Scope) (scopes : List Scope)
    → is_nil scope ≡ false
    → any (same_scope scope) scopes ≡ false
    → IsScopes scopes
    → IsScopes (scopes ++ scope ∷ [])
IsScopes-append scope scopes n f h = record {
  once = λ s. elim (Bool-cases (same_scope s scope)) [
    | inl e ↦
        let none_yet =
          subst (λ (z : Scope). count (same_scope z) scopes ≡ 0) (sym (same_scope-eq s scope e))
            (count-zero_of_any (same_scope scope) scopes f) in
        ground (arith, none_yet, count-append_one (same_scope s) scopes scope)
    | inr e ↦ ground (arith, h.once s, count-append_one (same_scope s) scopes scope)
  ];
  proper = All-append _ scopes _ h.proper (n, tt);
}

collect-IsScopes :
    (paths : List String) (scopes : List Scope) → IsScopes scopes → IsScopes (collect paths scopes)
unfolding collect
collect-IsScopes [] scopes h = h
collect-IsScopes (raw ∷ rest) scopes h =
    let scope = parts (normalize_repo_relative_path raw) in
    collect-IsScopes rest _ (elim (Bool-cases (is_nil scope)) [
      | inl e ↦ rw e h
      | inr e ↦ elim (Bool-cases (any (same_scope scope) scopes)) [
        | inl f ↦ rw (e, f) h
        | inr f ↦ rw (e, f) (IsScopes-append scope scopes e f h)
      ]
    ])

collect_all-IsScopes :
    (paths : List (List String)) (scopes : List Scope)
    → IsScopes scopes
    → IsScopes (collect_all paths scopes)
unfolding collect_all
collect_all-IsScopes [] scopes h = h
collect_all-IsScopes (ps ∷ rest) scopes h =
    collect_all-IsScopes rest (collect ps scopes) (collect-IsScopes ps scopes h)

empty-IsScopes : IsScopes []
unfolding count
empty-IsScopes = record { once = λ s. omega arith; proper = tt }

-- No file scope stands twice among the scopes of a task, and none of them is empty.
pub task_file_scopes-distinct :
    (t : LedgerTask) (s : Scope)
    → (count (same_scope s) (task_file_scopes t) ≤ 1)
      × All (λ x. is_nil x ≡ false) (task_file_scopes t)
unfolding task_file_scopes
task_file_scopes-distinct t s =
    let h = collect_all-IsScopes t.paths [] empty-IsScopes in (h.once s, h.proper)
