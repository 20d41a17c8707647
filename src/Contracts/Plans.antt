-- ===== src/Contracts/Plans.antt =====
-- core/task_contract.py, task_plan_validation: which plans are accepted.
use mathlib.Core.List.{◌++◌ as append}
use Prim.Native.String.{◌++◌}
use tandem_agents.Prelude.{
  ℕ, suc, String, ◌≡◌, refl, sym, ap, ◌∙◌, inl, inr, Bool, true, false, not, ◌&&◌, ◌||◌, none, some,
  List, [], ◌∷◌, arith, str_eq, if◌then◌else◌, Bool-cases, Option-cases, select, fetch_one, any,
  starts_with,
}
use tandem_agents.Verification.Json.{
  Json, Items, Fields, null, boolean, number, text, array, object, nil, cons, get_field,
}
use tandem_agents.Contracts.Paths.{normalize_repo_relative_path}
use tandem_agents.Contracts.Validation.{
  Contract, Issue, out_of_scope_conflict, no_issues, Validation, iterated, file_texts, scopes_of,
  conflicts, requires_changes, title_of, goal_of, acceptance_of, issues_of, plan_issues,
  task_plan_validation,
}

no_issues-append {ℓ} :
    {A : Type ℓ} (xs ys : List A) → no_issues (append xs ys) ≡ (no_issues xs && no_issues ys)
unfolding no_issues
no_issues-append [] ys = refl
no_issues-append (x ∷ xs) ys = refl

no_issues-if {ℓ} : {A : Type ℓ} (b : Bool) (x : A) → no_issues (if b then x ∷ [] else []) ≡ not b
unfolding no_issues
no_issues-if true x = refl
no_issues-if false x = refl

no_issues-unless {ℓ} : {A : Type ℓ} (b : Bool) (x : A) → no_issues (if b then [] else x ∷ []) ≡ b
unfolding no_issues
no_issues-unless true x = refl
no_issues-unless false x = refl

no_issues-select : (p : String → Bool) (xs : List String) → no_issues (select p xs) ≡ not (any p xs)
unfolding no_issues select any
no_issues-select p [] = refl
no_issues-select p (x ∷ xs) = elim (Bool-cases (p x)) [
  | inl e ↦ rw e refl
  | inr e ↦ rw e (no_issues-select p xs)
]

no_issues-fetch_one :
    (p : String → Bool) (title : String) (xs : List String)
    → no_issues (elim (fetch_one p xs) as (λ _. List Issue) [
      | none ↦ []
      | some file ↦ out_of_scope_conflict title file ∷ []
    ])
      ≡ not (any p xs)
unfolding no_issues fetch_one any
no_issues-fetch_one p title [] = refl
no_issues-fetch_one p title (x ∷ xs) = elim (Bool-cases (p x)) [
  | inl e ↦ rw e refl
  | inr e ↦ rw e (no_issues-fetch_one p title xs)
]

ok_of : {v w : Validation} → some v ≡ some w → v.ok ≡ w.ok
ok_of {v} {w} h = let e : v ≡ w = cc h in ap (λ x. x.ok) e

same_tests :
    (g r n a k : Bool)
    → (not g && (not (r && n) && (not a && not k))) ≡ (not g && (not r || not n) && not a && not k)
same_tests g r n a k = ground arith

-- The path is this entry, or begins with it and a slash.
abbrev pub lies_in : String → String → Bool
lies_in path scope = str_eq path scope || (not (str_eq scope "") && starts_with (scope ++ "/") path)

any-or :
    (p q : String → Bool) (xs : List String) → (any p xs || any q xs) ≡ any (λ x. p x || q x) xs
unfolding any
any-or p q [] = refl
any-or p q (x ∷ xs) = swap (p x) (q x) (any p xs) (any q xs) _ (any-or p q xs)
  where
    swap :
        (a b m n k : Bool)
        → (m || n) ≡ k
        → ((if a then true else m) || (if b then true else n)) ≡ (if a || b then true else k)
    swap true b m n k h = refl
    swap false true true n k h = refl
    swap false true false n k h = refl
    swap false false m n k h = h

module _ (show : Json → String) (c : Contract) where
  -- What a subtask must keep to: it has a goal, it says when it is done where the task asks for
  -- changes, none of its files is absolute, and none lies in an entry of `out_of_scope`, both as
  -- `_normalize_repo_relative_path` writes them.
  unfoldable pub is_sound : ℕ → Fields → List String → Bool
  is_sound index d files =
      not (str_eq (goal_of show (title_of show index d) d) "")
      && (not (requires_changes show c) || not (no_issues (acceptance_of show d)))
      && not (any (starts_with "/") files)
      && not (
          any (λ f. any (lies_in (normalize_repo_relative_path f)) (scopes_of show c.out_of_scope))
            files)

  conflicts-lies_in :
      (files : List String)
      → any (conflicts show (scopes_of show c.out_of_scope)) files
        ≡ any
            (λ f. any (lies_in (normalize_repo_relative_path f)) (scopes_of show c.out_of_scope))
            files
  unfolding conflicts any
  conflicts-lies_in [] = refl
  conflicts-lies_in (f ∷ fs) =
      let path = normalize_repo_relative_path f in
      rw
        (
          any-or (str_eq path) (λ s. not (str_eq s "") && starts_with (s ++ "/") path)
              (scopes_of show c.out_of_scope),
          conflicts-lies_in fs,
        )
        refl

  -- Each subtask of the plan keeps to it, where its files can be read.
  unfoldable pub all_sound : ℕ → Items → Bool
  unfolding is_sound
  all_sound index nil = true
  all_sound index (cons (object d) rest) =
      let later = all_sound (suc index) rest in
      elim (iterated (get_field "files" d)) [
        | none ↦ later
        | some files ↦ is_sound index d (file_texts show files) && later
      ]
  all_sound index (cons null rest) = all_sound (suc index) rest
  all_sound index (cons (boolean b) rest) = all_sound (suc index) rest
  all_sound index (cons (number z s) rest) = all_sound (suc index) rest
  all_sound index (cons (text s) rest) = all_sound (suc index) rest
  all_sound index (cons (array xs) rest) = all_sound (suc index) rest

  issues_of-is_sound :
      (index : ℕ) (d : Fields) (files : List String)
      → no_issues (issues_of show c index d files) ≡ is_sound index d files
  unfolding issues_of is_sound
  issues_of-is_sound index d files =
      let scopes = scopes_of show c.out_of_scope in
      rw
        (
          no_issues-append,
          no_issues-append,
          no_issues-append,
          no_issues-if,
          no_issues-if,
          no_issues-unless,
          no_issues-select,
          no_issues-fetch_one (conflicts show scopes) (title_of show index d) files,
          conflicts-lies_in files,
        )
        (same_tests _ _ _ _ _)

  plan_issues-all_sound :
      (index : ℕ) (xs : Items) (issues : List Issue)
      → plan_issues show c index xs ≡ some issues
      → no_issues issues ≡ all_sound index xs
  unfolding plan_issues all_sound
  plan_issues-all_sound index nil issues h = let e : [] ≡ issues = cc h in sym (ap no_issues e)
  plan_issues-all_sound index (cons (object d) rest) issues h =
      elim (Option-cases (iterated (get_field "files" d))) [
        | inl e ↦ absurd (cc (rw (e, plan_issues) at h))
        | inr (files, e) ↦ elim (Option-cases (plan_issues show c (suc index) rest)) [
          | inl n ↦ absurd (cc (rw (e, n, plan_issues) at h))
          | inr (later, n) ↦
              let given = rw (e, n, plan_issues) at h in
              (let joined : append (issues_of show c index d (file_texts show files)) later
                    ≡ issues =
                  cc given in
                rw (e, all_sound)
                  (sym (ap no_issues joined)
                    ∙ no_issues-append (issues_of show c index d (file_texts show files)) later
                    ∙ ap (λ z. z && no_issues later)
                        (issues_of-is_sound index d (file_texts show files))
                    ∙ ap (λ z. is_sound index d (file_texts show files) && z)
                        (plan_issues-all_sound (suc index) rest later n)))
        ]
      ]
  plan_issues-all_sound index (cons null rest) issues h =
      plan_issues-all_sound (suc index) rest issues h
  plan_issues-all_sound index (cons (boolean b) rest) issues h =
      plan_issues-all_sound (suc index) rest issues h
  plan_issues-all_sound index (cons (number z s) rest) issues h =
      plan_issues-all_sound (suc index) rest issues h
  plan_issues-all_sound index (cons (text s) rest) issues h =
      plan_issues-all_sound (suc index) rest issues h
  plan_issues-all_sound index (cons (array xs) rest) issues h =
      plan_issues-all_sound (suc index) rest issues h

  -- A plan whose files can be read is accepted exactly when each of its subtasks has a goal, has
  -- criteria where the task asks for changes, and has no file that is absolute or, with the paths as
  -- `_normalize_repo_relative_path` writes them, equals an entry of `out_of_scope` or begins with one
  -- and a slash. An entry that itself ends in a slash so excludes no file below it.
  pub plan_ok_exactly :
      (subtasks : Items) (v : Validation)
      → task_plan_validation show c subtasks ≡ some v
      → v.ok ≡ all_sound 1 subtasks
  unfolding task_plan_validation
  plan_ok_exactly subtasks v h = elim (Option-cases (plan_issues show c 1 subtasks)) [
    | inl n ↦ absurd (cc (rw (n, task_plan_validation) at h))
    | inr (issues, n) ↦
        let given = rw (n, task_plan_validation) at h in
        sym (ok_of given) ∙ plan_issues-all_sound 1 subtasks issues n
  ]
