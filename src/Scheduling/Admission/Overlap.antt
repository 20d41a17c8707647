-- ===== src/Scheduling/Admission/Overlap.antt =====
-- The file scopes of the tasks that plan_task_admissions admits together.
use mathlib.Core.Path.{subst}
use tandem_agents.Prelude.{
  ℕ, String, ◌≡◌, refl, sym, ap, ◌∙◌, inl, inr, Bool, true, false, not, ◌&&◌, ◌||◌, none, List, [],
  ◌∷◌, ◌++◌, map, arith, str_eq, eq_iff, eq_refl, Bool-cases, Option-cases, length, All, All-map,
  All-append, any, true-false,
}
use tandem_agents.Scheduling.Admission.{
  Task, Scope, Config, Limits, limits_of, Entry, active_entry, Plan, empty_plan, Reason, verdict,
  admit, block, consider, group, is_nil, waiting, occupy, overlaps, occupy_all, plan_admissions,
  plan_task_admissions,
}
use tandem_agents.Scheduling.Admission.Rounds.{rounds-keeps}
use tandem_agents.Scheduling.Admission.Capacity.{plan-admitted, occupy_all-admitted}

-- Two tasks on one repository clash if either has the whole repository as its scope, or if a scope
-- of one is a prefix of a scope of the other.
unfoldable pub clash : Task → Task → Bool
unfolding is_nil overlaps
clash running new =
    str_eq running.repo_key new.repo_key
    && (is_nil running.scopes || is_nil new.scopes || overlaps new.scopes running.scopes)

-- No task of the second list clashes with one of the first list or with an earlier one of its own.
abbrev pub Clear : List Task → List Task → Type 0
Clear running [] = Unit
Clear running (t ∷ ts) = All (λ r. clash r t ≡ false) running × Clear (running ++ t ∷ []) ts

Clear-append :
    (running ts : List Task) (t : Task)
    → Clear running ts
    → All (λ r. clash r t ≡ false) (running ++ ts)
    → Clear running (ts ++ t ∷ [])
Clear-append running [] t c h = (all_of_append running h, tt)
  where
    all_of_append :
        (rs : List Task) → All (λ r. clash r t ≡ false) (rs ++ []) → All (λ r. clash r t ≡ false) rs
    all_of_append [] g = tt
    all_of_append (r ∷ rs) g = (g.0, all_of_append rs g.1)
Clear-append running (u ∷ ts) t c h =
    (c.0, Clear-append (running ++ u ∷ []) ts t c.1 (shift running h))
  where
    shift :
        (rs : List Task)
        → All (λ r. clash r t ≡ false) (rs ++ u ∷ ts)
        → All (λ r. clash r t ≡ false) ((rs ++ u ∷ []) ++ ts)
    shift [] g = g
    shift (r ∷ rs) g = (g.0, shift rs g.1)

overlaps-left : (xs ys zs : List Scope) → overlaps xs (ys ++ zs) ≡ false → overlaps xs ys ≡ false
unfolding overlaps any
overlaps-left xs [] zs h = refl
overlaps-left xs (y ∷ ys) zs h = ground (arith, overlaps-left xs ys zs)

overlaps-right : (xs ys zs : List Scope) → overlaps xs (ys ++ zs) ≡ false → overlaps xs zs ≡ false
unfolding overlaps any
overlaps-right xs [] zs h = h
overlaps-right xs (y ∷ ys) zs h = overlaps-right xs ys zs (ground arith)

is_nil-append_left : (ys zs : List Scope) → is_nil ys ≡ false → is_nil (ys ++ zs) ≡ false
unfolding is_nil
is_nil-append_left [] zs h = absurd (true-false refl h)
is_nil-append_left (y ∷ ys) zs h = refl

is_nil-append_right : (ys zs : List Scope) → is_nil zs ≡ false → is_nil (ys ++ zs) ≡ false
unfolding is_nil
is_nil-append_right [] zs h = h
is_nil-append_right (y ∷ ys) zs h = refl

-- The plan knows where the task works.
record IsCovered (p : Plan) (t : Task) : Type 0 where
  in_scopes :
      (xs : List Scope)
      → overlaps xs (p.scopes_by_repo t.repo_key) ≡ false
      → overlaps xs t.scopes ≡ false
  has_scopes : is_nil t.scopes ≡ false → is_nil (p.scopes_by_repo t.repo_key) ≡ false
  has_repo : is_nil t.scopes ≡ true → p.locked t.repo_key ≡ true

IsCovered-occupy : (e : Entry) (p : Plan) (t : Task) → IsCovered p t → IsCovered (occupy e p) t
unfolding occupy
IsCovered-occupy e p t c = elim (Bool-cases (str_eq t.repo_key e.task.repo_key)) [
  | inl s ↦ record {
    in_scopes = λ xs h. c.in_scopes xs (overlaps-left xs _ e.task.scopes (rw (s, occupy) at h));
    has_scopes = λ n. rw (s, occupy) (is_nil-append_left _ e.task.scopes (c.has_scopes n));
    has_repo = λ n. ground (arith, c.has_repo n);
  }
  | inr s ↦ record {
    in_scopes = λ xs h. c.in_scopes xs (rw (s, occupy) at h);
    has_scopes = λ n. rw (s, occupy) (c.has_scopes n);
    has_repo = λ n. ground (arith, c.has_repo n);
  }
]

IsCovered-own : (e : Entry) (p : Plan) → IsCovered (occupy e p) e.task
unfolding occupy
IsCovered-own e p =
    let s = eq_refl e.task.repo_key in
    record {
      in_scopes = λ xs h. overlaps-right xs _ e.task.scopes (rw (s, occupy) at h);
      has_scopes = λ n. rw (s, occupy) (is_nil-append_right _ e.task.scopes n);
      has_repo = λ n. rw (s, n, occupy) refl;
    }

IsCovered-admit :
    (e : Entry) (p : Plan) (t : Task) → IsCovered (occupy e p) t → IsCovered (admit e p) t
unfolding admit
IsCovered-admit e p t c = record {
  in_scopes = c.in_scopes;
  has_scopes = c.has_scopes;
  has_repo = c.has_repo;
}

-- What a task that passes all tests cannot do.
verdict-clear :
    (l : Limits) (p : Plan) (e : Entry) (t : Task)
    → verdict l p e ≡ none
    → IsCovered p t
    → clash t e.task ≡ false
unfolding clash
verdict-clear l p e t v c = elim (Bool-cases (str_eq t.repo_key e.task.repo_key)) [
  | inr s ↦ rw (s, clash) refl
  | inl s ↦
      let same = (eq_iff t.repo_key e.task.repo_key).0 s in
      let open_repo : p.locked t.repo_key ≡ false =
        subst (λ (k : String). p.locked k ≡ false) (sym same) (unfold verdict in ground arith) in
      let scoped : is_nil t.scopes ≡ false = ground (arith, c.has_repo) in
      let files : (is_nil e.task.scopes && not (is_nil (p.scopes_by_repo t.repo_key))) ≡ false =
        subst (λ (k : String). (is_nil e.task.scopes && not (is_nil (p.scopes_by_repo k))) ≡ false)
          (sym same) (unfold verdict in ground arith) in
      let apart : overlaps e.task.scopes (p.scopes_by_repo t.repo_key) ≡ false =
        subst (λ (k : String). overlaps e.task.scopes (p.scopes_by_repo k) ≡ false) (sym same)
          (unfold verdict in ground arith) in
      ground (arith, c.in_scopes e.task.scopes apart, c.has_scopes scoped)
]

-- The running tasks and the admitted ones are covered, and the admitted ones are clear.
record IsApart (active : List Task) (p : Plan) : Type 0 where
  covered : All (IsCovered p) (active ++ map (λ e. e.task) p.admitted)
  clear : Clear active (map (λ e. e.task) p.admitted)

map-append_one :
    (es : List Entry) (e : Entry)
    → map (λ x. x.task) (es ++ e ∷ []) ≡ map (λ x. x.task) es ++ e.task ∷ []
map-append_one [] e = refl
map-append_one (x ∷ es) e = ap (λ ts. x.task ∷ ts) (map-append_one es e)

append_assoc : (xs ys zs : List Task) → xs ++ (ys ++ zs) ≡ (xs ++ ys) ++ zs
append_assoc [] ys zs = refl
append_assoc (x ∷ xs) ys zs = ap (λ ts. x ∷ ts) (append_assoc xs ys zs)

consider-IsApart :
    (active : List Task) (l : Limits) (e : Entry) (p : Plan)
    → IsApart active p
    → IsApart active (consider l e p).0
unfolding consider
consider-IsApart active l e p a = elim (Option-cases (verdict l p e)) [
  | inr (r, v) ↦ rw (v, consider) (kept r)
  | inl v ↦ rw (v, consider) (added v)
]
  where
    kept : (r : Reason) → IsApart active (block e r p)
    kept r = record {
      covered = unfold block in All-map _ _ _ (λ t c. again t c) a.covered;
      clear = unfold block in a.clear;
    }
      where
        again : (t : Task) → IsCovered p t → IsCovered (block e r p) t
        again t c =
            unfold block in
            record { in_scopes = c.in_scopes; has_scopes = c.has_scopes; has_repo = c.has_repo }

    added : verdict l p e ≡ none → IsApart active (admit e p)
    added v = record {
      covered =
          subst (All (IsCovered (admit e p)))
            (sym (
              ap (λ ts. active ++ ts) (map-append_one p.admitted e)
              ∙ append_assoc active (map (λ x. x.task) p.admitted) (e.task ∷ [])))
            (All-append _ (active ++ map (λ x. x.task) p.admitted) (e.task ∷ [])
              (All-map _ _ _ (λ t c. IsCovered-admit e p t (IsCovered-occupy e p t c)) a.covered)
              (IsCovered-admit e p e.task (IsCovered-own e p), tt));
      clear = subst (Clear active) (sym (map-append_one p.admitted e)) (
          Clear-append active (map (λ x. x.task) p.admitted) e.task a.clear
            (All-map _ _ _ (λ t c. verdict-clear l p e t v c) a.covered));
    }

occupy_all-keeps :
    (ts : List Task) (p : Plan) (t : Task) → IsCovered p t → IsCovered (occupy_all ts p) t
unfolding occupy_all
occupy_all-keeps [] p t c = c
occupy_all-keeps (u ∷ ts) p t c =
    occupy_all-keeps ts (occupy (active_entry u) p) t (IsCovered-occupy (active_entry u) p t c)

occupy_all-covers : (ts : List Task) (p : Plan) → All (IsCovered (occupy_all ts p)) ts
unfolding occupy_all active_entry
occupy_all-covers [] p = tt
occupy_all-covers (t ∷ ts) p = (
  occupy_all-keeps ts (occupy (active_entry t) p) t (IsCovered-own (active_entry t) p),
  occupy_all-covers ts (occupy (active_entry t) p),
)

start-IsApart : (active : List Task) → IsApart active (occupy_all active empty_plan)
start-IsApart active = record {
  covered =
      subst
        (λ (es : List Entry).
          All (IsCovered (occupy_all active empty_plan)) (active ++ map (λ x. x.task) es))
        (sym (occupy_all-admitted active empty_plan))
        (All-append _ active [] (occupy_all-covers active empty_plan) tt);
  clear =
      subst (λ (es : List Entry). Clear active (map (λ x. x.task) es))
        (sym (occupy_all-admitted active empty_plan)) tt;
}

-- No admitted task clashes with a running task or with a task admitted before it: on one
-- repository, neither has the whole of it as its scope and no file scope of one is a prefix of one
-- of the other.
pub plan-no_clash :
    (cfg : Config) (coder_runs : ℕ) (active queued : List Task)
    → Clear active
        (map (λ e. e.task) (plan_task_admissions cfg coder_runs active queued).0.admitted)
unfolding plan_admissions
plan-no_clash cfg coder_runs active queued =
    let l = limits_of cfg (length active) coder_runs in
    let qs = group queued [] in
    let last =
      rounds-keeps l (IsApart active) (consider-IsApart active l) (waiting qs) qs
        (occupy_all active empty_plan) (start-IsApart active) in
    subst (λ (es : List Entry). Clear active (map (λ x. x.task) es))
      (sym (plan-admitted cfg coder_runs active queued)) last.clear
