-- ===== src/Scheduling/Triage/Verdicts.antt =====
-- core/triage.py: which issues are accepted, and the metric over the verdicts.
use tandem_agents.Prelude.{
  ◌+◌, String, ◌≡◌, refl, inl, inr, false, not, ◌&&◌, ◌||◌, none, some, List, [], ◌∷◌, arith,
  str_eq, if◌then◌else◌, Bool-cases, Option-cases, count, any,
}
use tandem_agents.Scheduling.Triage.{
  Issue, Outcome, accepted, refused, needs_clarification, Verdict, TriageConfig, is_accepted,
  is_refused, is_unclear, summarize_triage, triage_task, triage_of_class, allowed_classes,
  classify_issue_class, is_well_specified,
}

Outcome-one :
    (o : Outcome)
    → (if is_accepted o then 1 else 0)
        + ((if is_refused o then 1 else 0) + (if is_unclear o then 1 else 0))
      ≡ 1
unfolding is_accepted is_refused is_unclear
Outcome-one accepted = omega arith
Outcome-one refused = omega arith
Outcome-one needs_clarification = omega arith

-- Each verdict counts once: those accepted and those escalated add up to all.
pub summary-total :
    (vs : List Verdict)
    → (summarize_triage vs).accepted + (summarize_triage vs).escalated ≡ (summarize_triage vs).total
unfolding summarize_triage count
summary-total [] = omega arith
summary-total (v ∷ vs) = ground (arith, Outcome-one v.verdict, summary-total vs)

triage_of_class-is_accepted :
    (cfg : TriageConfig) (t : Issue) (c : String)
    → is_accepted (triage_of_class cfg t c).verdict ≡ (
        any (str_eq c) (allowed_classes cfg)
        && (not (str_eq c "small_feature") || is_well_specified t))
unfolding triage_of_class is_accepted
triage_of_class-is_accepted cfg t c = elim (Bool-cases (any (str_eq c) (allowed_classes cfg))) [
  | inl a ↦ elim (Bool-cases (str_eq c "small_feature")) [
    | inl b ↦ elim (Bool-cases (is_well_specified t)) [
      | inl w ↦ rw (a, b, w, triage_of_class) refl
      | inr w ↦ rw (a, b, w, triage_of_class) refl
    ]
    | inr b ↦ rw (a, b, triage_of_class) refl
  ]
  | inr a ↦ rw (a, triage_of_class) refl
]

-- A task is accepted exactly when it has a class, the class is allowed, and it is well specified
-- where the class is that of small features.
accepted_exactly :
    (cfg : TriageConfig) (t : Issue)
    → is_accepted (triage_task cfg t).verdict ≡ (elim (classify_issue_class t) [
      | some c ↦
          any (str_eq c) (allowed_classes cfg)
          && (not (str_eq c "small_feature") || is_well_specified t)
      | none ↦ false
    ])
unfolding triage_task triage_of_class is_accepted
accepted_exactly cfg t = elim (Option-cases (classify_issue_class t)) [
  | inl e ↦ rw (e, triage_task) refl
  | inr (c, e) ↦ rw (e, triage_task) (triage_of_class-is_accepted cfg t c)
]
