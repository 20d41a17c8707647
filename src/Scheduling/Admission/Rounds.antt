-- ===== src/Scheduling/Admission/Rounds.antt =====
-- The rounds of plan_task_admissions in core/scheduling/scheduler.py: induction over them, their
-- end.
use tandem_agents.Prelude.{
  ℕ, zero, suc, ◌+◌, ◌≤◌, ◌≡◌, refl, ◌∙◌, ◌⊎◌, inl, inr, Bool, true, false, ◌&&◌, List, [], ◌∷◌,
  arith, ltb, if◌then◌else◌, Bool-cases, length, any, and_right,
}
use Prim.Native.Nat.{Ordering}
use tandem_agents.Scheduling.Admission.{
  Task, Limits, Entry, Plan, empty_plan, consider, Queues, group, any_waiting, is_nil, round,
  rounds, waiting, occupy_all, plan_admissions,
}

-- A predicate that looking at one task keeps is kept by the whole loop.
module _ {ℓ} (l : Limits) (P : Plan → Type ℓ)
    (keep : (e : Entry) (p : Plan) → P p → P (consider l e p).0) where
  round-keeps : (qs : Queues) (p : Plan) → P p → P (round l qs p).0
  unfolding round
  round-keeps [] p h = h
  round-keeps ((k, []) ∷ qs) p h = round-keeps qs p h
  round-keeps ((k, t ∷ ts) ∷ qs) p h =
      let e : Entry = record { project = k; task = t } in
      let next = consider l e p in
      elim (Bool-cases next.1) [
        | inl s ↦ rw (s, round) (keep e p h)
        | inr s ↦ rw (s, round) (round-keeps qs next.0 (keep e p h))
      ]

  pub rounds-keeps : (n : ℕ) (qs : Queues) (p : Plan) → P p → P (rounds n l qs p).0
  unfolding rounds
  rounds-keeps zero qs p h = h
  rounds-keeps (suc n) qs p h =
      let next = round l qs p in
      elim (Bool-cases (ltb (length p.admitted) l.max_total && any_waiting qs)) [
        | inl c ↦ elim (Bool-cases next.2) [
          | inl s ↦ rw (c, s, rounds) (rounds-keeps n next.1 next.0 (round-keeps qs p h))
          | inr s ↦ rw (c, s, rounds) (round-keeps qs p h)
        ]
        | inr c ↦ rw (c, rounds) h
      ]

round-progressed : (l : Limits) (qs : Queues) (p : Plan) → (round l qs p).2 ≡ any_waiting qs
unfolding round any_waiting any is_nil
round-progressed l [] p = refl
round-progressed l ((k, []) ∷ qs) p = round-progressed l qs p
round-progressed l ((k, t ∷ ts) ∷ qs) p =
    let e : Entry = record { project = k; task = t } in
    elim (Bool-cases (consider l e p).1) [ inl s ↦ rw (s, round) refl | inr s ↦ rw (s, round) refl ]

round-fewer :
    (l : Limits) (qs : Queues) (p : Plan)
    → waiting (round l qs p).1 + (if any_waiting qs then 1 else 0) ≤ waiting qs
unfolding round any_waiting any is_nil waiting
round-fewer l [] p = omega arith
round-fewer l ((k, []) ∷ qs) p = omega (arith, round-fewer l qs p)
round-fewer l ((k, t ∷ ts) ∷ qs) p =
    let e : Entry = record { project = k; task = t } in
    elim (Bool-cases (consider l e p).1) [
      | inl s ↦ rw (s, round) (omega arith)
      | inr s ↦ rw (s, round) (omega (arith, round-fewer l qs (consider l e p).0))
    ]

is_running : Limits → Queues → Plan → Bool
is_running l qs p = ltb (length p.admitted) l.max_total && any_waiting qs

nothing_waits : (qs : Queues) → waiting qs ≤ 0 → any_waiting qs ≡ false
unfolding any_waiting any waiting is_nil
nothing_waits [] h = refl
nothing_waits ((k, []) ∷ qs) h = nothing_waits qs (omega arith)
nothing_waits ((k, t ∷ ts) ∷ qs) h = absurd (omega arith)

rounds-stop :
    (n : ℕ) (l : Limits) (qs : Queues) (p : Plan)
    → waiting qs ≤ n
    → is_running l (rounds n l qs p).1 (rounds n l qs p).0 ≡ false
unfolding rounds is_running
rounds-stop zero l qs p h = rw (nothing_waits qs h) (ground arith)
rounds-stop (suc n) l qs p h =
    let next = round l qs p in
    elim (Bool-cases (ltb (length p.admitted) l.max_total && any_waiting qs)) [
      | inl c ↦
          let w = and_right (ltb (length p.admitted) l.max_total) (any_waiting qs) c in
          rw (c, round-progressed l qs p ∙ w, rounds)
            (rounds-stop n l next.1 next.0 (ground (arith, round-fewer l qs p)))
      | inr c ↦ rw (c, rounds) c
    ]

-- If a task still waits when the loop ends, the limit is reached: the fuel never cuts it short.
pub plan-exhausts :
    (l : Limits) (active queued : List Task)
    → any_waiting (plan_admissions l active queued).1 ≡ true
    → l.max_total ≤ length (plan_admissions l active queued).0.admitted
unfolding plan_admissions is_running
plan-exhausts l active queued h =
    let qs = group queued [] in
    let stop = rounds-stop (waiting qs) l qs (occupy_all active empty_plan) (omega arith) in
    ground arith

pub Ordering-cases : (o : Ordering) → (o ≡ Ordering.lt) ⊎ ((o ≡ Ordering.eq) ⊎ (o ≡ Ordering.gt))
Ordering-cases Ordering.lt = inl refl
Ordering-cases Ordering.eq = inr (inl refl)
Ordering-cases Ordering.gt = inr (inr refl)
