-- ===== src/Planner/Moves.antt =====
-- The status of a plan: it moves forward only, and completing a plan wants its steps ended.
use mathlib.Core.Option
use cora_os.Prelude.{
  ℕ, ◌≤◌, ◌≡◌, ◌↔◌, sym, ◌∙◌, ap, ◌⊎◌, refl, inl, inr, Bool, true, false, ◌||◌, Option, none, some,
  List, ◌==◌, ==_iff, arith, ltb, subst, Bool-cases, Option-cases, if◌then◌else◌,
}
use cora_os.Prelude.Exec.{ok, err}
use cora_os.Prelude.Table.{find, update, find-update}
use cora_os.Prelude.Text.{Text}
use cora_os.Planner.{
  PlanStatus, PlanError, steps_outstanding, unavailable, not_found, forbidden, Plan, PlanDb,
  plan_key, plan_is_terminal, count_outstanding, update_plan, plan_written, complete_plan,
  plan_completed, check_target, check_plan_transition, is_owner,
}

-- How far a plan has come.
abbrev pub rank : PlanStatus → ℕ
rank PlanStatus.planned = 0
rank PlanStatus.running = 1
rank _ = 2

-- A status moves forward, and one that has ended stays as it is.
abbrev pub Advances : PlanStatus → PlanStatus → Type 0
Advances s t = (rank s ≤ rank t) × (plan_is_terminal s ≡ true → s ≡ t)

check_plan-Advances : (s t : PlanStatus) → check_plan_transition s t ≡ none → Advances s t
unfolding check_plan_transition
check_plan-Advances s t h = ground arith

-- every plan found before is found after, with a status that has moved forward
abbrev AllAdvance : List Plan → List Plan → Type 0
AllAdvance before after =
    (q : ℕ) (p : Plan)
    → find plan_key q before ≡ some p
    → (p' : Plan) × (find plan_key q after ≡ some p') × Advances p.status p'.status

module _ (k user : ℕ) (is_admin : Bool) (title goal : Option Text) (target : Option PlanStatus)
    (now : ℕ) (db : PlanDb) where
  abbrev plans' : List Plan
  plans' = update plan_key k (plan_written title goal target now) db.plans

  record Writes (row : Plan) : Type 0 where
    there : find plan_key k db.plans ≡ some row
    lawful : check_target row.status target ≡ none
    result :
        update_plan k user is_admin title goal target now db
        ≡ (ok (plan_written title goal target now row), record db { plans = plans' })

  update_plan-cases :
      ((e : PlanError) × (update_plan k user is_admin title goal target now db ≡ (err e, db)))
      ⊎ ((row : Plan) × Writes row)
  unfolding update_plan
  update_plan-cases = elim (Bool-cases db.pool) [
    | inr down ↦ inl (unavailable, simp down)
    | inl up ↦ elim (Option-cases (find plan_key k db.plans)) [
      | inl gone ↦ inl (not_found, simp (up, gone))
      | inr (row, f) ↦ elim (Bool-cases (is_admin || is_owner row.user_id user)) [
        | inr foreign ↦ inl (forbidden, simp (up, f, foreign))
        | inl may ↦ elim (Option-cases (check_target row.status target)) [
          | inr (e, bad) ↦ inl (e, simp (up, f, may, bad))
          | inl good ↦
              inr (row, record { there = f; lawful = good; result = simp (up, f, may, good) })
        ]
      ]
    ]
  ]

  find-plans' :
      (q : ℕ)
      → find plan_key q plans' ≡ (
          if k == q
          then Option.map (plan_written title goal target now) (find plan_key q db.plans)
          else find plan_key q db.plans)
  find-plans' q = find-update plan_key k q (plan_written title goal target now) (λ p. refl) db.plans

  written-Advances :
      (row : Plan)
      → Writes row
      → Advances row.status (plan_written title goal target now row).status
  written-Advances row w =
      elim target
          as (λ t.
            check_target row.status t ≡ none
            → Advances row.status (plan_written title goal t now row).status) [
              | none ↦ λ h. (omega arith, λ e. refl)
              | some t ↦ λ h. check_plan-Advances row.status t h
            ]
        w.lawful

  -- `update_plan` moves every plan forward or leaves it: a status is never taken back, and a plan that
  -- is completed, failed or cancelled keeps its status.
  update_plan_advances :
      AllAdvance db.plans (update_plan k user is_admin title goal target now db).1.plans
  update_plan_advances q p f = elim update_plan-cases [
    | inl (e, r) ↦ rw r (p, f, (omega arith, λ t. refl))
    | inr (row, w) ↦ rw (w.result) (elim (Bool-cases (k == q)) [
      | inl same ↦
          let e : row ≡ p = ground (arith, (==_iff k q).0 same, w.there) in
          (
            plan_written title goal target now row,
            ground (arith, find-plans' q),
            subst (λ (x : Plan). Advances x.status (plan_written title goal target now row).status)
                e (written-Advances row w),
          )
      | inr other ↦ (p, ground (arith, find-plans' q), (omega arith, λ t. refl))
    ])
  ]

completes_open :
    (s : PlanStatus)
    → plan_is_terminal s ≡ false
    → check_plan_transition s PlanStatus.completed ≡ none
unfolding check_plan_transition
completes_open s h = ground arith

ok≢err : {p : Plan} {e : PlanError} → ¬ (ok p ≡ err e)
ok≢err h = ground arith

module _ (k user : ℕ) (is_admin : Bool) (now : ℕ) (db : PlanDb) (row : Plan) (up : db.pool ≡ true)
    (there : find plan_key k db.plans ≡ some row)
    (may : (is_admin || is_owner row.user_id user) ≡ true)
    (open_plan : plan_is_terminal row.status ≡ false) where
  refused :
      ltb 0 (count_outstanding k db.steps) ≡ true
      → complete_plan k user is_admin now db ≡ (err steps_outstanding, db)
  unfolding complete_plan
  refused some_left = simp (up, there, may, completes_open row.status open_plan, some_left)

  -- The owner or an admin completes an open plan by `complete_plan` exactly when no step of it is
  -- outstanding.
  pub complete_plan_exact :
      ((complete_plan k user is_admin now db).0 ≡ ok (plan_completed now row))
      ↔ (count_outstanding k db.steps ≡ 0)
  unfolding complete_plan
  complete_plan_exact = (
    λ done. elim (Bool-cases (ltb 0 (count_outstanding k db.steps))) [
      | inl some_left ↦ absurd (ok≢err (sym done ∙ ap (λ r. r.0) (refused some_left)))
      | inr none_left ↦ ground arith
    ],
    λ z. simp (up, there, may, completes_open row.status open_plan, z),
  )
