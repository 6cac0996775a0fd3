-- ===== src/Planner/Steps.antt =====
-- What one call of `update_step` does: it raises and leaves the tables alone, or it makes a lawful
-- change of one step of the plan and recounts the plan's progress.
use cora_os.Prelude.{
  ℕ, ◌≡◌, ◌⊎◌, inl, inr, Bool, true, false, ◌||◌, Option, none, some, arith, Bool-cases,
  Option-cases, is_some, if◌then◌else◌,
}
use cora_os.Prelude.Exec.{ok, err}
use cora_os.Prelude.Table.{find}
use cora_os.Planner.{
  StepStatus, PlanError, unavailable, not_found, forbidden, Plan, Step, PlanDb, StepChange,
  plan_key, step_is_terminal, step_allows, check_step_target, check_step_transition, is_owner,
  find_step, update_where, step_written, recompute_current_step, update_step,
}

-- A status may stay, and a status that has not ended may move on.
abbrev pub IsLawful : StepStatus → Option StepStatus → Type 0
IsLawful s none = Unit
IsLawful s (some t) = (s ≡ t) ⊎ ((step_is_terminal s ≡ false) × (step_allows s t ≡ true))

IsLawful-check_step :
    (s : StepStatus) (t : Option StepStatus) → check_step_target s t ≡ none → IsLawful s t
unfolding check_step_transition
IsLawful-check_step s none h = tt
IsLawful-check_step s (some t) h = ground arith

module _ (k j user : ℕ) (is_admin : Bool) (c : StepChange) (now : ℕ) (db : PlanDb) where
  -- the tables after the change
  abbrev pub changed : PlanDb
  changed =
      let db' : PlanDb = record db { steps = update_where k j (step_written c now) db.steps } in
      if is_some c.status then recompute_current_step k now db' else db'

  pub record Changes (plan : Plan) (row : Step) : Type 0 where
    pub up : db.pool ≡ true
    pub plan_there : find plan_key k db.plans ≡ some plan
    pub may : (is_admin || is_owner plan.user_id user) ≡ true
    pub there : find_step k j db.steps ≡ some row
    pub lawful : IsLawful row.status c.status
    pub result : update_step k j user is_admin c now db ≡ (ok (step_written c now row), changed)

  pub update_step-cases :
      ((e : PlanError) × (update_step k j user is_admin c now db ≡ (err e, db)))
      ⊎ ((plan : Plan) × (row : Step) × Changes plan row)
  unfolding update_step
  update_step-cases = elim (Bool-cases db.pool) [
    | inr down ↦ inl (unavailable, simp down)
    | inl up ↦ elim (Option-cases (find plan_key k db.plans)) [
      | inl gone ↦ inl (not_found, simp (up, gone))
      | inr (plan, f) ↦ elim (Bool-cases (is_admin || is_owner plan.user_id user)) [
        | inr foreign ↦ inl (forbidden, simp (up, f, foreign))
        | inl may ↦ elim (Option-cases (find_step k j db.steps)) [
          | inl lost ↦ inl (not_found, simp (up, f, may, lost))
          | inr (row, g) ↦ elim (Option-cases (check_step_target row.status c.status)) [
            | inr (e, bad) ↦ inl (e, simp (up, f, may, g, bad))
            | inl good ↦ inr (
              plan,
              row,
              record {
                up = up;
                plan_there = f;
                may = may;
                there = g;
                lawful = IsLawful-check_step row.status c.status good;
                result = simp (up, f, may, g, good);
              },
            )
          ]
        ]
      ]
    ]
  ]
