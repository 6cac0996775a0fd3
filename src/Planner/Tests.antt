-- ===== src/Planner/Tests.antt =====
-- A plan's life on concrete tables, and the theorems there.
use cora_os.Prelude.{◌≡◌, ◌↔◌, refl, true, false, none, some, [], ◌∷◌}
use cora_os.Prelude.Exec.{ok, err}
use cora_os.Prelude.Text.{codes}
use cora_os.Planner.Template.{title_from_goal}
use cora_os.Planner.{
  PlanStatus, StepStatus, Plan, PlanDb, StepChange, steps_outstanding, no_change, create_plan,
  update_plan, update_step, complete_plan, complete_step, fail_step, cancel_plan, count_terminal,
  count_outstanding, plan_completed, step_written,
}
use cora_os.Planner.Progress.{IsCounted, update_step-IsCounted, create_plan-IsCounted}
use cora_os.Planner.Moves.{complete_plan_exact}

runs : Unit {0}
unfolding create_plan update_plan update_step complete_plan complete_step fail_step cancel_plan
    count_terminal count_outstanding step_written title_from_goal
runs = tt

abbrev empty : PlanDb
empty = record { pool = true; plans = []; steps = [] }

abbrev db : PlanDb
db = (create_plan 1 (λ n. n) none (some 7) (codes " ship it\nnow") none 10 empty).1

abbrev done : StepChange
done = record no_change { status = some StepStatus.completed }

first_plan :
    db.plans
    ≡ record {
      id = 1;
      session_id = none;
      user_id = some 7;
      workspace_id = none;
      title = codes "ship it";
      goal = codes " ship it\nnow";
      status = PlanStatus.planned;
      current_step = 0;
      total_steps = 5;
      updated_at = 10;
    }
      ∷ []
unfolding runs
first_plan = refl

abbrev plan : Plan
plan = record {
  id = 1;
  session_id = none;
  user_id = some 7;
  workspace_id = none;
  title = codes "ship it";
  goal = codes " ship it\nnow";
  status = PlanStatus.planned;
  current_step = 0;
  total_steps = 5;
  updated_at = 10;
}

blank_goal_raises : title_from_goal (codes "  ") ≡ none
unfolding runs
blank_goal_raises = refl

early_completion : (complete_plan 1 7 false 11 db).0 ≡ err steps_outstanding
unfolding runs
early_completion = refl

IsCounted-db : IsCounted db
IsCounted-db =
    create_plan-IsCounted 1 (λ n. n) none (some 7) (codes " ship it\nnow") none 10 empty tt tt

update_step-IsCounted_example : IsCounted (update_step 1 3 7 false done 12 db).1
update_step-IsCounted_example = update_step-IsCounted 1 3 7 false done 12 db IsCounted-db

complete_plan_exact_example :
    ((complete_plan 1 7 false 11 db).0 ≡ ok (plan_completed 11 plan))
    ↔ (count_outstanding 1 db.steps ≡ 0)
unfolding runs
complete_plan_exact_example = complete_plan_exact 1 7 false 11 db plan refl refl refl refl
