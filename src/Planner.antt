-- ===== src/Planner.antt =====
-- apps/cora-api/app/agents/planner.py: plans, their steps, and the status changes of both. The
-- statuses are those that the tables' CHECK constraints admit; a request for any other text fails
-- the transition tables. New ids are arguments, and `now` is the time of the call.
pub mod Template
pub mod Steps
pub mod Progress
pub mod Moves
mod Tests
use cora_os.Prelude.{
  ℕ, zero, suc, ◌+◌, String, Bool, true, false, not, ◌&&◌, ◌||◌, Option, none, some, List, [], ◌∷◌,
  ◌++◌, ◌==◌, ltb, is_some, or_else, if◌then◌else◌,
}
use cora_os.Prelude.Exec.{
  Exec, Outcome, ok, err, or_raise, raise_if, raise_on, gets, modify, pure, transaction, ◌>>=◌,
  ◌>>◌,
}
use cora_os.Prelude.Table.{find, update}
use cora_os.Prelude.Text.{Text}
use cora_os.Planner.Template.{StepTemplate, title_from_goal, template_steps}

pub data PlanStatus : Type 0 where
  planned running completed failed cancelled : PlanStatus

pub data StepStatus : Type 0 where
  pending running completed failed skipped : StepStatus

pub data PlanError : Type 0 where
  unavailable not_found forbidden terminal invalid_transition steps_outstanding index_error :
      PlanError

-- A row of execution_plans.
pub record Plan : Type 0 where
  pub id : ℕ
  pub session_id : Option ℕ
  pub user_id : Option ℕ
  pub workspace_id : Option ℕ
  pub title : Text
  pub goal : Text
  pub status : PlanStatus
  pub current_step : ℕ
  pub total_steps : ℕ
  pub updated_at : ℕ

-- A row of execution_plan_steps. `result` is a JSON object that is only stored.
pub record Step : Type 0 where
  pub id : ℕ
  pub plan_id : ℕ
  pub step_number : ℕ
  pub title : String
  pub description : String
  pub assigned_agent : Option String
  pub tool_name : Option String
  pub status : StepStatus
  pub result : Option String
  pub started_at : Option ℕ
  pub completed_at : Option ℕ

pub record PlanDb : Type 0 where
  pub pool : Bool
  pub plans : List Plan
  pub steps : List Step

abbrev pub plan_key : Plan → ℕ
plan_key p = p.id

-- `PLAN_TERMINAL_STATUSES`
abbrev pub plan_is_terminal : PlanStatus → Bool
plan_is_terminal PlanStatus.planned = false
plan_is_terminal PlanStatus.running = false
plan_is_terminal _ = true

-- `PLAN_VALID_TRANSITIONS`
abbrev pub plan_allows : PlanStatus → PlanStatus → Bool
plan_allows PlanStatus.planned _ = true
plan_allows PlanStatus.running PlanStatus.planned = false
plan_allows PlanStatus.running _ = true
plan_allows _ _ = false

abbrev pub plan_code : PlanStatus → ℕ
plan_code PlanStatus.planned = 0
plan_code PlanStatus.running = 1
plan_code PlanStatus.completed = 2
plan_code PlanStatus.failed = 3
plan_code PlanStatus.cancelled = 4

-- `STEP_TERMINAL_STATUSES`
abbrev pub step_is_terminal : StepStatus → Bool
step_is_terminal StepStatus.pending = false
step_is_terminal StepStatus.running = false
step_is_terminal _ = true

-- `STEP_VALID_TRANSITIONS`
abbrev pub step_allows : StepStatus → StepStatus → Bool
step_allows StepStatus.pending _ = true
step_allows StepStatus.running StepStatus.pending = false
step_allows StepStatus.running _ = true
step_allows _ _ = false

abbrev pub step_code : StepStatus → ℕ
step_code StepStatus.pending = 0
step_code StepStatus.running = 1
step_code StepStatus.completed = 2
step_code StepStatus.failed = 3
step_code StepStatus.skipped = 4

-- `_check_plan_transition`: the error that it raises, if any
unfoldable pub check_plan_transition : PlanStatus → PlanStatus → Option PlanError
check_plan_transition current target =
    if plan_code current == plan_code target
    then none
    else if plan_is_terminal current
    then some terminal
    else if plan_allows current target
    then none
    else some invalid_transition

-- `_check_step_transition`: the error that it raises, if any
unfoldable pub check_step_transition : StepStatus → StepStatus → Option PlanError
check_step_transition current target =
    if step_code current == step_code target
    then none
    else if step_is_terminal current
    then some terminal
    else if step_allows current target
    then none
    else some invalid_transition

abbrev is_owner : Option ℕ → ℕ → Bool
is_owner none user = false
is_owner (some owner) user = owner == user

-- `_ensure_authorized`
unfoldable pub ensure_authorized : Plan → ℕ → Bool → Exec PlanError PlanDb (Unit {0})
ensure_authorized plan user is_admin =
    raise_if (not (is_admin || is_owner plan.user_id user)) forbidden

-- The steps of a plan with a terminal status, and the others.
unfoldable pub count_terminal : ℕ → List Step → ℕ
count_terminal k [] = 0
count_terminal k (s ∷ ss) =
    (if s.plan_id == k && step_is_terminal s.status then 1 else 0) + count_terminal k ss

unfoldable pub count_outstanding : ℕ → List Step → ℕ
count_outstanding k [] = 0
count_outstanding k (s ∷ ss) =
    (if s.plan_id == k && not (step_is_terminal s.status) then 1 else 0) + count_outstanding k ss

-- `_recompute_current_step`
unfoldable pub recompute_current_step : ℕ → ℕ → PlanDb → PlanDb
recompute_current_step k now db = record db {
  plans =
      update plan_key k
        (λ p. record p { current_step = count_terminal k db.steps; updated_at = now }) db.plans;
}

abbrev insert_steps : ℕ → (ℕ → ℕ) → ℕ → List StepTemplate → List Step
insert_steps k ids n [] = []
insert_steps k ids n (t ∷ ts) =
    record {
      id = ids n;
      plan_id = k;
      step_number = n;
      title = t.title;
      description = t.description;
      assigned_agent = t.assigned_agent;
      tool_name = t.tool_name;
      status = StepStatus.pending;
      result = none;
      started_at = none;
      completed_at = none;
    }
    ∷ insert_steps k ids (n + 1) ts

abbrev length_of : List StepTemplate → ℕ
length_of [] = 0
length_of (t ∷ ts) = suc (length_of ts)

-- `create_plan`: the plan's id, the id of its n-th step, and the columns given.
unfoldable pub create_plan :
    ℕ → (ℕ → ℕ) → Option ℕ → Option ℕ → Text → Option ℕ → ℕ → Exec PlanError PlanDb (Option Plan)
create_plan k ids session user goal workspace now db =
    if not db.pool
    then (ok none, db)
    else (do
      title ← or_raise (title_from_goal goal) index_error
      let plan : Plan = record {
        id = k;
        session_id = session;
        user_id = user;
        workspace_id = workspace;
        title = title;
        goal = goal;
        status = PlanStatus.planned;
        current_step = 0;
        total_steps = length_of template_steps;
        updated_at = now;
      }
      modify (λ d. record d {
        plans = d.plans ++ plan ∷ [];
        steps = d.steps ++ insert_steps k ids 1 template_steps;
      })
      pure (some plan))
        db

abbrev or_keep {ℓ} : {A : Type ℓ} → Option A → A → A
or_keep none old = old
or_keep (some new) old = new

abbrev check_target : PlanStatus → Option PlanStatus → Option PlanError
check_target current none = none
check_target current (some target) = check_plan_transition current target

abbrev pub plan_written : Option Text → Option Text → Option PlanStatus → ℕ → Plan → Plan
plan_written title goal target now p = record p {
  title = or_keep title p.title;
  goal = or_keep goal p.goal;
  status = or_keep target p.status;
  updated_at = now;
}

-- `update_plan`
unfoldable pub update_plan :
    ℕ → ℕ → Bool → Option Text → Option Text → Option PlanStatus → ℕ → Exec PlanError PlanDb Plan
unfolding check_plan_transition ensure_authorized
update_plan k user is_admin title goal target now = do
  raise_if (not (← gets (λ db. db.pool))) unavailable
  transaction do
    row ← or_raise (← gets (λ db. find plan_key k db.plans)) not_found
    ensure_authorized row user is_admin
    raise_on (check_target row.status target)
    modify (λ db. record db {
      plans = update plan_key k (plan_written title goal target now) db.plans;
    })
    pure (plan_written title goal target now row)

-- the columns that an UPDATE of a step may set
pub record StepChange : Type 0 where
  pub title : Option String
  pub description : Option String
  pub assigned_agent : Option String
  pub tool_name : Option String
  pub status : Option StepStatus
  pub result : Option String

abbrev pub no_change : StepChange
no_change = record {
  title = none;
  description = none;
  assigned_agent = none;
  tool_name = none;
  status = none;
  result = none;
}

abbrev finishes : Option StepStatus → Bool
finishes none = false
finishes (some t) = step_is_terminal t

abbrev starts : Option StepStatus → Bool
starts (some StepStatus.running) = true
starts _ = false

-- the timestamps after the change: `completed_at` first, which a missing `started_at` takes over
abbrev completed_after : Option StepStatus → ℕ → Option ℕ → Option ℕ
completed_after target now old = if finishes target then or_else old (some now) else old

abbrev started_after : Option StepStatus → ℕ → Option ℕ → Option ℕ → Option ℕ
started_after target now started done =
    if starts target || (finishes target && not (is_some done))
    then or_else started (some now)
    else started

unfoldable pub step_written : StepChange → ℕ → Step → Step
step_written c now s = record s {
  title = or_keep c.title s.title;
  description = or_keep c.description s.description;
  assigned_agent = or_else c.assigned_agent s.assigned_agent;
  tool_name = or_else c.tool_name s.tool_name;
  status = or_keep c.status s.status;
  result = or_else c.result s.result;
  started_at = started_after c.status now s.started_at s.completed_at;
  completed_at = completed_after c.status now s.completed_at;
}

abbrev check_step_target : StepStatus → Option StepStatus → Option PlanError
check_step_target current none = none
check_step_target current (some target) = check_step_transition current target

-- WHERE id = $1 AND plan_id = $2: the primary key names one row at most.
abbrev pub find_step : ℕ → ℕ → List Step → Option Step
find_step k j [] = none
find_step k j (s ∷ ss) = if s.id == j && s.plan_id == k then some s else find_step k j ss

abbrev pub update_where : ℕ → ℕ → (Step → Step) → List Step → List Step
update_where k j f [] = []
update_where k j f (s ∷ ss) =
    if s.id == j && s.plan_id == k then f s ∷ ss else s ∷ update_where k j f ss

-- `update_step`
unfoldable pub update_step : ℕ → ℕ → ℕ → Bool → StepChange → ℕ → Exec PlanError PlanDb Step
unfolding check_step_transition ensure_authorized recompute_current_step
update_step k j user is_admin c now = do
  raise_if (not (← gets (λ db. db.pool))) unavailable
  transaction do
    plan ← or_raise (← gets (λ db. find plan_key k db.plans)) not_found
    ensure_authorized plan user is_admin
    row ← or_raise (← gets (λ db. find_step k j db.steps)) not_found
    raise_on (check_step_target row.status c.status)
    modify (λ db. record db { steps = update_where k j (step_written c now) db.steps })
    modify (λ db. if is_some c.status then recompute_current_step k now db else db)
    pure (step_written c now row)

-- `complete_step` and `fail_step`; the error message is the JSON object that holds it.
unfoldable pub complete_step : ℕ → ℕ → ℕ → Bool → Option String → ℕ → Exec PlanError PlanDb Step
complete_step k j user is_admin result now =
    update_step k j user is_admin
      (record no_change { status = some StepStatus.completed; result = result }) now

unfoldable pub fail_step : ℕ → ℕ → ℕ → Bool → Option String → ℕ → Exec PlanError PlanDb Step
fail_step k j user is_admin error now =
    update_step k j user is_admin
      (record no_change { status = some StepStatus.failed; result = error }) now

-- `cancel_plan`
unfoldable pub cancel_plan : ℕ → ℕ → Bool → ℕ → Exec PlanError PlanDb Plan
cancel_plan k user is_admin now =
    update_plan k user is_admin none none (some PlanStatus.cancelled) now

abbrev pub plan_completed : ℕ → Plan → Plan
plan_completed now p = record p { status = PlanStatus.completed; updated_at = now }

-- `complete_plan`
unfoldable pub complete_plan : ℕ → ℕ → Bool → ℕ → Exec PlanError PlanDb Plan
unfolding check_plan_transition ensure_authorized
complete_plan k user is_admin now = do
  raise_if (not (← gets (λ db. db.pool))) unavailable
  transaction do
    row ← or_raise (← gets (λ db. find plan_key k db.plans)) not_found
    ensure_authorized row user is_admin
    raise_on (check_plan_transition row.status PlanStatus.completed)
    outstanding ← gets (λ db. count_outstanding k db.steps)
    raise_if (ltb 0 outstanding) steps_outstanding
    modify (λ db. record db { plans = update plan_key k (plan_completed now) db.plans })
    pure (plan_completed now row)
