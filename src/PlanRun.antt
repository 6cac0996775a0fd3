-- ===== src/PlanRun.antt =====
-- apps/cora-api/app/worker.py: the handlers that run a plan's steps (`execute_plan_step`,
-- `execute_plan`). They compose the plans, the delegations and the permission of tools. What a tool
-- answers is `dispatch`, which reads the log of the dispatches made so far. `since` is one hour before
-- the call. Payloads of results and traces are left out.
pub mod Tame
pub mod Opened
pub mod Orderly
mod Tests
use cora_os.Prelude.{
  ℕ, suc, ◌+◌, String, Bool, true, false, not, ◌&&◌, ◌||◌, Option, none, some, List, [], ◌∷◌, ◌++◌,
  is_nil, leb, ◌==◌, if◌then◌else◌,
}
use cora_os.Prelude.Exec.{Outcome, ok, err}
use cora_os.Prelude.Table.{find}
use cora_os.Prelude.Text.{Text, codes, upper, text_eq}
use cora_os.Governance.{Tool, GovernanceDb, RuntimeTrace, check_permission}
use cora_os.Delegations.{
  Delegation, DelegationDb, DelegationError, NewDelegation, create_delegation, complete_delegation,
  fail_delegation,
}
use cora_os.Planner.{
  PlanStatus, StepStatus, PlanError, Plan, Step, PlanDb, StepChange, no_change, plan_key,
  step_is_terminal, find_step, update_plan, update_step, fail_step,
}

-- how a handler fails: `TransientError`, `PermanentError`, or another exception
pub data JobFailure : Type 0 where
  transient permanent crashed : String → JobFailure

-- a dispatch of a tool, for an agent
pub record Dispatch : Type 0 where
  pub tool : Text
  pub agent : Option Text

pub record PlanWorld : Type 0 where
  pub plans : PlanDb
  pub gov : GovernanceDb
  pub deleg : DelegationDb
  pub tools : List Tool
  pub traces : List RuntimeTrace
  pub dispatched : List Dispatch
  pub fresh : ℕ

-- the job, and what other programs answer
pub record PlanJob : Type 0 where
  pub plan_id : ℕ
  pub session_id : Option ℕ
  pub user_id : Option ℕ
  pub acting_user : ℕ
  pub now : ℕ
  pub since : ℕ
  pub dispatch : List Dispatch → Text → Outcome String String
  pub as_json : String → String

pub data StepOutcome : Type 0 where
  skipped ran : StepOutcome

abbrev pub find_by_name : Text → List Tool → Option Tool
find_by_name n [] = none
find_by_name n (t ∷ ts) = if text_eq t.name n then some t else find_by_name n ts

abbrev pub agent_of : Option String → Option Text
agent_of none = none
agent_of (some a) = some (codes a)

-- a text that is there and not empty
abbrev pub named_text : Option String → Option Text
named_text none = none
named_text (some a) = if is_nil (codes a) then none else some (codes a)

abbrev pub text_or : Text → Option String → Text
text_or d s = elim (named_text s) [ none ↦ d | some t ↦ t ]

abbrev pub step_delegation : PlanJob → Text → NewDelegation
step_delegation job agent = record {
  from_agent = codes "ATLAS";
  to_agent = agent;
  delegation_reason = some "Worker dispatching plan step";
  session_id = job.session_id;
  execution_plan_id = some job.plan_id;
  workspace_id = none;
  input_payload = some "step";
  user_id = job.user_id;
  initial_status = "running";
}

abbrev pub kept_open :
    ℕ → Outcome DelegationError Delegation × DelegationDb → PlanWorld → Option ℕ × PlanWorld
kept_open k (ok row, d) w = (some k, record w { deleg = d; fresh = suc k })
kept_open k (err e, d) w = (none, record w { deleg = d; fresh = suc k })

abbrev pub opened_for : PlanJob → PlanWorld → Option Text → Option ℕ × PlanWorld
opened_for job w none = (none, w)
opened_for job w (some agent) =
    if text_eq (upper agent) (codes "ATLAS")
    then (none, w)
    else kept_open w.fresh (create_delegation w.fresh (step_delegation job agent) w.deleg) w

-- the delegation for the step, if it can be opened
unfoldable pub open_delegation : PlanJob → Step → PlanWorld → Option ℕ × PlanWorld
open_delegation job step w = opened_for job w (named_text step.assigned_agent)

-- `_close_delegation_fail`
abbrev pub close_delegation_fail : PlanJob → Option ℕ → String → PlanWorld → PlanWorld
close_delegation_fail job none message w = w
close_delegation_fail job (some k) message w = record w {
  deleg = (fail_delegation job.as_json k message job.user_id job.now w.deleg).1;
}

abbrev pub close_delegation : PlanJob → Option ℕ → PlanWorld → PlanWorld
close_delegation job none w = w
close_delegation job (some k) w = record w {
  deleg = (complete_delegation k (some "completed") job.user_id job.now w.deleg).1;
}

abbrev answer_of_tool : Outcome String String → Outcome JobFailure String
answer_of_tool (ok r) = ok r
answer_of_tool (err e) = err (transient e)

abbrev pub dispatch_for :
    PlanJob → Option Text → PlanWorld → Tool → Outcome JobFailure String × PlanWorld
dispatch_for job agent w t =
    if (check_permission t agent false job.since w.gov).allowed
    then (
      answer_of_tool (job.dispatch w.dispatched t.name),
      record w { dispatched = w.dispatched ++ record { tool = t.name; agent = agent } ∷ [] },
    )
    else (err (permanent "tool denied by governance"), w)

abbrev pub found_tool :
    PlanJob → Option Text → PlanWorld → Option Tool → Outcome JobFailure String × PlanWorld
found_tool job agent w none = (err (permanent "tool not found"), w)
found_tool job agent w (some t) = dispatch_for job agent w t

abbrev pub tool_for :
    PlanJob → Option Text → PlanWorld → Option Text → Outcome JobFailure String × PlanWorld
tool_for job agent w none = (ok "simulated", w)
tool_for job agent w (some name) = found_tool job agent w (find_by_name name w.tools)

-- the step's tool; without one the step is simulated
unfoldable pub run_tool : PlanJob → Step → PlanWorld → Outcome JobFailure String × PlanWorld
run_tool job step w = tool_for job (agent_of step.assigned_agent) w (named_text step.tool_name)

abbrev pub step_done : String → StepChange
step_done result = record no_change { status = some StepStatus.completed; result = some result }

-- the UPDATE of the step, and the end of the delegation
abbrev pub step_updated :
    PlanJob
    → Option ℕ
    → PlanWorld
    → Outcome PlanError Step × PlanDb
    → Outcome JobFailure StepOutcome × PlanWorld
step_updated job k w (ok step, plans) =
    (ok ran, close_delegation job k (record w { plans = plans }))
step_updated job k w (err e, plans) = (
  err (permanent "step transition failed"),
  close_delegation_fail job k "step transition failed" (record w { plans = plans }),
)

abbrev pub execution_trace : PlanJob → String → String → Text → Text → PlanWorld → PlanWorld
execution_trace job trace_type status agent tool w =
    if w.gov.pool
    then record w {
      traces =
          w.traces
          ++ record {
            session_id = job.session_id;
            user_id = job.user_id;
            workspace_id = none;
            trace_type = trace_type;
            status = status;
            selected_agent = some agent;
            tool_name = tool;
            error_message = none;
          }
            ∷ [];
    }
    else w

abbrev pub tool_ran :
    PlanJob
    → Step
    → Option ℕ
    → Outcome JobFailure String × PlanWorld
    → Outcome JobFailure StepOutcome × PlanWorld
tool_ran job step k (err f, w) = (err f, close_delegation_fail job k "tool failed" w)
tool_ran job step k (ok result, w) =
    let traced =
      execution_trace job "worker_execution" "ok" (text_or (codes "ATLAS") step.assigned_agent)
        (text_or [] step.tool_name) w in
    step_updated job k traced
      (update_step job.plan_id step.id job.acting_user true (step_done result) job.now traced.plans)

abbrev pub run_found :
    PlanJob → PlanWorld → Option Step → Outcome JobFailure StepOutcome × PlanWorld
run_found job w none = (err (permanent "step no longer exists"), w)
run_found job w (some step) =
    if step_is_terminal step.status
    then (ok skipped, w)
    else let o = open_delegation job step w in tool_ran job step o.0 (run_tool job step o.1)

-- `execute_plan_step`
unfoldable pub execute_plan_step :
    PlanJob → ℕ → PlanWorld → Outcome JobFailure StepOutcome × PlanWorld
execute_plan_step job j w = run_found job w (find_step job.plan_id j w.plans.steps)

pub data PlanOutcome : Type 0 where
  plan_skipped : PlanOutcome
  plan_failed plan_ended : (steps_ran : ℕ) → PlanOutcome

abbrev insert_step : Step → List Step → List Step
insert_step s [] = s ∷ []
insert_step s (t ∷ ts) =
    let rest = insert_step s ts in if leb s.step_number t.step_number then s ∷ t ∷ ts else t ∷ rest

-- the steps of a plan, by their numbers
unfoldable pub plan_steps : ℕ → List Step → List Step
plan_steps k [] = []
plan_steps k (s ∷ ss) = if s.plan_id == k then insert_step s (plan_steps k ss) else plan_steps k ss

abbrev pub with_plans : PlanDb → PlanWorld → PlanWorld
with_plans d w = record w { plans = d }

abbrev pub set_plan : PlanJob → PlanStatus → PlanWorld → Outcome PlanError Plan × PlanWorld
set_plan job target w =
    let r = update_plan job.plan_id job.acting_user true none none (some target) job.now w.plans in
    (r.0, with_plans r.1 w)

-- the end of the plan, unless `update_plan` raises
abbrev pub plan_closed :
    PlanJob
    → String
    → PlanOutcome
    → Outcome PlanError Plan × PlanWorld
    → Outcome JobFailure PlanOutcome × PlanWorld
plan_closed job status outcome (err e, w) = (err (crashed "plan transition failed"), w)
plan_closed job status outcome (ok p, w) = (
  ok outcome,
  execution_trace job "plan_execution" status (codes "ATLAS") (codes "execution_plan") w,
)

-- the plan after a step that fails for good; a `PlanError` of `fail_step` is only logged
abbrev pub step_failed :
    PlanJob → ℕ → String → ℕ → PlanWorld → Outcome JobFailure PlanOutcome × PlanWorld
step_failed job j message n w =
    let marked =
      fail_step job.plan_id j job.acting_user true (some (job.as_json message)) job.now w.plans in
    plan_closed job "error" (plan_failed n) (set_plan job PlanStatus.failed (with_plans marked.1 w))

-- `status in ("completed", "skipped")`
abbrev pub is_passed : StepStatus → Bool
is_passed StepStatus.completed = true
is_passed StepStatus.skipped = true
is_passed _ = false

-- after a step: `more` runs the steps that are left
abbrev pub after_step :
    PlanJob
    → ℕ
    → ℕ
    → (PlanWorld → Outcome JobFailure PlanOutcome × PlanWorld)
    → Outcome JobFailure StepOutcome × PlanWorld
    → Outcome JobFailure PlanOutcome × PlanWorld
after_step job n j more (ok r, w) = more w
after_step job n j more (err (transient e), w) = (err (transient e), w)
after_step job n j more (err (crashed e), w) = (err (crashed e), w)
after_step job n j more (err (permanent e), w) = step_failed job j e n w

-- the loop over the steps that were read at the start
unfoldable pub run_steps :
    PlanJob → ℕ → List Step → PlanWorld → Outcome JobFailure PlanOutcome × PlanWorld
run_steps job n [] w = plan_closed job "ok" (plan_ended n) (set_plan job PlanStatus.completed w)
run_steps job n (s ∷ ss) w =
    if is_passed s.status
    then run_steps job n ss w
    else after_step job n s.id (λ w'. run_steps job (suc n) ss w') (execute_plan_step job s.id w)

abbrev pub plan_started :
    PlanJob
    → List Step
    → Outcome PlanError Plan × PlanWorld
    → Outcome JobFailure PlanOutcome × PlanWorld
plan_started job steps (err e, w) = (ok plan_skipped, w)
plan_started job steps (ok p, w) = run_steps job 0 steps w

-- `plan["status"] in ("completed", "cancelled")`
abbrev pub is_over : PlanStatus → Bool
is_over PlanStatus.completed = true
is_over PlanStatus.cancelled = true
is_over _ = false

abbrev pub plan_found :
    PlanJob → PlanWorld → Option Plan → Outcome JobFailure PlanOutcome × PlanWorld
plan_found job w none = (err (permanent "plan no longer exists"), w)
plan_found job w (some plan) =
    if is_over plan.status
    then (ok plan_skipped, w)
    else plan_started job (plan_steps job.plan_id w.plans.steps) (set_plan job PlanStatus.running w)

-- `execute_plan`
unfoldable pub execute_plan : PlanJob → PlanWorld → Outcome JobFailure PlanOutcome × PlanWorld
execute_plan job w = plan_found job w (find plan_key job.plan_id w.plans.plans)
