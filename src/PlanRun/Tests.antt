-- ===== src/PlanRun/Tests.antt =====
-- A plan of two steps, of which one has a tool, and an instance of each result.
use cora_os.Prelude.{ℕ, String, ◌≡◌, refl, true, false, Option, none, some, [], ◌∷◌}
use cora_os.Prelude.Exec.{ok}
use cora_os.Prelude.Text.{codes, is_space, lstrip, strip, lower_char, lower, upper}
use cora_os.Governance.{
  Tool, low, is_external_name, is_external_execution_tool, fetch_policy, count_recent_executions,
  agent_stage, check_permission,
}
use cora_os.Delegations.{
  parse_status, parse_initial, active_count, create_delegation, update_delegation_status,
  complete_delegation, fail_delegation,
}
use cora_os.Planner.{
  PlanStatus, StepStatus, Step, check_plan_transition, check_step_transition, ensure_authorized,
  count_terminal, recompute_current_step, update_plan, step_written, update_step, fail_step,
}
use cora_os.PlanRun.{
  PlanWorld, PlanJob, plan_ended, plan_failed, open_delegation, run_tool, execute_plan_step,
  plan_steps, run_steps, execute_plan,
}
use cora_os.PlanRun.Orderly.{IsOrderly, execute_plan-IsOrderly}

abbrev step : ℕ → ℕ → Option String → Option String → Step
step k n agent tool = record {
  id = k;
  plan_id = 1;
  step_number = n;
  title = "Step";
  description = "";
  assigned_agent = agent;
  tool_name = tool;
  status = StepStatus.pending;
  result = none;
  started_at = none;
  completed_at = none;
}

abbrev search : Tool
search = record {
  name = codes "web_search";
  enabled = true;
  requires_confirmation = false;
  risk_level = low;
  allowed_agents = codes "PULSE" ∷ [];
}

abbrev world : String → PlanWorld
world agent = record {
  plans = record {
    pool = true;
    plans =
        record {
          id = 1;
          session_id = some 4;
          user_id = some 3;
          workspace_id = none;
          title = codes "Find";
          goal = codes "Find";
          status = PlanStatus.planned;
          current_step = 0;
          total_steps = 2;
          updated_at = 0;
        }
        ∷ [];
    steps = step 12 2 (some "ATLAS") none ∷ step 11 1 (some agent) (some "web_search") ∷ [];
  };
  gov = record { pool = true; policies = []; logs = []; traces = [] };
  deleg = record { pool = true; delegations = []; traces = [] };
  tools = search ∷ [];
  traces = [];
  dispatched = [];
  fresh = 50;
}

abbrev job : PlanJob
job = record {
  plan_id = 1;
  session_id = some 4;
  user_id = some 3;
  acting_user = 3;
  now = 9000;
  since = 5400;
  dispatch = λ ds name. ok "found";
  as_json = λ s. s;
}

runs : Unit {0}
unfolding is_space lstrip strip lower_char lower upper is_external_name is_external_execution_tool
    fetch_policy count_recent_executions agent_stage check_permission parse_status parse_initial
    active_count create_delegation update_delegation_status complete_delegation fail_delegation
    check_plan_transition check_step_transition ensure_authorized count_terminal
    recompute_current_step update_plan step_written update_step fail_step open_delegation run_tool
    execute_plan_step plan_steps run_steps execute_plan
runs = tt

both_run : (execute_plan job (world "PULSE")).0 ≡ ok (plan_ended 2)
unfolding runs
both_run = refl

dispatched_once :
    (execute_plan job (world "PULSE")).1.dispatched
    ≡ record { tool = codes "web_search"; agent = some (codes "PULSE") } ∷ []
unfolding runs
dispatched_once = refl

denied_fails : (execute_plan job (world "SCRIBE")).0 ≡ ok (plan_failed 0)
unfolding runs
denied_fails = refl

execute_plan-IsOrderly_example : IsOrderly 5400 (world "PULSE") (execute_plan job (world "PULSE")).1
execute_plan-IsOrderly_example = execute_plan-IsOrderly job (world "PULSE")
