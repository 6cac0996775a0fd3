-- ===== src/Agent/Sample.antt =====
-- A run of the orchestrator that delegates once and stages one calendar event.
use cora_os.Prelude.{ℕ, zero, suc, Bool, true, false, none, some, List, [], ◌∷◌}
use cora_os.Prelude.Exec.{ok}
use cora_os.Prelude.Text.{codes}
use cora_os.Governance.{low}
use cora_os.Agent.{
  Args, Call, ChatOutcome, replied, crashed, Message, Env, Settings, AgentDb, ToolRow, Run, pending,
  pass, StagedItem, calendar_create, email_draft, waiting_user, fail,
}
use cora_os.Agent.Loop.{AgentRequest}
use cora_os.Prelude.Text.{is_space, lstrip, strip, lower_char, lower, upper}
use cora_os.Governance.{
  is_external_name, is_external_execution_tool, fetch_policy, count_recent_executions, agent_stage,
  check_permission,
}
use cora_os.Delegations.{
  parse_status, parse_initial, active_count, create_delegation, update_delegation_status,
  complete_delegation, fail_delegation,
}
use cora_os.Agent.{fetch_tool_row, is_read_only, is_staging, write_run}
use cora_os.Agent.Staging.{proposal_fields, kind_of, collect_staged, stage_artifact, handle_staging}
use cora_os.Agent.Calls.{dispatch_read_only, handle_delegation, execute_calls}
use cora_os.Agent.Rounds.{round, rounds}
use cora_os.Agent.Ends.{pending_items}
use cora_os.Agent.Loop.{start_run, looped, run_with, run_spoke, run_agent}
use cora_os.Agent.Words.{
  has_override, is_denial, is_affirmation, classify_confirmation, parse_decision,
}
use cora_os.Agent.Confirm.{
  fire_staged, find_waiting, get_run, is_blocked, carried_out, resolve_interrupt,
  find_waiting_run_for_session, resolve_pending_for_session,
}

unfoldable pub sampled : Unit {0}
unfolding is_space lstrip strip lower_char lower upper is_external_name is_external_execution_tool
    fetch_policy count_recent_executions agent_stage check_permission parse_status parse_initial
    active_count create_delegation update_delegation_status complete_delegation fail_delegation
    fetch_tool_row is_read_only is_staging write_run proposal_fields kind_of collect_staged
    stage_artifact handle_staging dispatch_read_only handle_delegation execute_calls round rounds
    pending_items start_run looped run_with run_spoke run_agent has_override is_denial
    is_affirmation classify_confirmation parse_decision fire_staged find_waiting get_run is_blocked
    carried_out resolve_interrupt find_waiting_run_for_session resolve_pending_for_session
sampled = tt

abbrev pub event_args : Args
event_args = record {
  texts =
      ("title", codes "Review")
      ∷ ("start_time", codes "10:00")
      ∷ ("provider", codes "google_calendar")
      ∷ [];
  attendees = [];
}

abbrev pub delegate_call : Call
delegate_call = record {
  name = codes "delegate_to";
  arguments = record {
    texts = ("agent", codes " chronos") ∷ ("goal", codes "Find a free hour") ∷ [];
    attendees = [];
  };
}

abbrev pub stage_call : Call
stage_call = record { name = codes "chronos_create_schedule_proposal"; arguments = event_args }

-- the first request is answered by two calls, the others by a text
abbrev replies : ℕ → List Message → Bool → ChatOutcome
replies zero ms tools = replied record { content = []; calls = delegate_call ∷ stage_call ∷ [] }
replies (suc n) ms tools = replied record { content = codes " Done. "; calls = [] }

abbrev pub env : Env
env = record {
  chat = replies;
  dispatch_tool = λ n name args. ok (codes "found");
  list_calendar = λ n args. codes "no events";
  create_artifact = λ n name args. ok (codes "proposal 9");
  fire = λ n i. true;
  evaluate_run = λ n goal answer steps. some pass;
  plus_one_hour = λ t. some (codes "11:00");
  render_task = λ args. codes "Task";
  as_json = λ s. s;
  as_string = λ t. "text";
  payload = λ args k. "{}";
  now = λ n. 7200;
}

abbrev pub crashing : Env
crashing = record env { chat = λ n ms tools. crashed "KeyError" }

abbrev pub settings : Settings
settings = record {
  configured = true;
  runtime_enabled = true;
  delegation_enabled = true;
  write_enabled = true;
  interrupt_enabled = true;
  execution_enabled = true;
  eval_enabled = true;
  eval_gate_enabled = true;
  max_steps = 6;
  timezone = codes "UTC";
  agent_system_prompt = codes "You are an agent.";
  spokes =
      record { name = codes "CHRONOS"; description = codes "Schedules"; system_prompt = none } ∷ [];
}

abbrev pub request : AgentRequest
request = record {
  message = codes "Plan the review";
  who = record { user_id = some 3; session_id = some 4; workspace_id = none; agent_name = none };
  is_orchestrator = true;
  system_prompt = codes "You are ATLAS.";
  max_steps = none;
  run_id = none;
}

abbrev pub tool_row : ToolRow
tool_row = record {
  gov = record {
    name = codes "chronos_create_schedule_proposal";
    enabled = true;
    requires_confirmation = false;
    risk_level = low;
    allowed_agents = [];
  };
  tool_type = "internal_action";
}

abbrev pub pending_row : Run
pending_row = record {
  id = 1;
  session_id = some 4;
  user_id = some 3;
  workspace_id = none;
  agent_name = none;
  status = pending;
  goal = codes "Plan the review";
  max_steps = 6;
  answer = none;
  stopped = none;
  tool_calls = 0;
  step_count = 0;
  steps = [];
  error_message = none;
  evaluation = none;
  interrupt = none;
  completed_at = none;
}

abbrev pub db : AgentDb
db = record {
  gov = record { pool = true; policies = []; logs = []; traces = [] };
  deleg = record { pool = true; delegations = []; traces = [] };
  tools = tool_row ∷ [];
  runs = pending_row ∷ [];
  fresh = 2;
  effects = [];
}

abbrev pub event_item : StagedItem
event_item = record {
  tool = codes "chronos_create_schedule_proposal";
  kind = calendar_create (codes "google_calendar") event_args;
}

-- a run that waits, with an event and a draft, and a verdict that says fail
abbrev pub waiting_run : Run
waiting_run = record pending_row {
  status = waiting_user;
  evaluation = some fail;
  interrupt = some (record {
    items = event_item ∷ record { tool = codes "signal_create_draft"; kind = email_draft } ∷ [];
    decision = none;
    overridden = false;
    executed = [];
  });
}

abbrev pub waiting_db : AgentDb
waiting_db = record db { runs = waiting_run ∷ [] }
