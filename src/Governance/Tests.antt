-- ===== src/Governance/Tests.antt =====
-- Tools, agents and policies, and the theorems there.
use cora_os.Prelude.{◌≤◌, ◌≡◌, refl, true, false, none, some, [], ◌∷◌}
use cora_os.Prelude.Text.{codes, is_space, lstrip, strip, lower_char, lower}
use cora_os.Governance.{
  Tool, low, Policy, ExecutionLog, GovernanceDb, fetch_policy, check_permission,
  count_recent_executions, is_external_name, is_external_execution_tool, log_execution_attempt,
  enforce_external_action_block, write_runtime_trace, agent_stage,
}
use cora_os.Governance.Decision.{agent_may}
use cora_os.Governance.Limits.{rate_limit_kept}

runs : Unit {0}
unfolding is_space lstrip strip lower_char lower fetch_policy check_permission agent_stage
    count_recent_executions is_external_name is_external_execution_tool log_execution_attempt
    enforce_external_action_block write_runtime_trace agent_may
runs = tt

abbrev search : Tool
search = record {
  name = codes "web_search";
  enabled = true;
  requires_confirmation = false;
  risk_level = low;
  allowed_agents = [];
}

abbrev call : ExecutionLog
call = record {
  session_id = none;
  user_id = some 7;
  tool_name = codes "web_search";
  agent_name = some (codes "SCRIBE");
  allowed = true;
  status = "success";
  error_message = none;
  created_at = 5000;
}

abbrev limit : Policy
limit = record {
  tool_name = codes "web_search";
  agent_name = codes "SCRIBE";
  allowed = true;
  requires_confirmation = true;
  max_calls_per_hour = some 2;
}

abbrev db : GovernanceDb
db = record { pool = true; policies = limit ∷ []; logs = call ∷ []; traces = [] }

previews_pass : is_external_execution_tool (some (codes " signal_prepare_send_intent ")) ≡ false
unfolding runs
previews_pass = refl

sends_blocked : is_external_execution_tool (some (codes " Send_SMS ")) ≡ true
unfolding runs
sends_blocked = refl

limited :
    (check_permission search
      (some (codes "SCRIBE"))
      true
      1400
      (log_execution_attempt call db)).allowed
    ≡ false
unfolding runs
limited = refl

rate_limit_kept_example :
    count_recent_executions
      (codes "web_search")
      1400
      none
      (some (codes "SCRIBE"))
      (log_execution_attempt call db)
    ≤ 2
unfolding runs
rate_limit_kept_example =
    rate_limit_kept search (codes "SCRIBE") false 1400 db limit 2 call refl refl refl
