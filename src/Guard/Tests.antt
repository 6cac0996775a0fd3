-- ===== src/Guard/Tests.antt =====
-- A confirmed intent under the guard, and the theorems there.
use cora_os.Prelude.{◌≡◌, ◌⊎◌, refl, true, false, none, some, [], ◌∷◌, length}
use cora_os.Prelude.Text.{codes, is_space, lstrip, strip, lower_char, lower}
use cora_os.Governance.{
  GovernanceDb, is_external_name, is_external_execution_tool, log_execution_attempt,
  write_runtime_trace,
}
use cora_os.Guard.{
  Request, Caller, evaluate_external_execution, assert_external_execution_allowed, log_blocked,
  execution_status, executable_actions, external_execution_enabled,
}
use cora_os.Guard.Outcomes.{IsAllowed, IsBlocked, assert_outcome}

runs : Unit {0}
unfolding is_space lstrip strip lower_char lower is_external_name is_external_execution_tool
    evaluate_external_execution assert_external_execution_allowed log_blocked execution_status
    log_execution_attempt write_runtime_trace
runs = tt

abbrev request : Request
request = record {
  action_type = some (codes "execute_integration_intent");
  provider_type = some (codes "email");
  intent = some record { id = 3; status = "confirmed"; dry_run = false };
  provider_connected = true;
  token_ready = true;
}

abbrev caller : Caller
caller = record { user_id = some 7; workspace_id = none; agent_name = none; session_id = none }

abbrev db : GovernanceDb
db = record { pool = true; policies = []; logs = []; traces = [] }

enforced : (execution_status false).dry_run_enforced ≡ true
unfolding runs
enforced = refl

seven : length executable_actions ≡ 7
seven = refl

-- everything is there but the master flag, and the action counts as an external execution
assert_outcome_example :
    IsAllowed false request db (assert_external_execution_allowed false request caller 50 db)
    ⊎ IsBlocked false request caller db
        (assert_external_execution_allowed false request caller 50 db)
assert_outcome_example = assert_outcome false request caller 50 db refl

abbrev inward : Request
inward = record request { action_type = some (codes "draft_reply") }

lets_through : (assert_external_execution_allowed true inward caller 50 db).1 ≡ db
unfolding runs
lets_through = refl

flag_blocks : (evaluate_external_execution false inward).blockers ≡ external_execution_enabled ∷ []
unfolding runs
flag_blocks = refl
