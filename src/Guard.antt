-- ===== src/Guard.antt =====
-- apps/cora-api/app/execution_guard.py: the global guard on external execution. The setting
-- EXTERNAL_EXECUTION_ENABLED is the argument `enabled`.
pub mod Outcomes
mod Tests
use cora_os.Prelude.{
  ℕ, String, Bool, true, false, not, ◌&&◌, Option, none, some, List, [], ◌∷◌, all, if◌then◌else◌,
}
use text.Mathlib.Text.{◌==◌}
use cora_os.Prelude.Exec.{Outcome, ok, err, Exec}
use cora_os.Prelude.Text.{Text, codes}
use cora_os.Governance.{
  GovernanceDb, is_external_execution_tool, log_execution_attempt, write_runtime_trace,
}

abbrev pub blocked_message : String
blocked_message = "External execution disabled by global safety guard"

-- `EXECUTABLE_ACTIONS`
abbrev pub executable_actions : List Text
executable_actions =
    codes "send_email"
    ∷ codes "send_gmail"
    ∷ codes "send_outlook_email"
    ∷ codes "create_calendar_event"
    ∷ codes "create_google_calendar_event"
    ∷ codes "create_outlook_calendar_event"
    ∷ codes "execute_integration_intent"
    ∷ []

-- what the guard reads of an integration intent
pub record Intent : Type 0 where
  pub id : ℕ
  pub status : String
  pub dry_run : Bool

-- the keys of `checks`, in their order
pub data CheckName : Type 0 where
  external_execution_enabled intent_confirmed dry_run_disabled provider_connected token_ready
        governance_allows :
      CheckName

-- `GuardResult`
pub record GuardResult : Type 0 where
  pub allowed : Bool
  pub reason : String
  pub checks : List (CheckName × Bool)
  pub blockers : List CheckName

-- the arguments that decide
pub record Request : Type 0 where
  pub action_type : Option Text
  pub provider_type : Option Text
  pub intent : Option Intent
  pub provider_connected : Bool
  pub token_ready : Bool

abbrev is_confirmed : Option Intent → Bool
is_confirmed none = false
is_confirmed (some i) = i.status == "confirmed"

abbrev is_real : Option Intent → Bool
is_real none = false
is_real (some i) = not i.dry_run

abbrev pub checks_of : Bool → Request → List (CheckName × Bool)
checks_of enabled r =
    (external_execution_enabled, enabled)
    ∷ (intent_confirmed, is_confirmed r.intent)
    ∷ (dry_run_disabled, is_real r.intent)
    ∷ (provider_connected, r.provider_connected)
    ∷ (token_ready, r.token_ready)
    ∷ (governance_allows, not (is_external_execution_tool r.action_type))
    ∷ []

-- `[k for k, v in checks.items() if not v]`
abbrev pub failing : List (CheckName × Bool) → List CheckName
failing [] = []
failing (c ∷ cs) = if c.1 then failing cs else c.0 ∷ failing cs

-- `evaluate_external_execution`
unfoldable pub evaluate_external_execution : Bool → Request → GuardResult
evaluate_external_execution enabled r =
    let checks = checks_of enabled r in
    let allowed = all (λ c. c.1) checks in
    record {
      allowed = allowed;
      reason = if allowed then "external execution permitted" else blocked_message;
      checks = checks;
      blockers = failing checks;
    }

-- who asks: the arguments that are only recorded
pub record Caller : Type 0 where
  pub user_id : Option ℕ
  pub workspace_id : Option ℕ
  pub agent_name : Option Text
  pub session_id : Option ℕ

-- `log_blocked`
unfoldable pub log_blocked : Caller → ℕ → GovernanceDb → GovernanceDb
log_blocked who now db =
    write_runtime_trace
      record {
        session_id = who.session_id;
        user_id = who.user_id;
        workspace_id = who.workspace_id;
        trace_type = "external_execution_blocked";
        status = "blocked";
        selected_agent = who.agent_name;
        tool_name = codes "external_execution_blocked";
        error_message = some blocked_message;
      }
      (log_execution_attempt
        record {
          session_id = who.session_id;
          user_id = who.user_id;
          tool_name = codes "external_execution_blocked";
          agent_name = who.agent_name;
          allowed = false;
          status = "blocked";
          error_message = some blocked_message;
          created_at = now;
        }
        db)

-- `assert_external_execution_allowed`; ExecutionBlocked carries the result.
unfoldable pub assert_external_execution_allowed :
    Bool → Request → Caller → ℕ → Exec GuardResult GovernanceDb GuardResult
assert_external_execution_allowed enabled r who now db =
    let result = evaluate_external_execution enabled r in
    if result.allowed then (ok result, db) else (err result, log_blocked who now db)

-- `execution_status`
pub record ExecutionStatus : Type 0 where
  pub external_execution_enabled : Bool
  pub dry_run_enforced : Bool
  pub execution_available : Bool

unfoldable pub execution_status : Bool → ExecutionStatus
execution_status enabled = record {
  external_execution_enabled = enabled;
  dry_run_enforced = not enabled;
  execution_available = enabled;
}
