-- ===== src/Interlock.antt =====
-- apps/cora-api/app/final_interlock.py: the last check before an execution. As in Approval, `hash`
-- is the digest of a payload preview, `enabled` is EXTERNAL_EXECUTION_ENABLED and `ev` is what the
-- connector tables and the adapter answer.
pub mod Verdict
mod Tests
use cora_os.Prelude.{
  ℕ, String, Bool, true, false, not, ◌&&◌, Option, none, some, List, [], ◌∷◌, ◌++◌, ◌==◌, any, all,
  is_some, if◌then◌else◌,
}
use cora_os.Prelude.Exec.{
  Exec, Outcome, ok, err, or_raise, raise_if, gets, modify, pure, ◌>>=◌, ◌>>◌,
}
use cora_os.Prelude.Text.{Text, codes, text_eq}
use cora_os.Governance.{RuntimeTrace}
use cora_os.Flags.{Flag, get_flag, flag_allows_execution}
use cora_os.Approval.{
  ApprovalError, Decision, dec_approved, IntentRow, Approval, IntentEvent, ApprovalDb, Adapter,
  Evidence, visible_intent, latest_decision,
}
use cora_os.Approval.Checklist.{Snapshot, credential_snapshot, source_is_approved}
use cora_os.Approval.Decide.{traced}

-- the result statuses
pub data InterlockStatus : Type 0 where
  blocked_by_final_interlock ready_but_execution_disabled missing_approval provider_not_ready
        payload_mismatch :
      InterlockStatus

-- `checks`
pub record Checks : Type 0 where
  pub source_approved : Bool
  pub intent_approved_for_execution : Bool
  pub approval_audit_exists : Bool
  pub provider_connected : Bool
  pub token_valid_or_refreshable : Bool
  pub required_scopes_present : Bool
  pub provider_supports_action : Bool
  pub payload_hash_matches : Bool
  pub feature_flag_present : Bool
  pub dry_run_cleared_for_execution : Bool
  pub external_execution_enabled : Bool
  pub feature_flag_allows_execution : Bool

-- `_action_supported`
abbrev serves : Text → Text → Adapter → Bool
serves provider_type action a =
    text_eq a.provider_type provider_type && any (text_eq action) a.supported_actions

abbrev pub is_action_supported : Option Adapter → Text → Option Text → Bool
is_action_supported (some a) provider_type (some action) = serves provider_type action a
is_action_supported _ _ _ = false

abbrev is_approval : Decision → Bool
is_approval dec_approved = true
is_approval _ = false

-- SELECT … WHERE intent_id = $1 AND decision = $2 ORDER BY created_at DESC LIMIT 1
abbrev last_approval : ℕ → Option Approval → List Approval → Option Approval
last_approval k last [] = last
last_approval k last (a ∷ rest) =
    last_approval k (if a.intent_id == k && is_approval a.decision then some a else last) rest

unfoldable pub approval_row : ℕ → List Approval → Option Approval
approval_row k rows = last_approval k none rows

abbrev pub is_approved_decision : Option Decision → Bool
is_approved_decision (some dec_approved) = true
is_approved_decision _ = false

abbrev pub same_hash : ℕ → Option Approval → Bool
same_hash h none = false
same_hash h (some a) = a.payload_hash == h

module _ (hash : Option String → ℕ) (enabled : Bool) (ev : Evidence) where
  -- the dictionary `checks`
  unfoldable pub checks_of : ℕ → IntentRow → ApprovalDb → Checks
  checks_of k i db =
      let v = credential_snapshot enabled ev i in
      let row = approval_row k db.approvals in
      let approved = is_some row && is_approved_decision (latest_decision k db.approvals) in
      let flag = get_flag ev.provider_name i.action_type db.flags in
      record {
        source_approved = source_is_approved i db;
        intent_approved_for_execution = approved;
        approval_audit_exists = is_some row;
        provider_connected = v.provider_connected;
        token_valid_or_refreshable = v.token_valid_or_refreshable;
        required_scopes_present = v.required_scopes_present;
        provider_supports_action = is_action_supported ev.adapter i.provider_type i.action_type;
        payload_hash_matches = approved && same_hash (hash v.preview) row;
        feature_flag_present = is_some flag;
        dry_run_cleared_for_execution = not v.dry_run_only;
        external_execution_enabled = enabled;
        feature_flag_allows_execution = flag_allows_execution flag;
      }

-- `internal_ready`
abbrev pub internal_ready : Checks → Bool
internal_ready c =
    c.source_approved && c.intent_approved_for_execution && c.approval_audit_exists
    && c.provider_connected && c.token_valid_or_refreshable && c.required_scopes_present
    && c.provider_supports_action && c.payload_hash_matches

-- `future_gates_open`
abbrev pub future_gates_open : Checks → Bool
future_gates_open c =
    c.dry_run_cleared_for_execution && c.external_execution_enabled
    && c.feature_flag_allows_execution

-- `result_status`
unfoldable pub status_of : Checks → InterlockStatus
status_of c =
    if not (c.approval_audit_exists && c.intent_approved_for_execution)
    then missing_approval
    else if not (
        c.source_approved && c.provider_connected && c.token_valid_or_refreshable
        && c.required_scopes_present && c.provider_supports_action)
    then provider_not_ready
    else if not c.payload_hash_matches
    then payload_mismatch
    else if internal_ready c && not (future_gates_open c)
    then ready_but_execution_disabled
    else blocked_by_final_interlock

-- the parts of `result` that decide
pub record InterlockResult : Type 0 where
  pub status : InterlockStatus
  pub real_execution_allowed : Bool
  pub checks : Checks

abbrev trace_of : IntentRow → ℕ → String → String → Option String → RuntimeTrace
trace_of i user trace_type status error = record {
  session_id = none;
  user_id = some user;
  workspace_id = i.workspace_id;
  trace_type = trace_type;
  status = status;
  selected_agent = i.agent_name;
  tool_name = codes "final_interlock";
  error_message = error;
}

abbrev outcome_trace : IntentRow → ℕ → InterlockStatus → RuntimeTrace
outcome_trace i user ready_but_execution_disabled =
    trace_of i user "final_interlock_ready_but_disabled" "blocked"
      (some "External execution disabled by global safety guard")
outcome_trace i user _ =
    trace_of i user "final_interlock_blocked" "blocked" (some "final interlock blocked")

abbrev with_event : IntentRow → ℕ → ApprovalDb → ApprovalDb
with_event i user db = record db {
  events =
      db.events
      ++ record {
        intent_id = i.id;
        user_id = user;
        event_type = "final_interlock_checked";
        from_status = i.status;
        to_status = i.status;
      }
        ∷ [];
}

module _ (hash : Option String → ℕ) (enabled : Bool) (ev : Evidence) where
  -- `run_final_safety_check`
  unfoldable pub run_final_safety_check :
      ℕ → ℕ → Bool → Exec ApprovalError ApprovalDb InterlockResult
  run_final_safety_check k user is_admin = do
    intent ← visible_intent k user is_admin
    checks ← gets (checks_of hash enabled ev k intent)
    modify (traced (trace_of intent user "final_interlock_checked" "ok" none))
    modify (traced (outcome_trace intent user (status_of checks)))
    modify (with_event intent user)
    pure record {
      status = status_of checks;
      real_execution_allowed = internal_ready checks && future_gates_open checks;
      checks = checks;
    }
