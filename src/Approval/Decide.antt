-- ===== src/Approval/Decide.antt =====
-- apps/cora-api/app/execution_approval.py: `view_intent`, `approve` and `reject`. The view after a
-- decision is computed from the same evidence as the decision.
use cora_os.Prelude.{
  ℕ, String, Bool, true, false, not, Option, none, some, [], ◌∷◌, ◌++◌, if◌then◌else◌,
}
use cora_os.Prelude.Exec.{Exec, raise_if, raise, gets, modify, pure, ◌>>=◌, ◌>>◌}
use cora_os.Prelude.Table.{update}
use cora_os.Prelude.Text.{Text, codes}
use cora_os.Governance.{ExecutionLog, RuntimeTrace, log_execution_attempt, write_runtime_trace}
use cora_os.Flags.{get_flag, flag_allows_execution}
use cora_os.Review.{kept_notes}
use cora_os.Approval.{
  ApprovalError, forbidden, conflict, ApprovalState, pending_review, approved_for_execution,
  rejected, blocked_by_governance, Decision, dec_approved, dec_rejected, dec_blocked, ApprovalNote,
  IntentRow, ApprovalDb, Evidence, intent_key, latest_decision, visible_intent, is_cancelled,
  derive_state,
}
use cora_os.Approval.Checklist.{ApprovalChecklist, checklist}

-- what a console view says of the decision
pub record View : Type 0 where
  pub intent : IntentRow
  pub approval_state : ApprovalState
  pub latest : Option Decision
  pub can_approve : Bool
  pub flag_allows : Bool

abbrev trace_of : IntentRow → ℕ → String → String → String → Option String → RuntimeTrace
trace_of i user trace_type status tool error = record {
  session_id = none;
  user_id = some user;
  workspace_id = i.workspace_id;
  trace_type = trace_type;
  status = status;
  selected_agent = i.agent_name;
  tool_name = codes tool;
  error_message = error;
}

abbrev log_of : IntentRow → ℕ → String → Bool → String → Option String → ℕ → ExecutionLog
log_of i user tool allowed status error now = record {
  session_id = none;
  user_id = some user;
  tool_name = codes tool;
  agent_name = i.agent_name;
  allowed = allowed;
  status = status;
  error_message = error;
  created_at = now;
}

abbrev pub traced : RuntimeTrace → ApprovalDb → ApprovalDb
traced t db = record db { gov = write_runtime_trace t db.gov }

abbrev pub logged : ExecutionLog → ApprovalDb → ApprovalDb
logged l db = record db { gov = log_execution_attempt l db.gov }

-- `_record`
unfoldable pub recorded :
    ℕ → ℕ → Decision → ApprovalState → Option Text → ℕ → ApprovalDb → ApprovalDb
recorded k approver decision state reason payload db = record db {
  approvals =
      db.approvals
      ++ record {
        intent_id = k;
        approver_id = approver;
        decision = decision;
        approval_state = state;
        reason = kept_notes reason;
        payload_hash = payload;
      }
        ∷ [];
}

abbrev pub noted : ApprovalState → ApprovalNote → IntentRow → IntentRow
noted state note i = record i { approval_state = some state; execution_approval = some note }

module _ (hash : Option String → ℕ) (enabled : Bool) (ev : Evidence) where
  -- `view_intent`
  unfoldable pub view_intent : ℕ → ℕ → Bool → Exec ApprovalError ApprovalDb View
  view_intent k user is_admin = do
    intent ← visible_intent k user is_admin
    cl ← gets (checklist hash enabled ev intent)
    latest ← gets (λ db. latest_decision k db.approvals)
    modify
        (traced (trace_of intent user "execution_approval_viewed" "ok" "execution_approval" none))
    flag ← gets (λ db. get_flag ev.provider_name intent.action_type db.flags)
    pure record {
      intent = intent;
      approval_state = derive_state intent latest cl.governance_ok cl.can_approve;
      latest = latest;
      can_approve = cl.can_approve;
      flag_allows = flag_allows_execution flag;
    }

  -- the branch of `approve` whose checklist fails
  unfoldable pub refuse :
      ℕ → ℕ → IntentRow → ApprovalChecklist → Option Text → ℕ → Exec ApprovalError ApprovalDb View
  refuse k approver intent cl comment now = do
    let state = if not cl.governance_ok then blocked_by_governance else pending_review
    modify (recorded k approver dec_blocked state comment cl.payload_hash)
    modify (
        logged (
          log_of intent approver "execution_approval_approved" false "blocked"
            (some "approval checklist not satisfied") now))
    modify (
        traced (
          trace_of intent approver "execution_approval_blocked" "blocked"
            "execution_approval_approved" (some "approval blocked")))
    raise conflict

  -- the writes that a decision makes
  unfoldable pub decide :
      ℕ
      → ℕ
      → IntentRow
      → Decision
      → ApprovalState
      → Option ℕ
      → ApprovalChecklist
      → Option Text
      → String
      → ℕ
      → ApprovalDb
      → ApprovalDb
  decide k approver intent decision state kept cl comment tool now db =
      traced (trace_of intent approver tool "ok" tool none) (
        logged (log_of intent approver tool true "success" none now) (
          let db' = recorded k approver decision state comment cl.payload_hash db in
          record db' {
            intents =
                update intent_key k
                  (noted state record {
                    decision = decision;
                    approver_id = approver;
                    payload_hash = kept;
                    reason = comment;
                  })
                  db'.intents;
          }))

  -- `approve`
  unfoldable pub approve : ℕ → ℕ → Bool → Option Text → ℕ → Exec ApprovalError ApprovalDb View
  approve k approver is_admin comment now = do
    raise_if (not is_admin) forbidden
    intent ← visible_intent k approver is_admin
    raise_if (is_cancelled intent) conflict
    cl ← gets (checklist hash enabled ev intent)
    if not cl.can_approve then refuse k approver intent cl comment now else do
      modify (
          decide k approver intent dec_approved approved_for_execution (some cl.payload_hash) cl
            comment "execution_approval_approved" now)
      view_intent k approver is_admin

  -- `reject`
  unfoldable pub reject : ℕ → ℕ → Bool → Option Text → ℕ → Exec ApprovalError ApprovalDb View
  reject k approver is_admin comment now = do
    raise_if (not is_admin) forbidden
    intent ← visible_intent k approver is_admin
    raise_if (is_cancelled intent) conflict
    cl ← gets (checklist hash enabled ev intent)
    modify (
        decide k approver intent dec_rejected rejected none cl comment "execution_approval_rejected"
          now)
    view_intent k approver is_admin
