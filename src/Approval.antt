-- ===== src/Approval.antt =====
-- apps/cora-api/app/execution_approval.py, with `credential_snapshot` of
-- apps/cora-api/app/provider_credential_simulation.py and `_source_is_approved` of
-- apps/cora-api/app/integration_readiness.py: the human approval of an integration intent for a
-- later execution. What the connector tables and the provider's adapter answer during a call is its
-- `Evidence`, the SHA-256 of a payload preview is the number that `hash` gives, and
-- EXTERNAL_EXECUTION_ENABLED is `enabled`.
pub mod Checklist
pub mod Decide
pub mod Visible
pub mod Outcomes
pub mod Sample
mod Tests
use cora_os.Prelude.{
  ℕ, String, Bool, true, false, not, ◌&&◌, ◌||◌, Option, none, some, List, [], ◌∷◌, ◌++◌, ◌==◌,
  or_else, is_some, if◌then◌else◌,
}
use text.Mathlib.Text.{◌==◌ as str_eq}
use cora_os.Prelude.Exec.{
  Exec, Outcome, ok, err, or_raise, raise_if, gets, modify, pure, ◌>>=◌, ◌>>◌,
}
use cora_os.Prelude.Table.{find}
use cora_os.Prelude.Text.{Text, strip}
use cora_os.Governance.{GovernanceDb, ExecutionLog, RuntimeTrace}
use cora_os.Review.{Item}
use cora_os.Flags.{Flag}

pub data ApprovalError : Type 0 where
  not_found forbidden conflict unavailable : ApprovalError

-- the values of approval_state
pub data ApprovalState : Type 0 where
  pending_review ready_for_approval approved_for_execution rejected blocked_by_governance
        cancelled :
      ApprovalState

-- the values of execution_approvals.decision
pub data Decision : Type 0 where
  dec_approved dec_rejected dec_blocked : Decision

pub data SourceType : Type 0 where
  communication_draft schedule_proposal : SourceType
  other_source : String → SourceType

-- metadata.execution_approval
pub record ApprovalNote : Type 0 where
  pub decision : Decision
  pub approver_id : ℕ
  pub payload_hash : Option ℕ
  pub reason : Option Text

-- A row of external_integration_intents.
pub record IntentRow : Type 0 where
  pub id : ℕ
  pub created_by : ℕ
  pub workspace_id : Option ℕ
  pub agent_name : Option Text
  pub source_type : SourceType
  pub source_id : ℕ
  pub provider_type : Text
  pub action_type : Option Text
  pub status : String
  pub dry_run : Bool
  pub approval_state : Option ApprovalState
  pub execution_approval : Option ApprovalNote

-- A row of execution_approvals.
pub record Approval : Type 0 where
  pub intent_id : ℕ
  pub approver_id : ℕ
  pub decision : Decision
  pub approval_state : ApprovalState
  pub reason : Option Text
  pub payload_hash : ℕ

-- A row of external_integration_events.
pub record IntentEvent : Type 0 where
  pub intent_id : ℕ
  pub user_id : ℕ
  pub event_type : String
  pub from_status : String
  pub to_status : String

pub record ApprovalDb : Type 0 where
  pub gov : GovernanceDb
  pub open gov use *
  pub intents : List IntentRow
  pub approvals : List Approval
  pub events : List IntentEvent
  pub drafts : List Item
  pub proposals : List Item
  pub flags : List Flag

abbrev pub intent_key : IntentRow → ℕ
intent_key i = i.id

-- the adapter of the connector's provider, and what it says of the intent's payload
pub record Adapter : Type 0 where
  pub provider_type : Text
  pub supported_actions : List Text
  pub payload_errors : List String
  pub preview : Option String

-- what `_evaluate` reads off the connector's row, and the adapter
pub record Evidence : Type 0 where
  pub connector_connected : Bool
  pub has_access_token : Bool
  pub token_expired : Bool
  pub has_refresh_token : Bool
  pub required_scopes : List Text
  pub missing_scopes : List Text
  pub provider_name : Option Text
  pub adapter : Option Adapter

-- `_latest_decision`: the rows are in the order of created_at
abbrev pub decides : Decision → Bool
decides dec_blocked = false
decides _ = true

abbrev pub latest_of : ℕ → Option Decision → List Approval → Option Decision
latest_of k last [] = last
latest_of k last (a ∷ rest) =
    latest_of k (if a.intent_id == k && decides a.decision then some a.decision else last) rest

unfoldable pub latest_decision : ℕ → List Approval → Option Decision
latest_decision k rows = latest_of k none rows

-- `_visible_intent`, with `get_intent`
unfoldable pub visible_intent : ℕ → ℕ → Bool → Exec ApprovalError ApprovalDb IntentRow
visible_intent k user is_admin = do
  raise_if (not (← gets (λ db. db.pool))) unavailable
  row ← or_raise (← gets (λ db. find intent_key k db.intents)) not_found
  raise_if (not is_admin && not (row.created_by == user)) not_found
  pure row

abbrev pub is_cancelled : IntentRow → Bool
is_cancelled i = str_eq i.status "cancelled"

abbrev by_decision : Option Decision → Bool → Bool → ApprovalState
by_decision (some dec_approved) governance_ok can_approve = approved_for_execution
by_decision (some dec_rejected) governance_ok can_approve = rejected
by_decision _ governance_ok can_approve =
    if not governance_ok
    then blocked_by_governance
    else if can_approve
    then ready_for_approval
    else pending_review

-- `_derive_state`
unfoldable pub derive_state : IntentRow → Option Decision → Bool → Bool → ApprovalState
derive_state i latest governance_ok can_approve =
    if is_cancelled i then cancelled else by_decision latest governance_ok can_approve
