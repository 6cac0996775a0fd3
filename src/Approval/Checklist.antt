-- ===== src/Approval/Checklist.antt =====
-- apps/cora-api/app/provider_credential_simulation.py (`credential_snapshot`), and `_checklist` of
-- apps/cora-api/app/execution_approval.py.
use cora_os.Prelude.{
  is_nil, ℕ, String, Bool, true, false, not, ◌&&◌, ◌||◌, Option, none, some, List, [], ◌∷◌, or_else,
  is_some, if◌then◌else◌,
}
use cora_os.Prelude.Table.{find}
use cora_os.Prelude.Text.{Text, codes, text_eq}
use cora_os.Guard.{Request, evaluate_external_execution}
use cora_os.Governance.{is_external_execution_tool}
use cora_os.Review.{Item, approved, key, is_in}
use cora_os.Approval.{
  SourceType, communication_draft, schedule_proposal, other_source, IntentRow, ApprovalDb, Adapter,
  Evidence,
}

-- what the approval and the interlock read of the snapshot
pub record Snapshot : Type 0 where
  pub provider_connected : Bool
  pub token_valid_or_refreshable : Bool
  pub required_scopes_present : Bool
  pub provider_execution_disabled : Bool
  pub dry_run_only : Bool
  pub kill_switch_blocks_execution : Bool
  pub governance_allows_execution : Bool
  pub payload_ready : Bool
  pub execution_enabled : Bool
  pub preview : Option String

-- `_ACTION_FOR_TYPE`
abbrev action_for_type : Text → Option Text
action_for_type t =
    if text_eq t (codes "email")
    then some (codes "send_email")
    else if text_eq t (codes "calendar")
    then some (codes "create_calendar_event")
    else none

-- the adapter that the snapshot asks: the connector's, if it serves the intent's provider type
abbrev pub asked : Text → Option Adapter → Option Adapter
asked t none = none
asked t (some a) = if text_eq a.provider_type t then some a else none

abbrev pub preview_of : Option Adapter → Option String
preview_of none = none
preview_of (some a) = a.preview

abbrev pub is_payload_ready : Option Adapter → Bool
is_payload_ready none = false
is_payload_ready (some a) = is_some a.preview && is_nil a.payload_errors

abbrev pub is_token_usable : Evidence → Bool
is_token_usable ev = ev.has_access_token && not ev.token_expired || ev.has_refresh_token

abbrev request_of : Evidence → IntentRow → Request
request_of ev i = record {
  action_type = or_else i.action_type (action_for_type i.provider_type);
  provider_type = some i.provider_type;
  intent = some record { id = i.id; status = i.status; dry_run = i.dry_run };
  provider_connected = ev.connector_connected;
  token_ready = is_token_usable ev;
}

-- `credential_snapshot`
unfoldable pub credential_snapshot : Bool → Evidence → IntentRow → Snapshot
credential_snapshot enabled ev i =
    let adapter = asked i.provider_type ev.adapter in
    record {
      provider_connected = ev.connector_connected;
      token_valid_or_refreshable = is_token_usable ev;
      required_scopes_present = not (is_nil ev.required_scopes) && is_nil ev.missing_scopes;
      provider_execution_disabled = not enabled;
      dry_run_only = true;
      kill_switch_blocks_execution =
          not (evaluate_external_execution enabled (request_of ev i)).allowed;
      governance_allows_execution =
          not
            (is_external_execution_tool (or_else i.action_type (action_for_type i.provider_type)));
      payload_ready = is_payload_ready adapter;
      execution_enabled = enabled;
      preview = preview_of adapter;
    }

abbrev pub is_approved_row : Option Item → Bool
is_approved_row none = false
is_approved_row (some i) = is_in i.status (approved ∷ [])

abbrev source_rows : SourceType → ApprovalDb → List Item
source_rows communication_draft db = db.drafts
source_rows schedule_proposal db = db.proposals
source_rows (other_source _) db = []

-- `_source_is_approved`
unfoldable pub source_is_approved : IntentRow → ApprovalDb → Bool
source_is_approved i db = is_approved_row (find key i.source_id (source_rows i.source_type db))

pub record ApprovalChecklist : Type 0 where
  pub snapshot : Snapshot
  pub source_approved : Bool
  pub governance_ok : Bool
  pub can_approve : Bool
  pub payload_hash : ℕ

-- `_checklist`
unfoldable pub checklist :
    (Option String → ℕ) → Bool → Evidence → IntentRow → ApprovalDb → ApprovalChecklist
checklist hash enabled ev i db =
    let s = credential_snapshot enabled ev i in
    let governance_ok = s.dry_run_only && s.provider_execution_disabled in
    record {
      snapshot = s;
      source_approved = source_is_approved i db;
      governance_ok = governance_ok;
      can_approve =
          governance_ok
          && s.provider_connected
          && s.token_valid_or_refreshable
          && s.required_scopes_present
          && source_is_approved i db
          && s.payload_ready;
      payload_hash = hash s.preview;
    }
