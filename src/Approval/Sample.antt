-- ===== src/Approval/Sample.antt =====
-- An intent to send an approved draft through a connected mail account.
use cora_os.Prelude.{ℕ, String, true, false, Option, none, some, [], ◌∷◌}
use cora_os.Prelude.Text.{codes, is_space, lstrip, strip, lower_char, lower}
use cora_os.Governance.{
  is_external_name, is_external_execution_tool, log_execution_attempt, write_runtime_trace,
}
use cora_os.Guard.{evaluate_external_execution}
use cora_os.Review.{Item, approved, is_in, kept_notes}
use cora_os.Flags.{norm_provider, norm_action, get_flag}
use cora_os.Approval.{
  IntentRow, communication_draft, ApprovalDb, Evidence, visible_intent, latest_decision,
  derive_state,
}
use cora_os.Approval.Checklist.{credential_snapshot, source_is_approved, checklist}
use cora_os.Approval.Decide.{view_intent, refuse, decide, recorded, approve, reject}

unfoldable pub sampled : Unit {0}
unfolding is_space lstrip strip lower_char lower is_external_name is_external_execution_tool
    log_execution_attempt write_runtime_trace evaluate_external_execution is_in kept_notes
    norm_provider norm_action get_flag visible_intent latest_decision derive_state
    credential_snapshot source_is_approved checklist view_intent refuse decide recorded approve
    reject
sampled = tt

abbrev pub digest : Option String → ℕ
digest none = 0
digest (some _) = 1

abbrev pub draft_row : Item
draft_row = record {
  id = 5;
  created_by = 7;
  status = approved;
  reviewed_by = some 2;
  reviewed_at = some 10;
  approved_by = some 2;
  approved_at = some 11;
  archived_at = none;
  review_notes = none;
  updated_at = 11;
}

abbrev pub intent : IntentRow
intent = record {
  id = 1;
  created_by = 7;
  workspace_id = none;
  agent_name = none;
  source_type = communication_draft;
  source_id = 5;
  provider_type = codes "email";
  action_type = some (codes "send_email");
  status = "ready_for_confirmation";
  dry_run = true;
  approval_state = none;
  execution_approval = none;
}

abbrev pub db : ApprovalDb
db = record {
  gov = record { pool = true; policies = []; logs = []; traces = [] };
  intents = intent ∷ [];
  approvals = [];
  events = [];
  drafts = draft_row ∷ [];
  proposals = [];
  flags = [];
}

abbrev pub gmail : Evidence
gmail = record {
  connector_connected = true;
  has_access_token = true;
  token_expired = false;
  has_refresh_token = true;
  required_scopes = codes "gmail.send" ∷ [];
  missing_scopes = [];
  provider_name = some (codes "gmail");
  adapter = some record {
    provider_type = codes "email";
    supported_actions = codes "send_email" ∷ [];
    payload_errors = [];
    preview = some "to: a";
  };
}
