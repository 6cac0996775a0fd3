-- ===== src/Interlock/Tests.antt =====
-- The interlock over an approved intent, and the theorems there.
use cora_os.Prelude.{◌≡◌, refl, true, false, none, some, [], ◌∷◌}
use cora_os.Prelude.Exec.{ok}
use cora_os.Prelude.Table.{find}
use cora_os.Approval.{
  IntentRow, Approval, ApprovalDb, dec_approved, approved_for_execution, intent_key,
  latest_decision,
}
use cora_os.Approval.Checklist.{credential_snapshot, source_is_approved}
use cora_os.Approval.Sample.{digest, db, gmail, sampled}
use cora_os.Interlock.{
  InterlockResult, ready_but_execution_disabled, run_final_safety_check, checks_of, status_of,
  approval_row, is_approved_decision,
}
use cora_os.Interlock.Verdict.{real_execution_never_allowed, ready_means_approved}

runs : Unit {0}
unfolding sampled run_final_safety_check checks_of status_of approval_row
runs = tt

abbrev approved_db : ApprovalDb
approved_db = record db {
  approvals =
      record {
        intent_id = 1;
        approver_id = 2;
        decision = dec_approved;
        approval_state = approved_for_execution;
        reason = none;
        payload_hash = 1;
      }
      ∷ [];
}

-- the provider's state and the flags as they stand, and the switch on
abbrev result : InterlockResult
result = record {
  status = ready_but_execution_disabled;
  real_execution_allowed = false;
  checks = record {
    source_approved = true;
    intent_approved_for_execution = true;
    approval_audit_exists = true;
    provider_connected = true;
    token_valid_or_refreshable = true;
    required_scopes_present = true;
    provider_supports_action = true;
    payload_hash_matches = true;
    feature_flag_present = false;
    dry_run_cleared_for_execution = false;
    external_execution_enabled = true;
    feature_flag_allows_execution = false;
  };
}

checked : (run_final_safety_check digest true gmail 1 7 false approved_db).0 ≡ ok result
unfolding runs
checked = refl

real_execution_never_allowed_example : result.real_execution_allowed ≡ false
real_execution_never_allowed_example =
    real_execution_never_allowed digest true gmail 1 7 false approved_db checked

ready_means_approved_example :
    (i : IntentRow) × (a : Approval) × (find intent_key 1 approved_db.intents ≡ some i)
    × (source_is_approved i approved_db ≡ true)
    × (is_approved_decision (latest_decision 1 approved_db.approvals) ≡ true)
    × (approval_row 1 approved_db.approvals ≡ some a)
    × (a.payload_hash ≡ digest (credential_snapshot true gmail i).preview)
ready_means_approved_example =
    ready_means_approved digest true gmail 1 7 false approved_db checked refl
