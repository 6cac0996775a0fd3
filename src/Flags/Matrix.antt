-- ===== src/Flags/Matrix.antt =====
-- `evaluate`, `create_flag` and `update_flag`: consulting the matrix, and managing it. The event of a
-- denial is kept without its snapshot.
use cora_os.Prelude.{
  ℕ, suc, String, Bool, true, false, not, ◌&&◌, Option, none, some, List, [], ◌∷◌, ◌++◌, is_some,
  if◌then◌else◌,
}
use cora_os.Prelude.Exec.{Exec, or_raise, raise_if, gets, modify, pure, ◌>>=◌, ◌>>◌}
use cora_os.Prelude.Table.{find, update}
use cora_os.Prelude.Text.{Text, codes}
use cora_os.Governance.{GovernanceDb, write_runtime_trace, log_execution_attempt}
use cora_os.Flags.{Flag, norm_provider, norm_action, find_flag, flag_allows_execution}

-- `FeatureFlagError`, by its code
pub data FlagError : Type 0 where
  not_found invalid conflict unavailable : FlagError

-- what is read of the intent that a consultation is about
pub record FlagIntent : Type 0 where
  pub id : ℕ
  pub workspace_id : Option ℕ
  pub agent_name : Option Text
  pub status : String

-- the row that a denial adds to external_integration_events
pub record FlagDenial : Type 0 where
  pub intent_id : ℕ
  pub user_id : Option ℕ
  pub status : String

pub record FlagDb : Type 0 where
  pub gov : GovernanceDb
  pub flags : List Flag
  pub denials : List FlagDenial
  pub fresh : ℕ

abbrev pub flag_key : Flag → ℕ
flag_key f = f.id

pub record FlagDecision : Type 0 where
  pub provider_name : Text
  pub action_type : Text
  pub environment : String
  pub flag_present : Bool
  pub enabled : Bool
  pub dry_run_only : Bool
  pub allows : Bool
  pub requires_human_approval : Bool
  pub requires_final_interlock : Bool
  pub requires_kill_switch_clear : Bool
  pub reason : String

abbrev pub reason_of : Flag → String
reason_of f =
    if not f.enabled
    then "feature flag disabled"
    else if f.dry_run_only
    then "feature flag is dry_run_only"
    else "feature flag permits (other gates still apply)"

-- `_decision`
unfoldable pub decision_of : Option Text → Option Text → String → Option Flag → FlagDecision
decision_of provider action environment none = record {
  provider_name = norm_provider provider;
  action_type = norm_action action;
  environment = environment;
  flag_present = false;
  enabled = false;
  dry_run_only = true;
  allows = false;
  requires_human_approval = true;
  requires_final_interlock = true;
  requires_kill_switch_clear = true;
  reason = "no feature flag for this provider/action (fail-closed deny)";
}
decision_of provider action environment (some f) = record {
  provider_name = norm_provider provider;
  action_type = norm_action action;
  environment = environment;
  flag_present = true;
  enabled = f.enabled;
  dry_run_only = f.dry_run_only;
  allows = flag_allows_execution (some f);
  requires_human_approval = f.requires.human_approval;
  requires_final_interlock = f.requires.final_interlock;
  requires_kill_switch_clear = f.requires.kill_switch_clear;
  reason = reason_of f;
}

abbrev flag_trace : String → String → Option ℕ → Option FlagIntent → Option String → FlagDb → FlagDb
flag_trace trace_type status user intent error db = record db {
  gov =
      write_runtime_trace
        record {
          session_id = none;
          user_id = user;
          workspace_id = elim intent [ none ↦ none | some i ↦ i.workspace_id ];
          trace_type = trace_type;
          status = status;
          selected_agent = elim intent [ none ↦ none | some i ↦ i.agent_name ];
          tool_name = codes "provider_feature_flag";
          error_message = error;
        }
        db.gov;
}

abbrev denial_of : Option ℕ → Option FlagIntent → List FlagDenial
denial_of user none = []
denial_of user (some i) = record { intent_id = i.id; user_id = user; status = i.status } ∷ []

abbrev flag_concluded : Option ℕ → Option FlagIntent → FlagDecision → FlagDb → FlagDb
flag_concluded user intent d db =
    if d.allows
    then flag_trace "provider_flag_allowed" "ok" user intent none db
    else let denied = flag_trace "provider_flag_denied" "blocked" user intent (some d.reason) db in
      record denied { denials = denied.denials ++ denial_of user intent }

-- `evaluate`
unfoldable pub evaluate :
    Option Text
    → Option Text
    → Option ℕ
    → Option FlagIntent
    → String
    → Exec FlagError FlagDb FlagDecision
evaluate provider action user intent environment = do
  raise_if (not (← gets (λ (db : FlagDb). db.gov.pool))) unavailable
  d ← gets (λ (db : FlagDb).
      decision_of provider action environment
        (find_flag (norm_provider provider) (norm_action action) environment db.flags))
  modify (flag_trace "provider_flag_checked" "ok" user intent none)
  modify (flag_concluded user intent d)
  pure d

-- the audit of an admin's change
abbrev managed : String → ℕ → ℕ → FlagDb → FlagDb
managed trace_type admin now db = flag_trace trace_type "ok" (some admin) none none (record db {
  gov =
      log_execution_attempt
        record {
          session_id = none;
          user_id = some admin;
          tool_name = codes "provider_feature_flag";
          agent_name = none;
          allowed = true;
          status = "success";
          error_message = none;
          created_at = now;
        }
        db.gov;
})

-- the row of the INSERT, with the table's defaults
abbrev pub new_flag : ℕ → Text → Text → Text → String → Flag
new_flag k provider provider_type action environment = record {
  id = k;
  provider_name = norm_provider (some provider);
  provider_type = provider_type;
  action_type = norm_action (some action);
  environment = environment;
  enabled = false;
  dry_run_only = true;
  requires = record {
    human_approval = true;
    final_interlock = true;
    valid_oauth = true;
    scope_validation = true;
    connected_provider = true;
    payload_hash_match = true;
    kill_switch_clear = true;
  };
}

-- `create_flag`; UNIQUE (provider_name, action_type, environment) refuses a second row
unfoldable pub create_flag : ℕ → Text → Text → Text → String → ℕ → Exec FlagError FlagDb Flag
create_flag admin provider provider_type action environment now = do
  raise_if (not (← gets (λ (db : FlagDb). db.gov.pool))) unavailable
  taken ← gets (λ (db : FlagDb).
      is_some (
        find_flag (norm_provider (some provider)) (norm_action (some action)) environment db.flags))
  raise_if taken conflict
  row ← gets (λ (db : FlagDb). new_flag db.fresh provider provider_type action environment)
  modify (λ (db : FlagDb). record db { flags = db.flags ++ row ∷ []; fresh = suc db.fresh })
  modify (managed "feature_flag_created" admin now)
  pure row

-- the changes of the columns in `_MUTABLE`
pub record FlagChanges : Type 0 where
  pub enabled : Option Bool
  pub dry_run_only : Option Bool
  pub human_approval : Option Bool
  pub final_interlock : Option Bool
  pub valid_oauth : Option Bool
  pub scope_validation : Option Bool
  pub connected_provider : Option Bool
  pub payload_hash_match : Option Bool
  pub kill_switch_clear : Option Bool

abbrev pub or_column : Option Bool → Bool → Bool
or_column none b = b
or_column (some c) b = c

abbrev pub changes_nothing : FlagChanges → Bool
changes_nothing c =
    not (is_some c.enabled)
    && not (is_some c.dry_run_only)
    && not (is_some c.human_approval)
    && not (is_some c.final_interlock)
    && not (is_some c.valid_oauth)
    && not (is_some c.scope_validation)
    && not (is_some c.connected_provider)
    && not (is_some c.payload_hash_match)
    && not (is_some c.kill_switch_clear)

-- the UPDATE of `update_flag`
abbrev pub updated : FlagChanges → Flag → Flag
updated c f = record f {
  enabled = or_column c.enabled f.enabled;
  dry_run_only = or_column c.dry_run_only f.dry_run_only;
  requires = record {
    human_approval = or_column c.human_approval f.requires.human_approval;
    final_interlock = or_column c.final_interlock f.requires.final_interlock;
    valid_oauth = or_column c.valid_oauth f.requires.valid_oauth;
    scope_validation = or_column c.scope_validation f.requires.scope_validation;
    connected_provider = or_column c.connected_provider f.requires.connected_provider;
    payload_hash_match = or_column c.payload_hash_match f.requires.payload_hash_match;
    kill_switch_clear = or_column c.kill_switch_clear f.requires.kill_switch_clear;
  };
}

-- `update_flag`
unfoldable pub update_flag : ℕ → ℕ → FlagChanges → ℕ → Exec FlagError FlagDb Flag
update_flag k admin c now = do
  raise_if (changes_nothing c) invalid
  raise_if (not (← gets (λ (db : FlagDb). db.gov.pool))) unavailable
  row ← or_raise (← gets (λ (db : FlagDb). find flag_key k db.flags)) not_found
  modify (λ (db : FlagDb). record db { flags = update flag_key k (updated c) db.flags })
  modify (managed "feature_flag_modified" admin now)
  pure (updated c row)
