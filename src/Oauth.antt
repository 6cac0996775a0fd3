-- ===== src/Oauth.antt =====
-- apps/cora-api/app/oauth_flow.py: connecting a provider's account. What the registry of providers,
-- cryptography and the provider's token endpoint answer is an `OauthEnv`. Times are in seconds. Traces,
-- logged attempts and events go through connections of their own, so a rolled back callback keeps them;
-- their error texts and details are left out.
pub mod Start
pub mod Callback
pub mod Refresh
pub mod Kept
pub mod Granted
pub mod Once
pub mod Connects
mod Tests
use cora_os.Prelude.{
  ℕ, suc, ◌+◌, String, Bool, true, false, not, ◌&&◌, ◌||◌, Option, none, some, List, [], ◌∷◌, ◌++◌,
  is_nil, is_some, or_else, ◌==◌, ltb, leb, if◌then◌else◌,
}
use cora_os.Prelude.Exec.{Outcome, ok, err}
use cora_os.Prelude.Table.{update}
use cora_os.Prelude.Text.{Text, codes, text_eq}
use cora_os.Governance.{GovernanceDb, write_runtime_trace, log_execution_attempt}

-- `OAuthError`, by its code
pub data OauthError : Type 0 where
  not_found invalid unavailable provider_error conflict : OauthError

pub record OauthProvider : Type 0 where
  pub name : Text
  pub provider_type : Text
  pub vendor : Text
  pub scopes : List Text
  pub requires_refresh_token : Bool

pub record OauthConfig : Type 0 where
  pub client_id : Option Text
  pub client_secret : Option Text
  pub redirect_uri : Option Text

-- A row of oauth_states.
pub record OauthState : Type 0 where
  pub id : ℕ
  pub state : Text
  pub provider_name : Text
  pub user_id : ℕ
  pub workspace_id : Option ℕ
  pub redirect_uri : Option Text
  pub created_at : ℕ
  pub consumed_at : Option ℕ

pub data ConnectorStatus : Type 0 where
  connected not_configured disconnected oauth_required error : ConnectorStatus

-- A row of provider_oauth_connectors.
pub record Connector : Type 0 where
  pub id : ℕ
  pub user_id : ℕ
  pub workspace_id : Option ℕ
  pub provider_name : Text
  pub provider_type : Text
  pub status : ConnectorStatus
  pub scopes : List Text
  pub access_token : Option Text
  pub refresh_token : Option Text
  pub expires_at : Option ℕ
  pub refresh_failed : Bool
  pub disconnected_at : Option ℕ

-- `mask`: what callers see of a row, without the tokens
pub record MaskedConnector : Type 0 where
  pub id : ℕ
  pub user_id : ℕ
  pub workspace_id : Option ℕ
  pub provider_name : Text
  pub provider_type : Text
  pub status : ConnectorStatus
  pub scopes : List Text
  pub expires_at : Option ℕ
  pub refresh_failed : Bool
  pub disconnected_at : Option ℕ
  pub has_access_token : Bool
  pub has_refresh_token : Bool
  pub ready_for_execution : Bool
  pub encryption_available : Bool

-- A row of provider_oauth_connector_events, without its detail.
pub record CredentialEvent : Type 0 where
  pub connector_id : Option ℕ
  pub user_id : ℕ
  pub provider_name : Text
  pub event_type : String
  pub status : String

-- the answer of a token endpoint
pub record Token : Type 0 where
  pub access_token : Option Text
  pub refresh_token : Option Text
  pub expires_in : Option ℕ
  pub scope : Option (List Text)

pub record OauthDb : Type 0 where
  pub gov : GovernanceDb
  pub states : List OauthState
  pub connectors : List Connector
  pub events : List CredentialEvent
  pub fresh : ℕ

pub record OauthEnv : Type 0 where
  pub get_provider : Text → Option OauthProvider
  pub provider_config : OauthProvider → OauthConfig
  pub encryption_available : Bool
  pub encrypt : Text → Text
  pub decrypt : Text → Outcome OauthError Text
  pub exchange : OauthProvider → Text → Outcome OauthError Token
  pub refresh : OauthProvider → Text → Outcome OauthError Token

abbrev pub state_key : OauthState → ℕ
state_key s = s.id

abbrev pub connector_key : Connector → ℕ
connector_key c = c.id

-- `_STATE_TTL_MIN`, in seconds
abbrev pub state_ttl : ℕ
state_ttl = 600

abbrev pub present : Option Text → Bool
present none = false
present (some t) = not (is_nil t)

-- `_token_expired` of apps/cora-api/app/provider_oauth.py
abbrev pub has_expired : ℕ → Connector → Bool
has_expired now c = elim (c.expires_at) [ none ↦ false | some t ↦ leb t now ]

abbrev pub is_connected : ConnectorStatus → Bool
is_connected connected = true
is_connected _ = false

-- `mask` of apps/cora-api/app/provider_oauth.py, with encryption's key there or not
abbrev pub mask : Bool → ℕ → Connector → MaskedConnector
mask encryption now c = record {
  id = c.id;
  user_id = c.user_id;
  workspace_id = c.workspace_id;
  provider_name = c.provider_name;
  provider_type = c.provider_type;
  status = c.status;
  scopes = c.scopes;
  expires_at = c.expires_at;
  refresh_failed = c.refresh_failed;
  disconnected_at = c.disconnected_at;
  has_access_token = present c.access_token;
  has_refresh_token = present c.refresh_token;
  ready_for_execution = is_connected c.status && present c.access_token && not (has_expired now c);
  encryption_available = encryption;
}

-- `config_present`
abbrev pub config_present : OauthConfig → Bool
config_present c = present c.client_id && present c.client_secret && present c.redirect_uri

-- `_trace`
abbrev pub oauth_trace : String → String → Option ℕ → Option ℕ → Option String → OauthDb → OauthDb
oauth_trace trace_type status user workspace error_text db = record db {
  gov =
      write_runtime_trace
        record {
          session_id = none;
          user_id = user;
          workspace_id = workspace;
          trace_type = trace_type;
          status = status;
          selected_agent = none;
          tool_name = codes "oauth_flow";
          error_message = error_text;
        }
        db.gov;
}

-- `_validate_log`
abbrev pub validate_log : ℕ → Bool → Option String → ℕ → OauthDb → OauthDb
validate_log user good message now db = record db {
  gov =
      log_execution_attempt
        record {
          session_id = none;
          user_id = some user;
          tool_name = codes "oauth_connection_validated";
          agent_name = none;
          allowed = good;
          status = if good then "success" else "failed";
          error_message = message;
          created_at = now;
        }
        db.gov;
}

-- `_credential_event`
abbrev pub credential_event : CredentialEvent → OauthDb → OauthDb
credential_event e db = if db.gov.pool then record db { events = db.events ++ e ∷ [] } else db

-- The states and the connectors are rolled back when a block raises.
abbrev pub rolled_back :
    {A : Type 0} → OauthDb → Outcome OauthError A × OauthDb → Outcome OauthError A × OauthDb
rolled_back db (ok a, after) = (ok a, after)
rolled_back db (err e, after) =
    (err e, record after { states = db.states; connectors = db.connectors; fresh = db.fresh })

-- SELECT … FROM oauth_states WHERE state = $1
abbrev pub find_state : Text → List OauthState → Option OauthState
find_state s [] = none
find_state s (r ∷ rs) = if text_eq r.state s then some r else find_state s rs

abbrev pub mark_consumed : ℕ → OauthState → OauthState
mark_consumed now r = record r { consumed_at = some now }
