-- ===== src/Oauth/Callback.antt =====
-- apps/cora-api/app/oauth_flow.py: the provider's callback.
use cora_os.Prelude.{
  ℕ, suc, ◌+◌, Bool, true, false, not, ◌&&◌, ◌||◌, Option, none, some, List, [], ◌∷◌, ◌++◌, is_nil,
  is_some, or_else, ◌==◌, ltb, if◌then◌else◌,
}
use cora_os.Prelude.Exec.{Outcome, ok, err}
use cora_os.Prelude.Table.{update}
use cora_os.Prelude.Text.{Text, text_eq}
use cora_os.Oauth.{
  OauthError, not_found, invalid, unavailable, conflict, OauthProvider, OauthState, Connector,
  MaskedConnector, connected, mask, Token, OauthDb, OauthEnv, state_key, connector_key, state_ttl,
  present, oauth_trace, validate_log, credential_event, rolled_back, find_state, mark_consumed,
}

abbrev pub consumed :
    Text → ℕ → OauthDb → Option OauthState → Outcome OauthError OauthState × OauthDb
consumed name now db none = (err invalid, db)
consumed name now db (some row) =
    if is_some row.consumed_at
    then (err conflict, db)
    else if not (text_eq row.provider_name name)
    then (err invalid, db)
    else if ltb (row.created_at + state_ttl) now
    then (err invalid, db)
    else (ok row, record db { states = update state_key row.id (mark_consumed now) db.states })

-- `_consume_state`
unfoldable pub consume_state : Text → Text → ℕ → OauthDb → Outcome OauthError OauthState × OauthDb
consume_state s name now db = consumed name now db (find_state s db.states)

-- `_expires_at`
abbrev pub expires_at : ℕ → Option ℕ → Option ℕ
expires_at now none = none
expires_at now (some n) = if n == 0 then none else some (now + n)

-- `encrypt_secret`, with a key
abbrev pub encrypted : OauthEnv → Option Text → Option Text
encrypted env none = none
encrypted env (some t) = if is_nil t then none else some (env.encrypt t)

abbrev granted_scopes : OauthProvider → Option (List Text) → List Text
granted_scopes p none = p.scopes
granted_scopes p (some ts) = if is_nil ts then p.scopes else ts

abbrev pub is_of : ℕ → Text → Connector → Bool
is_of user name c = c.user_id == user && text_eq c.provider_name name

-- the newest row of a user and a provider
unfoldable pub latest : ℕ → Text → List Connector → Option Connector
latest user name [] = none
latest user name (c ∷ cs) =
    or_else (latest user name cs) (if is_of user name c then some c else none)

abbrev pub renewed : OauthEnv → OauthProvider → Token → ℕ → Connector → Connector
renewed env p token now c = record c {
  status = connected;
  scopes = granted_scopes p token.scope;
  access_token = encrypted env token.access_token;
  refresh_token = or_else (encrypted env token.refresh_token) c.refresh_token;
  expires_at = expires_at now token.expires_in;
  refresh_failed = false;
  disconnected_at = none;
}

abbrev pub new_connector : OauthEnv → OauthProvider → OauthState → Token → ℕ → ℕ → Connector
new_connector env p st token now k = record {
  id = k;
  user_id = st.user_id;
  workspace_id = st.workspace_id;
  provider_name = p.name;
  provider_type = p.provider_type;
  status = connected;
  scopes = granted_scopes p token.scope;
  access_token = encrypted env token.access_token;
  refresh_token = encrypted env token.refresh_token;
  expires_at = expires_at now token.expires_in;
  refresh_failed = false;
  disconnected_at = none;
}

abbrev pub stored :
    OauthEnv
    → OauthProvider
    → OauthState
    → Token
    → ℕ
    → OauthDb
    → Option Connector
    → Connector × OauthDb
stored env p st token now db (some c) = (
  renewed env p token now c,
  record db { connectors = update connector_key c.id (renewed env p token now) db.connectors },
)
stored env p st token now db none = (
  new_connector env p st token now db.fresh,
  record db {
    fresh = suc db.fresh;
    connectors = db.connectors ++ new_connector env p st token now db.fresh ∷ [];
  },
)

-- `_upsert_connected`
unfoldable pub upsert_connected :
    OauthEnv
    → OauthProvider
    → OauthState
    → Token
    → ℕ
    → OauthDb
    → Outcome OauthError MaskedConnector × OauthDb
upsert_connected env p st token now db =
    if not env.encryption_available
    then (err unavailable, db)
    else let r = stored env p st token now db (latest st.user_id p.name db.connectors) in
      (ok (mask env.encryption_available now r.0), r.1)

-- the records of a callback that fails once its state is known
abbrev pub failed_callback : OauthProvider → OauthState → ℕ → OauthDb → OauthDb
failed_callback p st now db =
    credential_event
      record {
        connector_id = none;
        user_id = st.user_id;
        provider_name = p.name;
        event_type = "oauth_connection_failed";
        status = "failed";
      }
      (oauth_trace "oauth_connection_failed" "failed" (some st.user_id) st.workspace_id none
        (validate_log st.user_id false none now db))

abbrev pub logged_failure :
    OauthProvider
    → OauthState
    → ℕ
    → Outcome OauthError MaskedConnector × OauthDb
    → Outcome OauthError MaskedConnector × OauthDb
logged_failure p st now (ok c, db) = (ok c, db)
logged_failure p st now (err e, db) = (err e, failed_callback p st now db)

abbrev pub connect :
    OauthEnv
    → OauthProvider
    → OauthState
    → ℕ
    → OauthDb
    → Outcome OauthError Token
    → Outcome OauthError MaskedConnector × OauthDb
connect env p st now db (err e) = (err e, db)
connect env p st now db (ok token) = upsert_connected env p st token now db

-- the code of the callback, if it has one and no error
abbrev pub usable_code : Option Text → Option Text → Option Text
usable_code code error_text = if present error_text || not (present code) then none else code

abbrev pub with_code :
    OauthEnv
    → OauthProvider
    → OauthState
    → ℕ
    → OauthDb
    → Option Text
    → Outcome OauthError MaskedConnector × OauthDb
with_code env p st now db none = (err invalid, failed_callback p st now db)
with_code env p st now db (some c) =
    logged_failure p st now (connect env p st now db (env.exchange p c))

abbrev pub paired :
    OauthState
    → Outcome OauthError MaskedConnector × OauthDb
    → Outcome OauthError (OauthState × MaskedConnector) × OauthDb
paired st (ok c, db) = (ok (st, c), db)
paired st (err e, db) = (err e, db)

-- the block of the transaction after the state is consumed
abbrev pub with_state :
    OauthEnv
    → OauthProvider
    → Option Text
    → ℕ
    → Outcome OauthError OauthState × OauthDb
    → Outcome OauthError (OauthState × MaskedConnector) × OauthDb
with_state env p code now (err e, db) = (err e, db)
with_state env p code now (ok st, db) = paired st (
    with_code env p st now
      (oauth_trace "oauth_callback_received" "ok" (some st.user_id) st.workspace_id none db) code)

-- the records of a callback that succeeds
abbrev pub succeeded :
    OauthProvider
    → ℕ
    → Outcome OauthError (OauthState × MaskedConnector) × OauthDb
    → Outcome OauthError MaskedConnector × OauthDb
succeeded p now (err e, db) = (err e, db)
succeeded p now (ok (st, c), db) = (
  ok c,
  credential_event
      record {
        connector_id = some c.id;
        user_id = st.user_id;
        provider_name = p.name;
        event_type = "oauth_token_stored";
        status = "connected";
      }
      (oauth_trace "oauth_token_stored" "ok" (some st.user_id) st.workspace_id none
        (validate_log st.user_id true none now db)),
)

abbrev pub for_provider :
    OauthEnv
    → Option Text
    → Text
    → ℕ
    → OauthDb
    → Option OauthProvider
    → Outcome OauthError MaskedConnector × OauthDb
for_provider env code s now db none = (err not_found, db)
for_provider env code s now db (some p) =
    if not db.gov.pool
    then (err unavailable, db)
    else succeeded p now (
        rolled_back db (
          if is_nil s
          then (err invalid, db)
          else with_state env p code now (consume_state s p.name now db)))

-- `handle_callback`; an absent state is the empty one
unfoldable pub handle_callback :
    OauthEnv
    → Text
    → Option Text
    → Text
    → Option Text
    → ℕ
    → OauthDb
    → Outcome OauthError MaskedConnector × OauthDb
handle_callback env name code s error_text now db =
    for_provider env (usable_code code error_text) s now db (env.get_provider name)
