-- ===== src/Oauth/Refresh.antt =====
-- apps/cora-api/app/oauth_flow.py: the refresh of a connection's access token, and the status that the
-- user interface shows.
use cora_os.Prelude.{
  ℕ, String, Bool, true, false, not, Option, none, some, List, [], ◌∷◌, leb, if◌then◌else◌,
}
use cora_os.Prelude.Exec.{Outcome, ok, err}
use cora_os.Prelude.Text.{Text}
use cora_os.Oauth.{
  OauthError, not_found, invalid, unavailable, OauthProvider, Connector, ConnectorStatus, connected,
  not_configured, disconnected, oauth_required, error, Token, OauthDb, OauthEnv, present,
  config_present, oauth_trace, credential_event,
}
use cora_os.Oauth.Callback.{is_of, latest, encrypted, expires_at}

-- the statuses of a connection that the user interface shows
pub data ConnectionStatus : Type 0 where
  st_not_configured st_ready_to_connect st_connected st_expired st_refresh_failed : ConnectionStatus

-- `_token_expired`
abbrev pub token_expired : ℕ → Connector → Bool
token_expired now c = elim (c.expires_at) [ none ↦ false | some t ↦ leb t now ]

abbrev pub unconnected : ConnectorStatus → Bool
unconnected not_configured = true
unconnected disconnected = true
unconnected oauth_required = true
unconnected _ = false

abbrev pub is_failed : ConnectorStatus → Bool
is_failed error = true
is_failed _ = false

-- `_compute_status`
unfoldable pub compute_status : OauthEnv → OauthProvider → ℕ → Option Connector → ConnectionStatus
compute_status env p now none =
    if config_present (env.provider_config p) then st_ready_to_connect else st_not_configured
compute_status env p now (some c) =
    if not (config_present (env.provider_config p))
    then st_not_configured
    else if unconnected c.status
    then st_ready_to_connect
    else if c.refresh_failed
    then st_refresh_failed
    else if not (present c.access_token)
    then st_ready_to_connect
    else if token_expired now c
    then st_expired
    else if is_failed c.status
    then st_refresh_failed
    else st_connected

-- the UPDATE of the rows of a user and a provider
abbrev pub update_of : ℕ → Text → (Connector → Connector) → List Connector → List Connector
update_of user name f [] = []
update_of user name f (c ∷ cs) = (if is_of user name c then f c else c) ∷ update_of user name f cs

-- `_mark_refresh_failed`
abbrev pub mark_refresh_failed : ℕ → Text → OauthDb → OauthDb
mark_refresh_failed user name db = record db {
  connectors =
      update_of user name (λ (c : Connector). record c { refresh_failed = true }) db.connectors;
}

abbrev pub rotated : OauthEnv → Token → ℕ → Connector → Connector
rotated env token now c = record c {
  access_token = encrypted env token.access_token;
  expires_at = expires_at now token.expires_in;
  status = connected;
  refresh_failed = false;
}

-- `decrypt_secret`
abbrev pub decrypted : OauthEnv → Option Text → Outcome OauthError (Option Text)
decrypted env none = ok none
decrypted env (some t) =
    if not (present (some t))
    then ok none
    else elim (env.decrypt t) [ ok u ↦ ok (some u) | err e ↦ err e ]

abbrev pub refresh_trace : String → String → Connector → OauthDb → OauthDb
refresh_trace trace_type status c db =
    oauth_trace trace_type status (some c.user_id) c.workspace_id none db

abbrev pub refresh_event : String → String → OauthProvider → Connector → OauthDb → OauthDb
refresh_event event_type status p c db =
    credential_event
      record {
        connector_id = some c.id;
        user_id = c.user_id;
        provider_name = p.name;
        event_type = event_type;
        status = status;
      }
      db

-- what the token endpoint's answer leaves
abbrev pub answered :
    OauthEnv
    → OauthProvider
    → ℕ
    → ℕ
    → Connector
    → OauthDb
    → Outcome OauthError Token
    → Outcome OauthError ConnectionStatus × OauthDb
answered env p user now c db (err e) = (
  err e,
  refresh_event "oauth_token_refresh_failed" "failed" p c
      (refresh_trace "oauth_token_refresh_failed" "failed" c (mark_refresh_failed user p.name db)),
)
answered env p user now c db (ok token) =
    let rows = update_of user p.name (rotated env token now) db.connectors in
    (
      ok (compute_status env p now (latest user p.name rows)),
      refresh_event "oauth_token_refreshed" "ok" p c
          (refresh_trace "oauth_token_refresh_succeeded" "ok" c (record db { connectors = rows })),
    )

abbrev pub with_secret :
    OauthEnv
    → OauthProvider
    → ℕ
    → ℕ
    → Connector
    → OauthDb
    → Outcome OauthError (Option Text)
    → Outcome OauthError ConnectionStatus × OauthDb
with_secret env p user now c db (err e) =
    (err unavailable, refresh_trace "oauth_token_refresh_failed" "failed" c db)
with_secret env p user now c db (ok none) = (
  err invalid,
  refresh_trace "oauth_token_refresh_failed" "failed" c (mark_refresh_failed user p.name db),
)
with_secret env p user now c db (ok (some t)) =
    if present (some t) then answered env p user now c db (env.refresh p t) else (
      err invalid,
      refresh_trace "oauth_token_refresh_failed" "failed" c (mark_refresh_failed user p.name db),
    )

abbrev pub with_connector :
    OauthEnv
    → OauthProvider
    → ℕ
    → ℕ
    → OauthDb
    → Option Connector
    → Outcome OauthError ConnectionStatus × OauthDb
with_connector env p user now db none = (err not_found, db)
with_connector env p user now db (some c) =
    with_secret env p user now c (refresh_trace "oauth_token_refresh_attempted" "ok" c db)
      (decrypted env c.refresh_token)

abbrev refreshed :
    OauthEnv
    → ℕ
    → ℕ
    → OauthDb
    → Option OauthProvider
    → Outcome OauthError ConnectionStatus × OauthDb
refreshed env user now db none = (err not_found, db)
refreshed env user now db (some p) =
    if not db.gov.pool
    then (err unavailable, db)
    else with_connector env p user now db (latest user p.name db.connectors)

-- `refresh_connection`
unfoldable pub refresh_connection :
    OauthEnv → Text → ℕ → ℕ → OauthDb → Outcome OauthError ConnectionStatus × OauthDb
refresh_connection env name user now db = refreshed env user now db (env.get_provider name)
