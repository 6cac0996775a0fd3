-- ===== src/Oauth/Start.antt =====
-- apps/cora-api/app/oauth_flow.py: the start of an authorization. Its random state is an argument; the
-- URL that is built from it is left out.
use cora_os.Prelude.{ℕ, suc, not, Option, none, some, [], ◌∷◌, ◌++◌, if◌then◌else◌}
use cora_os.Prelude.Exec.{Outcome, ok, err}
use cora_os.Prelude.Text.{Text}
use cora_os.Oauth.{
  OauthError, not_found, invalid, unavailable, OauthProvider, OauthState, OauthDb, OauthEnv,
  config_present, oauth_trace,
}

abbrev pub new_state : Text → OauthProvider → ℕ → Option ℕ → Option Text → ℕ → ℕ → OauthState
new_state s p user workspace redirect now k = record {
  id = k;
  state = s;
  provider_name = p.name;
  user_id = user;
  workspace_id = workspace;
  redirect_uri = redirect;
  created_at = now;
  consumed_at = none;
}

abbrev started_for :
    OauthEnv
    → Text
    → ℕ
    → Option ℕ
    → ℕ
    → OauthDb
    → Option OauthProvider
    → Outcome OauthError Text × OauthDb
started_for env s user workspace now db none = (err not_found, db)
started_for env s user workspace now db (some p) =
    if not (config_present (env.provider_config p))
    then (
      err invalid,
      oauth_trace "oauth_start_created" "failed" (some user) workspace
          (some "provider OAuth client not configured") db,
    )
    else if not db.gov.pool
    then (err unavailable, db)
    else (
      ok s,
      oauth_trace "oauth_start_created" "ok" (some user) workspace none (record db {
        fresh = suc db.fresh;
        states =
            db.states
            ++ new_state s p user workspace (env.provider_config p).redirect_uri now db.fresh ∷ [];
      }),
    )

-- `start_authorization`, whose random state is `s`
unfoldable pub start_authorization :
    OauthEnv → Text → Text → ℕ → Option ℕ → ℕ → OauthDb → Outcome OauthError Text × OauthDb
start_authorization env name s user workspace now db =
    started_for env s user workspace now db (env.get_provider name)
