-- ===== src/Oauth/Tests.antt =====
-- An account that is connected, and an instance of each result.
use cora_os.Prelude.{◌≡◌, refl, arith, true, false, none, some, [], ◌∷◌}
use cora_os.Prelude.Exec.{ok, err}
use cora_os.Prelude.Text.{Text, codes}
use cora_os.Governance.{write_runtime_trace, log_execution_attempt}
use cora_os.Oauth.{
  OauthError, conflict, OauthProvider, Connector, connected, mask, Token, OauthDb, OauthEnv,
}
use cora_os.Oauth.Start.{start_authorization}
use cora_os.Oauth.Callback.{consume_state, latest, upsert_connected, handle_callback}
use cora_os.Oauth.Refresh.{compute_status, st_connected, refresh_connection}
use cora_os.Oauth.Once.{handle_callback-Concludes, handle_callback_once}
use cora_os.Oauth.Granted.{Concludes, IsRefused}
use cora_os.Oauth.Connects.{IsStored, handle_callback-start_authorization}
use cora_os.Oauth.Kept.{IsKept, refresh_connection-IsKept}

abbrev google : OauthProvider
google = record {
  name = codes "google_calendar";
  provider_type = codes "calendar";
  vendor = codes "google";
  scopes = codes "calendar" ∷ [];
  requires_refresh_token = true;
}

abbrev token : Token
token = record {
  access_token = some (codes "a1");
  refresh_token = some (codes "r1");
  expires_in = some 3600;
  scope = none;
}

abbrev env : OauthEnv
env = record {
  get_provider = λ n. some google;
  provider_config = λ p. record {
    client_id = some (codes "id");
    client_secret = some (codes "secret");
    redirect_uri = some (codes "https://cora/callback");
  };
  encryption_available = true;
  encrypt = λ t. 33 ∷ t;
  decrypt = λ t. ok t;
  exchange = λ p t. ok token;
  refresh = λ p t. ok (record token { access_token = some (codes "a2"); refresh_token = none });
}

abbrev empty_db : OauthDb
empty_db = record {
  gov = record { pool = true; policies = []; logs = []; traces = [] };
  states = [];
  connectors = [];
  events = [];
  fresh = 1;
}

abbrev name : Text
name = codes "google_calendar"

abbrev secret : Text
secret = codes "state-1"

abbrev code : Text
code = codes "code-1"

abbrev begun : OauthDb
begun = (start_authorization env name secret 3 none 1000 empty_db).1

abbrev done : OauthDb
done = (handle_callback env name (some code) secret none 1100 begun).1

abbrev account : Connector
account = record {
  id = 2;
  user_id = 3;
  workspace_id = none;
  provider_name = name;
  provider_type = codes "calendar";
  status = connected;
  scopes = codes "calendar" ∷ [];
  access_token = some (33 ∷ codes "a1");
  refresh_token = some (33 ∷ codes "r1");
  expires_at = some 4700;
  refresh_failed = false;
  disconnected_at = none;
}

runs : Unit {0}
unfolding start_authorization consume_state latest upsert_connected handle_callback compute_status
    refresh_connection write_runtime_trace log_execution_attempt
runs = tt

connects :
    (handle_callback env name (some code) secret none 1100 begun).0 ≡ ok (mask true 1100 account)
unfolding runs
connects = refl

twice : (handle_callback env name (some code) secret none 1101 done).0 ≡ err conflict
unfolding runs
twice = refl

refreshes : (refresh_connection env name 3 2000 done).0 ≡ ok st_connected
unfolding runs
refreshes = refl

handle_callback-Concludes_example :
    Concludes env name
      (some code)
      secret
      none
      1100
      begun
      (handle_callback env name (some code) secret none 1100 begun)
handle_callback-Concludes_example =
    handle_callback-Concludes env name (some code) secret none 1100 begun

handle_callback_once_example :
    ((e : OauthError) × ((handle_callback env name none secret none 5000 done).0 ≡ err e))
    × IsRefused done (handle_callback env name none secret none 5000 done).1
handle_callback_once_example =
    handle_callback_once env name (some code) secret none 1100 begun (mask true 1100 account) env
      name none none 5000 connects

handle_callback-start_authorization_example :
    (c : Connector) × ((handle_callback env name (some code) secret none 1100 begun).0
      ≡ ok (mask true 1100 c))
    × IsStored env google 3 token c done.connectors
handle_callback-start_authorization_example =
    handle_callback-start_authorization env name secret code 3 none 1000 1100 google token empty_db
      refl refl refl refl refl refl refl refl (omega arith)

refresh_connection-IsKept_example :
    IsKept 3 name done.connectors (refresh_connection env name 3 2000 done).1.connectors
refresh_connection-IsKept_example = refresh_connection-IsKept env name 3 2000 done google refl
