-- ===== src/Oauth/Connects.antt =====
-- An authorization that is started and comes back in time connects the account.
use cora_os.Prelude.{
  ℕ, ◌+◌, ◌≤◌, ◌≡◌, refl, sym, subst, ap, ◌∙◌, true, false, Option, none, some, List, [], ◌∷◌, ◌++◌,
  is_nil, ==_iff, ==_refl, ◌==◌, arith, inl, inr, Bool-cases, Option-cases,
}
use cora_os.Prelude.Exec.{ok}
use cora_os.Prelude.Table.{update}
use cora_os.Prelude.Text.{Text, text_eq}
use cora_os.Governance.{write_runtime_trace}
use cora_os.Oauth.{
  OauthProvider, OauthState, Connector, CredentialEvent, mask, connected, Token, OauthDb, OauthEnv,
  state_key, connector_key, mark_consumed, state_ttl, find_state, config_present, oauth_trace,
  credential_event,
}
use cora_os.Oauth.Start.{new_state, start_authorization}
use cora_os.Oauth.Callback.{
  encrypted, is_of, latest, renewed, stored, upsert_connected, handle_callback,
}
use cora_os.Oauth.Granted.{Consumes, good_state, IsFor-stored}

text_eq_refl : (t : Text) → text_eq t t ≡ true
text_eq_refl [] = refl
text_eq_refl (c ∷ t) = simp (==_refl c, text_eq_refl t)

find_state-append :
    (s : Text) (rs : List OauthState) (r : OauthState)
    → r.state ≡ s
    → find_state s rs ≡ none
    → find_state s (rs ++ r ∷ []) ≡ some r
find_state-append s [] r q h = rw q (simp (text_eq_refl s))
find_state-append s (x ∷ rs) r q h = elim (Bool-cases (text_eq x.state s)) [
  | inl e ↦ (let z : some x ≡ none = simp e at h in cc)
  | inr e ↦ simp e (find_state-append s rs r q (simp e at h))
]

module _ (user : ℕ) (name : Text) (k : ℕ) (f : Connector → Connector)
    (keeps : (x : Connector) → is_of user name (f x) ≡ is_of user name x) where
  latest_none-update :
      (xs : List Connector)
      → latest user name xs ≡ none
      → latest user name (update connector_key k f xs) ≡ none
  unfolding latest
  latest_none-update [] h = refl
  latest_none-update (x ∷ xs) h = elim (Option-cases (latest user name xs)) [
    | inr (c, e) ↦ absurd (let z : some c ≡ none = simp e at h in cc)
    | inl e ↦
        let ih = latest_none-update xs e in
        elim (Bool-cases (is_of user name x)) [
          | inl hit ↦ absurd (let z : some x ≡ none = simp (e, hit) at h in cc)
          | inr miss ↦ elim (Bool-cases (x.id == k)) [
            | inl i ↦ simp (i, ih, keeps x, miss)
            | inr i ↦ simp (i, ih, miss)
          ]
        ]
  ]

  -- the newest row of a user and a provider after an update of it
  latest-update :
      (xs : List Connector) (c : Connector)
      → latest user name xs ≡ some c
      → c.id ≡ k
      → latest user name (update connector_key k f xs) ≡ some (f c)
  unfolding latest
  latest-update [] c h i = cc
  latest-update (x ∷ xs) c h i = elim (Option-cases (latest user name xs)) [
    | inr (d, e) ↦
        let same : some d ≡ some c = simp e at h in
        let q : d ≡ c = cc in simp (latest-update xs c (e ∙ same) i)
    | inl e ↦
        let none_later = latest_none-update xs e in
        elim (Bool-cases (is_of user name x)) [
          | inr miss ↦ absurd (let z : none ≡ some c = simp (e, miss) at h in cc)
          | inl hit ↦
              let same : some x ≡ some c = simp (e, hit) at h in
              let q : x ≡ c = cc in
              let at : (x.id == k) ≡ true = (==_iff x.id k).1 (ap connector_key q ∙ i) in
              simp (at, none_later, keeps x, hit) (ap (λ y. some (f y)) q)
        ]
  ]

latest-append :
    (user : ℕ) (name : Text) (xs : List Connector) (c : Connector)
    → is_of user name c ≡ true
    → latest user name (xs ++ c ∷ []) ≡ some c
unfolding latest
latest-append user name [] c h = simp h
latest-append user name (x ∷ xs) c h = simp (latest-append user name xs c h)

-- What is stored of a connection: the newest row of the user and the provider, connected, with the
-- encrypted access token.
pub record IsStored (env : OauthEnv) (p : OauthProvider) (user : ℕ) (token : Token) (c : Connector)
    (xs : List Connector) : Type 0 where
  pub newest : latest user p.name xs ≡ some c
  pub owner : c.user_id ≡ user
  pub status : c.status ≡ connected
  pub secret : c.access_token ≡ encrypted env token.access_token

stored-IsStored :
    (env : OauthEnv) (p : OauthProvider) (st : OauthState) (token : Token) (now : ℕ) (w : OauthDb)
    (o : Option Connector)
    → latest st.user_id p.name w.connectors ≡ o
    → IsStored env p st.user_id token
        (stored env p st token now w o).0
        (stored env p st token now w o).1.connectors
stored-IsStored env p st token now w none h = record {
  newest =
      latest-append st.user_id p.name w.connectors _
        (simp (==_refl st.user_id, text_eq_refl p.name));
  owner = refl;
  status = refl;
  secret = refl;
}
stored-IsStored env p st token now w (some c) h = record {
  newest =
      latest-update st.user_id p.name c.id (renewed env p token now) (λ x. refl) w.connectors c h
        refl;
  owner = (IsFor-stored env p st token now w (some c) h).1;
  status = refl;
  secret = refl;
}

connectors-credential_event :
    (e : CredentialEvent) (db : OauthDb) → (credential_event e db).connectors ≡ db.connectors
connectors-credential_event e db = ground arith

module _ (env : OauthEnv) (name s code : Text) (later : ℕ) (p : OauthProvider) (token : Token)
    (db : OauthDb) (named : env.get_provider name ≡ some p)
    (locked : env.encryption_available ≡ true) (given : env.exchange p code ≡ ok token)
    (up : db.gov.pool ≡ true) (word : is_nil s ≡ false) (sent : is_nil code ≡ false) where
  -- a callback with a good state
  connected_lem :
      (row : OauthState)
      → Consumes s p.name later db row
      → (c : Connector) × ((handle_callback env name (some code) s none later db).0
          ≡ ok (mask true later c))
        × IsStored env p row.user_id token c
            (handle_callback env name (some code) s none later db).1.connectors
  unfolding handle_callback upsert_connected
  connected_lem row c =
      let w : OauthDb =
        oauth_trace "oauth_callback_received" "ok" (some row.user_id) row.workspace_id none
          (record db { states = update state_key row.id (mark_consumed later) db.states }) in
      let o = latest row.user_id p.name w.connectors in
      let r = stored env p row token later w o in
      let kept : (handle_callback env name (some code) s none later db).1.connectors
          ≡ r.1.connectors =
        simp (named, up, word, c.result, sent, given, locked) (connectors-credential_event _ _) in
      (
        r.0,
        simp (named, up, word, c.result, sent, given, locked),
        subst (IsStored env p row.user_id token r.0) (sym kept)
            (stored-IsStored env p row token later w o refl),
      )

-- what the start of an authorization leaves
start_lem :
    (env : OauthEnv) (name s : Text) (user : ℕ) (workspace : Option ℕ) (now : ℕ) (p : OauthProvider)
    (db : OauthDb)
    → env.get_provider name ≡ some p
    → config_present (env.provider_config p) ≡ true
    → db.gov.pool ≡ true
    → ((start_authorization env name s user workspace now db).1.states
        ≡ db.states
          ++ new_state s p user workspace (env.provider_config p).redirect_uri now db.fresh ∷ [])
      × ((start_authorization env name s user workspace now db).1.gov.pool ≡ true)
unfolding start_authorization write_runtime_trace
start_lem env name s user workspace now p db named full up =
    (simp (named, full, up), simp (named, full, up))

-- When a provider is known and configured, encryption has its key, and the connection pool is open, an
-- authorization that is started under a new state, and that comes back within ten minutes with a code
-- which the provider exchanges for tokens, connects the account: afterwards the newest connector row of
-- the user who started it and of the provider is connected and holds the encrypted access token, and
-- the callback returns that row without the tokens.
pub handle_callback-start_authorization :
    (env : OauthEnv) (name s code : Text) (user : ℕ) (workspace : Option ℕ) (now later : ℕ)
    (p : OauthProvider) (token : Token) (db : OauthDb)
    → env.get_provider name ≡ some p
    → config_present (env.provider_config p) ≡ true
    → env.encryption_available ≡ true
    → env.exchange p code ≡ ok token
    → db.gov.pool ≡ true
    → is_nil s ≡ false
    → is_nil code ≡ false
    → find_state s db.states ≡ none
    → later ≤ now + state_ttl
    → let after = (start_authorization env name s user workspace now db).1 in
      let back = handle_callback env name (some code) s none later after in
      (c : Connector) × (back.0 ≡ ok (mask true later c))
      × IsStored env p user token c back.1.connectors
handle_callback-start_authorization env name s code user workspace now later p token db named full
      locked given up word sent new time =
    let after = (start_authorization env name s user workspace now db).1 in
    let row = new_state s p user workspace (env.provider_config p).redirect_uri now db.fresh in
    let begun = start_lem env name s user workspace now p db named full up in
    let there = ap (find_state s) begun.0 ∙ find_state-append s db.states row refl new in
    let good : Consumes s p.name later after row =
      good_state s p.name later after row there refl (text_eq_refl p.name) time in
    connected_lem env name s code later p token after named locked given begun.1 word sent row good
