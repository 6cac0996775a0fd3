-- ===== src/Oauth/Granted.antt =====
-- What a callback needs to connect an account, and that it uses its state up.
use cora_os.Prelude.{
  ℕ, ◌+◌, ◌≤◌, ◌≡◌, ◌⊎◌, refl, ◌∙◌, inl, inr, true, false, Option, none, some, List, [], ◌∷◌,
  is_nil, is_some, or_else, arith, ltb, ==_iff, ◌==◌, Bool-cases, Option-cases, if◌then◌else◌,
}
use cora_os.Prelude.Exec.{Outcome, ok, err}
use cora_os.Prelude.Table.{update}
use cora_os.Prelude.Text.{Text, text_eq}
use cora_os.Oauth.{
  OauthError, invalid, conflict, OauthProvider, OauthState, Connector, MaskedConnector,
  CredentialEvent, Token, OauthDb, OauthEnv, state_key, state_ttl, find_state, mark_consumed,
  rolled_back, credential_event, oauth_trace,
}
use cora_os.Oauth.Callback.{
  consume_state, is_of, latest, stored, upsert_connected, logged_failure, connect, with_code,
  usable_code, paired, succeeded, for_provider,
}

-- What `_consume_state` does with a state that is good.
pub record Consumes (s name : Text) (now : ℕ) (db : OauthDb) (row : OauthState) : Type 0 where
  pub found : find_state s db.states ≡ some row
  pub unused : is_some row.consumed_at ≡ false
  pub same : text_eq row.provider_name name ≡ true
  pub timely : now ≤ row.created_at + state_ttl
  pub result :
      consume_state s name now db
      ≡ (ok row, record db { states = update state_key row.id (mark_consumed now) db.states })

consume_state-cases :
    (s name : Text) (now : ℕ) (db : OauthDb)
    → ((e : OauthError) × (consume_state s name now db ≡ (err e, db)))
      ⊎ ((row : OauthState) × Consumes s name now db row)
unfolding consume_state
consume_state-cases s name now db = elim (Option-cases (find_state s db.states)) [
  | inl e ↦ inl (invalid, simp e)
  | inr (row, found) ↦ elim (Bool-cases (is_some row.consumed_at)) [
    | inl e ↦ inl (conflict, simp (found, e))
    | inr unused ↦ elim (Bool-cases (text_eq row.provider_name name)) [
      | inr e ↦ inl (invalid, simp (found, unused, e))
      | inl same ↦ elim (Bool-cases (ltb (row.created_at + state_ttl) now)) [
        | inl e ↦ inl (invalid, simp (found, unused, same, e))
        | inr timely ↦ inr (
          row,
          record {
            found = found;
            unused = unused;
            same = same;
            timely = ground arith;
            result = simp (found, unused, same, timely);
          },
        )
      ]
    ]
  ]
]

newest-user :
    (user : ℕ) (name : Text) (x : Connector) (o : Option Connector) (c : Connector)
    → (o ≡ some c → c.user_id ≡ user)
    → or_else o (if is_of user name x then some x else none) ≡ some c
    → c.user_id ≡ user
newest-user user name x (some y) c f h = f h
newest-user user name x none c f h = elim (Bool-cases (x.user_id == user)) [
  | inl e ↦ ground (arith, (==_iff x.user_id user).0 e)
  | inr e ↦ ground arith
]

pub good_state :
    (s name : Text) (now : ℕ) (db : OauthDb) (row : OauthState)
    → find_state s db.states ≡ some row
    → is_some row.consumed_at ≡ false
    → text_eq row.provider_name name ≡ true
    → now ≤ row.created_at + state_ttl
    → Consumes s name now db row
unfolding consume_state
good_state s name now db row found unused same timely =
    let early : ltb (row.created_at + state_ttl) now ≡ false = ground arith in
    record {
      found = found;
      unused = unused;
      same = same;
      timely = timely;
      result = simp (found, unused, same, early);
    }

latest-user :
    (user : ℕ) (name : Text) (cs : List Connector) (c : Connector)
    → latest user name cs ≡ some c
    → c.user_id ≡ user
unfolding latest
latest-user user name [] c h = cc
latest-user user name (x ∷ cs) c h =
    newest-user user name x (latest user name cs) c (latest-user user name cs c) h

-- what a connection leaves of the states, and whose it is
abbrev IsFor : OauthState → OauthDb → Outcome OauthError MaskedConnector × OauthDb → Type 0
IsFor st db (ok c, v) = (v.states ≡ db.states) × (c.user_id ≡ st.user_id)
IsFor st db (err e, v) = Unit

pub IsFor-stored :
    (env : OauthEnv) (p : OauthProvider) (st : OauthState) (token : Token) (now : ℕ) (db : OauthDb)
    (o : Option Connector)
    → latest st.user_id p.name db.connectors ≡ o
    → ((stored env p st token now db o).1.states ≡ db.states)
      × ((stored env p st token now db o).0.user_id ≡ st.user_id)
IsFor-stored env p st token now db none h = (refl, refl)
IsFor-stored env p st token now db (some c) h =
    (refl, latest-user st.user_id p.name db.connectors c h)

IsFor-upsert_connected :
    (env : OauthEnv) (p : OauthProvider) (st : OauthState) (token : Token) (now : ℕ) (db : OauthDb)
    → IsFor st db (upsert_connected env p st token now db)
unfolding upsert_connected
IsFor-upsert_connected env p st token now db = elim (Bool-cases env.encryption_available) [
  | inr e ↦ simp e tt
  | inl e ↦
      simp e (IsFor-stored env p st token now db (latest st.user_id p.name db.connectors) refl)
]

IsFor-logged_failure :
    (p : OauthProvider) (st : OauthState) (now : ℕ) (db : OauthDb)
    (o : Outcome OauthError MaskedConnector) (v : OauthDb)
    → IsFor st db (o, v)
    → IsFor st db (logged_failure p st now (o, v))
IsFor-logged_failure p st now db (ok c) v h = h
IsFor-logged_failure p st now db (err e) v h = tt

IsFor-connect :
    (env : OauthEnv) (p : OauthProvider) (st : OauthState) (now : ℕ) (db : OauthDb)
    (o : Outcome OauthError Token)
    → IsFor st db (connect env p st now db o)
IsFor-connect env p st now db (err e) = tt
IsFor-connect env p st now db (ok token) = IsFor-upsert_connected env p st token now db

-- the same for a callback with a code, and the token that the provider gave for it
abbrev IsGiven :
    OauthEnv
    → OauthProvider
    → OauthState
    → Option Text
    → OauthDb
    → Outcome OauthError MaskedConnector × OauthDb
    → Type 0
IsGiven env p st code db (ok c, v) =
    (v.states ≡ db.states)
    × (c.user_id ≡ st.user_id)
    × ((t : Text) × (token : Token) × (code ≡ some t) × (env.exchange p t ≡ ok token))
IsGiven env p st code db (err e, v) = Unit

IsGiven-with_code :
    (env : OauthEnv) (p : OauthProvider) (st : OauthState) (now : ℕ) (db : OauthDb)
    (code : Option Text)
    → IsGiven env p st code db (with_code env p st now db code)
IsGiven-with_code env p st now db none = tt
IsGiven-with_code env p st now db (some t) = given (env.exchange p t) refl
  where
    pass :
        (token : Token)
        → env.exchange p t ≡ ok token
        → (o : Outcome OauthError MaskedConnector) (v : OauthDb) → IsFor st db (o, v)
        → IsGiven env p st (some t) db (logged_failure p st now (o, v))
    pass token e (err x) v h = tt
    pass token e (ok c) v h = (h.0, h.1, (t, token, refl, e))

    given :
        (o : Outcome OauthError Token)
        → env.exchange p t ≡ o
        → IsGiven env p st (some t) db (logged_failure p st now (connect env p st now db o))
    given (err x) e = tt
    given (ok token) e =
        let r = upsert_connected env p st token now db in
        pass token e r.0 r.1 (IsFor-upsert_connected env p st token now db)

-- A callback that connects an account.
pub record IsGranted (env : OauthEnv) (name : Text) (code : Option Text) (s : Text)
    (error_text : Option Text) (now : ℕ) (db : OauthDb) (c : MaskedConnector) (v : OauthDb)
    : Type 0 where
  pub provider : OauthProvider
  pub named : env.get_provider name ≡ some provider
  pub row : OauthState
  pub found : find_state s db.states ≡ some row
  pub unused : is_some row.consumed_at ≡ false
  pub same : text_eq row.provider_name provider.name ≡ true
  pub timely : now ≤ row.created_at + state_ttl
  pub sent : Text
  pub token : Token
  pub sends : usable_code code error_text ≡ some sent
  pub exchanged : env.exchange provider sent ≡ ok token
  pub owner : c.user_id ≡ row.user_id
  pub used : v.states ≡ update state_key row.id (mark_consumed now) db.states

-- A callback that raises leaves the states and the connectors.
pub record IsRefused (db v : OauthDb) : Type 0 where
  pub states : v.states ≡ db.states
  pub connectors : v.connectors ≡ db.connectors

abbrev pub Concludes :
    OauthEnv
    → Text
    → Option Text
    → Text
    → Option Text
    → ℕ
    → OauthDb
    → Outcome OauthError MaskedConnector × OauthDb
    → Type 0
Concludes env name code s error_text now db (ok c, v) =
    IsGranted env name code s error_text now db c v
Concludes env name code s error_text now db (err e, v) = IsRefused db v

states-credential_event :
    (e : CredentialEvent) (db : OauthDb) → (credential_event e db).states ≡ db.states
states-credential_event e db = ground arith

module _ (env : OauthEnv) (name : Text) (code : Option Text) (s : Text) (error_text : Option Text)
    (now : ℕ) (db : OauthDb) (p : OauthProvider) (named : env.get_provider name ≡ some p) where
  finished :
      (row : OauthState)
      → Consumes s p.name now db row
      → (w : OauthDb) → w.states ≡ update state_key row.id (mark_consumed now) db.states
      → (o : Outcome OauthError MaskedConnector) (v : OauthDb)
      → IsGiven env p row (usable_code code error_text) w (o, v)
      → Concludes env name code s error_text now db
          (succeeded p now (rolled_back db (paired row (o, v))))
  finished row c w q (err e) v h = record { states = refl; connectors = refl }
  finished row c w q (ok x) v (same, owner, (sent, token, sends, got)) = record {
    provider = p;
    named = named;
    row = row;
    found = c.found;
    unused = c.unused;
    same = c.same;
    timely = c.timely;
    sent = sent;
    token = token;
    sends = sends;
    exchanged = got;
    owner = owner;
    used = states-credential_event _ _ ∙ same ∙ q;
  }

  pub Concludes-named :
      Concludes env name code s error_text now db
        (for_provider env (usable_code code error_text) s now db (some p))
  Concludes-named = elim (Bool-cases db.gov.pool) [
    | inr down ↦ simp down (record { states = refl; connectors = refl })
    | inl up ↦ elim (Bool-cases (is_nil s)) [
      | inl e ↦ simp (up, e) (record { states = refl; connectors = refl })
      | inr e ↦ elim (consume_state-cases s p.name now db) [
        | inl (x, r) ↦ simp (up, e, r) (record { states = refl; connectors = refl })
        | inr (row, c) ↦
            let w =
              oauth_trace "oauth_callback_received" "ok" (some row.user_id) row.workspace_id none
                (record db { states = update state_key row.id (mark_consumed now) db.states }) in
            let r = with_code env p row now w (usable_code code error_text) in
            simp (up, e, c.result)
              (finished row c w refl r.0 r.1
                (IsGiven-with_code env p row now w (usable_code code error_text)))
      ]
    ]
  ]
