-- ===== src/Oauth/Kept.antt =====
-- What a refresh of a connection keeps.
use cora_os.Prelude.{
  ℕ, ◌≡◌, refl, inl, inr, String, true, false, Option, none, some, List, [], ◌∷◌, Bool-cases, arith,
  subst, sym,
}
use cora_os.Prelude.Exec.{Outcome, ok, err}
use cora_os.Prelude.Text.{Text}
use cora_os.Oauth.{OauthError, OauthProvider, Connector, Token, OauthDb, OauthEnv, present}
use cora_os.Oauth.Callback.{is_of, latest}
use cora_os.Oauth.Refresh.{
  answered, decrypted, mark_refresh_failed, refresh_connection, refresh_event, refresh_trace,
  rotated, update_of, with_connector, with_secret,
}

-- Of two tables of connectors: the second has the rows of the first in their order, with their owners
-- and refresh tokens, and the rows of other users and providers as they are.
abbrev pub IsKept : ℕ → Text → List Connector → List Connector → Type 0
IsKept user name [] [] = Unit
IsKept user name [] (y ∷ ys) = ⊥
IsKept user name (x ∷ xs) [] = ⊥
IsKept user name (x ∷ xs) (y ∷ ys) =
    (y.id ≡ x.id)
    × (y.user_id ≡ x.user_id)
    × (y.refresh_token ≡ x.refresh_token)
    × (is_of user name x ≡ false → y ≡ x)
    × IsKept user name xs ys

IsKept-same : (user : ℕ) (name : Text) (xs : List Connector) → IsKept user name xs xs
IsKept-same user name [] = tt
IsKept-same user name (x ∷ xs) = (refl, refl, refl, λ h. refl, IsKept-same user name xs)

-- a write of other columns
record IsMinor (f : Connector → Connector) : Type 0 where
  ids : (x : Connector) → (f x).id ≡ x.id
  users : (x : Connector) → (f x).user_id ≡ x.user_id
  secrets : (x : Connector) → (f x).refresh_token ≡ x.refresh_token

IsKept-update_of :
    (user : ℕ) (name : Text) (f : Connector → Connector)
    → IsMinor f
    → (xs : List Connector) → IsKept user name xs (update_of user name f xs)
IsKept-update_of user name f m [] = tt
IsKept-update_of user name f m (x ∷ xs) =
    let rest = IsKept-update_of user name f m xs in
    elim (Bool-cases (is_of user name x)) [
      | inl e ↦ simp e (m.ids x, m.users x, m.secrets x, λ h. cc, rest)
      | inr e ↦ simp e (refl, refl, refl, λ h. refl, rest)
    ]

connectors-refresh_event :
    (event_type status : String) (p : OauthProvider) (c : Connector) (db : OauthDb)
    → (refresh_event event_type status p c db).connectors ≡ db.connectors
connectors-refresh_event event_type status p c db = ground arith

module _ (env : OauthEnv) (p : OauthProvider) (user now : ℕ) (c : Connector) where
  marked :
      (xs : List Connector)
      → IsKept user p.name xs
          (update_of user p.name (λ (x : Connector). record x { refresh_failed = true }) xs)
  marked xs =
      IsKept-update_of user p.name (λ (x : Connector). record x { refresh_failed = true })
        (record { ids = λ x. refl; users = λ x. refl; secrets = λ x. refl }) xs

  IsKept-answered :
      (db : OauthDb) (o : Outcome OauthError Token)
      → IsKept user p.name db.connectors (answered env p user now c db o).1.connectors
  IsKept-answered db (err e) =
      rw
        (connectors-refresh_event "oauth_token_refresh_failed" "failed" p c (
          refresh_trace "oauth_token_refresh_failed" "failed" c
            (mark_refresh_failed user p.name db)))
        (marked db.connectors)
  IsKept-answered db (ok token) =
      subst (IsKept user p.name db.connectors)
        (sym (connectors-refresh_event "oauth_token_refreshed" "ok" p c _))
        (IsKept-update_of user p.name (rotated env token now)
          (record { ids = λ x. refl; users = λ x. refl; secrets = λ x. refl }) db.connectors)

  IsKept-with_secret :
      (db : OauthDb) (o : Outcome OauthError (Option Text))
      → IsKept user p.name db.connectors (with_secret env p user now c db o).1.connectors
  IsKept-with_secret db (err e) = IsKept-same user p.name db.connectors
  IsKept-with_secret db (ok none) = marked db.connectors
  IsKept-with_secret db (ok (some t)) = elim (Bool-cases (present (some t))) [
    | inl e ↦ simp e (IsKept-answered db (env.refresh p t))
    | inr e ↦ simp e (marked db.connectors)
  ]

IsKept-with_connector :
    (env : OauthEnv) (p : OauthProvider) (user now : ℕ) (db : OauthDb) (o : Option Connector)
    → IsKept user p.name db.connectors (with_connector env p user now db o).1.connectors
IsKept-with_connector env p user now db none = IsKept-same user p.name db.connectors
IsKept-with_connector env p user now db (some c) =
    IsKept-with_secret env p user now c (refresh_trace "oauth_token_refresh_attempted" "ok" c db)
      (decrypted env c.refresh_token)

-- A refresh, whether it succeeds or raises, keeps every refresh token: the connectors are the same rows
-- with the same owners and refresh tokens, and the rows of other users and of other providers stay as
-- they are. The provider has to be a known one.
pub refresh_connection-IsKept :
    (env : OauthEnv) (name : Text) (user now : ℕ) (db : OauthDb) (p : OauthProvider)
    → env.get_provider name ≡ some p
    → IsKept user p.name db.connectors (refresh_connection env name user now db).1.connectors
unfolding refresh_connection
refresh_connection-IsKept env name user now db p named = elim (Bool-cases db.gov.pool) [
  | inr down ↦ simp (named, down) (IsKept-same user p.name db.connectors)
  | inl up ↦
      simp (named, up) (IsKept-with_connector env p user now db (latest user p.name db.connectors))
]
