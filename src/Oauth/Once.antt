-- ===== src/Oauth/Once.antt =====
-- A state serves one callback, and a callback in time after the start succeeds.
use cora_os.Prelude.{
  ℕ, ◌≡◌, refl, sym, ap, subst, ◌∙◌, inl, inr, true, false, Option, some, List, [], ◌∷◌, is_some,
  ==_refl, ◌==◌, Bool-cases, Option-cases,
}
use cora_os.Prelude.Exec.{Outcome, ok, err}
use cora_os.Prelude.Table.{update}
use cora_os.Prelude.Text.{Text, text_eq}
use cora_os.Oauth.{
  OauthError, OauthState, MaskedConnector, OauthDb, OauthEnv, state_key, find_state, mark_consumed,
}
use cora_os.Oauth.Callback.{handle_callback}
use cora_os.Oauth.Granted.{Concludes, IsGranted, IsRefused, Concludes-named}

-- A callback connects an account only by a state of the table that is unused, of the same provider and
-- at most ten minutes old, and by a code that the provider exchanges for tokens; the account is then
-- the user's who started the authorization, and the state is marked as used. A callback that raises
-- leaves the states and the connectors as they were, so the state of a failed callback is not used up.
pub handle_callback-Concludes :
    (env : OauthEnv) (name : Text) (code : Option Text) (s : Text) (error_text : Option Text)
    (now : ℕ) (db : OauthDb)
    → Concludes env name code s error_text now db
        (handle_callback env name code s error_text now db)
unfolding handle_callback
handle_callback-Concludes env name code s error_text now db =
    elim (Option-cases (env.get_provider name)) [
      | inl e ↦ simp e (record { states = refl; connectors = refl })
      | inr (p, e) ↦ simp e (Concludes-named env name code s error_text now db p e)
    ]

find_state-update :
    (s : Text) (now : ℕ) (rs : List OauthState) (r : OauthState)
    → find_state s rs ≡ some r
    → find_state s (update state_key r.id (mark_consumed now) rs) ≡ some (mark_consumed now r)
find_state-update s now [] r h = cc
find_state-update s now (x ∷ rs) r h = elim (Bool-cases (text_eq x.state s)) [
  | inl e ↦
      let q : x ≡ r = (let p : some x ≡ some r = simp e at h in cc) in
      subst
        (λ (y : OauthState).
          find_state s (update state_key y.id (mark_consumed now) (x ∷ rs))
          ≡ some (mark_consumed now y))
        q (simp (==_refl x.id, e))
  | inr e ↦
      let ih = find_state-update s now rs r (simp e at h) in
      elim (Bool-cases (x.id == r.id)) [ inl i ↦ simp (i, e) ih | inr i ↦ simp (i, e) ih ]
]

-- a used state connects nothing
used_up :
    (env : OauthEnv) (name : Text) (code : Option Text) (s : Text) (error_text : Option Text)
    (now : ℕ) (db : OauthDb) (r : OauthState)
    → find_state s db.states ≡ some r
    → is_some r.consumed_at ≡ true
    → (o : Outcome OauthError MaskedConnector) (v : OauthDb)
    → Concludes env name code s error_text now db (o, v)
    → ((e : OauthError) × (o ≡ err e)) × IsRefused db v
used_up env name code s error_text now db r there used (err e) v h = ((e, refl), h)
used_up env name code s error_text now db r there used (ok c) v h =
    let p : some r ≡ some h.row = sym there ∙ h.found in
    let q : r ≡ h.row = cc in
    let z : true ≡ false = sym used ∙ ap (λ (x : OauthState). is_some x.consumed_at) q ∙ h.unused in
    cc

granted :
    (env : OauthEnv) (name : Text) (code : Option Text) (s : Text) (error_text : Option Text)
    (now : ℕ) (db : OauthDb) (c : MaskedConnector) (o : Outcome OauthError MaskedConnector)
    (v : OauthDb)
    → Concludes env name code s error_text now db (o, v)
    → o ≡ ok c
    → IsGranted env name code s error_text now db c v
granted env name code s error_text now db c (err e) v h q = cc
granted env name code s error_text now db c (ok x) v h q =
    (let p : x ≡ c = cc in subst (λ y. IsGranted env name code s error_text now db y v) p h)

-- A state connects one account: after a callback has returned a connector, every further callback with
-- the same state raises, whatever it is asked, and leaves the states and the connectors as they are.
pub handle_callback_once :
    (env : OauthEnv) (name : Text) (code : Option Text) (s : Text) (error_text : Option Text)
    (now : ℕ) (db : OauthDb) (c : MaskedConnector) (env' : OauthEnv) (name' : Text)
    (code' error_text' : Option Text) (now' : ℕ)
    → (handle_callback env name code s error_text now db).0 ≡ ok c
    → ((e : OauthError) × ((handle_callback env' name' code' s error_text' now'
            (handle_callback env name code s error_text now db).1).0
          ≡ err e))
      × IsRefused
          (handle_callback env name code s error_text now db).1
          (handle_callback env' name' code' s error_text' now'
            (handle_callback env name code s error_text now db).1).1
handle_callback_once env name code s error_text now db c env' name' code' error_text' now' h =
    let first = handle_callback env name code s error_text now db in
    let second = handle_callback env' name' code' s error_text' now' first.1 in
    let g =
      granted env name code s error_text now db c first.0 first.1
        (handle_callback-Concludes env name code s error_text now db) h in
    used_up env' name' code' s error_text' now' first.1 (mark_consumed now g.row)
      (ap (find_state s) g.used ∙ find_state-update s now db.states g.row g.found) refl second.0
      second.1 (handle_callback-Concludes env' name' code' s error_text' now' first.1)
