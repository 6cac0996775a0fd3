-- ===== src/Flags/Closed.antt =====
-- The matrix fails closed until an admin opens it.
use cora_os.Prelude.{
  ℕ, ◌≡◌, refl, inl, inr, String, Bool, true, false, not, ◌&&◌, Option, none, some, List, [], ◌∷◌,
  All, All-append, arith, subst, is_some, Bool-cases, Option-cases,
}
use cora_os.Prelude.Exec.{Outcome, ok, err}
use cora_os.Prelude.Table.{find, All-update}
use cora_os.Prelude.Text.{Text, text_eq}
use text.Mathlib.Text.{◌==◌}
use cora_os.Flags.{Flag, norm_provider, norm_action, find_flag, flag_allows_execution}
use cora_os.Flags.Matrix.{
  FlagError, FlagIntent, FlagDb, FlagDecision, FlagChanges, flag_key, decision_of, evaluate,
  new_flag, create_flag, or_column, updated, changes_nothing, update_flag,
}

pub data FlagCall : Type 0 where
  consults :
      (provider action : Option Text) (user : Option ℕ) (intent : Option FlagIntent)
      → (environment : String) → FlagCall
  creates :
      (admin : ℕ) (provider provider_type action : Text) (environment : String) (now : ℕ) → FlagCall
  updates : (k admin : ℕ) (c : FlagChanges) (now : ℕ) → FlagCall

unfoldable pub run_flag_call : FlagCall → FlagDb → FlagDb
run_flag_call (consults p a user intent env) db = (evaluate p a user intent env db).1
run_flag_call (creates admin p t a env now) db = (create_flag admin p t a env now db).1
run_flag_call (updates k admin c now) db = (update_flag k admin c now db).1

unfoldable pub run_flag_calls : List FlagCall → FlagDb → FlagDb
run_flag_calls [] db = db
run_flag_calls (c ∷ cs) db = run_flag_calls cs (run_flag_call c db)

-- the two columns that both have to be open
pub data Column : Type 0 where
  enabled_column dry_run_column : Column

abbrev pub is_open : Column → Flag → Bool
is_open enabled_column f = f.enabled
is_open dry_run_column f = not f.dry_run_only

-- the call opens the column of some row
abbrev pub opens : Column → FlagCall → Bool
opens enabled_column (updates k admin c now) = or_column c.enabled false
opens dry_run_column (updates k admin c now) = not (or_column c.dry_run_only true)
opens col _ = false

abbrev pub AreShut : Column → List Flag → Type 0
AreShut col = All (λ f. is_open col f ≡ false)

abbrev pub IsDenied : Outcome FlagError FlagDecision → Type 0
IsDenied (ok d) = d.allows ≡ false
IsDenied (err e) = Unit

All-find_flag :
    (P : Flag → Type 0) (p a : Text) (env : String) (fs : List Flag) {f : Flag}
    → All P fs
    → find_flag p a env fs ≡ some f
    → P f
All-find_flag P p a env [] h e = cc
All-find_flag P p a env (g ∷ fs) {f} h e =
    elim (Bool-cases
      (text_eq g.provider_name p && text_eq g.action_type a && g.environment == env)) [
        | inl hit ↦ (let q : g ≡ f = ground arith in subst P q h.0)
        | inr miss ↦ All-find_flag P p a env fs h.1 (rw miss at e)
      ]

shut_flag :
    (col : Column) (f : Flag) → is_open col f ≡ false → flag_allows_execution (some f) ≡ false
shut_flag enabled_column f h = ground arith
shut_flag dry_run_column f h = ground arith

shut_updated :
    (col : Column) (k admin : ℕ) (c : FlagChanges) (now : ℕ) (f : Flag)
    → opens col (updates k admin c now) ≡ false
    → is_open col f ≡ false
    → is_open col (updated c f) ≡ false
shut_updated enabled_column k admin c now f o h = ground arith
shut_updated dry_run_column k admin c now f o h = ground arith

shut_new :
    (col : Column) (k : ℕ) (p t a : Text) (env : String)
    → is_open col (new_flag k p t a env) ≡ false
shut_new enabled_column k p t a env = refl
shut_new dry_run_column k p t a env = refl

AreShut-evaluate :
    (col : Column) (p a : Option Text) (user : Option ℕ) (intent : Option FlagIntent) (env : String)
    (db : FlagDb)
    → AreShut col db.flags
    → AreShut col (evaluate p a user intent env db).1.flags
unfolding evaluate
AreShut-evaluate col p a user intent env db h = elim (Bool-cases db.gov.pool) [
  | inr down ↦ simp down h
  | inl up ↦
      elim (Bool-cases
        (decision_of p a env (find_flag (norm_provider p) (norm_action a) env db.flags)).allows) [
          | inl e ↦ simp (up, e) h
          | inr e ↦ simp (up, e) h
        ]
]

AreShut-create_flag :
    (col : Column) (admin : ℕ) (p t a : Text) (env : String) (now : ℕ) (db : FlagDb)
    → AreShut col db.flags
    → AreShut col (create_flag admin p t a env now db).1.flags
unfolding create_flag
AreShut-create_flag col admin p t a env now db h =
    let taken = is_some (find_flag (norm_provider (some p)) (norm_action (some a)) env db.flags) in
    elim (Bool-cases db.gov.pool) [
      | inr down ↦ simp down h
      | inl up ↦ elim (Bool-cases taken) [
        | inl there ↦ simp (up, there) h
        | inr new ↦
            simp (up, new)
              (All-append _ db.flags (new_flag db.fresh p t a env ∷ []) h
                (shut_new col db.fresh p t a env, tt))
      ]
    ]

AreShut-update_flag :
    (col : Column) (k admin : ℕ) (c : FlagChanges) (now : ℕ) (db : FlagDb)
    → opens col (updates k admin c now) ≡ false
    → AreShut col db.flags
    → AreShut col (update_flag k admin c now db).1.flags
unfolding update_flag
AreShut-update_flag col k admin c now db o h = elim (Bool-cases (changes_nothing c)) [
  | inl same ↦ simp same h
  | inr other ↦ elim (Bool-cases db.gov.pool) [
    | inr down ↦ simp (other, down) h
    | inl up ↦ elim (Option-cases (find flag_key k db.flags)) [
      | inl gone ↦ simp (other, up, gone) h
      | inr (row, there) ↦
          simp (other, up, there)
            (All-update flag_key _ k (updated c) (λ f s e. shut_updated col k admin c now f o s)
              db.flags h)
    ]
  ]
]

AreShut-run_flag_calls :
    (col : Column) (cs : List FlagCall) (db : FlagDb)
    → AreShut col db.flags
    → All (λ c. opens col c ≡ false) cs
    → AreShut col (run_flag_calls cs db).flags
unfolding run_flag_calls run_flag_call
AreShut-run_flag_calls col [] db h o = h
AreShut-run_flag_calls col (consults p a user intent env ∷ cs) db h o =
    AreShut-run_flag_calls col cs _ (AreShut-evaluate col p a user intent env db h) o.1
AreShut-run_flag_calls col (creates admin p t a env now ∷ cs) db h o =
    AreShut-run_flag_calls col cs _ (AreShut-create_flag col admin p t a env now db h) o.1
AreShut-run_flag_calls col (updates k admin c now ∷ cs) db h o =
    AreShut-run_flag_calls col cs _ (AreShut-update_flag col k admin c now db o.0 h) o.1

denied_of :
    (col : Column) (p a : Option Text) (env : String) (o : Option Flag)
    → ((f : Flag) → o ≡ some f → is_open col f ≡ false)
    → (decision_of p a env o).allows ≡ false
unfolding decision_of
denied_of col p a env none h = refl
denied_of col p a env (some f) h = shut_flag col f (h f refl)

-- While no flag of the matrix has a column open, `enabled` or the clearing of `dry_run_only`, and no
-- call opens that column, every sequence of calls leaves a matrix in which every consultation that
-- returns denies.
pub evaluate-run_flag_calls :
    (col : Column) (cs : List FlagCall) (db : FlagDb) (p a : Option Text) (user : Option ℕ)
    (intent : Option FlagIntent) (env : String)
    → AreShut col db.flags
    → All (λ c. opens col c ≡ false) cs
    → IsDenied (evaluate p a user intent env (run_flag_calls cs db)).0
unfolding evaluate
evaluate-run_flag_calls col cs db p a user intent env h o =
    let db' = run_flag_calls cs db in
    let shut = AreShut-run_flag_calls col cs db h o in
    elim (Bool-cases db'.gov.pool) [
      | inr down ↦ simp down tt
      | inl up ↦ simp up (
          denied_of col p a env (find_flag (norm_provider p) (norm_action a) env db'.flags)
            (λ f e. All-find_flag _ (norm_provider p) (norm_action a) env db'.flags shut e))
    ]
