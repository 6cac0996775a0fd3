-- ===== src/Intents/Effect.antt =====
-- What one call does to the table of intents: nothing, one more row, or one row changed.
use cora_os.Prelude.{
  ℕ, suc, ◌≡◌, ◌⊎◌, refl, inl, inr, Bool, true, false, not, ◌&&◌, ◌==◌, Option, none, some, [], ◌∷◌,
  ◌++◌, arith, any, Bool-cases, Option-cases, if◌then◌else◌,
}
use cora_os.Prelude.Exec.{Outcome, ok, err}
use cora_os.Prelude.Table.{find, update}
use cora_os.Prelude.Text.{Text, text_eq}
use cora_os.Intents.{
  IntegrationError, ready_for_confirmation, blocked, Payload, Intent, ProviderRow, IntentDb,
  intent_key, is_approved,
}
use cora_os.Intents.Preview.{build_payload_preview, find_provider}
use cora_os.Intents.Build.{
  BuildSpec, Source, find_source, new_intent, previewed, with_provider, with_source, inserted,
  built, build_intent, external_action, is_duplicate, queue_row, queue_built,
  create_readiness_intent, is_internal, resolve_provider_name,
}
use cora_os.Intents.Change.{
  Change, change, revalidated_row, revalidate_intent, confirm_integration_intent,
  cancel_integration_intent, confirm_readiness_intent, revoke_readiness_intent, dry_run_intent,
}
use cora_os.Intents.Calls.{
  Call, builds, queues, validates, dry_runs, confirms, cancels, confirms_queued, revokes, run_call,
}
use cora_os.Intents.Lifecycle.{undecided, phase_of}
use cora_os.Intents.Moves.{
  IsMove, revalidated-IsMove, dry_run-IsMove, id-dry_run_row, confirm-IsMove, cancel-IsMove,
  revoke-IsMove,
}

-- A row as it may be inserted.
pub record IsNew (i : Intent) : Type 0 where
  pub dry : i.dry_run ≡ true
  pub undecided_yet : phase_of i.status ≡ undecided

pub record Adds (db db' : IntentDb) : Type 0 where
  pub row : Intent
  pub id : row.id ≡ db.fresh
  pub intents : db'.intents ≡ db.intents ++ row ∷ []
  pub fresh : db'.fresh ≡ suc db.fresh
  pub new : IsNew row
  pub single :
      row.queued ≡ true
      → any (is_duplicate row.source_type row.source_id row.action_type) db.intents ≡ false

pub record Alters (db db' : IntentDb) : Type 0 where
  pub k : ℕ
  pub row : Intent
  pub f : Intent → Intent
  pub there : find intent_key k db.intents ≡ some row
  pub intents : db'.intents ≡ update intent_key k f db.intents
  pub fresh : db'.fresh ≡ db.fresh
  pub keeps : (i : Intent) → intent_key (f i) ≡ intent_key i
  pub move : IsMove row (f row)

abbrev pub Effect : IntentDb → IntentDb → Type 0
Effect db db' = (db' ≡ db) ⊎ Adds db db' ⊎ Alters db db'

change_effect :
    (k user : ℕ) (c : Change) (db : IntentDb)
    → ((i : Intent) → intent_key (c.written i db) ≡ intent_key i)
    → ((i : Intent) → c.guard i db ≡ none → IsMove i (c.written i db))
    → Effect db (change k user c db).1
unfolding change
change_effect k user c db keeps move = elim (Bool-cases db.pool) [
  | inr down ↦ inl (simp down)
  | inl up ↦ elim (Option-cases (find intent_key k db.intents)) [
    | inl gone ↦ inl (simp (up, gone))
    | inr (row, f) ↦ elim (Option-cases (c.guard row db)) [
      | inr (e, stop) ↦ inl (simp (up, f, stop))
      | inl free ↦ inr (
          inr record {
            k = k;
            row = row;
            f = λ i. c.written i db;
            there = f;
            intents = simp (up, f, free);
            fresh = simp (up, f, free);
            keeps = keeps;
            move = move row free;
          })
    ]
  ]
]

-- a row that may be inserted into the table
pub record IsFit (db : IntentDb) (row : Intent) : Type 0 where
  pub id : row.id ≡ db.fresh
  pub new : IsNew row
  pub single :
      row.queued ≡ true
      → any (is_duplicate row.source_type row.source_id row.action_type) db.intents ≡ false

abbrev Fits : IntentDb → Outcome IntegrationError Intent → Type 0
Fits db (err e) = Unit
Fits db (ok row) = IsFit db row

insert_effect :
    (user : ℕ) (notes : Option Text) (db : IntentDb) (o : Outcome IntegrationError Intent)
    → Fits db o
    → Effect db (inserted user notes o db).1
insert_effect user notes db (err e) good = inl refl
insert_effect user notes db (ok row) good = inr (
    inl record {
      row = row;
      id = good.id;
      intents = refl;
      fresh = refl;
      new = good.new;
      single = good.single;
    })

new_status : (b : Bool) → phase_of (if b then ready_for_confirmation else blocked) ≡ undecided
new_status b = ground arith

module _ (db : IntentDb) where
  Fits-previewed :
      (c : ProviderRow) (provider : Text) (row : Intent) (o : Outcome IntegrationError Payload)
      → row.id ≡ db.fresh
      → row.dry_run ≡ true
      → row.queued ≡ false
      → Fits db (previewed c provider row o)
  Fits-previewed c provider row (err e) i d q = tt
  Fits-previewed c provider row (ok payload) i d q = record {
    id = i;
    new = record { dry = d; undecided_yet = new_status _ };
    single = λ h. absurd (ground arith);
  }

  Fits-with_provider :
      (provider : Text) (row : Intent) (c : Option ProviderRow)
      → row.id ≡ db.fresh
      → row.dry_run ≡ true
      → row.queued ≡ false
      → Fits db (with_provider provider row c)
  Fits-with_provider provider row none i d q = tt
  Fits-with_provider provider row (some c) i d q =
      elim (Bool-cases (not (is_internal c.provider_name) && not c.enabled)) [
        | inl off ↦ rw off tt
        | inr on ↦ rw on (
            Fits-previewed c provider row
              (build_payload_preview c.provider_type row.payload_preview) i d q)
      ]

  Fits-with_source :
      (user : ℕ) (is_admin : Bool) (build : Source → Outcome IntegrationError Intent)
      (src : Option Source)
      → ((s : Source) → Fits db (build s))
      → Fits db (with_source user is_admin build src)
  Fits-with_source user is_admin build none f = tt
  Fits-with_source user is_admin build (some s) f =
      elim (Bool-cases (not is_admin && not (s.created_by == user))) [
        | inl alien ↦ rw alien tt
        | inr own ↦ elim (Bool-cases (not (is_approved s.status))) [
          | inl early ↦ rw (own, early) tt
          | inr late ↦ rw (own, late) (f s)
        ]
      ]

  Fits-queue_row :
      (spec : BuildSpec) (source_id user : ℕ) (is_admin : Bool) (now : ℕ) (s : Source)
      → Fits db (queue_row spec source_id user is_admin now db s)
  Fits-queue_row spec source_id user is_admin now s =
      let a = external_action spec.provider_type in
      elim (Bool-cases (any (is_duplicate spec.source_type source_id a) db.intents)) [
        | inl twice ↦ rw twice tt
        | inr once ↦ rw once record {
          id = refl;
          new = record { dry = refl; undecided_yet = refl };
          single = λ h. once;
        }
      ]

build_effect :
    (spec : BuildSpec) (source_id user : ℕ) (is_admin : Bool) (provider_name : Option Text)
    (action : Text) (notes : Option Text) (now : ℕ) (db : IntentDb)
    → Effect db (build_intent spec source_id user is_admin provider_name action notes now db).1
unfolding build_intent built
build_effect spec source_id user is_admin provider_name action notes now db =
    elim (Bool-cases (not (any (text_eq action) spec.allowed_actions))) [
      | inl alien ↦ inl (simp alien)
      | inr known ↦ elim (Bool-cases db.pool) [
        | inr down ↦ inl (simp (known, down))
        | inl up ↦
            let provider = resolve_provider_name provider_name spec.provider_type in
            simp (known, up)
              (insert_effect user notes db _ (
                Fits-with_source db user is_admin
                  (λ src.
                    with_provider provider (new_intent spec source_id user action db.fresh now src)
                      (find_provider provider db.providers))
                  (find_source spec.source_type source_id db)
                  (λ src.
                    Fits-with_provider db provider
                      (new_intent spec source_id user action db.fresh now src)
                      (find_provider provider db.providers) refl refl refl)))
      ]
    ]

queue_effect :
    (spec : BuildSpec) (source_id user : ℕ) (is_admin : Bool) (notes : Option Text) (now : ℕ)
    (db : IntentDb)
    → Effect db (create_readiness_intent spec source_id user is_admin notes now db).1
unfolding create_readiness_intent queue_built
queue_effect spec source_id user is_admin notes now db = elim (Bool-cases db.pool) [
  | inr down ↦ inl (simp down)
  | inl up ↦ simp up (
      insert_effect user notes db _ (
        Fits-with_source db user is_admin (queue_row spec source_id user is_admin now db)
          (find_source spec.source_type source_id db)
          (Fits-queue_row db spec source_id user is_admin now)))
]

confirm_effect :
    (k user : ℕ) (is_admin : Bool) (notes : Option Text) (now : ℕ) (db : IntentDb)
    → Effect db (confirm_integration_intent k user is_admin notes now db).1
unfolding confirm_integration_intent
confirm_effect k user false notes now db = inl refl
confirm_effect k user true notes now db =
    change_effect k user _ db (λ i. refl) (λ i h. confirm-IsMove user now i (ground arith))

-- Every call leaves the intents as they are, adds one, or changes one by a lawful move.
pub run_call_effect : (c : Call) (db : IntentDb) → Effect db (run_call c db).1
unfolding run_call revalidate_intent confirm_readiness_intent cancel_integration_intent
    revoke_readiness_intent dry_run_intent revalidated_row
run_call_effect (builds spec s user adm p action notes now) db =
    build_effect spec s user adm p action notes now db
run_call_effect (queues spec s user adm notes now) db = queue_effect spec s user adm notes now db
run_call_effect (validates k user now) db =
    change_effect k user _ db (λ i. refl) (λ i h. revalidated-IsMove now i)
run_call_effect (dry_runs k user now) db =
    change_effect k user _ db
      (λ i. id-dry_run_row now i (find_provider i.provider_name db.providers))
      (λ i h. dry_run-IsMove now i (find_provider i.provider_name db.providers))
run_call_effect (confirms k user adm notes now) db = confirm_effect k user adm notes now db
run_call_effect (cancels k user adm own notes now) db =
    change_effect k user _ db (λ i. refl) (λ i h. cancel-IsMove user now i (ground arith))
run_call_effect (confirms_queued k user adm own notes now) db =
    change_effect k user _ db (λ i. refl)
      (λ i h.
        (let m = confirm-IsMove user now i (ground arith) in
          record {
            kept = (refl, refl, refl, refl);
            dry = λ d. refl;
            lawful = m.lawful;
            named = λ n c. refl;
          }))
run_call_effect (revokes k user adm own notes now) db =
    change_effect k user _ db (λ i. refl) (λ i h. revoke-IsMove now i (ground arith))
