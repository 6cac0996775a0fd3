-- ===== src/Intents/Gates.antt =====
-- How calls combine at the gates: the blockers of a confirmation, and the admin's part in a
-- cancellation.
use cora_os.Prelude.{
  ℕ, ◌≡◌, refl, Bool, true, false, ◌||◌, Option, none, some, List, [], ◌∷◌, ◌++◌, arith, is_nil, ap,
  ◌∙◌, ==_refl,
}
use cora_os.Prelude.Exec.{ok, err}
use cora_os.Prelude.Table.{find, update, find-update}
use cora_os.Prelude.Text.{Text}
use cora_os.Review.{kept_notes}
use cora_os.Intents.{
  IntegrationError, conflict, forbidden, confirmed, cancelled, SourceType, communication_draft,
  schedule_proposal, ProviderType, email, calendar, other_type, Payload, Intent, IntentEvent,
  IntentDb, intent_key,
}
use cora_os.Intents.Preview.{critical_blockers, is_unchecked, validate_payload}
use cora_os.Intents.Build.{find_source}
use cora_os.Intents.Change.{
  Change, change, revalidate_intent, confirm_readiness_intent, revoke_readiness_intent,
  cancel_integration_intent, revalidated, revalidated_row, confirmable, source_is_approved,
  revoked_row, revalidation, cancellation, readiness_confirmation, revocation,
}

module _ (k user : ℕ) (c : Change) (db : IntentDb) (i : Intent) where
  -- the tables after the change
  abbrev changed : IntentDb
  changed = record db {
    intents = update intent_key k (λ x. c.written x db) db.intents;
    events =
        db.events
        ++ record {
          intent_id = k;
          user_id = user;
          event_type = c.event_type;
          from_status = some i.status;
          to_status = (c.written i db).status;
          notes = kept_notes c.notes;
        }
          ∷ [];
  }

  change_passes :
      db.pool ≡ true
      → find intent_key k db.intents ≡ some i
      → c.guard i db ≡ none
      → change k user c db ≡ (ok (c.written i db), changed)
  unfolding change
  change_passes up there free = simp (up, there, free)

  change_refused :
      (e : IntegrationError)
      → db.pool ≡ true
      → find intent_key k db.intents ≡ some i
      → c.guard i db ≡ some e
      → (change k user c db).0 ≡ err e
  unfolding change
  change_refused e up there stop = simp (up, there, stop)

  find_changed :
      find intent_key k db.intents ≡ some i
      → ((x : Intent) → intent_key (c.written x db) ≡ intent_key x)
      → find intent_key k changed.intents ≡ some (c.written i db)
  find_changed there keeps =
      ground (arith, find-update intent_key k k (λ x. c.written x db) keeps db.intents, ==_refl k)

-- the sources are not changed by what is done to intents
find_source_apart :
    (t : SourceType) (s : ℕ) (db : IntentDb) (is : List Intent) (es : List IntentEvent)
    → find_source t s (record db { intents = is; events = es }) ≡ find_source t s db
unfolding find_source
find_source_apart communication_draft s db is es = refl
find_source_apart schedule_proposal s db is es = refl

source_is_approved_apart :
    (db : IntentDb) (is : List Intent) (es : List IntentEvent) (i : Intent)
    → source_is_approved (record db { intents = is; events = es }) i ≡ source_is_approved db i
unfolding source_is_approved
source_is_approved_apart db is es i = rw (find_source_apart i.source_type i.source_id db is es) refl

-- a validation says nothing of blockers
validation_forgets :
    (t : ProviderType) (p : Payload)
    → (is_unchecked (validate_payload t p) ≡ false)
      × (is_nil (critical_blockers (validate_payload t p)) ≡ true)
unfolding validate_payload critical_blockers
validation_forgets email p = (refl, refl)
validation_forgets calendar p = (refl, refl)
validation_forgets (other_type t) p = (refl, refl)

module _ (user : ℕ) (is_admin is_owner : Bool) (notes : Option Text) (now : ℕ) (db : IntentDb)
    (i : Intent) (may : (is_admin || is_owner) ≡ true) (from : confirmable i.status ≡ true)
    (dry : i.dry_run ≡ true) (needs : i.requires_confirmation ≡ true)
    (was : is_unchecked i.validation_result ≡ false) (source : source_is_approved db i ≡ true) where
  abbrev guard_of : Option IntegrationError
  guard_of = (readiness_confirmation user is_admin is_owner notes now).guard i db

  guard_stops : is_nil (critical_blockers i.validation_result) ≡ false → guard_of ≡ some conflict
  guard_stops h = simp (may, from, dry, needs, was, source, h)

  guard_lets : is_nil (critical_blockers i.validation_result) ≡ true → guard_of ≡ none
  guard_lets h = simp (may, from, dry, needs, was, source, h)

id-revalidated_row : (now : ℕ) (i : Intent) → intent_key (revalidated_row now i) ≡ intent_key i
unfolding revalidated_row
id-revalidated_row now i = refl

-- A confirmation of an intent of the readiness queue with critical blockers raises; after a call of
-- `revalidate_intent` it succeeds, whatever the blockers.
pub confirm_readiness_intent-revalidate_intent :
    (k user : ℕ) (is_admin is_owner : Bool) (notes : Option Text) (now : ℕ) (db : IntentDb)
    (i : Intent)
    → db.pool ≡ true
    → find intent_key k db.intents ≡ some i
    → (is_admin || is_owner) ≡ true
    → confirmable i.status ≡ true
    → revalidated i.status ≡ false
    → i.dry_run ≡ true
    → i.requires_confirmation ≡ true
    → is_unchecked i.validation_result ≡ false
    → source_is_approved db i ≡ true
    → is_nil (critical_blockers i.validation_result) ≡ false
    → let confirm = confirm_readiness_intent k user is_admin is_owner notes now in
      ((confirm db).0 ≡ err conflict)
      × (j : Intent) × ((confirm (revalidate_intent k user now db).1).0 ≡ ok j)
      × (j.status ≡ confirmed)
unfolding confirm_readiness_intent revalidate_intent source_is_approved
confirm_readiness_intent-revalidate_intent k user is_admin is_owner notes now db i up there may from
      kept dry needs was src crit =
    let c = readiness_confirmation user is_admin is_owner notes now in
    let db' = changed k user (revalidation now) db i in
    let row = revalidated_row now i in
    let checked = validation_forgets i.provider_type i.payload_preview in
    let through : change k user (revalidation now) db ≡ (ok row, db') =
      change_passes k user (revalidation now) db i up there refl in
    let found = find_changed k user (revalidation now) db i there (id-revalidated_row now) in
    let free : c.guard row db' ≡ none =
      guard_lets user is_admin is_owner notes now db' row may
        (unfold revalidated_row in simp kept from) (unfold revalidated_row in dry)
        (unfold revalidated_row in needs) (unfold revalidated_row in checked.0)
        (unfold revalidated_row in source_is_approved_apart db _ _ row ∙ src)
        (unfold revalidated_row in checked.1) in
    (
      change_refused k user c db i conflict up there
          (guard_stops user is_admin is_owner notes now db i may from dry needs was src crit),
      c.written row db',
      rw through (ap (λ r. r.0) (change_passes k user c db' row up found free)),
      refl,
    )

-- An owner who is no admin cannot cancel a confirmed intent, but can after revoking it, which an
-- owner may.
cancel_integration_intent-revoke_readiness_intent :
    (k user : ℕ) (notes : Option Text) (now : ℕ) (db : IntentDb) (i : Intent)
    → db.pool ≡ true
    → find intent_key k db.intents ≡ some i
    → i.status ≡ confirmed
    → let cancel = cancel_integration_intent k user false true notes now in
      ((cancel db).0 ≡ err forbidden)
      × (j : Intent) × ((cancel (revoke_readiness_intent k user false true notes now db).1).0
          ≡ ok j)
      × (j.status ≡ cancelled)
unfolding cancel_integration_intent revoke_readiness_intent
cancel_integration_intent-revoke_readiness_intent k user notes now db i up there st =
    let c = cancellation user false true notes now in
    let r = revocation false true notes now in
    let db' = changed k user r db i in
    let row = revoked_row now i in
    let through : change k user r db ≡ (ok row, db') =
      change_passes k user r db i up there (simp st) in
    (
      change_refused k user c db i forbidden up there (simp st),
      c.written row db',
      rw through (
          ap (λ r. r.0)
            (change_passes k user c db' row up (find_changed k user r db i there (λ x. refl))
              refl)),
      refl,
    )
