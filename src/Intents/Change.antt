-- ===== src/Intents/Change.antt =====
-- What is done to an intent that is there: validation, the two confirmations, revocation,
-- cancellation and the dry run. Each call selects the row FOR UPDATE, raises by the first of its
-- guards that fails, updates the row and logs an event, in one transaction (`change`).
use cora_os.Prelude.{
  ℕ, Bool, true, false, not, ◌&&◌, ◌||◌, Option, none, some, [], ◌∷◌, ◌++◌, is_nil, if◌then◌else◌,
}
use cora_os.Prelude.Exec.{
  Exec, Outcome, ok, err, or_raise, raise_if, raise_on, gets, modify, pure, transaction, ◌>>=◌,
  ◌>>◌,
}
use cora_os.Prelude.Table.{find, update}
use cora_os.Prelude.Text.{Text}
use cora_os.Review.{kept_notes}
use cora_os.Intents.{
  IntegrationError, invalid, not_found, forbidden, conflict, unavailable, crashed, IntentStatus,
  draft, ready_for_confirmation, confirmed, confirmation_revoked, blocked, cancelled,
  executed_placeholder, pending_provider, blocked_no_provider, blocked_no_oauth,
  ready_for_future_execution, Payload, Intent, EventType, intent_validated, intent_confirmed,
  intent_cancelled, confirmation_was_revoked, provider_dry_run_executed, ProviderRow, IntentDb,
  intent_key, is_approved, first_error,
}
use cora_os.Intents.Preview.{
  validate_payload, is_ok, build_payload_preview, connector_validation, find_provider,
  critical_blockers, is_unchecked,
}
use cora_os.Intents.Build.{Source, find_source}

-- A change of one intent: its guard, the UPDATE, and the event.
pub record Change : Type 0 where
  pub guard : Intent → IntentDb → Option IntegrationError
  pub written : Intent → IntentDb → Intent
  pub event_type : EventType
  pub notes : Option Text

-- the transaction on the row with that identifier
unfoldable pub change : ℕ → ℕ → Change → Exec IntegrationError IntentDb Intent
change k user c = do
  raise_if (not (← gets (λ db. db.pool))) unavailable
  transaction do
    row ← or_raise (← gets (λ db. find intent_key k db.intents)) not_found
    raise_on (← gets (λ db. c.guard row db))
    row' ← gets (λ db. c.written row db)
    modify (λ db. record db { intents = update intent_key k (λ i. c.written i db) db.intents })
    modify (λ db. record db {
      events =
          db.events
          ++ record {
            intent_id = k;
            user_id = user;
            event_type = c.event_type;
            from_status = some row.status;
            to_status = row'.status;
            notes = kept_notes c.notes;
          }
            ∷ [];
    })
    pure row'

abbrev pub revalidated : IntentStatus → Bool
revalidated draft = true
revalidated ready_for_confirmation = true
revalidated blocked = true
revalidated _ = false

-- the UPDATE of `revalidate_intent`
unfoldable pub revalidated_row : ℕ → Intent → Intent
revalidated_row now i =
    let v = validate_payload i.provider_type i.payload_preview in
    record i {
      validation_result = v;
      status =
          if revalidated i.status
          then (if is_ok v then ready_for_confirmation else blocked)
          else i.status;
      updated_at = now;
    }

-- the change that `revalidate_intent` makes
abbrev pub revalidation : ℕ → Change
revalidation now = record {
  guard = λ i db. none;
  written = λ i db. revalidated_row now i;
  event_type = intent_validated;
  notes = none;
}

-- `revalidate_intent`
unfoldable pub revalidate_intent : ℕ → ℕ → ℕ → Exec IntegrationError IntentDb Intent
revalidate_intent k user now = change k user (revalidation now)

abbrev pub is_ready : IntentStatus → Bool
is_ready ready_for_confirmation = true
is_ready _ = false

abbrev pub is_confirmed : IntentStatus → Bool
is_confirmed confirmed = true
is_confirmed _ = false

-- the UPDATE of `confirm_integration_intent`
abbrev pub confirmed_row : ℕ → ℕ → Intent → Intent
confirmed_row user now i = record i {
  status = confirmed;
  confirmed_by = some user;
  confirmed_at = some now;
  dry_run = true;
  updated_at = now;
}

-- the change that `confirm_integration_intent` makes
abbrev pub confirmation : ℕ → Option Text → ℕ → Change
confirmation user notes now = record {
  guard = λ i db. first_error ((not (is_ready i.status), conflict) ∷ []);
  written = λ i db. confirmed_row user now i;
  event_type = intent_confirmed;
  notes = notes;
}

-- `confirm_integration_intent`
unfoldable pub confirm_integration_intent :
    ℕ → ℕ → Bool → Option Text → ℕ → Exec IntegrationError IntentDb Intent
confirm_integration_intent k user is_admin notes now = do
  raise_if (not is_admin) forbidden
  change k user (confirmation user notes now)

abbrev pub is_over : IntentStatus → Bool
is_over cancelled = true
is_over executed_placeholder = true
is_over _ = false

-- the UPDATE of `cancel_integration_intent`
abbrev pub cancelled_row : ℕ → ℕ → Intent → Intent
cancelled_row user now i = record i {
  status = cancelled;
  cancelled_by = some user;
  cancelled_at = some now;
  dry_run = true;
  updated_at = now;
}

-- the change that `cancel_integration_intent` makes
abbrev pub cancellation : ℕ → Bool → Bool → Option Text → ℕ → Change
cancellation user is_admin is_owner notes now = record {
  guard = λ i db. first_error (
      (is_over i.status, conflict)
      ∷ (is_confirmed i.status && not is_admin, forbidden)
      ∷ (not (is_admin || is_owner), forbidden)
      ∷ []);
  written = λ i db. cancelled_row user now i;
  event_type = intent_cancelled;
  notes = notes;
}

-- `cancel_integration_intent`
unfoldable pub cancel_integration_intent :
    ℕ → ℕ → Bool → Bool → Option Text → ℕ → Exec IntegrationError IntentDb Intent
cancel_integration_intent k user is_admin is_owner notes now =
    change k user (cancellation user is_admin is_owner notes now)

-- `_CONFIRMABLE_FROM`
abbrev pub confirmable : IntentStatus → Bool
confirmable draft = true
confirmable pending_provider = true
confirmable blocked_no_provider = true
confirmable blocked_no_oauth = true
confirmable ready_for_future_execution = true
confirmable confirmation_revoked = true
confirmable _ = false

abbrev pub has_approved : Option Source → Bool
has_approved none = false
has_approved (some src) = is_approved src.status

-- `_source_is_approved`
unfoldable pub source_is_approved : IntentDb → Intent → Bool
source_is_approved db i = has_approved (find_source i.source_type i.source_id db)

-- the change that `confirm_readiness_intent` makes
abbrev pub readiness_confirmation : ℕ → Bool → Bool → Option Text → ℕ → Change
readiness_confirmation user is_admin is_owner notes now = record {
  guard = λ i db. first_error (
      (not (is_admin || is_owner), forbidden)
      ∷ (not (confirmable i.status), conflict)
      ∷ (not i.dry_run, conflict)
      ∷ (not i.requires_confirmation, conflict)
      ∷ (is_unchecked i.validation_result, conflict)
      ∷ (not (source_is_approved db i), conflict)
      ∷ (not (is_nil (critical_blockers i.validation_result)), conflict)
      ∷ []);
  written = λ i db. record (confirmed_row user now i) { requires_confirmation = false };
  event_type = intent_confirmed;
  notes = notes;
}

-- `confirm_readiness_intent`
unfoldable pub confirm_readiness_intent :
    ℕ → ℕ → Bool → Bool → Option Text → ℕ → Exec IntegrationError IntentDb Intent
confirm_readiness_intent k user is_admin is_owner notes now =
    change k user (readiness_confirmation user is_admin is_owner notes now)

-- the UPDATE of `revoke_readiness_intent`
abbrev pub revoked_row : ℕ → Intent → Intent
revoked_row now i = record i {
  status = confirmation_revoked;
  confirmed_by = none;
  confirmed_at = none;
  requires_confirmation = true;
  dry_run = true;
  updated_at = now;
}

-- the change that `revoke_readiness_intent` makes
abbrev pub revocation : Bool → Bool → Option Text → ℕ → Change
revocation is_admin is_owner notes now = record {
  guard = λ i db.
      first_error
        ((not (is_admin || is_owner), forbidden) ∷ (not (is_confirmed i.status), conflict) ∷ []);
  written = λ i db. revoked_row now i;
  event_type = confirmation_was_revoked;
  notes = notes;
}

-- `revoke_readiness_intent`
unfoldable pub revoke_readiness_intent :
    ℕ → ℕ → Bool → Bool → Option Text → ℕ → Exec IntegrationError IntentDb Intent
revoke_readiness_intent k user is_admin is_owner notes now =
    change k user (revocation is_admin is_owner notes now)

abbrev pub is_failure : Outcome IntegrationError Payload → Bool
is_failure (ok p) = false
is_failure (err e) = true

-- the first error of a dry run
abbrev pub dry_run_error : Intent → Option ProviderRow → Option IntegrationError
dry_run_error i none = some invalid
dry_run_error i (some c) =
    first_error
      ((is_failure (build_payload_preview c.provider_type i.payload_preview), crashed) ∷ [])

abbrev pub preview_or : Payload → Outcome IntegrationError Payload → Payload
preview_or p (ok q) = q
preview_or p (err e) = p

-- the UPDATE of `dry_run_intent`
abbrev pub dry_run_row : ℕ → Intent → Option ProviderRow → Intent
dry_run_row now i none = i
dry_run_row now i (some c) = record i {
  payload_preview =
      preview_or i.payload_preview (build_payload_preview c.provider_type i.payload_preview);
  validation_result = connector_validation c.provider_type i.action_type i.payload_preview;
  updated_at = now;
}

-- the change that `dry_run_intent` makes
abbrev pub dry_run : ℕ → Change
dry_run now = record {
  guard = λ i db. dry_run_error i (find_provider i.provider_name db.providers);
  written = λ i db. dry_run_row now i (find_provider i.provider_name db.providers);
  event_type = provider_dry_run_executed;
  notes = none;
}

-- `dry_run_intent`
unfoldable pub dry_run_intent : ℕ → ℕ → ℕ → Exec IntegrationError IntentDb Intent
dry_run_intent k user now = change k user (dry_run now)
