-- ===== src/Intents/Build.antt =====
-- `_build_intent` and `create_readiness_intent`: an intent made from an approved source.
use cora_os.Prelude.{
  ℕ, suc, String, Bool, true, false, not, ◌&&◌, ◌||◌, Option, none, some, List, [], ◌∷◌, ◌++◌, ◌==◌,
  is_nil, any, or_else, if◌then◌else◌,
}
use cora_os.Prelude.Exec.{Exec, Outcome, ok, err, raise_if, gets, ◌>>=◌, ◌>>◌}
use cora_os.Prelude.Table.{find}
use cora_os.Prelude.Text.{Text, codes, text_eq}
use cora_os.Review.{Status, kept_notes}
use cora_os.Intents.{
  IntegrationError, invalid, not_found, conflict, unavailable, IntentStatus, ready_for_confirmation,
  blocked, cancelled, pending_provider, blocked_no_provider, blocked_no_oauth,
  ready_for_future_execution, SourceType, communication_draft, schedule_proposal, ProviderType,
  email, calendar, other_type, Payload, unchecked, readiness, ProviderStatus, not_configured,
  expired, configured, Intent, intent_created, Draft, Proposal, ProviderRow, oauth_expired,
  oauth_connected, oauth_disconnected, OauthRow, IntentDb, source_code, is_approved,
}
use cora_os.Intents.Preview.{
  render_draft, render_proposal, is_ok, build_payload_preview, connector_validation, find_provider,
}

-- `_BuildSpec`
pub record BuildSpec : Type 0 where
  pub source_type : SourceType
  pub agent_name : String
  pub provider_type : ProviderType
  pub allowed_actions : List Text

abbrev pub draft_spec : BuildSpec
draft_spec = record {
  source_type = communication_draft;
  agent_name = "SIGNAL";
  provider_type = email;
  allowed_actions = codes "send_email" ∷ codes "send_notification" ∷ [];
}

abbrev pub proposal_spec : BuildSpec
proposal_spec = record {
  source_type = schedule_proposal;
  agent_name = "CHRONOS";
  provider_type = calendar;
  allowed_actions = codes "create_calendar_event" ∷ codes "update_calendar_event" ∷ [];
}

-- what is read of a source row, with its preview
pub record Source : Type 0 where
  pub workspace_id : Option ℕ
  pub created_by : ℕ
  pub status : Status
  pub preview : Payload

abbrev pub of_draft : Option Draft → Option Source
of_draft none = none
of_draft (some d) = some record {
  workspace_id = d.workspace_id;
  created_by = d.created_by;
  status = d.status;
  preview = render_draft d;
}

abbrev pub of_proposal : Option Proposal → Option Source
of_proposal none = none
of_proposal (some p) = some record {
  workspace_id = p.workspace_id;
  created_by = p.created_by;
  status = p.status;
  preview = render_proposal p;
}

-- the row of the source's table
unfoldable pub find_source : SourceType → ℕ → IntentDb → Option Source
find_source communication_draft k db = of_draft (find (λ (d : Draft). d.id) k db.drafts)
find_source schedule_proposal k db = of_proposal (find (λ (p : Proposal). p.id) k db.proposals)

abbrev pub type_name : ProviderType → Text
type_name email = codes "email"
type_name calendar = codes "calendar"
type_name (other_type t) = codes t

-- `_resolve_provider_name`
unfoldable pub resolve_provider_name : Option Text → ProviderType → Text
resolve_provider_name none t = codes "internal_preview_" ++ type_name t
resolve_provider_name (some name) t =
    if is_nil name || text_eq name (codes "internal_preview")
    then codes "internal_preview_" ++ type_name t
    else name

-- `INTERNAL_PREVIEW_PROVIDERS`
abbrev pub is_internal : Text → Bool
is_internal name =
    text_eq name (codes "internal_preview_email")
    || text_eq name (codes "internal_preview_calendar")

-- an intent as it is inserted, still without its provider, status, payload and validation
abbrev pub new_intent : BuildSpec → ℕ → ℕ → Text → ℕ → ℕ → Source → Intent
new_intent spec source_id user action k now src = record {
  id = k;
  workspace_id = src.workspace_id;
  created_by = user;
  source_type = spec.source_type;
  source_id = source_id;
  agent_name = spec.agent_name;
  provider_type = spec.provider_type;
  provider_name = [];
  action_type = action;
  status = blocked;
  dry_run = true;
  requires_confirmation = true;
  payload_preview = src.preview;
  validation_result = unchecked;
  queued = false;
  provider_status = none;
  confirmed_by = none;
  confirmed_at = none;
  cancelled_by = none;
  cancelled_at = none;
  updated_at = now;
}

-- the row, from the connector's preview of the payload
abbrev pub previewed :
    ProviderRow → Text → Intent → Outcome IntegrationError Payload → Outcome IntegrationError Intent
previewed c provider row (err e) = err e
previewed c provider row (ok payload) =
    let v = connector_validation c.provider_type row.action_type row.payload_preview in
    ok (record row {
      provider_name = provider;
      status = if is_ok v then ready_for_confirmation else blocked;
      payload_preview = payload;
      validation_result = v;
    })

abbrev pub with_provider : Text → Intent → Option ProviderRow → Outcome IntegrationError Intent
with_provider provider row none = err invalid
with_provider provider row (some c) =
    if not (is_internal c.provider_name) && not c.enabled
    then err conflict
    else previewed c provider row (build_payload_preview c.provider_type row.payload_preview)

-- the source has to be there, the caller's own unless an admin asks, and approved
abbrev pub with_source :
    ℕ
    → Bool
    → (Source → Outcome IntegrationError Intent)
    → Option Source
    → Outcome IntegrationError Intent
with_source user is_admin build none = err not_found
with_source user is_admin build (some src) =
    if not is_admin && not (src.created_by == user)
    then err not_found
    else if not (is_approved src.status)
    then err conflict
    else build src

-- The INSERT of an intent, and its first event. What raises stands before the writes, so that a
-- transaction that is rolled back has written nothing.
abbrev pub inserted :
    ℕ
    → Option Text
    → Outcome IntegrationError Intent
    → IntentDb
    → Outcome IntegrationError Intent × IntentDb
inserted user notes (err e) db = (err e, db)
inserted user notes (ok row) db = (
  ok row,
  record db {
    intents = db.intents ++ row ∷ [];
    events =
        db.events
        ++ record {
          intent_id = row.id;
          user_id = user;
          event_type = intent_created;
          from_status = none;
          to_status = row.status;
          notes = kept_notes notes;
        }
          ∷ [];
    fresh = suc db.fresh;
  },
)

abbrev pub insert_intent :
    ℕ
    → Option Text
    → (IntentDb → Outcome IntegrationError Intent)
    → Exec IntegrationError IntentDb Intent
insert_intent user notes prepare db = inserted user notes (prepare db) db

module _ (spec : BuildSpec) (source_id user : ℕ) (is_admin : Bool) where
  unfoldable pub built : Option Text → Text → ℕ → IntentDb → Outcome IntegrationError Intent
  built provider_name action now db =
      let provider = resolve_provider_name provider_name spec.provider_type in
      with_source user is_admin
        (λ src.
          with_provider provider (new_intent spec source_id user action db.fresh now src)
            (find_provider provider db.providers))
        (find_source spec.source_type source_id db)

  -- `_build_intent`
  unfoldable pub build_intent :
      Option Text → Text → Option Text → ℕ → Exec IntegrationError IntentDb Intent
  build_intent provider_name action notes now = do
    raise_if (not (any (text_eq action) spec.allowed_actions)) invalid
    raise_if (not (← gets (λ (db : IntentDb). db.pool))) unavailable
    insert_intent user notes (built provider_name action now)

-- `_RQ_EXTERNAL_ACTION`
abbrev pub external_action : ProviderType → Text
external_action email = codes "send_email"
external_action _ = codes "create_calendar_event"

-- `status <> 'cancelled'`
abbrev pub is_active : IntentStatus → Bool
is_active cancelled = false
is_active _ = true

-- an active intent of the queue for the source and the action
abbrev pub is_duplicate : SourceType → ℕ → Text → Intent → Bool
is_duplicate t k action i =
    source_code i.source_type == source_code t
    && i.source_id == k
    && text_eq i.action_type action
    && is_active i.status
    && i.queued

-- `_creation_blockers`
unfoldable pub creation_blockers : IntentStatus → List Text
creation_blockers s =
    let base : List Text =
      codes "external execution is disabled in this phase"
      ∷ codes "governance blocks external execution"
      ∷ [] in
    elim s [
      | blocked_no_provider ↦ codes "no provider connector configured" ∷ base
      | blocked_no_oauth ↦ codes "provider connector not authorized (OAuth required)" ∷ base
      | _ ↦ base
    ]

abbrev pub same_type : ProviderType → ProviderType → Bool
same_type s t = text_eq (type_name s) (type_name t)

abbrev pub is_connection : ProviderType → ℕ → OauthRow → Bool
is_connection t user r =
    same_type r.provider_type t
    && r.user_id == user
    && elim r.status [ oauth_disconnected ↦ false | _ ↦ true ]

-- the latest such row
abbrev pub latest_connection : ProviderType → ℕ → List OauthRow → Option OauthRow
latest_connection t user [] = none
latest_connection t user (r ∷ rs) =
    or_else (latest_connection t user rs) (if is_connection t user r then some r else none)

abbrev pub readiness_of : Option OauthRow → IntentStatus × ProviderStatus
readiness_of none = (blocked_no_provider, not_configured)
readiness_of (some r) = elim r.status [
  | oauth_expired ↦ (blocked_no_oauth, expired)
  | oauth_connected ↦ (ready_for_future_execution, configured)
  | _ ↦ (blocked_no_oauth, not_configured)
]

-- `_resolve_provider_readiness`, without the name
unfoldable pub resolve_provider_readiness :
    ProviderType → ℕ → IntentDb → IntentStatus × ProviderStatus
resolve_provider_readiness t user db = readiness_of (latest_connection t user db.oauth)

module _ (spec : BuildSpec) (source_id user : ℕ) (is_admin : Bool) where
  -- the row of the readiness queue, unless the source has an active one
  abbrev pub queue_row : ℕ → IntentDb → Source → Outcome IntegrationError Intent
  queue_row now db src =
      let action = external_action spec.provider_type in
      let r = resolve_provider_readiness spec.provider_type user db in
      if any (is_duplicate spec.source_type source_id action) db.intents
      then err conflict
      else ok (record (new_intent spec source_id user action db.fresh now src) {
        provider_name = codes "pending_provider";
        status = pending_provider;
        validation_result = readiness (creation_blockers r.0);
        queued = true;
        provider_status = some r.1;
      })

  unfoldable pub queue_built : ℕ → IntentDb → Outcome IntegrationError Intent
  queue_built now db =
      with_source user is_admin (queue_row now db) (find_source spec.source_type source_id db)

  -- `create_readiness_intent`
  unfoldable pub create_readiness_intent : Option Text → ℕ → Exec IntegrationError IntentDb Intent
  create_readiness_intent notes now = do
    raise_if (not (← gets (λ (db : IntentDb). db.pool))) unavailable
    insert_intent user notes (queue_built now)
