-- ===== src/Intents.antt =====
-- apps/cora-api/app/integration_readiness.py: the intents to act outside, their two workflows on one
-- table and the log of events. Only a preview of the action is made. A payload is a JSON object that
-- the code reads by `.get(key) or default`, so an absent key is the empty value; keys that are only
-- passed on (cc, bcc, body_format, description, timezone, agenda, reminders) are left out.
pub mod Preview
pub mod Build
pub mod Change
pub mod Calls
pub mod Moves
pub mod Effect
pub mod Sound
pub mod Single
pub mod Lifecycle
pub mod Refines
pub mod Gates
mod Tests
use cora_os.Prelude.{
  ℕ, String, Bool, true, false, Option, none, some, List, [], ◌∷◌, any, ◌==◌, if◌then◌else◌,
}
use cora_os.Prelude.Exec.{Exec, Outcome, ok, err}
use cora_os.Prelude.Text.{Text}
use cora_os.Review.{Status}

-- `IntegrationError`, by its code, and an exception of another kind
pub data IntegrationError : Type 0 where
  invalid not_found forbidden conflict unavailable crashed : IntegrationError

pub data IntentStatus : Type 0 where
  draft ready_for_confirmation confirmed confirmation_revoked blocked cancelled executed_placeholder
        pending_provider blocked_no_provider blocked_no_oauth ready_for_future_execution :
      IntentStatus

pub data SourceType : Type 0 where
  communication_draft schedule_proposal : SourceType

pub data ProviderType : Type 0 where
  email calendar : ProviderType
  other_type : String → ProviderType

-- a payload preview
pub record Payload : Type 0 where
  pub to : List Text
  pub subject : Text
  pub body : Text
  pub title : Text
  pub start_time : Option ℕ
  pub end_time : Option ℕ
  pub attendees : List Text

-- The column validation_result: `{}`, what a validation of the payload says, or what the readiness
-- queue says; only the last has the key `blockers`.
pub data Validation : Type 0 where
  unchecked : Validation
  checked : (hard_errors warnings : List String) → Validation
  readiness : (blockers : List Text) → Validation

-- metadata.provider_status
pub data ProviderStatus : Type 0 where
  not_configured expired configured : ProviderStatus

-- A row of external_integration_intents. `queued` says that metadata.source is
-- "integration_readiness".
pub record Intent : Type 0 where
  pub id : ℕ
  pub workspace_id : Option ℕ
  pub created_by : ℕ
  pub source_type : SourceType
  pub source_id : ℕ
  pub agent_name : String
  pub provider_type : ProviderType
  pub provider_name : Text
  pub action_type : Text
  pub status : IntentStatus
  pub dry_run : Bool
  pub requires_confirmation : Bool
  pub payload_preview : Payload
  pub validation_result : Validation
  pub queued : Bool
  pub provider_status : Option ProviderStatus
  pub confirmed_by : Option ℕ
  pub confirmed_at : Option ℕ
  pub cancelled_by : Option ℕ
  pub cancelled_at : Option ℕ
  pub updated_at : ℕ

pub data EventType : Type 0 where
  intent_created intent_validated intent_confirmed intent_cancelled confirmation_was_revoked
        provider_dry_run_executed :
      EventType

-- A row of external_integration_events, without its snapshot.
pub record IntentEvent : Type 0 where
  pub intent_id : ℕ
  pub user_id : ℕ
  pub event_type : EventType
  pub from_status : Option IntentStatus
  pub to_status : IntentStatus
  pub notes : Option Text

-- A row of communication_drafts, and one of schedule_proposals.
pub record Draft : Type 0 where
  pub id : ℕ
  pub workspace_id : Option ℕ
  pub created_by : ℕ
  pub subject : Option Text
  pub body : Option Text
  pub status : Status

pub record Proposal : Type 0 where
  pub id : ℕ
  pub workspace_id : Option ℕ
  pub created_by : ℕ
  pub title : Option Text
  pub start_time : Option ℕ
  pub end_time : Option ℕ
  pub attendees : List Text
  pub status : Status

-- A row of external_provider_connectors.
pub record ProviderRow : Type 0 where
  pub provider_name : Text
  pub provider_type : ProviderType
  pub enabled : Bool

pub data OauthStatus : Type 0 where
  oauth_expired oauth_connected oauth_disconnected oauth_pending : OauthStatus

-- A row of provider_oauth_connectors; its status is one of three that the code tests, or another.
pub record OauthRow : Type 0 where
  pub user_id : ℕ
  pub provider_type : ProviderType
  pub status : OauthStatus

-- `fresh` is the identifier that the database generates next.
pub record IntentDb : Type 0 where
  pub pool : Bool
  pub intents : List Intent
  pub events : List IntentEvent
  pub drafts : List Draft
  pub proposals : List Proposal
  pub providers : List ProviderRow
  pub oauth : List OauthRow
  pub fresh : ℕ

abbrev pub intent_key : Intent → ℕ
intent_key i = i.id

abbrev pub source_code : SourceType → ℕ
source_code communication_draft = 0
source_code schedule_proposal = 1

abbrev pub is_approved : Status → Bool
is_approved Status.approved = true
is_approved _ = false

-- the error of the first guard that fails
abbrev pub first_error : List (Bool × IntegrationError) → Option IntegrationError
first_error [] = none
first_error ((fails, e) ∷ rest) = if fails then some e else first_error rest
