-- ===== src/Intents/Preview.antt =====
-- Payload previews, their validation, and the connectors of
-- apps/cora-api/app/provider_connectors.py that an intent meets.
use cora_os.Prelude.{
  String, Bool, true, false, not, ◌&&◌, ◌||◌, Option, none, some, List, [], ◌∷◌, ◌++◌, is_nil,
  is_some, any, if◌then◌else◌,
}
use cora_os.Prelude.Exec.{Outcome, ok, err}
use cora_os.Prelude.Text.{Text, codes, is_blank, text_eq, lower, has_part}
use cora_os.Intents.{
  IntegrationError, crashed, ProviderType, email, calendar, other_type, Payload, Validation,
  unchecked, checked, readiness, Draft, Proposal, ProviderRow,
}

abbrev pub no_payload : Payload
no_payload = record {
  to = [];
  subject = [];
  body = [];
  title = [];
  start_time = none;
  end_time = none;
  attendees = [];
}

abbrev pub or_empty : Option Text → Text
or_empty none = []
or_empty (some t) = t

-- `render_payload_preview`, for a draft and for a proposal
abbrev pub render_draft : Draft → Payload
render_draft d = record no_payload { subject = or_empty d.subject; body = or_empty d.body }

abbrev pub render_proposal : Proposal → Payload
render_proposal p = record no_payload {
  title = or_empty p.title;
  start_time = p.start_time;
  end_time = p.end_time;
  attendees = p.attendees;
}

abbrev pub message : Bool → String → List String
message true s = s ∷ []
message false s = []

abbrev pub email_errors : Payload → List String
email_errors p =
    message (is_blank p.subject) "subject is required"
    ++ message (is_blank p.body) "body is required"

abbrev pub email_warnings : Payload → List String
email_warnings p =
    message (is_nil p.to) "no real recipients resolved (recipient_hint is informational only)"

abbrev pub incomplete : Payload → Bool
incomplete p = not (is_some p.start_time) || not (is_some p.end_time)

abbrev pub title_errors : Payload → List String
title_errors p = message (is_blank p.title) "title is required"

abbrev pub no_attendees : Payload → List String
no_attendees p = message (is_nil p.attendees) "no attendees listed"

-- `validate_payload`
unfoldable pub validate_payload : ProviderType → Payload → Validation
validate_payload email p = checked (email_errors p) (email_warnings p)
validate_payload calendar p =
    checked (title_errors p) (message (incomplete p) "start/end time incomplete" ++ no_attendees p)
validate_payload (other_type t) p = checked ("unknown provider_type" ∷ []) []

-- `ok`
abbrev pub is_ok : Validation → Bool
is_ok (checked errors warnings) = is_nil errors
is_ok _ = false

-- `build_payload_preview` of the connector's class; the base class raises NotImplementedError
abbrev pub build_payload_preview : ProviderType → Payload → Outcome IntegrationError Payload
build_payload_preview email p =
    ok (record no_payload { to = p.to; subject = p.subject; body = p.body })
build_payload_preview calendar p = ok (record p { to = []; subject = []; body = [] })
build_payload_preview (other_type t) p = err crashed

abbrev pub is_update : Text → Bool
is_update action = text_eq action (codes "update_calendar_event")

-- `validate_payload` of the connector's class. A class is chosen by the row's type, so its own test
-- of the type never fails.
unfoldable pub connector_validation : ProviderType → Text → Payload → Validation
connector_validation email action p = checked (email_errors p) (email_warnings p)
connector_validation calendar action p =
    checked
      (title_errors p
        ++ message (incomplete p && is_update action) "start/end time required to update an event")
      (message (incomplete p && not (is_update action)) "start/end time incomplete"
        ++ no_attendees p)
connector_validation (other_type t) action p = unchecked

abbrev pub find_provider : Text → List ProviderRow → Option ProviderRow
find_provider name [] = none
find_provider name (r ∷ rs) = if text_eq r.provider_name name then some r else find_provider name rs

-- `_NON_CRITICAL_BLOCKER_MARKERS`
abbrev pub non_critical_markers : List Text
non_critical_markers =
    codes "external execution is disabled"
    ∷ codes "governance blocks external execution"
    ∷ codes "execution disabled by governance"
    ∷ []

abbrev pub is_critical : Text → Bool
is_critical b = not (any (has_part (lower b)) non_critical_markers)

abbrev pub blockers_of : Validation → List Text
blockers_of (readiness bs) = bs
blockers_of _ = []

abbrev pub criticals : List Text → List Text
criticals [] = []
criticals (b ∷ bs) = if is_critical b then b ∷ criticals bs else criticals bs

-- `_critical_blockers`
unfoldable pub critical_blockers : Validation → List Text
critical_blockers v = criticals (blockers_of v)

-- `not intent["validation_result"]`: the empty object
abbrev pub is_unchecked : Validation → Bool
is_unchecked unchecked = true
is_unchecked _ = false
