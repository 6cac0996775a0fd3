-- ===== src/Agent/Staging.antt =====
-- apps/cora-api/app/agent_runtime.py: staging a review-only artifact (`_handle_staging`) and reading
-- the staged artifacts off a run's steps (`_collect_staged`).
use cora_os.Prelude.{
  is_nil, ℕ, ◌-◌, String, Bool, false, not, ◌&&◌, ◌||◌, Option, none, some, List, [], ◌∷◌, ◌++◌,
  is_some, if◌then◌else◌,
}
use text.Mathlib.Text.{◌==◌ as str_eq}
use cora_os.Prelude.Exec.{ok, err}
use cora_os.Prelude.Text.{Text, codes, strip, text_eq}
use cora_os.Governance.{check_permission}
use cora_os.Agent.{
  Args, field, find_text, not_found, not_staging, not_review_only, denied, missing_argument,
  could_not_stage, no_handler, Observation, staged, failed, AgentStep, tool_call, tool_result,
  final, error_step, StagedKind, calendar_create, calendar_update, calendar_delete, email_draft,
  review_only, StagedItem, Env, AgentDb, created, fetch_tool_row, is_staging, requested, tick,
}

-- the text arguments that are copied, stripped, when they are not blank
abbrev copied : List String → Args → List (String × Text)
copied [] args = []
copied (k ∷ ks) args =
    if is_nil (field k args) then copied ks args else (k, field k args) ∷ copied ks args

abbrev stripped : List Text → List Text
stripped [] = []
stripped (t ∷ ts) = if is_nil (strip t) then stripped ts else strip t ∷ stripped ts

abbrev has_field : String → List (String × Text) → Bool
has_field k fs = is_some (find_text k fs)

-- the defaults for an event that has a start
abbrev backfilled :
    (Text → Option Text) → Text → Option Text → List (String × Text) → List (String × Text)
backfilled plus timezone none fs = fs
backfilled plus timezone (some start) fs =
    let zoned = if has_field "timezone" fs then fs else fs ++ ("timezone", timezone) ∷ [] in
    if has_field "end_time" zoned
    then zoned
    else elim (plus start) [ none ↦ zoned | some end ↦ zoned ++ ("end_time", end) ∷ [] ]

-- `_proposal_fields_from_args`
unfoldable pub proposal_fields : (Text → Option Text) → Text → Args → Args
proposal_fields plus timezone args =
    let fs =
      copied ("title" ∷ "start_time" ∷ "end_time" ∷ "location" ∷ "description" ∷ "timezone" ∷ [])
        args in
    record {
      texts = backfilled plus timezone (find_text "start_time" fs) fs;
      attendees = stripped args.attendees;
    }

abbrev pub has_fields : Args → Bool
has_fields a = not (is_nil a.texts && is_nil a.attendees)

abbrev is_tool : String → Text → Bool
is_tool s name = text_eq name (codes s)

-- what a staged call may fire when it is approved
unfoldable pub kind_of : (Text → Option Text) → Text → Text → Args → StagedKind
kind_of plus timezone name args =
    let fields = proposal_fields plus timezone args in
    let provider = field "provider" args in
    let event_id = field "event_id" args in
    if is_tool "chronos_create_schedule_proposal" name
    then (if has_field "start_time" fields.texts
          && has_field "end_time" fields.texts
          && not (is_nil provider)
        then calendar_create provider fields
        else review_only)
    else if is_tool "chronos_update_calendar_event" name
    then (if not (is_nil provider) && not (is_nil event_id) && has_fields fields
        then calendar_update provider event_id fields
        else review_only)
    else if is_tool "chronos_cancel_calendar_event" name
    then (if not (is_nil provider) && not (is_nil event_id)
        then calendar_delete provider event_id
        else review_only)
    else if is_tool "signal_create_draft" name
    then email_draft
    else review_only

abbrev args_or_empty : Option Args → Args
args_or_empty none = record { texts = []; attendees = [] }
args_or_empty (some a) = a

abbrev pub staged_of : (Text → Option Text) → Text → AgentStep → List StagedItem
staged_of plus timezone (tool_result name (staged _) arguments) =
    if is_staging name
    then record { tool = name; kind = kind_of plus timezone name (args_or_empty arguments) } ∷ []
    else []
staged_of plus timezone (tool_result name (failed _) arguments) = []
staged_of plus timezone (tool_result name _ arguments) = []
staged_of plus timezone (tool_call name arguments) = []
staged_of plus timezone (final answer forced) = []
staged_of plus timezone (error_step error) = []

-- `_collect_staged`
unfoldable pub collect_staged : (Text → Option Text) → Text → List AgentStep → List StagedItem
collect_staged plus timezone [] = []
collect_staged plus timezone (s ∷ ss) = staged_of plus timezone s ++ collect_staged plus timezone ss

abbrev pub since : Env → AgentDb → ℕ
since env db = env.now (tick db) - 3600

abbrev made_artifact : Env → Option Text → Text → Args → AgentDb → Observation × AgentDb
made_artifact env agent name args db = (
  elim (env.create_artifact (tick db) name args) [
    | ok row ↦ staged row
    | err e ↦ failed (could_not_stage e)
  ],
  requested (created agent name (since env db)) db,
)

-- the artifact of `_handle_staging`, by the tool's name: a row of another component for the first
-- two, a text only for the others
unfoldable pub stage_artifact :
    Env → Text → Option Text → Text → Args → AgentDb → Observation × AgentDb
stage_artifact env timezone agent name args db =
    if is_tool "signal_create_draft" name
    then (if is_nil (field "body" args)
        then (failed missing_argument, db)
        else made_artifact env agent name args db)
    else if is_tool "chronos_create_schedule_proposal" name
    then (if is_nil (field "title" args)
        then (failed missing_argument, db)
        else made_artifact env agent name args db)
    else if is_tool "chronos_update_calendar_event" name
    then (if is_nil (field "provider" args) || is_nil (field "event_id" args)
        then (failed missing_argument, db)
        else if has_fields (proposal_fields env.plus_one_hour timezone args)
        then (staged name, db)
        else (failed missing_argument, db))
    else if is_tool "chronos_cancel_calendar_event" name
    then (if is_nil (field "provider" args) || is_nil (field "event_id" args)
        then (failed missing_argument, db)
        else (staged name, db))
    else (failed no_handler, db)

-- `_handle_staging`
unfoldable pub handle_staging :
    Env → Text → Option Text → Text → Args → AgentDb → Observation × AgentDb
handle_staging env timezone agent name args db =
    if not (is_staging name) then (failed not_staging, db) else elim (fetch_tool_row name db) [
      | none ↦ (failed not_found, db)
      | some t ↦
          if not (str_eq t.tool_type "internal_action")
          then (failed not_review_only, db)
          else let d = check_permission t.gov agent false (since env db) db.gov in
            if d.allowed
            then stage_artifact env timezone agent name args db
            else (failed (denied d.reason), db)
    ]
