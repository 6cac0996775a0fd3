-- ===== src/Agent.antt =====
-- apps/cora-api/app/agent_runtime.py: the agent runtime's data and the table of its runs. Of the
-- arguments of a call the model keeps the texts and the list of attendees, which the code reads. What
-- other programs answer is an `Env`, asked with the number of requests made so far.
pub mod Staging
pub mod Calls
pub mod Rounds
pub mod Ends
pub mod Loop
pub mod Requests
pub mod Frame
pub mod Runs
pub mod Closed
pub mod Row
pub mod Resolved
pub mod Safe
mod Sample
mod Tests
pub mod Budget
pub mod Words
pub mod Confirm
use cora_os.Prelude.{
  ℕ, suc, ◌+◌, String, Bool, true, false, Option, none, some, List, [], ◌∷◌, ◌++◌, any, length,
  if◌then◌else◌,
}
use text.Mathlib.Text.{◌==◌ as str_eq}
use cora_os.Prelude.Exec.{Outcome}
use cora_os.Prelude.Table.{update}
use cora_os.Prelude.Text.{Text, codes, strip, text_eq}
use cora_os.Governance.{Tool, GovernanceDb, Reason}
use cora_os.Delegations.{DelegationDb, DelegationError}

pub record Args : Type 0 where
  pub texts : List (String × Text)
  pub attendees : List Text

abbrev pub find_text : String → List (String × Text) → Option Text
find_text k [] = none
find_text k (p ∷ ps) = if str_eq p.0 k then some p.1 else find_text k ps

-- `(args.get(k) or "").strip()`
abbrev pub field : String → Args → Text
field k args = elim (find_text k args.texts) [ none ↦ [] | some t ↦ strip t ]

-- one entry of `tool_calls` in a reply of the model
pub record Call : Type 0 where
  pub name : Text
  pub arguments : Args

-- the texts "error: …" that a call may be answered with
pub data Failure : Type 0 where
  not_available not_found not_permitted not_staging not_review_only unknown_agent depth_limit
        missing_argument no_handler :
      Failure
  denied : Reason → Failure
  tool_failed could_not_stage specialist_failed : String → Failure
  delegation_rejected : DelegationError → Failure

-- What a call is answered with: "✓ Staged …", "error: …", or another text.
pub data Observation : Type 0 where
  staged : Text → Observation
  failed : Failure → Observation
  said : Text → Observation

pub data AgentStep : Type 0 where
  tool_call : (name : Text) (arguments : Args) → AgentStep
  tool_result : (name : Text) (result : Observation) (arguments : Option Args) → AgentStep
  final : (answer : Text) (forced : Bool) → AgentStep
  error_step : (error : String) → AgentStep

-- an entry of the thread that the model reads
pub data Message : Type 0 where
  system user_says tool_says : Text → Message
  assistant : (content : Text) (calls : List Call) → Message
  observed : Observation → Message

pub record Reply : Type 0 where
  pub content : Text
  pub calls : List Call

-- how a request to the model ends: a reply, an httpx error, or any other exception
pub data ChatOutcome : Type 0 where
  replied : Reply → ChatOutcome
  http_error crashed : String → ChatOutcome

pub data Verdict : Type 0 where
  pass concerns fail : Verdict

pub data StagedKind : Type 0 where
  calendar_create : (provider : Text) (fields : Args) → StagedKind
  calendar_update : (provider event_id : Text) (fields : Args) → StagedKind
  calendar_delete : (provider event_id : Text) → StagedKind
  email_draft review_only : StagedKind

pub record StagedItem : Type 0 where
  pub tool : Text
  pub kind : StagedKind

-- the outcome of firing one item
pub record Executed : Type 0 where
  pub tool : Text
  pub succeeded : Bool

-- the column `interrupt`
pub record Interrupt : Type 0 where
  pub items : List StagedItem
  pub decision : Option Bool
  pub overridden : Bool
  pub executed : List Executed

pub data RunStatus : Type 0 where
  pending running waiting_user done failed cancelled : RunStatus

abbrev pub is_waiting : RunStatus → Bool
is_waiting waiting_user = true
is_waiting _ = false

pub data Stopped : Type 0 where
  final budget error : Stopped

-- A row of agent_runtime_runs.
pub record Run : Type 0 where
  pub id : ℕ
  pub session_id : Option ℕ
  pub user_id : Option ℕ
  pub workspace_id : Option ℕ
  pub agent_name : Option Text
  pub status : RunStatus
  pub goal : Text
  pub max_steps : ℕ
  pub answer : Option Text
  pub stopped : Option Stopped
  pub tool_calls : ℕ
  pub step_count : ℕ
  pub steps : List AgentStep
  pub error_message : Option String
  pub evaluation : Option Verdict
  pub interrupt : Option Interrupt
  pub completed_at : Option ℕ

abbrev pub run_key : Run → ℕ
run_key r = r.id

-- A row of tools: what governance reads of it, and its type.
pub record ToolRow : Type 0 where
  pub gov : Tool
  pub tool_type : String

-- the requests that a run makes of other programs, in their order
pub data Effect : Type 0 where
  model_called : (depth : ℕ) → Effect
  dispatched : (agent : Option Text) (name : Text) (since : ℕ) → Effect
  created : (agent : Option Text) (name : Text) (since : ℕ) → Effect
  fired : StagedItem → Effect

-- The tables, the requests made so far, and the next identifier that the database generates. `gov`
-- is what governance reads and `deleg` the table of delegations; the program has one connection pool
-- for all of them.
pub record AgentDb : Type 0 where
  pub gov : GovernanceDb
  pub deleg : DelegationDb
  pub tools : List ToolRow
  pub runs : List Run
  pub fresh : ℕ
  pub effects : List Effect

-- A specialist: a row of agents with its active version's prompt.
pub record Spoke : Type 0 where
  pub name : Text
  pub description : Text
  pub system_prompt : Option Text

pub record Settings : Type 0 where
  pub configured : Bool  -- the endpoint and the model are set
  pub runtime_enabled : Bool
  pub delegation_enabled : Bool
  pub write_enabled : Bool
  pub interrupt_enabled : Bool
  pub execution_enabled : Bool
  pub eval_enabled : Bool
  pub eval_gate_enabled : Bool
  pub max_steps : ℕ
  pub timezone : Text
  pub agent_system_prompt : Text
  pub spokes : List Spoke

-- What other programs, and the parts of this one that are not modelled, answer.
pub record Env : Type 0 where
  pub chat : ℕ → List Message → Bool → ChatOutcome
  pub dispatch_tool : ℕ → Text → Args → Outcome String Text
  pub list_calendar : ℕ → Args → Text
  pub create_artifact : ℕ → Text → Args → Outcome String Text
  pub fire : ℕ → StagedItem → Bool
  pub evaluate_run : ℕ → Text → Text → List AgentStep → Option Verdict
  pub plus_one_hour : Text → Option Text
  pub render_task : Args → Text
  pub as_json : String → String
  pub as_string : Text → String
  pub payload : Args → Option ℕ → String
  pub now : ℕ → ℕ

abbrev pub tick : AgentDb → ℕ
tick db = length db.effects

-- one more request
abbrev pub requested : Effect → AgentDb → AgentDb
requested e db = record db { effects = db.effects ++ e ∷ [] }

-- `_fetch_tool_row`
abbrev pub find_tool : Text → List ToolRow → Option ToolRow
find_tool n [] = none
find_tool n (t ∷ ts) = if text_eq t.gov.name n then some t else find_tool n ts

unfoldable pub fetch_tool_row : Text → AgentDb → Option ToolRow
fetch_tool_row n db = if db.gov.pool then find_tool n db.tools else none

abbrev pub read_only_tools : List Text
read_only_tools =
    codes "web_search"
    ∷ codes "filesystem_list_project"
    ∷ codes "filesystem_read_file"
    ∷ codes "chronos_list_calendar_events"
    ∷ []

abbrev pub staging_tools : List Text
staging_tools =
    codes "signal_create_draft"
    ∷ codes "chronos_create_schedule_proposal"
    ∷ codes "chronos_update_calendar_event"
    ∷ codes "chronos_cancel_calendar_event"
    ∷ []

unfoldable pub is_read_only : Text → Bool
is_read_only n = any (text_eq n) read_only_tools

unfoldable pub is_staging : Text → Bool
is_staging n = any (text_eq n) staging_tools

-- the UPDATE of one run, which is skipped with no id or no connection pool
unfoldable pub write_run : Option ℕ → (Run → Run) → AgentDb → AgentDb
write_run none f db = db
write_run (some k) f db =
    if db.gov.pool then record db { runs = update run_key k f db.runs } else db
