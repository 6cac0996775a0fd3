-- ===== src/Governance.antt =====
-- apps/cora-api/app/tools/governance.py: whether a tool may run, and the log of the attempts. Times
-- are in seconds. A reason or a matched rule that the source writes as a text is a constructor with
-- the values that go into the text. A trace's JSON detail (`tool_result`) is left out, and so are the
-- scope and the duration of a logged attempt.
pub mod Decision
pub mod Limits
mod Tests
use cora_os.Prelude.{
  ℕ, ◌+◌, String, Bool, true, false, not, ◌&&◌, ◌||◌, Option, none, some, List, [], ◌∷◌, ◌++◌, any,
  ◌==◌, leb, if◌then◌else◌,
}
use cora_os.Prelude.Text.{Text, codes, strip, lower, text_eq, starts_with, ends_with, has_part}

-- `EXTERNAL_EXECUTION_TOOLS`
abbrev pub external_execution_tools : List Text
external_execution_tools =
    codes "send_email"
    ∷ codes "send_outlook_email"
    ∷ codes "send_gmail"
    ∷ codes "create_calendar_event"
    ∷ codes "create_google_calendar_event"
    ∷ codes "create_outlook_calendar_event"
    ∷ []

-- `_EXTERNAL_EXEC_PREFIXES`
abbrev pub external_exec_prefixes : List Text
external_exec_prefixes =
    codes "send_"
    ∷ codes "create_calendar"
    ∷ codes "create_google_calendar"
    ∷ codes "create_outlook_calendar"
    ∷ codes "create_gcal"
    ∷ codes "execute_provider"
    ∷ codes "provider_execute"
    ∷ []

abbrev pub is_preview : Text → Bool
is_preview n =
    has_part n (codes "prepare") || ends_with n (codes "_intent") || has_part n (codes "dry_run")

-- the tests of `is_external_execution_tool` on the stripped name in lower case
unfoldable pub is_external_name : Text → Bool
is_external_name [] = false
is_external_name (c ∷ t) =
    let n = c ∷ t in
    if any (text_eq n) external_execution_tools
    then true
    else if is_preview n
    then false
    else any (starts_with n) external_exec_prefixes

-- `is_external_execution_tool`
unfoldable pub is_external_execution_tool : Option Text → Bool
is_external_execution_tool none = false
is_external_execution_tool (some name) = is_external_name (lower (strip name))

pub data RiskLevel : Type 0 where
  low medium high : RiskLevel

-- the columns that `fetch_tool` reads
pub record Tool : Type 0 where
  pub name : Text
  pub enabled : Bool
  pub requires_confirmation : Bool
  pub risk_level : RiskLevel
  pub allowed_agents : List Text

-- A row of tool_execution_policies.
pub record Policy : Type 0 where
  pub tool_name : Text
  pub agent_name : Text
  pub allowed : Bool
  pub requires_confirmation : Bool
  pub max_calls_per_hour : Option ℕ

-- A row of tool_execution_logs.
pub record ExecutionLog : Type 0 where
  pub session_id : Option ℕ
  pub user_id : Option ℕ
  pub tool_name : Text
  pub agent_name : Option Text
  pub allowed : Bool
  pub status : String
  pub error_message : Option String
  pub created_at : ℕ

-- A row of runtime_traces.
pub record RuntimeTrace : Type 0 where
  pub session_id : Option ℕ
  pub user_id : Option ℕ
  pub workspace_id : Option ℕ
  pub trace_type : String
  pub status : String
  pub selected_agent : Option Text
  pub tool_name : Text
  pub error_message : Option String

pub record GovernanceDb : Type 0 where
  pub pool : Bool
  pub policies : List Policy
  pub logs : List ExecutionLog
  pub traces : List RuntimeTrace

abbrev find_policy : Text → Text → List Policy → Option Policy
find_policy tool agent [] = none
find_policy tool agent (p ∷ ps) =
    if text_eq p.tool_name tool && text_eq p.agent_name agent
    then some p
    else find_policy tool agent ps

-- `_fetch_policy`
unfoldable pub fetch_policy : Text → Text → GovernanceDb → Option Policy
fetch_policy tool agent db = if db.pool then find_policy tool agent db.policies else none

abbrev same_user : Option ℕ → Option ℕ → Bool
same_user none _ = true
same_user (some u) none = false
same_user (some u) (some v) = u == v

abbrev same_agent : Option Text → Option Text → Bool
same_agent none _ = true
same_agent (some a) none = false
same_agent (some a) (some b) = text_eq b a

-- the WHERE clause of `_count_recent_executions`: an argument that is None does not restrict
abbrev pub is_counted : Text → ℕ → Option ℕ → Option Text → ExecutionLog → Bool
is_counted tool since user agent l =
    text_eq l.tool_name tool
    && l.allowed
    && leb since l.created_at
    && same_user user l.user_id
    && same_agent agent l.agent_name

abbrev pub count_logs : (ExecutionLog → Bool) → List ExecutionLog → ℕ
count_logs p [] = 0
count_logs p (l ∷ ls) = if p l then 1 + count_logs p ls else count_logs p ls

-- `_count_recent_executions`
unfoldable pub count_recent_executions : Text → ℕ → Option ℕ → Option Text → GovernanceDb → ℕ
count_recent_executions tool since user agent db =
    if db.pool then count_logs (is_counted tool since user agent) db.logs else 0

pub data PolicySource : Type 0 where
  external_action_block tool_disabled policy_table allowed_agents risk_level default : PolicySource

pub data Reason : Type 0 where
  block_message disabled explicitly_denied not_in_allowed_agents needs_admin allowed : Reason
  rate_limit_exceeded : (count max : ℕ) → Reason

pub data MatchedRule : Type 0 where
  external_execution_tool enabled_false default_allow unrestricted risk_high : MatchedRule
  policy policy_denied policy_rate : (tool agent : Text) → MatchedRule
  agent_list : List Text → MatchedRule

-- `PermissionDecision`
pub record PermissionDecision : Type 0 where
  pub allowed : Bool
  pub reason : Reason
  pub requires_confirmation : Bool
  pub policy_source : PolicySource
  pub matched_rule : MatchedRule

abbrev pub denied : Reason → PolicySource → MatchedRule → PermissionDecision
denied r s m = record {
  allowed = false;
  reason = r;
  requires_confirmation = false;
  policy_source = s;
  matched_rule = m;
}

-- What steps 2 and 3 leave: an early return, or the values that the rest reads.
pub data Stage : Type 0 where
  returned : PermissionDecision → Stage
  passed : (requires_confirmation : Bool) → PolicySource → MatchedRule → Stage

-- the hourly limit of a policy, with the number of calls in the last hour
abbrev pub rate_stage : Text → Text → Bool → ℕ → Option ℕ → Stage
rate_stage tool agent confirm cnt none = passed confirm policy_table (policy tool agent)
rate_stage tool agent confirm cnt (some mcph) =
    if leb mcph cnt
    then returned (denied (rate_limit_exceeded cnt mcph) policy_table (policy_rate tool agent))
    else passed confirm policy_table (policy tool agent)

abbrev pub policy_stage : Tool → Text → Policy → ℕ → GovernanceDb → Stage
policy_stage t agent p since db =
    if p.allowed
    then rate_stage t.name agent (p.requires_confirmation || t.requires_confirmation)
        (count_recent_executions t.name since none (some agent) db) p.max_calls_per_hour
    else returned (denied explicitly_denied policy_table (policy_denied t.name agent))

abbrev pub list_stage : Tool → Text → List Text → Stage
list_stage t agent [] = passed t.requires_confirmation default unrestricted
list_stage t agent (a ∷ rest) =
    if any (text_eq agent) (a ∷ rest)
    then passed t.requires_confirmation allowed_agents (agent_list (a ∷ rest))
    else returned (denied not_in_allowed_agents allowed_agents (agent_list (a ∷ rest)))

-- step 2 with a policy, or step 3 without one
abbrev pub table_stage : Tool → Text → Bool → ℕ → GovernanceDb → Option Policy → Stage
table_stage t agent is_admin since db (some p) = policy_stage t agent p since db
table_stage t agent is_admin since db none =
    if is_admin
    then passed t.requires_confirmation default default_allow
    else list_stage t agent t.allowed_agents

unfoldable pub agent_stage : Tool → Option Text → Bool → ℕ → GovernanceDb → Stage
agent_stage t none is_admin since db = passed t.requires_confirmation default default_allow
agent_stage t (some agent) is_admin since db =
    table_stage t agent is_admin since db (fetch_policy t.name agent db)

abbrev pub is_high : RiskLevel → Bool
is_high high = true
is_high _ = false

-- step 4 and the default
abbrev pub last_stage : Tool → Bool → Stage → PermissionDecision
last_stage t is_admin (returned d) = d
last_stage t is_admin (passed confirm source rule) =
    if is_high t.risk_level && not is_admin
    then denied needs_admin risk_level risk_high
    else record {
      allowed = true;
      reason = allowed;
      requires_confirmation = confirm;
      policy_source = source;
      matched_rule = rule;
    }

-- `check_permission`; `since` is one hour before the call.
unfoldable pub check_permission : Tool → Option Text → Bool → ℕ → GovernanceDb → PermissionDecision
check_permission t agent is_admin since db =
    if is_external_execution_tool (some t.name)
    then denied block_message external_action_block external_execution_tool
    else if not t.enabled
    then denied disabled tool_disabled enabled_false
    else last_stage t is_admin (agent_stage t agent is_admin since db)

-- `log_execution_attempt`
unfoldable pub log_execution_attempt : ExecutionLog → GovernanceDb → GovernanceDb
log_execution_attempt l db = if db.pool then record db { logs = db.logs ++ l ∷ [] } else db

-- `write_trace`
unfoldable pub write_runtime_trace : RuntimeTrace → GovernanceDb → GovernanceDb
write_runtime_trace t db = if db.pool then record db { traces = db.traces ++ t ∷ [] } else db

abbrev pub block_text : String
block_text = "I can prepare this for review, but I cannot send or create external events yet."

-- `enforce_external_action_block`
unfoldable pub enforce_external_action_block :
    Text
    → Option Text
    → Option ℕ
    → Option ℕ
    → Option ℕ
    → ℕ
    → GovernanceDb
    → Option String × GovernanceDb
enforce_external_action_block tool agent session user workspace now db =
    if is_external_execution_tool (some tool)
    then (
      some block_text,
      write_runtime_trace
          record {
            session_id = session;
            user_id = user;
            workspace_id = workspace;
            trace_type = "governance_blocked";
            status = "blocked";
            selected_agent = agent;
            tool_name = tool;
            error_message = some block_text;
          }
          (log_execution_attempt
            record {
              session_id = session;
              user_id = user;
              tool_name = tool;
              agent_name = agent;
              allowed = false;
              status = "blocked";
              error_message = some block_text;
              created_at = now;
            }
            db),
    )
    else (none, db)
