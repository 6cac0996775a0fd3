-- ===== src/Agent/Calls.antt =====
-- apps/cora-api/app/agent_runtime.py: the calls of one turn (`_dispatch_read_only`,
-- `_handle_delegation`, `_execute_calls`). The calls of a turn run in their order here; the code runs
-- them side by side and puts the observations back in that order.
use cora_os.Prelude.{
  is_nil, ℕ, suc, String, Bool, false, not, ◌&&◌, ◌||◌, Option, none, some, List, [], ◌∷◌, ◌++◌,
  any, leb, take, if◌then◌else◌,
}
use text.Mathlib.Text.{◌==◌ as str_eq}
use cora_os.Prelude.Exec.{Outcome, ok, err}
use cora_os.Prelude.Text.{Text, codes, upper, text_eq}
use cora_os.Governance.{check_permission, is_high}
use cora_os.Delegations.{
  Delegation, DelegationDb, DelegationError, NewDelegation, create_delegation, complete_delegation,
  fail_delegation,
}
use cora_os.Agent.{
  Args, find_text, field, Call, not_available, not_found, not_permitted, denied, tool_failed,
  unknown_agent, depth_limit, delegation_rejected, specialist_failed, Observation, failed, said,
  Spoke, Env, AgentDb, dispatched, fetch_tool_row, is_read_only, is_staging, requested, tick,
}
use cora_os.Agent.Staging.{handle_staging, since}

-- the parameters that a read-only tool advertises
abbrev advertised : Text → List String
advertised n =
    if text_eq n (codes "web_search")
    then "query" ∷ "max_results" ∷ []
    else if text_eq n (codes "filesystem_list_project")
    then "path" ∷ []
    else if text_eq n (codes "filesystem_read_file")
    then "path" ∷ "line_start" ∷ "line_end" ∷ []
    else "window" ∷ "query" ∷ "provider" ∷ []

abbrev kept : List String → List (String × Text) → List (String × Text)
kept ks [] = []
kept ks (p ∷ ps) = if any (str_eq p.0) ks then p ∷ kept ks ps else kept ks ps

abbrev safe_args : Text → Args → Args
safe_args n args = record { texts = kept (advertised n) args.texts; attendees = [] }

-- the observation of a dispatch
abbrev observed_of : Outcome String Text → Observation
observed_of (ok t) = said (take 12000 t)
observed_of (err e) = failed (tool_failed e)

-- the request that is made once the tool is cleared
abbrev dispatch : Env → Text → Args → AgentDb → Observation
dispatch env name args db =
    if text_eq name (codes "chronos_list_calendar_events")
    then said (take 12000 (env.list_calendar (tick db) args))
    else observed_of (env.dispatch_tool (tick db) name (safe_args name args))

-- `_dispatch_read_only`
unfoldable pub dispatch_read_only :
    Env → Option Text → Text → Args → AgentDb → Observation × AgentDb
dispatch_read_only env agent name args db =
    if not (is_read_only name) then (failed not_available, db) else elim (fetch_tool_row name db) [
      | none ↦ (failed not_found, db)
      | some t ↦
          if t.gov.requires_confirmation || is_high t.gov.risk_level
          then (failed not_permitted, db)
          else let d = check_permission t.gov agent false (since env db) db.gov in
            if d.allowed
            then (dispatch env name args db, requested (dispatched agent name (since env db)) db)
            else (failed (denied d.reason), db)
    ]

abbrev pub find_spoke : Text → List Spoke → Option Spoke
find_spoke n [] = none
find_spoke n (s ∷ ss) = if text_eq s.name n then some s else find_spoke n ss

-- who runs, and for whom
pub record Identity : Type 0 where
  pub user_id : Option ℕ
  pub session_id : Option ℕ
  pub workspace_id : Option ℕ
  pub agent_name : Option Text

abbrev pub new_delegation : Env → Identity → Option ℕ → Text → Args → NewDelegation
new_delegation env who parent target args = record {
  from_agent = codes "ATLAS";
  to_agent = target;
  delegation_reason = elim (find_text "goal" args.texts) [
    | none ↦ none
    | some goal ↦ if is_nil goal then none else some (env.as_string (take 300 goal))
  ];
  session_id = who.session_id;
  execution_plan_id = none;
  workspace_id = who.workspace_id;
  input_payload = some (env.payload args parent);
  user_id = who.user_id;
  initial_status = "running";
}

-- The run of a specialist: its answer, or the exception that it ended with.
abbrev pub SpokeRun : Type 0
SpokeRun = Spoke → Args → AgentDb → Outcome String Text × AgentDb

abbrev pub with_deleg : DelegationDb → AgentDb → AgentDb
with_deleg d db = record db { deleg = d }

-- the observation of a delegation, and the end that its row gets
abbrev pub closed :
    Env → Identity → Text → ℕ → Outcome String Text → AgentDb → Observation × AgentDb
closed env who target k (ok answer) db = (
  said (codes "[" ++ target ++ codes " responded] " ++ answer),
  with_deleg
      (complete_delegation k (some (env.as_string answer)) who.user_id (env.now (tick db))
        db.deleg).1
      db,
)
closed env who target k (err e) db = (
  failed (specialist_failed e),
  with_deleg (fail_delegation env.as_json k e who.user_id (env.now (tick db)) db.deleg).1 db,
)

-- the run between the creation of the delegation and its end
abbrev pub delegated :
    Env
    → Identity
    → SpokeRun
    → Spoke
    → Args
    → ℕ
    → Outcome DelegationError Delegation × DelegationDb
    → AgentDb
    → Observation × AgentDb
delegated env who run spoke args k (err e, deleg) db =
    (failed (delegation_rejected e), with_deleg deleg db)
delegated env who run spoke args k (ok row, deleg) db =
    let ended = run spoke args (with_deleg deleg db) in closed env who spoke.name k ended.0 ended.1

-- a delegation to the specialist that the table of them has
abbrev pub handed :
    Env → Identity → Option ℕ → ℕ → SpokeRun → Args → AgentDb → Option Spoke → Observation × AgentDb
handed env who parent depth run args db none = (failed unknown_agent, db)
handed env who parent depth run args db (some spoke) =
    if leb 1 depth
    then (failed depth_limit, db)
    else delegated env who run spoke args db.fresh
        (create_delegation db.fresh
          (new_delegation env who parent (upper (field "agent" args)) args) db.deleg)
        (record db { fresh = suc db.fresh })

-- `_handle_delegation`
unfoldable pub handle_delegation :
    Env → Identity → Option ℕ → List Spoke → ℕ → SpokeRun → Args → AgentDb → Observation × AgentDb
handle_delegation env who parent spokes depth run args db =
    handed env who parent depth run args db (find_spoke (upper (field "agent" args)) spokes)

-- the kinds of call in a turn
pub data CallKind : Type 0 where
  delegate staging tool : CallKind

abbrev pub kind_of_call : Bool → Bool → Text → CallKind
kind_of_call delegation_on write_on name =
    if text_eq name (codes "delegate_to") && delegation_on
    then delegate
    else if is_staging name && write_on
    then staging
    else tool

-- how a run answers its calls
pub record Desk : Type 0 where
  pub who : Identity
  pub delegation_on : Bool
  pub write_on : Bool
  pub timezone : Text
  pub delegating : Args → AgentDb → Observation × AgentDb

abbrev pub run_kind : Env → Desk → CallKind → Call → AgentDb → Observation × AgentDb
run_kind env desk delegate c db = desk.delegating c.arguments db
run_kind env desk staging c db =
    handle_staging env desk.timezone desk.who.agent_name c.name c.arguments db
run_kind env desk tool c db = dispatch_read_only env desk.who.agent_name c.name c.arguments db

-- `run_one`
abbrev pub run_one : Env → Desk → Call → AgentDb → Observation × AgentDb
run_one env desk c db =
    run_kind env desk (kind_of_call desk.delegation_on desk.write_on c.name) c db

-- `_execute_calls`
unfoldable pub execute_calls : Env → Desk → List Call → AgentDb → List Observation × AgentDb
execute_calls env desk [] db = ([], db)
execute_calls env desk (c ∷ cs) db =
    let first = run_one env desk c db in
    let rest = execute_calls env desk cs first.1 in (first.0 ∷ rest.0, rest.1)
