-- ===== src/Delegations.antt =====
-- apps/cora-api/app/agents/delegations.py: the record of work that one agent hands to another.
-- Payloads are JSON objects that are only stored; a new row's id is an argument.
pub mod Bounds
pub mod Ended
pub mod Race
pub mod Rows
mod Tests
use cora_os.Prelude.{
  ℕ, suc, String, Bool, true, false, not, ◌&&◌, ◌||◌, Option, none, some, List, [], ◌∷◌, ◌++◌, ◌==◌,
  leb, or_else, take, drop, if◌then◌else◌,
}
use text.Mathlib.Text.{◌==◌ as str_eq}
use mathlib.Core.List.{reverse}
use cora_os.Prelude.Exec.{
  Exec, Outcome, ok, err, or_raise, raise_if, gets, modify, pure, ◌>>=◌, ◌>>◌,
}
use cora_os.Prelude.Table.{find, update}
use cora_os.Prelude.Text.{Text, codes, strip, lower, text_eq}
use cora_os.Governance.{RuntimeTrace}

-- `MAX_ACTIVE_DELEGATIONS_PER_SCOPE`
abbrev pub max_active : ℕ
max_active = 3

pub data DelegationStatus : Type 0 where
  pending running completed failed : DelegationStatus

-- `DelegationError`, by its code
pub data DelegationError : Type 0 where
  invalid self_delegation unavailable depth_exceeded : DelegationError

-- A row of agent_delegations.
pub record Delegation : Type 0 where
  pub id : ℕ
  pub workspace_id : Option ℕ
  pub session_id : Option ℕ
  pub execution_plan_id : Option ℕ
  pub from_agent : Text
  pub to_agent : Text
  pub delegation_reason : Option String
  pub status : DelegationStatus
  pub input_payload : Option String
  pub output_payload : Option String
  pub completed_at : Option ℕ

pub record DelegationDb : Type 0 where
  pub pool : Bool
  pub delegations : List Delegation
  pub traces : List RuntimeTrace

abbrev pub delegation_key : Delegation → ℕ
delegation_key d = d.id

abbrev pub is_empty : Text → Bool
is_empty [] = true
is_empty (_ ∷ _) = false

-- `status_value in {"pending", "running", "completed", "failed"}`
unfoldable pub parse_status : String → Option DelegationStatus
parse_status s =
    if str_eq s "pending"
    then some pending
    else if str_eq s "running"
    then some running
    else if str_eq s "completed"
    then some completed
    else if str_eq s "failed"
    then some failed
    else none

-- `initial_status not in {"pending", "running"}`
unfoldable pub parse_initial : String → Option DelegationStatus
parse_initial s =
    if str_eq s "pending" then some pending else if str_eq s "running" then some running else none

abbrev pub is_active : DelegationStatus → Bool
is_active pending = true
is_active running = true
is_active _ = false

-- `terminal`
abbrev pub is_ended : DelegationStatus → Bool
is_ended completed = true
is_ended failed = true
is_ended _ = false

abbrev pub same_id : ℕ → Option ℕ → Bool
same_id k none = false
same_id k (some j) = j == k

-- the scope of `_active_count`: the session when there is one, else the plan
abbrev pub in_scope : Option ℕ → Option ℕ → Delegation → Bool
in_scope (some s) _ d = same_id s d.session_id
in_scope none (some p) d = same_id p d.execution_plan_id
in_scope none none d = false

abbrev pub count_active : Option ℕ → Option ℕ → List Delegation → ℕ
count_active session plan [] = 0
count_active session plan (d ∷ ds) =
    if is_active d.status && in_scope session plan d
    then suc (count_active session plan ds)
    else count_active session plan ds

-- `_active_count`
unfoldable pub active_count : Option ℕ → Option ℕ → DelegationDb → ℕ
active_count session plan db = if db.pool then count_active session plan db.delegations else 0

-- the arguments of `create_delegation`
pub record NewDelegation : Type 0 where
  pub from_agent : Text
  pub to_agent : Text
  pub delegation_reason : Option String
  pub session_id : Option ℕ
  pub execution_plan_id : Option ℕ
  pub workspace_id : Option ℕ
  pub input_payload : Option String
  pub user_id : Option ℕ
  pub initial_status : String

abbrev pub row_of : ℕ → NewDelegation → DelegationStatus → Delegation
row_of k n status = record {
  id = k;
  workspace_id = n.workspace_id;
  session_id = n.session_id;
  execution_plan_id = n.execution_plan_id;
  from_agent = strip n.from_agent;
  to_agent = strip n.to_agent;
  delegation_reason = n.delegation_reason;
  status = status;
  input_payload = n.input_payload;
  output_payload = none;
  completed_at = none;
}

abbrev trace_of : Delegation → Option ℕ → String → String → Option String → RuntimeTrace
trace_of d user trace_type status error = record {
  session_id = d.session_id;
  user_id = user;
  workspace_id = d.workspace_id;
  trace_type = trace_type;
  status = status;
  selected_agent = some (codes "ATLAS");
  tool_name = codes "delegation";
  error_message = error;
}

-- `create_delegation` up to its count: the tests on the arguments, and the status of the row
unfoldable pub check_new : NewDelegation → Exec DelegationError DelegationDb DelegationStatus
check_new n = do
  raise_if (is_empty (strip n.from_agent) || is_empty (strip n.to_agent)) invalid
  raise_if (text_eq (lower (strip n.from_agent)) (lower (strip n.to_agent))) self_delegation
  status ← or_raise (parse_initial n.initial_status) invalid
  raise_if (not (← gets (λ db. db.pool))) unavailable
  active ← gets (active_count n.session_id n.execution_plan_id)
  raise_if (leb max_active active) depth_exceeded
  pure status

-- `create_delegation` from the INSERT on, which is made on a connection of its own
unfoldable pub insert_new :
    ℕ → NewDelegation → DelegationStatus → Exec DelegationError DelegationDb Delegation
insert_new k n status = do
  modify (λ db. record db { delegations = db.delegations ++ row_of k n status ∷ [] })
  modify (λ db. record db {
    traces =
        db.traces ++ trace_of (row_of k n status) n.user_id "delegation_created" "ok" none ∷ [];
  })
  pure (row_of k n status)

-- `create_delegation`, with nothing between the two
unfoldable pub create_delegation : ℕ → NewDelegation → Exec DelegationError DelegationDb Delegation
unfolding check_new insert_new
create_delegation k n = do status ← check_new n; insert_new k n status

abbrev pub with_status : DelegationStatus → Option String → ℕ → Delegation → Delegation
with_status status output now d = record d {
  status = status;
  output_payload = or_else output d.output_payload;
  completed_at = if is_ended status then some now else d.completed_at;
}

abbrev end_trace : DelegationStatus → Delegation → Option ℕ → Option String → List RuntimeTrace
end_trace completed d user error = trace_of d user "delegation_completed" "ok" error ∷ []
end_trace failed d user error = trace_of d user "delegation_failed" "error" error ∷ []
end_trace _ d user error = []

-- the UPDATE of `update_delegation_status`, and the trace that an end leaves
abbrev pub status_written :
    ℕ
    → DelegationStatus
    → Option String
    → Option ℕ
    → Option String
    → ℕ
    → Exec DelegationError DelegationDb (Option Delegation)
status_written k status output user error now db = elim (find delegation_key k db.delegations) [
  | none ↦ (ok none, db)
  | some d ↦ (
    ok (some (with_status status output now d)),
    record db {
      delegations = update delegation_key k (with_status status output now) db.delegations;
      traces = db.traces ++ end_trace status (with_status status output now d) user error;
    },
  )
]

-- `update_delegation_status`
unfoldable pub update_delegation_status :
    ℕ
    → String
    → Option String
    → Option ℕ
    → Option String
    → ℕ
    → Exec DelegationError DelegationDb (Option Delegation)
update_delegation_status k status_value output user error now = do
  status ← or_raise (parse_status status_value) invalid
  up ← gets (λ db. db.pool)
  if up then status_written k status output user error now else pure none

-- `complete_delegation`
unfoldable pub complete_delegation :
    ℕ → Option String → Option ℕ → ℕ → Exec DelegationError DelegationDb (Option Delegation)
complete_delegation k output user now = update_delegation_status k "completed" output user none now

-- `fail_delegation`; `as_json message` is the object {"error": message}.
unfoldable pub fail_delegation :
    (String → String)
    → ℕ
    → String
    → Option ℕ
    → ℕ
    → Exec DelegationError DelegationDb (Option Delegation)
fail_delegation as_json k message user now =
    update_delegation_status k "failed" (some (as_json message)) user (some message) now

abbrev matches : Option ℕ → Option ℕ → Bool
matches none _ = true
matches (some k) field = same_id k field

abbrev same_status : DelegationStatus → DelegationStatus → Bool
same_status pending pending = true
same_status running running = true
same_status completed completed = true
same_status failed failed = true
same_status _ _ = false

-- the WHERE clause of `list_delegations`; an empty status does not restrict
abbrev pub is_listed : Option ℕ → Option ℕ → Option ℕ → String → Delegation → Bool
is_listed session plan workspace status d =
    matches session d.session_id
    && matches plan d.execution_plan_id
    && matches workspace d.workspace_id
    && (str_eq status ""
        || elim (parse_status status) [ none ↦ false | some s ↦ same_status s d.status ])

abbrev pub filter : (Delegation → Bool) → List Delegation → List Delegation
filter p [] = []
filter p (d ∷ ds) = if p d then d ∷ filter p ds else filter p ds

-- `list_delegations`: newest first, LIMIT and OFFSET
unfoldable pub list_delegations :
    ℕ → ℕ → Option ℕ → Option ℕ → Option ℕ → String → DelegationDb → List Delegation
list_delegations limit offset session plan workspace status db =
    if db.pool
    then take limit
        (drop offset (reverse (filter (is_listed session plan workspace status) db.delegations)))
    else []

-- `get_delegation`
unfoldable pub get_delegation : ℕ → DelegationDb → Option Delegation
get_delegation k db = if db.pool then find delegation_key k db.delegations else none
