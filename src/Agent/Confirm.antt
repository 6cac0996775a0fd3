-- ===== src/Agent/Confirm.antt =====
-- apps/cora-api/app/agent_runtime.py: the approval of a run that waits (`resolve_interrupt`,
-- `_fire_staged`, `_record_executed`), spoken or not (`resolve_pending_for_session`), and the reads of
-- a run. A decision's note is left out. The rows of `runs` stand in the order of their creation.
use cora_os.Prelude.{
  ℕ, suc, Bool, true, false, not, ◌&&◌, ◌||◌, Option, none, some, List, [], ◌∷◌, ◌++◌, ◌==◌,
  or_else, if◌then◌else◌,
}
use cora_os.Prelude.Table.{find, update}
use cora_os.Prelude.Text.{Text}
use cora_os.Agent.{
  Verdict, fail, StagedKind, calendar_create, calendar_update, calendar_delete, StagedItem,
  Executed, Interrupt, RunStatus, is_waiting, pending, done, cancelled, Run, run_key, Settings, Env,
  AgentDb, fired, tick, requested, write_run,
}
use cora_os.Agent.Words.{
  ConfirmDecision, approve, reject, has_override, classify_confirmation, parse_decision, word_of,
}

abbrev pub is_calendar : StagedKind → Bool
is_calendar (calendar_create _ _) = true
is_calendar (calendar_update _ _ _) = true
is_calendar (calendar_delete _ _) = true
is_calendar _ = false

abbrev pub outcome : StagedItem → Bool → Executed
outcome i ok = record { tool = i.tool; succeeded = ok }

-- `_fire_staged`
unfoldable pub fire_staged : Env → List StagedItem → AgentDb → List Executed × AgentDb
fire_staged env [] db = ([], db)
fire_staged env (i ∷ is) db =
    if is_calendar i.kind
    then (let rest = fire_staged env is (requested (fired i) db) in
        (outcome i (env.fire (tick db) i) ∷ rest.0, rest.1))
    else (let rest = fire_staged env is db in (outcome i false ∷ rest.0, rest.1))

-- `user_id = $2 OR user_id IS NULL`
abbrev pub is_owned : Option ℕ → Option ℕ → Bool
is_owned user none = true
is_owned none (some v) = false
is_owned (some u) (some v) = u == v

abbrev owned_row : Option ℕ → Option Run → Option Run
owned_row user none = none
owned_row user (some r) = if is_owned user r.user_id then some r else none

abbrev pub waiting_row : Option ℕ → Option Run → Option Run
waiting_row user none = none
waiting_row user (some r) = if is_owned user r.user_id && is_waiting r.status then some r else none

-- the SELECT of `resolve_interrupt`
unfoldable pub find_waiting : ℕ → Option ℕ → AgentDb → Option Run
find_waiting k user db = waiting_row user (find run_key k db.runs)

-- `get_run`
unfoldable pub get_run : ℕ → Option ℕ → AgentDb → Option Run
get_run k user db = if db.gov.pool then owned_row user (find run_key k db.runs) else none

abbrev is_fail : Option Verdict → Bool
is_fail (some fail) = true
is_fail _ = false

abbrev pub approves : ConfirmDecision → Bool
approves approve = true
approves reject = false

-- the evaluator's gate
unfoldable pub is_blocked : Settings → ConfirmDecision → Bool → Run → Bool
is_blocked set decision override r =
    approves decision && set.eval_gate_enabled && is_fail r.evaluation && not override

abbrev pub payload_of : Option Interrupt → Interrupt
payload_of none = record { items = []; decision = none; overridden = false; executed = [] }
payload_of (some i) = i

abbrev pub decided : ConfirmDecision → Bool → Run → Interrupt
decided decision override r =
    let i = payload_of r.interrupt in
    record i {
      decision = some (approves decision);
      overridden = (override && approves decision) || i.overridden;
    }

abbrev pub decided_status : ConfirmDecision → RunStatus
decided_status approve = done
decided_status reject = cancelled

-- the UPDATE of the decision
abbrev pub decide_row : ConfirmDecision → Interrupt → ℕ → Run → Run
decide_row decision i now r = record r {
  status = decided_status decision;
  interrupt = some i;
  completed_at = some now;
}

-- `_record_executed`
abbrev pub record_executed : ℕ → Interrupt → List Executed → AgentDb → AgentDb
record_executed k i [] db = db
record_executed k i (e ∷ es) db =
    write_run (some k) (λ (r : Run). record r { interrupt = some (record i { executed = e ∷ es }) })
      db

-- what follows the commit of the decision
unfoldable pub carried_out : Env → Settings → ConfirmDecision → ℕ → Interrupt → AgentDb → AgentDb
carried_out env set decision k i db =
    if approves decision && set.interrupt_enabled && set.execution_enabled
    then (let shot = fire_staged env i.items db in record_executed k i shot.0 shot.1)
    else db

-- what `resolve_interrupt` returns for a run that it finds
pub data Resolution : Type 0 where
  blocked : Resolution
  resolved : Option Run → Resolution

abbrev pub resolve_row :
    Env
    → Settings
    → ℕ
    → Option ℕ
    → ConfirmDecision
    → Interrupt
    → AgentDb
    → Option Resolution × AgentDb
resolve_row env set k user decision i db =
    let after =
      carried_out env set decision k i (record db {
        runs = update run_key k (decide_row decision i (env.now (tick db))) db.runs;
      }) in
    (some (resolved (get_run k user after)), after)

abbrev pub on_waiting :
    Env
    → Settings
    → ℕ
    → Option ℕ
    → ConfirmDecision
    → Bool
    → AgentDb
    → Option Run
    → Option Resolution × AgentDb
on_waiting env set k user decision override db none = (none, db)
on_waiting env set k user decision override db (some r) =
    if is_blocked set decision override r
    then (some blocked, db)
    else resolve_row env set k user decision (decided decision override r) db

abbrev pub on_decision :
    Env
    → Settings
    → ℕ
    → Option ℕ
    → Bool
    → AgentDb
    → Option ConfirmDecision
    → Option Resolution × AgentDb
on_decision env set k user override db none = (none, db)
on_decision env set k user override db (some decision) =
    on_waiting env set k user decision override db (find_waiting k user db)

-- `resolve_interrupt`
unfoldable pub resolve_interrupt :
    Env → Settings → ℕ → Option ℕ → Text → Bool → AgentDb → Option Resolution × AgentDb
resolve_interrupt env set k user decision override db =
    if db.gov.pool
    then on_decision env set k user override db (parse_decision decision)
    else (none, db)

abbrev same_session : ℕ → Option ℕ → Bool
same_session s none = false
same_session s (some t) = t == s

abbrev is_pending_for : ℕ → Option ℕ → Run → Bool
is_pending_for s user r =
    same_session s r.session_id && is_owned user r.user_id && is_waiting r.status

-- the last row in the order of creation
abbrev pub newest : ℕ → Option ℕ → List Run → Option Run
newest s user [] = none
newest s user (r ∷ rs) =
    or_else (newest s user rs) (if is_pending_for s user r then some r else none)

-- `find_waiting_run_for_session`
unfoldable pub find_waiting_run_for_session : Option ℕ → Option ℕ → AgentDb → Option Run
find_waiting_run_for_session none user db = none
find_waiting_run_for_session (some s) user db = if db.gov.pool then newest s user db.runs else none

-- What `resolve_pending_for_session` returns, without the line to read back.
pub data Spoken : Type 0 where
  nothing_pending no_longer_waiting unclear held : Spoken
  settled_as : ConfirmDecision → Option Run → Spoken

abbrev spoken_of : ConfirmDecision → Option Resolution → Spoken
spoken_of decision none = no_longer_waiting
spoken_of decision (some blocked) = held
spoken_of decision (some (resolved r)) = settled_as decision r

abbrev pub answer_to :
    Env → Settings → Option ℕ → Bool → AgentDb → Run → Option ConfirmDecision → Spoken × AgentDb
answer_to env set user override db r none = (unclear, db)
answer_to env set user override db r (some decision) =
    let res = resolve_interrupt env set r.id user (word_of decision) override db in
    (spoken_of decision res.0, res.1)

abbrev pub on_pending :
    Env → Settings → Option ℕ → Text → Bool → AgentDb → Option Run → Spoken × AgentDb
on_pending env set user text override db none = (nothing_pending, db)
on_pending env set user text override db (some r) =
    answer_to env set user (override || has_override text) db r (classify_confirmation text)

-- `resolve_pending_for_session`
unfoldable pub resolve_pending_for_session :
    Env → Settings → Option ℕ → Option ℕ → Text → Bool → AgentDb → Spoken × AgentDb
resolve_pending_for_session env set session user text override db =
    on_pending env set user text override db (find_waiting_run_for_session session user db)

-- `create_pending_run`
unfoldable pub create_pending_run :
    Settings
    → Text
    → Option ℕ
    → Option ℕ
    → Option ℕ
    → Option Text
    → Option ℕ
    → AgentDb
    → Option ℕ × AgentDb
create_pending_run set goal user session workspace agent max_steps db =
    if db.gov.pool
    then (
      some db.fresh,
      record db {
        fresh = suc db.fresh;
        runs =
            db.runs
            ++ record {
              id = db.fresh;
              session_id = session;
              user_id = user;
              workspace_id = workspace;
              agent_name = agent;
              status = pending;
              goal = goal;
              max_steps = elim max_steps [
                | none ↦ set.max_steps
                | some n ↦ if n == 0 then set.max_steps else n
              ];
              answer = none;
              stopped = none;
              tool_calls = 0;
              step_count = 0;
              steps = [];
              error_message = none;
              evaluation = none;
              interrupt = none;
              completed_at = none;
            }
              ∷ [];
      },
    )
    else (none, db)
