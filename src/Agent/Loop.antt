-- ===== src/Agent/Loop.antt =====
-- apps/cora-api/app/agent_runtime.py: the read, act and observe loop (`run_agent`). `budget` is the
-- code's own bound on the rounds. The spoke of a delegation is a run of the same loop, one hop down,
-- in which delegation is off.
use cora_os.Prelude.{
  is_nil, ℕ, zero, suc, String, Bool, false, not, ◌&&◌, Option, none, some, List, [], ◌∷◌, ◌++◌,
  ◌==◌, if◌then◌else◌,
}
use cora_os.Prelude.Exec.{Outcome, ok, err}
use cora_os.Prelude.Text.{Text, codes}
use cora_os.Agent.{
  AgentDb, Args, Env, Observation, Run, Settings, Spoke, Stopped, depth_limit, done, failed,
  running, system, tick, user_says, write_run,
}
use cora_os.Agent.Rounds.{Thread, rounds}
use cora_os.Agent.Ends.{AgentResult, Finished, concluded, ended_loop}
use cora_os.Agent.Calls.{Desk, Identity, SpokeRun, handle_delegation}

-- the arguments of `run_agent`
pub record AgentRequest : Type 0 where
  pub message : Text
  pub who : Identity
  pub is_orchestrator : Bool
  pub system_prompt : Text
  pub max_steps : Option ℕ
  pub run_id : Option ℕ

-- `_mark_running` of a row that is there, or `_create_run`
abbrev pub opened_row : AgentRequest → ℕ → AgentDb → Option ℕ → Option ℕ × AgentDb
opened_row q steps db (some k) =
    (some k, write_run (some k) (λ (r : Run). record r { status = running }) db)
opened_row q steps db none =
    if db.gov.pool
    then (
      some db.fresh,
      record db {
        fresh = suc db.fresh;
        runs =
            db.runs
            ++ record {
              id = db.fresh;
              session_id = q.who.session_id;
              user_id = q.who.user_id;
              workspace_id = q.who.workspace_id;
              agent_name = q.who.agent_name;
              status = running;
              goal = q.message;
              max_steps = steps;
              answer = none;
              stopped = none;
              tool_calls = 0;
              step_count = 0;
              steps = [];
              error_message = none;
              evaluation = none;
              interrupt = none;
              completed_at = none;
            }
              ∷ [];
      },
    )
    else (none, db)

unfoldable pub start_run : AgentRequest → ℕ → AgentDb → Option ℕ × AgentDb
start_run q steps db = opened_row q steps db q.run_id

abbrev pub not_configured : Option ℕ → AgentResult
not_configured k = record {
  answer = codes "Agent runtime is not configured (DGX endpoint/model unset).";
  stopped = Stopped.error;
  tool_calls = 0;
  run_id = k;
  evaluation = none;
  status = done;
  interrupt = none;
}

abbrev pub unconfigured_row : ℕ → Run → Run
unconfigured_row now r = record r {
  status = failed;
  answer = some [];
  stopped = some Stopped.error;
  tool_calls = 0;
  step_count = 0;
  steps = [];
  error_message = some "DGX endpoint/model unset";
  evaluation = none;
  completed_at = some now;
}

-- `max_steps or settings.agent_runtime_max_steps`
abbrev pub budget_of : Settings → AgentRequest → ℕ
budget_of set q = elim (q.max_steps) [
  | none ↦ set.max_steps
  | some zero ↦ set.max_steps
  | some (suc n) ↦ suc n
]

abbrev pub is_delegating : Settings → ℕ → AgentRequest → Bool
is_delegating set depth q =
    q.is_orchestrator
    && set.runtime_enabled
    && set.delegation_enabled
    && depth == 0
    && not (is_nil set.spokes)

-- the line of each specialist, joined by newlines
abbrev roster : List Spoke → Text
roster [] = []
roster (s ∷ []) = codes "- " ++ s.name ++ codes ": " ++ s.description
roster (s ∷ r ∷ rs) = codes "- " ++ s.name ++ codes ": " ++ s.description ++ 10 ∷ roster (r ∷ rs)

abbrev roster_text : Text
roster_text =
    10
      ∷ 10
      ∷ codes
          "You can delegate a self-contained subtask to a specialist via the delegate_to tool, then synthesize its result into your final answer. Delegate only when the task is squarely in a specialist's domain, and give it just the facts it needs. Specialists:"
    ++ 10 ∷ []

abbrev effective_prompt : Settings → ℕ → AgentRequest → Text
effective_prompt set depth q =
    if is_delegating set depth q
    then q.system_prompt ++ roster_text ++ roster set.spokes
    else q.system_prompt

abbrev pub opening : Settings → ℕ → AgentRequest → Thread
opening set depth q = record {
  messages = system (effective_prompt set depth q) ∷ user_says q.message ∷ [];
  steps = [];
  tool_calls = 0;
  step_count = 0;
}

abbrev pub desk_of : Settings → ℕ → (Args → AgentDb → Observation × AgentDb) → AgentRequest → Desk
desk_of set depth delegating q = record {
  who = q.who;
  delegation_on = is_delegating set depth q;
  write_on = set.runtime_enabled && set.write_enabled;
  timezone = set.timezone;
  delegating = delegating;
}

-- the loop of a run whose row is `k`, with `delegating` to answer the calls of `delegate_to`
unfoldable pub looped :
    Env
    → Settings
    → ℕ
    → (Option ℕ → Args → AgentDb → Observation × AgentDb)
    → AgentRequest
    → Option ℕ
    → AgentDb
    → Outcome String Finished × AgentDb
looped env set depth delegating q k db = ended_loop env depth (
    rounds env
      record {
        who = q.who;
        delegation_on = is_delegating set depth q;
        write_on = set.runtime_enabled && set.write_enabled;
        timezone = set.timezone;
        delegating = delegating k;
      }
      depth k (budget_of set q) (opening set depth q) db)

unfoldable pub run_with :
    Env
    → Settings
    → ℕ
    → (Option ℕ → Args → AgentDb → Observation × AgentDb)
    → AgentRequest
    → AgentDb
    → Outcome String AgentResult × AgentDb
run_with env set depth delegating q db =
    if not set.configured
    then (
      ok (not_configured q.run_id),
      write_run q.run_id (unconfigured_row (env.now (tick db))) db,
    )
    else let opened = start_run q (budget_of set q) db in
      concluded env set depth opened.0 q.message
        (looped env set depth delegating q opened.0 opened.1)

abbrev pub no_hop : Option ℕ → Args → AgentDb → Observation × AgentDb
no_hop k args db = (Observation.failed depth_limit, db)

-- `spoke["system_prompt"] or AGENT_SYSTEM_PROMPT`
abbrev prompt_of : Settings → Option Text → Text
prompt_of set none = set.agent_system_prompt
prompt_of set (some p) = if is_nil p then set.agent_system_prompt else p

abbrev pub spoke_request : Env → Settings → AgentRequest → Spoke → Args → AgentRequest
spoke_request env set q spoke args = record {
  message = env.render_task args;
  who = record (q.who) { agent_name = some spoke.name };
  is_orchestrator = false;
  system_prompt = prompt_of set spoke.system_prompt;
  max_steps = none;
  run_id = none;
}

-- the answer that a delegation reads off the spoke's result
abbrev pub answer_of : Outcome String AgentResult × AgentDb → Outcome String Text × AgentDb
answer_of (ok r, db) = (ok r.answer, db)
answer_of (err e, db) = (err e, db)

-- `run_agent` one hop down
unfoldable pub run_spoke : Env → Settings → AgentRequest → SpokeRun
run_spoke env set q spoke args db =
    answer_of (run_with env set 1 no_hop (spoke_request env set q spoke args) db)

-- `run_agent`
unfoldable pub run_agent :
    Env → Settings → AgentRequest → AgentDb → Outcome String AgentResult × AgentDb
run_agent env set q db =
    run_with env set 0
      (λ k args db'. handle_delegation env q.who k set.spokes 0 (run_spoke env set q) args db') q db
