-- ===== src/Agent/Rounds.antt =====
-- apps/cora-api/app/agent_runtime.py: the rounds of `run_agent`. `budget` is the code's own bound on
-- them. The cut of a step's result at 500 code points is left out.
use cora_os.Prelude.{
  is_nil, ℕ, zero, suc, ◌+◌, String, Bool, true, false, Option, none, some, List, [], ◌∷◌, ◌++◌,
  length, if◌then◌else◌,
}
use cora_os.Prelude.Text.{Text, strip}
use cora_os.Agent.{
  Call, Observation, AgentStep, tool_call, tool_result, final, Message, assistant, observed, Reply,
  ChatOutcome, replied, http_error, crashed, Run, Env, AgentDb, model_called, requested, tick,
  is_staging, write_run,
}
use cora_os.Agent.Calls.{Desk, execute_calls}

-- the variables of the loop
pub record Thread : Type 0 where
  pub messages : List Message
  pub steps : List AgentStep
  pub tool_calls : ℕ
  pub step_count : ℕ

-- how the loop ends: with an answer, by its budget, with an httpx error, or with another exception
pub data LoopEnd : Type 0 where
  answered : Text → LoopEnd
  exhausted : LoopEnd
  http_failed crashed_with : String → LoopEnd

abbrev call_steps : List Call → List AgentStep
call_steps [] = []
call_steps (c ∷ cs) = tool_call c.name c.arguments ∷ call_steps cs

-- the results, in call order; a staging call's result carries its arguments
abbrev result_steps : List Call → List Observation → List AgentStep
result_steps [] os = []
result_steps (c ∷ cs) [] = []
result_steps (c ∷ cs) (o ∷ os) =
    tool_result c.name o (if is_staging c.name then some c.arguments else none) ∷ result_steps cs os

abbrev result_messages : List Observation → List Message
result_messages [] = []
result_messages (o ∷ os) = observed o ∷ result_messages os

-- the thread after the model's reply, and after the turn's calls
abbrev pub with_reply : Reply → Thread → Thread
with_reply r th = record th {
  messages = th.messages ++ assistant r.content r.calls ∷ [];
  steps = th.steps ++ call_steps r.calls;
  tool_calls = th.tool_calls + length r.calls;
}

abbrev pub with_results : List Call → List Observation → Thread → Thread
with_results calls os th = record th {
  messages = th.messages ++ result_messages os;
  steps = th.steps ++ result_steps calls os;
}

abbrev pub counted : Thread → Thread
counted th = record th { step_count = suc th.step_count }

-- `_update_run`
abbrev pub update_run : Option ℕ → Thread → AgentDb → AgentDb
update_run k th db =
    write_run k
      (λ (r : Run). record r {
        steps = th.steps;
        tool_calls = th.tool_calls;
        step_count = th.step_count;
      })
      db

abbrev pub answer_step : Text → Bool → Thread → Thread
answer_step answer forced th = record th { steps = th.steps ++ final answer forced ∷ [] }

-- one round after the model's outcome: an end, or what the next round starts from
pub data Round : Type 0 where
  ends : LoopEnd → Thread → AgentDb → Round
  goes_on : Thread → AgentDb → Round

abbrev pub round_of : Env → Desk → Option ℕ → ChatOutcome → Thread → AgentDb → Round
round_of env desk k (http_error e) th db = ends (http_failed e) th db
round_of env desk k (crashed e) th db = ends (crashed_with e) th db
round_of env desk k (replied r) th db =
    if is_nil r.calls
    then ends (answered (strip r.content)) (answer_step (strip r.content) false (with_reply r th))
        db
    else let done_calls = execute_calls env desk r.calls db in
      let th' = with_results r.calls done_calls.0 (with_reply r th) in
      goes_on th' (update_run k th' done_calls.1)

abbrev pub ask : Env → ℕ → Bool → List Message → AgentDb → ChatOutcome × AgentDb
ask env depth tools messages db =
    (env.chat (tick db) messages tools, requested (model_called depth) db)

-- one round
unfoldable pub round : Env → Desk → ℕ → Option ℕ → Thread → AgentDb → Round
round env desk depth k th db =
    let asked = ask env depth true th.messages db in
    round_of env desk k asked.0 (counted th) asked.1

abbrev pub go_on :
    Round → (Thread → AgentDb → (LoopEnd × Thread) × AgentDb) → (LoopEnd × Thread) × AgentDb
go_on (ends e th db) more = ((e, th), db)
go_on (goes_on th db) more = more th db

-- `for _ in range(budget)`
unfoldable pub rounds :
    Env → Desk → ℕ → Option ℕ → ℕ → Thread → AgentDb → (LoopEnd × Thread) × AgentDb
rounds env desk depth k zero th db = ((exhausted, th), db)
rounds env desk depth k (suc budget) th db =
    go_on (round env desk depth k th db) (λ th' db'. rounds env desk depth k budget th' db')
