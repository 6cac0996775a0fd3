-- ===== src/Agent/Ends.antt =====
-- apps/cora-api/app/agent_runtime.py: how a run of `run_agent` ends: the final pass, the evaluation,
-- the pause for what was staged, and the row.
use cora_os.Prelude.{
  is_nil, ℕ, String, Bool, true, false, not, ◌&&◌, Option, none, some, List, [], ◌∷◌, ◌++◌, ◌==◌,
  if◌then◌else◌,
}
use cora_os.Prelude.Exec.{Outcome, ok, err}
use cora_os.Prelude.Text.{Text, codes, strip}
use cora_os.Agent.{
  AgentDb, ChatOutcome, Env, Interrupt, Message, Run, RunStatus, Settings, StagedItem, Stopped,
  Verdict, crashed, done, error_step, failed, http_error, model_called, replied, requested, tick,
  user_says, waiting_user, write_run,
}
use cora_os.Agent.Rounds.{
  LoopEnd, Thread, answer_step, answered, ask, crashed_with, exhausted, http_failed,
}
use cora_os.Agent.Staging.{collect_staged}

-- how a run ends: with a result, or with an exception that leaves it
pub record Finished : Type 0 where
  pub answer : Text
  pub stopped : Stopped
  pub thread : Thread
  pub error : Option String

abbrev pub forced_answer : Text → Text
forced_answer t =
    if is_nil t
    then codes "I reached the step limit before finishing — try narrowing the request."
    else t

abbrev call_failed : String → Thread → Finished
call_failed e th = record {
  answer = codes "The model call failed; please retry.";
  stopped = Stopped.error;
  thread = record th { steps = th.steps ++ error_step e ∷ [] };
  error = some e;
}

-- the final pass with no tools, when the budget is used up
abbrev forced : ChatOutcome → Thread → Outcome String Finished
forced (replied r) th = ok record {
  answer = forced_answer (strip r.content);
  stopped = Stopped.budget;
  thread = answer_step (strip r.content) true th;
  error = none;
}
forced (http_error e) th = ok (call_failed e th)
forced (crashed e) th = err e

abbrev final_request : List Message → List Message
final_request ms =
    ms
    ++ user_says
        (codes "Give your best final answer now from what you've gathered. Do not call any tools.")
      ∷ []

abbrev pub ended_loop : Env → ℕ → (LoopEnd × Thread) × AgentDb → Outcome String Finished × AgentDb
ended_loop env depth ((answered t, th), db) =
    (ok record { answer = t; stopped = Stopped.final; thread = th; error = none }, db)
ended_loop env depth ((http_failed e, th), db) = (ok (call_failed e th), db)
ended_loop env depth ((crashed_with e, th), db) = (err e, db)
ended_loop env depth ((exhausted, th), db) =
    let asked = ask env depth false (final_request th.messages) db in (forced asked.0 th, asked.1)

-- `AgentResult`
pub record AgentResult : Type 0 where
  pub answer : Text
  pub stopped : Stopped
  pub tool_calls : ℕ
  pub run_id : Option ℕ
  pub evaluation : Option Verdict
  pub status : RunStatus
  pub interrupt : Option Interrupt

abbrev pub is_error : Stopped → Bool
is_error Stopped.error = true
is_error _ = false

-- the artifacts that wait for approval, if the run pauses for them
unfoldable pub pending_items : Env → Settings → ℕ → Finished → List StagedItem
pending_items env set depth f =
    if depth == 0
      && not (is_error f.stopped)
      && set.runtime_enabled
      && set.write_enabled
      && set.interrupt_enabled
    then collect_staged env.plus_one_hour set.timezone f.thread.steps
    else []

abbrev interrupt_of : List StagedItem → Interrupt
interrupt_of items = record { items = items; decision = none; overridden = false; executed = [] }

abbrev run_status : Finished → List StagedItem → RunStatus
run_status f [] = if is_error f.stopped then failed else done
run_status f (_ ∷ _) = waiting_user

-- `_finalize_run`, or `_pause_run` when something waits
abbrev pub written_row : Env → Finished → Option Verdict → List StagedItem → ℕ → Run → Run
written_row env f evaluation [] now r = record r {
  status = run_status f [];
  answer = some f.answer;
  stopped = some f.stopped;
  tool_calls = f.thread.tool_calls;
  step_count = f.thread.step_count;
  steps = f.thread.steps;
  error_message = f.error;
  evaluation = evaluation;
  completed_at = some now;
}
written_row env f evaluation (i ∷ items) now r = record r {
  status = waiting_user;
  answer = some f.answer;
  stopped = some f.stopped;
  tool_calls = f.thread.tool_calls;
  step_count = f.thread.step_count;
  steps = f.thread.steps;
  evaluation = evaluation;
  interrupt = some (interrupt_of (i ∷ items));
}

-- whether `evaluate_run` calls the model: in a configured run the judge's model is set, since it falls
-- back to the agent's
abbrev pub is_judged : Settings → ℕ → Finished → Bool
is_judged set depth f = depth == 0 && not (is_error f.stopped) && set.eval_enabled

-- `evaluate_run`: its verdict, and its request to the model
abbrev pub evaluation_of : Env → Settings → ℕ → Text → Finished → AgentDb → Option Verdict × AgentDb
evaluation_of env set depth goal f db =
    if is_judged set depth f
    then (
      env.evaluate_run (tick db) goal f.answer f.thread.steps,
      requested (model_called depth) db,
    )
    else (none, db)

-- the result of a run that ends
abbrev pub result_of : Option ℕ → Option Verdict → List StagedItem → Finished → AgentResult
result_of k evaluation items f = record {
  answer = if is_nil f.answer then codes "(no answer)" else f.answer;
  stopped = f.stopped;
  tool_calls = f.thread.tool_calls;
  run_id = k;
  evaluation = evaluation;
  status = run_status f items;
  interrupt = if is_nil items then none else some (interrupt_of items);
}

-- what follows the loop
abbrev pub concluded :
    Env
    → Settings
    → ℕ
    → Option ℕ
    → Text
    → Outcome String Finished × AgentDb
    → Outcome String AgentResult × AgentDb
concluded env set depth k goal (err e, db) = (err e, db)
concluded env set depth k goal (ok f, db) =
    let items = pending_items env set depth f in
    let judged = evaluation_of env set depth goal f db in
    (
      ok (result_of k judged.0 items f),
      write_run k (written_row env f judged.0 items (env.now (tick judged.1))) judged.1,
    )
