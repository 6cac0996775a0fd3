-- ===== src/Agent/Tests.antt =====
-- Runs of the agent runtime at fixed inputs, and an instance of each result.
use cora_os.Prelude.{◌+◌, ◌≤◌, ◌≡◌, refl, arith, true, false, none, some, [], ◌∷◌, ◌++◌, map}
use cora_os.Prelude.Text.{codes}
use cora_os.Agent.{AgentDb, model_called, created, fired, running}
use cora_os.Agent.Loop.{run_agent, budget_of}
use cora_os.Agent.Safe.{Obeys, run_agent-Obeys}
use cora_os.Agent.Budget.{judge_calls, model_calls, run_agent_bound}
use cora_os.Agent.Closed.{IsClosed, run_agent-IsClosed}
use cora_os.Agent.Row.{Leaves, status_at, run_agent-Leaves}
use cora_os.Agent.Words.{approve, reject, classify_confirmation}
use cora_os.Agent.Confirm.{resolve_interrupt, blocked, get_run}
use cora_os.Agent.Resolved.{due, resolve_interrupt_fires, resolve_interrupt_once}
use cora_os.Agent.Sample.{
  env, crashing, settings, request, db, pending_row, waiting_db, event_item, sampled,
}

test_effects :
    (run_agent env settings request db).1.effects
    ≡ model_called 0
      ∷ model_called 1
      ∷ created none (codes "chronos_create_schedule_proposal") 3600
      ∷ model_called 0
      ∷ model_called 0
      ∷ []
unfolding sampled
test_effects = refl

test_crash :
    status_at 1 (run_agent crashing settings (record request { run_id = some 1 }) db).1
    ≡ some running
unfolding sampled
test_crash = refl

test_yes : classify_confirmation (codes " Okay, go") ≡ some approve
unfolding sampled
test_yes = refl

test_no : classify_confirmation (codes "No, don't.") ≡ some reject
unfolding sampled
test_no = refl

test_never : classify_confirmation (codes "never  mind") ≡ some reject
unfolding sampled
test_never = refl

test_anyway : classify_confirmation (codes "no, do it anyway") ≡ some approve
unfolding sampled
test_anyway = refl

test_unclear : classify_confirmation (codes "nothing") ≡ none
unfolding sampled
test_unclear = refl

test_blocked :
    (resolve_interrupt env settings 1 (some 3) (codes "approve") false waiting_db).0 ≡ some blocked
unfolding sampled
test_blocked = refl

test_fired :
    (resolve_interrupt env settings 1 (some 3) (codes " Approve") true waiting_db).1.effects
    ≡ fired event_item ∷ []
unfolding sampled
test_fired = refl

run_agent-Obeys_example : Obeys db (run_agent env settings request db).1
run_agent-Obeys_example = run_agent-Obeys env settings request db

run_agent_bound_example :
    model_calls 0 (run_agent env settings request db).1.effects
    ≤ model_calls 0 db.effects + budget_of settings request + 1 + judge_calls settings
run_agent_bound_example = run_agent_bound env settings request db

run_agent-IsClosed_example : IsClosed db (run_agent env settings request db).1
run_agent-IsClosed_example = run_agent-IsClosed env settings request db tt

run_agent-Leaves_example : Leaves 1 (run_agent env settings (record request { run_id = some 1 }) db)
run_agent-Leaves_example =
    run_agent-Leaves env settings request 1 pending_row db refl refl (omega arith) refl

resolve_interrupt_fires_example :
    (resolve_interrupt env settings 1 (some 3) (codes "approve") true waiting_db).1.effects
    ≡ waiting_db.effects ++ map fired (due settings 1 (some 3) (codes "approve") true waiting_db)
resolve_interrupt_fires_example =
    resolve_interrupt_fires env settings 1 (some 3) (codes "approve") true waiting_db

abbrev approved_db : AgentDb
approved_db = (resolve_interrupt env settings 1 (some 3) (codes "approve") true waiting_db).1

resolve_interrupt_once_example :
    resolve_interrupt crashing settings 1 none (codes "reject") false approved_db
    ≡ (none, approved_db)
unfolding sampled
resolve_interrupt_once_example =
    resolve_interrupt_once env settings 1 (some 3) (codes "approve") true waiting_db
      (get_run 1 (some 3) approved_db) crashing settings none (codes "reject") false refl
