-- ===== src/Jobs/Worker/Tests.antt =====
-- A worker with two slots and three jobs, and the theorems there.
use mathlib.Core.Option
use cora_os.Prelude.{
  ℕ, zero, suc, ◌+◌, ◌≤◌, ◌≡◌, ◌⊎◌, refl, true, false, none, some, [], ◌∷◌, arith,
}
use cora_os.Prelude.Table.{find}
use cora_os.Jobs.{
  JobStatus, queued, completed, failed, Job, Claimed, job_key, claim_job, create_job, cancel_job,
  mark_completed, mark_failed, first_claimable, as_running, returned, get_job,
}
use cora_os.Jobs.Worker.{
  Handled, Store, World, crashed, transient, run_claimed, fill_slots, in_flight, heartbeat,
  write_trace, handles,
}
use cora_os.Jobs.Worker.Run.{ending}
use cora_os.Jobs.Worker.Pool.{
  IsSound, fill, finish, die, Reach, here, next, finished, Reach-IsSound, task_key,
}
use cora_os.Jobs.Worker.Limits.{fill_slots_full, Reach-bound}
use cora_os.Jobs.Worker.Fate.{IsLeft, IsLeft-stays, ended_stays}
use cora_os.Jobs.Worker.Retry.{HasRow, is_retriable, retries_end, tries, try_once}

runs : Unit {0}
unfolding fill_slots run_claimed claim_job create_job cancel_job mark_completed mark_failed
    heartbeat write_trace handles ending try_once tries get_job
runs = tt

abbrev job : ℕ → JobStatus → Job
job k s = record {
  id = k;
  user_id = none;
  session_id = none;
  plan_id = none;
  step_id = none;
  workspace_id = some 4;
  job_type = "agent_run";
  status = s;
  payload = none;
  result = none;
  error_message = none;
  attempts = 0;
  max_attempts = 2;
  started_at = none;
  completed_at = none;
}

abbrev over : Job
over = record (job 3 completed) { completed_at = some 5; started_at = some 4; attempts = 1 }

abbrev start : World
start = record {
  store = record {
    db = record { pool = true; jobs = over ∷ job 1 queued ∷ job 2 queued ∷ job 5 queued ∷ [] };
    traces = [];
    beat = none;
  };
  active = [];
  done = 0;
  shutdown = false;
}

start-IsSound : IsSound start
start-IsSound = ground arith

abbrev filled : World
filled = (fill_slots 2 2 (λ n. 10 + n) start).0

abbrev task : Claimed
task = returned (as_running 11 (job 1 queued))

abbrev retried : World
retried = finished task (transient "timeout") 20 filled

filled_two : (fill_slots 2 2 (λ n. 10 + n) start).1 ≡ 2
unfolding runs
filled_two = refl

retried_row :
    find job_key 1 retried.jobs
    ≡ some (record (job 1 queued) { attempts = 1; error_message = some "timeout" })
unfolding runs
retried_row = refl

mine : find task_key 1 filled.active ≡ some task
unfolding runs
mine = refl

run : Reach 2 start retried
run = next (next here (fill 2 (λ n. 10 + n))) (finish task (transient "timeout") 20 mine)

Reach-IsSound_example : IsSound retried
Reach-IsSound_example = Reach-IsSound run start-IsSound

Reach-bound_example : in_flight retried ≤ 2
Reach-bound_example = Reach-bound run (omega arith)

fill_slots_full_example :
    (filled.shutdown ≡ true)
    ⊎ ((2 ≤ in_flight filled) ⊎ ((filled.pool ≡ false) ⊎ (first_claimable filled.jobs ≡ none)))
fill_slots_full_example = fill_slots_full 2 2 (λ n. 10 + n) start (omega arith)

abbrev running_1 : Job
running_1 = as_running 11 (job 1 queued)

-- the process dies with job 1 running
abbrev dead : World
dead = record filled { active = []; done = 0 }

dead-IsSound : IsSound dead
dead-IsSound = Reach-IsSound (next (next here (fill 2 (λ n. 10 + n))) die) start-IsSound

IsLeft-stays_example : IsLeft 1 running_1 (fill_slots 5 2 (λ n. 30 + n) dead).0
unfolding runs
IsLeft-stays_example =
    IsLeft-stays 1 running_1 {max = 2} {u = dead} (next here (fill 5 (λ n. 30 + n))) dead-IsSound
      (record { there = refl; not_queued = refl; no_task = refl })

ended_stays_example : find job_key 3 retried.jobs ≡ some over
ended_stays_example = ended_stays 3 over run start-IsSound refl refl

abbrev lone : Store
lone = record {
  db = record { pool = true; jobs = over ∷ job 1 queued ∷ job 2 queued ∷ [] };
  traces = [];
  beat = none;
}

-- the first try is transient, the later ones end with another exception
abbrev failures : ℕ → Handled
failures zero = transient "timeout"
failures (suc n) = crashed "KeyError"

tried_twice :
    Option.map
      (λ (j : Job). j.error_message)
      (find job_key 1 (tries 2 failures (λ n. 20 + n) lone).jobs)
    ≡ some (some "KeyError")
unfolding runs
tried_twice = refl

failures_again : (i : ℕ) → is_retriable (failures i) ≡ true
failures_again zero = refl
failures_again (suc i) = refl

retries_end_example :
    HasRow 1 queued 1 (tries 1 failures (λ n. 20 + n) lone)
    × HasRow 1 failed 2 (tries 2 failures (λ n. 20 + n) lone)
unfolding runs
retries_end_example =
    retries_end 1 1 failures (λ n. 20 + n) lone (job 1 queued) refl (ground arith) refl refl
      failures_again refl (omega arith)
