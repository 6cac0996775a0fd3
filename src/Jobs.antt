-- ===== src/Jobs.antt =====
-- apps/cora-api/app/jobs.py, and the job table's side of apps/cora-api/app/worker.py: creating,
-- cancelling, claiming and finishing a job. `now` is the database's NOW(), a new job's id is an
-- argument, and payloads and results are JSON objects that are only stored.
pub mod Worker
pub mod Rows
use cora_os.Prelude.{
  ℕ, suc, ◌+◌, String, Bool, true, false, not, ◌&&◌, ◌||◌, Option, none, some, List, [], ◌∷◌, ◌++◌,
  ◌==◌, ltb, if◌then◌else◌,
}
use cora_os.Prelude.Exec.{
  Exec, Outcome, ok, err, or_raise, raise_if, gets, modify, pure, transaction, ◌>>=◌, ◌>>◌,
}
use cora_os.Prelude.Table.{find, update}

pub data JobStatus : Type 0 where
  queued running completed failed cancelled : JobStatus

pub data JobError : Type 0 where
  unavailable not_found invalid_transition : JobError

-- A row of jobs.
pub record Job : Type 0 where
  pub id : ℕ
  pub user_id : Option ℕ
  pub session_id : Option ℕ
  pub plan_id : Option ℕ
  pub step_id : Option ℕ
  pub workspace_id : Option ℕ
  pub job_type : String
  pub status : JobStatus
  pub payload : Option String
  pub result : Option String
  pub error_message : Option String
  pub attempts : ℕ
  pub max_attempts : ℕ
  pub started_at : Option ℕ
  pub completed_at : Option ℕ

pub record JobDb : Type 0 where
  pub pool : Bool
  pub jobs : List Job

abbrev pub job_key : Job → ℕ
job_key j = j.id

-- `JOB_TERMINAL_STATUSES`
abbrev pub is_terminal : JobStatus → Bool
is_terminal queued = false
is_terminal running = false
is_terminal _ = true

abbrev pub is_queued : JobStatus → Bool
is_queued queued = true
is_queued _ = false

-- the arguments of `create_job`
pub record NewJob : Type 0 where
  pub user_id : Option ℕ
  pub session_id : Option ℕ
  pub plan_id : Option ℕ
  pub step_id : Option ℕ
  pub workspace_id : Option ℕ
  pub job_type : String
  pub payload : Option String
  pub max_attempts : ℕ

abbrev pub job_of : ℕ → NewJob → Job
job_of k n = record {
  id = k;
  user_id = n.user_id;
  session_id = n.session_id;
  plan_id = n.plan_id;
  step_id = n.step_id;
  workspace_id = n.workspace_id;
  job_type = n.job_type;
  status = queued;
  payload = n.payload;
  result = none;
  error_message = none;
  attempts = 0;
  max_attempts = n.max_attempts;
  started_at = none;
  completed_at = none;
}

-- `create_job`
unfoldable pub create_job : ℕ → NewJob → Exec JobError JobDb Job
create_job k n = do
  raise_if (not (← gets (λ db. db.pool))) unavailable
  modify (λ db. record db { jobs = db.jobs ++ job_of k n ∷ [] })
  pure (job_of k n)

-- `get_job`
unfoldable pub get_job : ℕ → JobDb → Option Job
get_job k db = if db.pool then find job_key k db.jobs else none

abbrev pub as_cancelled : ℕ → Job → Job
as_cancelled now j = record j { status = cancelled; completed_at = some now }

-- `cancel_job`: a job that has ended is returned as it is, a running one is refused.
unfoldable pub cancel_job : ℕ → ℕ → Exec JobError JobDb Job
cancel_job k now = do
  raise_if (not (← gets (λ db. db.pool))) unavailable
  transaction do
    row ← or_raise (← gets (λ db. find job_key k db.jobs)) not_found
    if is_terminal row.status then pure row else do
      raise_if (not (is_queued row.status)) invalid_transition
      modify (λ db. record db { jobs = update job_key k (as_cancelled now) db.jobs })
      pure (as_cancelled now row)

abbrev pub is_claimable : Job → Bool
is_claimable j = is_queued j.status && ltb j.attempts j.max_attempts

-- WHERE status = 'queued' AND attempts < max_attempts ORDER BY created_at ASC LIMIT 1
abbrev pub first_claimable : List Job → Option Job
first_claimable [] = none
first_claimable (j ∷ js) = if is_claimable j then some j else first_claimable js

abbrev pub as_running : ℕ → Job → Job
as_running now j = record j { status = running; started_at = some now; attempts = j.attempts + 1 }

-- The columns that `claim_job` returns: `workspace_id` is not among them.
pub record Claimed : Type 0 where
  pub id : ℕ
  pub user_id : Option ℕ
  pub session_id : Option ℕ
  pub plan_id : Option ℕ
  pub step_id : Option ℕ
  pub job_type : String
  pub payload : Option String
  pub attempts : ℕ
  pub max_attempts : ℕ

abbrev pub returned : Job → Claimed
returned j = record {
  id = j.id;
  user_id = j.user_id;
  session_id = j.session_id;
  plan_id = j.plan_id;
  step_id = j.step_id;
  job_type = j.job_type;
  payload = j.payload;
  attempts = j.attempts;
  max_attempts = j.max_attempts;
}

-- `claim_job`: one statement, which locks the row that it takes.
unfoldable pub claim_job : ℕ → JobDb → Option Claimed × JobDb
claim_job now db =
    if db.pool
    then elim (first_claimable db.jobs) [
      | none ↦ (none, db)
      | some j ↦ (
        some (returned (as_running now j)),
        record db { jobs = update job_key j.id (as_running now) db.jobs },
      )
    ]
    else (none, db)

abbrev pub as_completed : String → ℕ → Job → Job
as_completed result now j = record j {
  status = completed;
  result = some result;
  error_message = none;
  completed_at = some now;
}

-- `_mark_completed`
unfoldable pub mark_completed : ℕ → String → ℕ → JobDb → JobDb
mark_completed k result now db = record db {
  jobs = update job_key k (as_completed result now) db.jobs;
}

abbrev pub as_retried : String → Job → Job
as_retried message j = record j { status = queued; error_message = some message; started_at = none }

abbrev pub as_failed : String → ℕ → Job → Job
as_failed message now j = record j {
  status = failed;
  error_message = some message;
  completed_at = some now;
}

-- `_mark_failed`
unfoldable pub mark_failed : ℕ → String → Bool → ℕ → JobDb → JobDb
mark_failed k message retry now db = record db {
  jobs = update job_key k (if retry then as_retried message else as_failed message now) db.jobs;
}
