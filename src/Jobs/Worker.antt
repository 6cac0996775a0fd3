-- ===== src/Jobs/Worker.antt =====
-- apps/cora-api/app/worker.py: running a claimed job to its end, and the pool of concurrent tasks.
-- A handler enters as what it ended with; its own writes go to other tables. With no connection
-- pool a run writes nothing: the exception is swallowed by `run_claimed`.
pub mod Run
pub mod Pool
pub mod Limits
pub mod Fate
pub mod Retry
mod Tests
use cora_os.Prelude.{
  ℕ, zero, suc, ◌+◌, String, Bool, true, false, not, ◌&&◌, ◌||◌, Option, none, some, List, [], ◌∷◌,
  ◌++◌, ltb, length, or_else, if◌then◌else◌,
}
use Prim.Native.String.{◌++◌ as ◌<>◌}
use text.Mathlib.Text.{◌==◌}
use cora_os.Jobs.{JobDb, Claimed, claim_job, mark_completed, mark_failed}

-- the keys of `HANDLERS`
unfoldable pub handles : String → Bool
handles t =
    t == "execution_plan_step"
    || t == "plan_step"
    || t == "execution_plan"
    || t == "news_feed_refresh"
    || t == "agent_run"

-- How a handler ends: a result, TransientError, PermanentError, or any other exception.
pub data Handled : Type 0 where
  returned transient permanent crashed : String → Handled

pub data TraceType : Type 0 where
  job_started job_completed job_failed worker_execution : TraceType

pub record Trace : Type 0 where
  pub trace_type : TraceType
  pub job_id : ℕ
  pub error_message : Option String
  pub will_retry : Option Bool

-- the row of worker_heartbeats
pub record Heartbeat : Type 0 where
  pub last_heartbeat_at : ℕ
  pub last_job_id : Option ℕ
  pub last_job_at : Option ℕ

pub record Store : Type 0 where
  pub db : JobDb
  pub open db use *
  pub traces : List Trace
  pub beat : Option Heartbeat

abbrev beaten : Option ℕ → ℕ → Option Heartbeat → Heartbeat
beaten job_id now none = record {
  last_heartbeat_at = now;
  last_job_id = job_id;
  last_job_at = elim job_id [ none ↦ none | some _ ↦ some now ];
}
beaten job_id now (some old) = record {
  last_heartbeat_at = now;
  last_job_id = or_else job_id old.last_job_id;
  last_job_at = or_else (elim job_id [ none ↦ none | some _ ↦ some now ]) old.last_job_at;
}

-- `heartbeat`
unfoldable pub heartbeat : Option ℕ → ℕ → Store → Store
heartbeat job_id now s = if s.pool then record s { beat = some (beaten job_id now s.beat) } else s

-- `write_trace`
unfoldable pub write_trace : TraceType → ℕ → Option String → Option Bool → Store → Store
write_trace t k error retry s =
    if s.pool
    then record s {
      traces =
          s.traces
          ++ record { trace_type = t; job_id = k; error_message = error; will_retry = retry } ∷ [];
    }
    else s

-- the message for a job type that has no handler, as `!r` writes a text without quotes or escapes
abbrev pub no_handler : String → String
no_handler t = "no handler for job_type '" <> (t <> "'")

-- the two `except` branches that may retry
abbrev pub retried : Claimed → String → ℕ → Store → Store
retried job message now s =
    let should_retry = ltb job.attempts job.max_attempts in
    let s' : Store = record s { db = mark_failed job.id message should_retry now s.db } in
    write_trace (if should_retry then worker_execution else job_failed) job.id (some message)
      (some should_retry) s'

abbrev pub failed_for_good : Claimed → String → ℕ → Store → Store
failed_for_good job message now s =
    let s' : Store = record s { db = mark_failed job.id message false now s.db } in
    write_trace job_failed job.id (some message) none s'

abbrev pub settle : Claimed → Handled → ℕ → Store → Store
settle job (returned result) now s =
    let s' : Store = record s { db = mark_completed job.id result now s.db } in
    write_trace job_completed job.id none none s'
settle job (transient message) now s = retried job message now s
settle job (permanent message) now s = failed_for_good job message now s
settle job (crashed message) now s = retried job message now s

-- `run_claimed` and `_run_claimed_inner`
unfoldable pub run_claimed : Claimed → Handled → ℕ → Store → Store
run_claimed job handled now s =
    if s.pool
    then heartbeat (some job.id) now (
        let started = write_trace job_started job.id none none s in
        if handles job.job_type
        then settle job handled now started
        else failed_for_good job (no_handler job.job_type) now started)
    else s

-- The worker process: its tasks, those still running and the number that are done and not yet
-- reaped, beside the database.
pub record World : Type 0 where
  pub store : Store
  pub open store use *
  pub active : List Claimed
  pub done : ℕ
  pub shutdown : Bool

-- `len(inflight)`
abbrev pub in_flight : World → ℕ
in_flight w = length w.active + w.done

abbrev pub spawned : Claimed → JobDb → World → World
spawned c db w = record w { store = record w.store { db = db }; active = w.active ++ c ∷ [] }

-- `_fill_slots`, with the number of jobs started. `clock n` is the time of the round with `n` rounds
-- of fuel behind it.
unfoldable pub fill_slots : ℕ → ℕ → (ℕ → ℕ) → World → World × ℕ
fill_slots zero max clock w = (w, 0)
fill_slots (suc fuel) max clock w =
    if not w.shutdown && ltb (in_flight w) max
    then (let (claimed, db') = claim_job (clock fuel) w.db in
        elim claimed [
          | none ↦ (w, 0)
          | some c ↦ let (w', n) = fill_slots fuel max clock (spawned c db' w) in (w', n + 1)
        ])
    else (w, 0)

-- `_reap`
abbrev pub reap : World → World
reap w = record w { done = 0 }
