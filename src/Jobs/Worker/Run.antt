-- ===== src/Jobs/Worker/Run.antt =====
-- What running a claimed job does to its row.
use cora_os.Prelude.{
  ℕ, ◌≡◌, refl, inl, inr, String, Bool, true, false, Option, List, ltb, arith, Bool-cases,
  if◌then◌else◌,
}
use cora_os.Prelude.Table.{update}
use cora_os.Jobs.{
  running, Job, Claimed, job_key, as_completed, as_failed, as_retried, mark_completed, mark_failed,
}
use cora_os.Jobs.Rows.{IsSane}
use cora_os.Jobs.Worker.{
  Handled, returned, transient, permanent, crashed, Store, handles, no_handler, run_claimed,
  heartbeat, write_trace, TraceType, settle,
}

-- the row after the run
abbrev settled : Claimed → Handled → ℕ → Job → Job
settled c (returned r) now j = as_completed r now j
settled c (transient m) now j =
    if ltb c.attempts c.max_attempts then as_retried m j else as_failed m now j
settled c (permanent m) now j = as_failed m now j
settled c (crashed m) now j =
    if ltb c.attempts c.max_attempts then as_retried m j else as_failed m now j

unfoldable pub ending : Claimed → Handled → ℕ → Job → Job
ending c h now =
    if handles c.job_type then settled c h now else as_failed (no_handler c.job_type) now

-- The task holds the row: the row is running, with the attempts that the task was told.
pub record Holds (c : Claimed) (j : Job) : Type 0 where
  pub live : j.status ≡ running
  pub attempts : j.attempts ≡ c.attempts
  pub max_attempts : j.max_attempts ≡ c.max_attempts

pub id-ending : (c : Claimed) (h : Handled) (now : ℕ) (j : Job) → (ending c h now j).id ≡ j.id
unfolding ending
id-ending c h now j = ground arith

pub ending-IsSane :
    (c : Claimed) (h : Handled) (now : ℕ) (j : Job)
    → Holds c j
    → IsSane j
    → IsSane (ending c h now j)
unfolding ending
ending-IsSane c h now j held s = ground arith

update_pick :
    (k : ℕ) (b : Bool) (f g : Job → Job) (js : List Job)
    → update job_key k (if b then f else g) js ≡ update job_key k (λ j. if b then f j else g j) js
update_pick k true f g js = refl
update_pick k false f g js = refl

db-write_trace :
    (t : TraceType) (k : ℕ) (m : Option String) (r : Option Bool) (s : Store)
    → (write_trace t k m r s).db ≡ s.db
unfolding write_trace
db-write_trace t k m r s = ground arith

db-heartbeat : (k : Option ℕ) (now : ℕ) (s : Store) → (heartbeat k now s).db ≡ s.db
unfolding heartbeat
db-heartbeat k now s = ground arith

jobs-settle :
    (c : Claimed) (h : Handled) (now : ℕ) (s : Store)
    → (settle c h now s).jobs ≡ update job_key c.id (settled c h now) s.jobs
unfolding mark_failed mark_completed
jobs-settle c (returned r) now s = rw db-write_trace
jobs-settle c (permanent m) now s = rw db-write_trace
jobs-settle c (transient m) now s =
    rw db-write_trace
      (update_pick c.id (ltb c.attempts c.max_attempts) (as_retried m) (as_failed m now) s.jobs)
jobs-settle c (crashed m) now s =
    rw db-write_trace
      (update_pick c.id (ltb c.attempts c.max_attempts) (as_retried m) (as_failed m now) s.jobs)

-- A run of a claimed job writes its row and no other part of the job table.
pub jobs-run_claimed :
    (c : Claimed) (h : Handled) (now : ℕ) (s : Store)
    → s.pool ≡ true
    → (run_claimed c h now s).jobs ≡ update job_key c.id (ending c h now) s.jobs
unfolding run_claimed ending mark_failed
jobs-run_claimed c h now s up = elim (Bool-cases (handles c.job_type)) [
  | inl known ↦ simp (up, known, db-heartbeat, jobs-settle, db-write_trace)
  | inr unknown ↦ simp (up, unknown, db-heartbeat, db-write_trace)
]

-- With no connection pool nothing is written.
pub run_claimed_down :
    (c : Claimed) (h : Handled) (now : ℕ) (s : Store) → s.pool ≡ false → run_claimed c h now s ≡ s
unfolding run_claimed
run_claimed_down c h now s down = simp down
