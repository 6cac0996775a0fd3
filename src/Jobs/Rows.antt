-- ===== src/Jobs/Rows.antt =====
-- What holds of every row of the job table, and that each statement on it keeps that.
use cora_os.Prelude.{
  ℕ, ◌≤◌, ◌<◌, ◌≡◌, inl, inr, String, true, some, List, [], ◌∷◌, arith, All, Bool-cases, is_some,
}
use cora_os.Prelude.Table.{find, IsKeyed}
use cora_os.Jobs.{
  queued, running, Job, NewJob, job_key, job_of, is_terminal, is_claimable, first_claimable,
  as_running, as_completed, as_retried, as_failed, as_cancelled,
}

-- A row is sane: attempts stay within the bound, a queued job can still be claimed, a running one
-- has a start, and a completion time stands exactly on a job that has ended.
pub record IsSane (j : Job) : Type 0 where
  pub bounded : j.attempts ≤ j.max_attempts
  pub waiting : j.status ≡ queued → j.attempts < j.max_attempts
  pub started : j.status ≡ running → is_some j.started_at ≡ true
  pub ended : is_terminal j.status ≡ is_some j.completed_at

pub record IsOrderly (js : List Job) : Type 0 where
  pub keyed : IsKeyed job_key js
  pub sane : All IsSane js

pub as_running-IsSane :
    (now : ℕ) (j : Job) → is_claimable j ≡ true → IsSane j → IsSane (as_running now j)
as_running-IsSane now j c s = ground arith

pub as_cancelled-IsSane : (now : ℕ) (j : Job) → IsSane j → IsSane (as_cancelled now j)
as_cancelled-IsSane now j s = ground arith

pub as_completed-IsSane :
    (r : String) (now : ℕ) (j : Job) → IsSane j → IsSane (as_completed r now j)
as_completed-IsSane r now j s = ground arith

pub as_failed-IsSane : (m : String) (now : ℕ) (j : Job) → IsSane j → IsSane (as_failed m now j)
as_failed-IsSane m now j s = ground arith

pub as_retried-IsSane :
    (m : String) (j : Job)
    → j.status ≡ running
    → j.attempts < j.max_attempts
    → IsSane j
    → IsSane (as_retried m j)
as_retried-IsSane m j r lt s = ground arith

pub job_of-IsSane : (k : ℕ) (n : NewJob) → 0 < n.max_attempts → IsSane (job_of k n)
job_of-IsSane k n h = ground arith

-- The oldest claimable job is the one that its id finds.
pub find-first_claimable :
    (js : List Job) (j : Job)
    → IsKeyed job_key js
    → first_claimable js ≡ some j
    → (find job_key j.id js ≡ some j) × (is_claimable j ≡ true)
find-first_claimable [] j u h = cc
find-first_claimable (x ∷ js) j u h = elim (Bool-cases (is_claimable x)) [
  | inl hit ↦ ground (arith)
  | inr miss ↦ ground (arith, find-first_claimable js j u.1)
]
