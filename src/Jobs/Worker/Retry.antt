-- ===== src/Jobs/Worker/Retry.antt =====
-- A job whose handler fails each time: it is claimed, run and put back until its attempts are used up.
use cora_os.Prelude.{
  ℕ, zero, suc, ◌+◌, ◌≤◌, ◌<◌, ◌≡◌, refl, sym, subst, ap, ◌∙◌, inl, inr, Bool, true, false, Option,
  none, some, List, [], ◌∷◌, arith, Bool-cases, ltb, ◌==◌, ==_iff, ==_refl, if◌then◌else◌,
}
use cora_os.Prelude.Table.{find, update, find-update, IsKeyed, IsKeyed-update}
use cora_os.Jobs.{
  Job, JobDb, JobStatus, Claimed, queued, failed, is_claimable, first_claimable, as_running,
  job_key, returned, claim_job, mark_completed, mark_failed,
}
use cora_os.Jobs.Rows.{find-first_claimable}
use cora_os.Jobs.Worker.{
  Handled, returned as gave, transient, permanent, crashed, Store, handles, heartbeat, write_trace,
  run_claimed,
}
use cora_os.Jobs.Worker.Run.{ending, id-ending, jobs-run_claimed}
use cora_os.Jobs.Worker.Pool.{claim_some}

-- what follows a claim
abbrev pub worked : Handled → ℕ → Store → Option Claimed × JobDb → Store
worked h now s (none, db) = s
worked h now s (some c, db) = run_claimed c h now (record s { db = db })

-- One pass of a worker with one slot: it claims a job, and the job's handler ends like that.
unfoldable pub try_once : Handled → ℕ → Store → Store
try_once h now s = worked h now s (claim_job now s.db)

-- `n` passes, of which the handlers end like `ends 0`, `ends 1` and so on, at the times of a clock
unfoldable pub tries : ℕ → (ℕ → Handled) → (ℕ → ℕ) → Store → Store
tries zero ends clock s = s
tries (suc n) ends clock s = try_once (ends n) (clock n) (tries n ends clock s)

-- a transient failure, or an exception that nobody expected
abbrev pub is_retriable : Handled → Bool
is_retriable (transient m) = true
is_retriable (crashed m) = true
is_retriable _ = false

update-update :
    (k : ℕ) (f g : Job → Job)
    → ((x : Job) → (f x).id ≡ x.id)
    → (js : List Job)
    → update job_key k g (update job_key k f js) ≡ update job_key k (λ x. g (f x)) js
update-update k f g keeps [] = refl
update-update k f g keeps (x ∷ js) = ground (arith, keeps x, update-update k f g keeps js)

-- The oldest claimable job stays that when it is changed and still claimable.
first_claimable-update :
    (f : Job → Job) (js : List Job) (j : Job)
    → IsKeyed job_key js
    → first_claimable js ≡ some j
    → is_claimable (f j) ≡ true
    → first_claimable (update job_key j.id f js) ≡ some (f j)
first_claimable-update f [] j u h c = cc
first_claimable-update f (x ∷ js) j u h c = elim (Bool-cases (is_claimable x)) [
  | inl hit ↦
      let same : x ≡ j = ground arith in
      subst (λ y. first_claimable (update job_key y.id f (x ∷ js)) ≡ some (f y)) same
        (let still : is_claimable (f x) ≡ true =
            subst (λ y. is_claimable (f y) ≡ true) (sym same) c in
          simp (==_refl x.id, still))
  | inr miss ↦
      let rest : first_claimable js ≡ some j = ground arith in
      let there = find-first_claimable js j u.1 rest in
      elim (Bool-cases (x.id == j.id)) [
        | inl e ↦ absurd (ground (arith, (==_iff x.id j.id).0 e, there.0, u.0))
        | inr e ↦ simp (e, miss) (first_claimable-update f js j u.1 rest c)
      ]
]

-- the row after a claim and a failure that may be retried
abbrev after_try : Handled → ℕ → Job → Job → Job
after_try h now j x = ending (returned (as_running now j)) h now (as_running now x)

pool-run_claimed :
    (c : Claimed) (h : Handled) (now : ℕ) (s : Store) → (run_claimed c h now s).pool ≡ s.pool
unfolding run_claimed heartbeat write_trace mark_completed mark_failed
pool-run_claimed c (gave r) now s = ground arith
pool-run_claimed c (permanent m) now s = ground arith
pool-run_claimed c (transient m) now s = ground arith
pool-run_claimed c (crashed m) now s = ground arith

-- The oldest claimable job of the table is the row, which `attempts` tries of it have made.
record Waits (k attempts max_attempts : ℕ) (s : Store) (row : Job) : Type 0 where
  up : s.pool ≡ true
  keyed : IsKeyed job_key s.jobs
  first : first_claimable s.jobs ≡ some row
  id : row.id ≡ k
  known : handles row.job_type ≡ true
  tried : row.attempts ≡ attempts
  limit : row.max_attempts ≡ max_attempts

jobs-try_once :
    (h : Handled) (now : ℕ) (s : Store) (j : Job)
    → s.pool ≡ true
    → first_claimable s.jobs ≡ some j
    → ((try_once h now s).jobs ≡ update job_key j.id (after_try h now j) s.jobs)
      × ((try_once h now s).pool ≡ true)
unfolding try_once
jobs-try_once h now s j up first =
    let c = returned (as_running now j) in
    let s' : Store = record s {
      db = record (s.db) { jobs = update job_key j.id (as_running now) s.jobs };
    } in
    let ran = ap (worked h now s) (claim_some now s.db j up first) in
    (
      ap (λ (t : Store). t.jobs) ran
          ∙ jobs-run_claimed c h now s' up
          ∙ update-update j.id (as_running now) (ending c h now) (λ x. refl) s.jobs,
      ap (λ (t : Store). t.pool) ran ∙ pool-run_claimed c h now s' ∙ up,
    )

after_try-id : (h : Handled) (now : ℕ) (j x : Job) → (after_try h now j x).id ≡ x.id
after_try-id h now j x = id-ending (returned (as_running now j)) h now (as_running now x)

-- the row after a failure, with attempts left or not
record IsRetried (h : Handled) (now : ℕ) (j : Job) : Type 0 where
  attempts : (after_try h now j j).attempts ≡ j.attempts + 1
  max_attempts : (after_try h now j j).max_attempts ≡ j.max_attempts
  job_type : (after_try h now j j).job_type ≡ j.job_type
  status :
      (after_try h now j j).status
      ≡ (if ltb (j.attempts + 1) j.max_attempts then queued else failed)

after_try-IsRetried :
    (h : Handled) (now : ℕ) (j : Job)
    → is_retriable h ≡ true
    → handles j.job_type ≡ true
    → IsRetried h now j
unfolding ending
after_try-IsRetried (gave r) now j again known = cc
after_try-IsRetried (permanent m) now j again known = cc
after_try-IsRetried (transient m) now j again known = ground arith
after_try-IsRetried (crashed m) now j again known = ground arith

module _ (k a m : ℕ) (h : Handled) (now : ℕ) (s : Store) (j : Job) (again : is_retriable h ≡ true)
    (w : Waits k a m s j) where
  tried_row : find job_key k (try_once h now s).jobs ≡ some (after_try h now j j)
  tried_row =
      let there = find-first_claimable s.jobs j w.keyed w.first in
      ap (find job_key k) (jobs-try_once h now s j w.up w.first).0
      ∙ find-update job_key j.id k (after_try h now j) (after_try-id h now j) s.jobs
      ∙ ground (arith, w.id, there.0, ==_refl k)

  try_once-Waits : suc a < m → Waits k (suc a) m (try_once h now s) (after_try h now j j)
  try_once-Waits room =
      let r = after_try-IsRetried h now j again w.known in
      let moved = jobs-try_once h now s j w.up w.first in
      let open_still : is_claimable (after_try h now j j) ≡ true =
        ground (arith, r.status, r.attempts, r.max_attempts, w.tried, w.limit) in
      record {
        up = moved.1;
        keyed =
            rw (moved.0) (
              IsKeyed-update job_key j.id (after_try h now j) (after_try-id h now j) s.jobs
                w.keyed);
        first =
            ap first_claimable moved.0
            ∙ first_claimable-update (after_try h now j) s.jobs j w.keyed w.first open_still;
        id = after_try-id h now j j ∙ w.id;
        known = ap handles r.job_type ∙ w.known;
        tried = omega (arith, r.attempts, w.tried);
        limit = r.max_attempts ∙ w.limit;
      }

  fails_last :
      suc a ≡ m → ((after_try h now j j).status ≡ failed) × ((after_try h now j j).attempts ≡ m)
  fails_last last =
      let r = after_try-IsRetried h now j again w.known in
      (ground (arith, r.status, w.tried, w.limit), omega (arith, r.attempts, w.tried))

-- The row under a key, with that status and that many attempts.
pub record HasRow (k : ℕ) (status : JobStatus) (attempts : ℕ) (s : Store) : Type 0 where
  pub row : Job
  pub found : find job_key k s.jobs ≡ some row
  pub stands : row.status ≡ status
  pub tried : row.attempts ≡ attempts

module _ (k m : ℕ) (ends : ℕ → Handled) (clock : ℕ → ℕ)
    (again : (i : ℕ) → is_retriable (ends i) ≡ true) where
  tries-Waits :
      (n a : ℕ) (s : Store) (j : Job)
      → Waits k a m s j
      → a + n < m
      → (r : Job) × Waits k (a + n) m (tries n ends clock s) r
  unfolding tries
  tries-Waits zero a s j w room = (j, subst (λ x. Waits k x m s j) (omega arith) w)
  tries-Waits (suc n) a s j w room =
      let (r, v) = tries-Waits n a s j w (omega arith) in
      (
        after_try (ends n) (clock n) r r,
        subst (λ x. Waits k x m (tries (suc n) ends clock s) (after_try (ends n) (clock n) r r))
            (omega arith)
            (try_once-Waits k (a + n) m (ends n) (clock n) (tries n ends clock s) r (again n) v
              (omega arith)),
      )

  HasRow-Waits : (a : ℕ) (s : Store) (j : Job) → Waits k a m s j → HasRow k queued a s
  HasRow-Waits a s j w =
      let there = find-first_claimable s.jobs j w.keyed w.first in
      record {
        row = j;
        found = ap (λ i. find job_key i s.jobs) (sym w.id) ∙ there.0;
        stands = ground (arith, there.1);
        tried = w.tried;
      }

-- Retrying ends. Take a table with unique identifiers whose oldest claimable job has a handler and d + 1
-- attempts left, and let a worker with one slot claim and run it again and again, the handler ending
-- each time with TransientError or an exception that is none of the worker's. After each of the first
-- d tries the job is back in the queue, with one more attempt counted for each, and after try d + 1 it
-- is failed and has used all its attempts.
pub retries_end :
    (d n : ℕ) (ends : ℕ → Handled) (clock : ℕ → ℕ) (s : Store) (j : Job)
    → s.pool ≡ true
    → IsKeyed job_key s.jobs
    → first_claimable s.jobs ≡ some j
    → handles j.job_type ≡ true
    → ((i : ℕ) → is_retriable (ends i) ≡ true)
    → j.attempts + suc d ≡ j.max_attempts
    → n ≤ d
    → HasRow j.id queued (j.attempts + n) (tries n ends clock s)
      × HasRow j.id failed j.max_attempts (tries (suc d) ends clock s)
unfolding tries
retries_end d n ends clock s j up keyed first known again left le =
    let k = j.id in
    let m = j.max_attempts in
    let w : Waits k j.attempts m s j = record {
      up = up;
      keyed = keyed;
      first = first;
      id = refl;
      known = known;
      tried = refl;
      limit = refl;
    } in
    let (r, v) = tries-Waits k m ends clock again n j.attempts s j w (omega arith) in
    let (q, z) = tries-Waits k m ends clock again d j.attempts s j w (omega arith) in
    let t = tries d ends clock s in
    let over = fails_last k (j.attempts + d) m (ends d) (clock d) t q (again d) z (omega arith) in
    (
      HasRow-Waits k m ends clock again (j.attempts + n) (tries n ends clock s) r v,
      record {
        row = after_try (ends d) (clock d) q q;
        found = tried_row k (j.attempts + d) m (ends d) (clock d) t q (again d) z;
        stands = over.0;
        tried = over.1;
      },
    )
