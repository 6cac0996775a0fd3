-- ===== src/Jobs/Worker/Pool.antt =====
-- The worker's tasks beside the job table, under any interleaving of API calls, claims, task ends,
-- reaping, shutdown and the death of the process.
use cora_os.Prelude.{
  ℕ, zero, suc, ◌+◌, ◌<◌, ◌≡◌, ◌≢◌, ◌⊎◌, refl, inl, inr, true, false, not, ◌&&◌, Option, none, some,
  List, [], ◌∷◌, ltb, arith, Bool-cases, Option-cases, if◌then◌else◌, subst, All, All-map,
  All-append, ◌==◌, ==_iff, ==_refl,
}
use cora_os.Prelude.Table.{
  find, update, IsKeyed, IsKeyed-update, IsKeyed-append, All-update_found, find-update, find-append,
  All-find, key-find,
}
use cora_os.Jobs.{
  Job, JobDb, NewJob, Claimed, job_key, job_of, is_terminal, is_queued, as_running, as_cancelled,
  claim_job, create_job, cancel_job, first_claimable, is_claimable, returned,
}
use cora_os.Jobs.Rows.{
  IsSane, IsOrderly, find-first_claimable, as_running-IsSane, as_cancelled-IsSane, job_of-IsSane,
}
use cora_os.Jobs.Worker.{
  Handled, Store, World, run_claimed, in_flight, spawned, fill_slots, reap, heartbeat,
}
use cora_os.Jobs.Worker.Run.{
  Holds, ending, id-ending, ending-IsSane, jobs-run_claimed, run_claimed_down,
}

abbrev pub task_key : Claimed → ℕ
task_key c = c.id

abbrev pub IsHeld : List Job → Claimed → Type 0
IsHeld js c = (j : Job) × (find job_key c.id js ≡ some j) × Holds c j

-- The rows are sane, no two tasks run the same job, and the row of every running task is its own:
-- running, with the attempts that the task was told.
pub record AreSound (js : List Job) (cs : List Claimed) : Type 0 where
  pub orderly : IsOrderly js
  pub apart : IsKeyed task_key cs
  pub held : All (IsHeld js) cs

abbrev pub IsSound : World → Type 0
IsSound w = AreSound w.jobs w.active

abbrev pub without : ℕ → List Claimed → List Claimed
without k [] = []
without k (c ∷ cs) = if c.id == k then cs else c ∷ without k cs

-- a task has ended: its run is written, and it waits to be reaped
abbrev pub finished : Claimed → Handled → ℕ → World → World
finished c h now w = record w {
  store = run_claimed c h now w.store;
  active = without c.id w.active;
  done = w.done + 1;
}

abbrev pub with_db : JobDb → World → World
with_db db w = record w { store = record w.store { db = db } }

-- One step of the world.
pub data Step (max : ℕ) (w : World) : World → Type 0 where
  submit :
      (k : ℕ) (n : NewJob)
      → find job_key k w.jobs ≡ none
      → 0 < n.max_attempts
      → Step max w (with_db (create_job k n w.db).1 w)
  cancel : (k now : ℕ) → Step max w (with_db (cancel_job k now w.db).1 w)
  fill : (fuel : ℕ) (clock : ℕ → ℕ) → Step max w (fill_slots fuel max clock w).0
  finish :
      (c : Claimed) (h : Handled) (now : ℕ)
      → find task_key c.id w.active ≡ some c
      → Step max w (finished c h now w)
  reaped : Step max w (reap w)
  beat : (now : ℕ) → Step max w (record w { store = heartbeat none now w.store })
  stop : Step max w (record w { shutdown = true })
  die : Step max w (record w { active = []; done = 0 })

pub data Reach (max : ℕ) (w : World) : World → Type 0 where
  here : Reach max w w
  next : {u v : World} → Reach max w u → Step max u v → Reach max w v

-- claiming
module _ (now : ℕ) (w : World) (s : IsSound w) (j : Job)
    (first : first_claimable w.jobs ≡ some j) where
  claimed_jobs : List Job
  claimed_jobs = update job_key j.id (as_running now) w.jobs

  the_row : find job_key j.id w.jobs ≡ some j
  the_row = (find-first_claimable w.jobs j s.orderly.keyed first).0

  is_free : is_claimable j ≡ true
  is_free = (find-first_claimable w.jobs j s.orderly.keyed first).1

  find-claimed :
      (k : ℕ)
      → find job_key k claimed_jobs
        ≡ (if j.id == k then some (as_running now j) else find job_key k w.jobs)
  unfolding claimed_jobs
  find-claimed k = elim (Bool-cases (j.id == k)) [
    | inl e ↦ ground (
      arith,
      find-update job_key j.id k (as_running now) (λ x. refl) w.jobs,
      the_row,
      (==_iff j.id k).0 e,
    )
    | inr e ↦ ground (arith, find-update job_key j.id k (as_running now) (λ x. refl) w.jobs)
  ]

  -- no task holds the row that is claimed: it was queued
  unheld : (c : Claimed) → IsHeld w.jobs c → c.id ≢ j.id
  unheld c h e = ground (arith, the_row, is_free, h.1, h.2)

  claimed-IsOrderly : IsOrderly claimed_jobs
  unfolding claimed_jobs
  claimed-IsOrderly = record {
    keyed = IsKeyed-update job_key j.id (as_running now) (λ x. refl) w.jobs s.orderly.keyed;
    sane =
        All-update_found job_key IsSane j.id (as_running now) w.jobs s.orderly.keyed
          (λ x e p. as_running-IsSane now x (ground (arith, the_row, is_free)) p) s.orderly.sane;
  }

  IsHeld-claimed : (c : Claimed) → IsHeld w.jobs c → IsHeld claimed_jobs c
  IsHeld-claimed c h = (h.0, ground (arith, find-claimed c.id, unheld c h, h.1), h.2)

  new-IsHeld : IsHeld claimed_jobs (returned (as_running now j))
  new-IsHeld = (
    as_running now j,
    ground (arith, find-claimed j.id, ==_refl j.id),
    record { live = refl; attempts = refl; max_attempts = refl },
  )

  new_apart : find task_key j.id w.active ≡ none
  new_apart = elim (Option-cases (find task_key j.id w.active)) [
    | inl e ↦ e
    | inr (c, e) ↦ absurd (
        unheld c (All-find task_key (IsHeld w.jobs) j.id w.active s.held e)
          (key-find task_key j.id w.active e))
  ]

  claimed-IsSound :
      IsSound (spawned (returned (as_running now j)) (record w.db { jobs = claimed_jobs }) w)
  claimed-IsSound = record {
    orderly = claimed-IsOrderly;
    apart = IsKeyed-append task_key w.active (returned (as_running now j)) s.apart new_apart;
    held =
        All-append (IsHeld claimed_jobs) w.active _ (All-map w.active IsHeld-claimed s.held)
          (new-IsHeld, tt);
  }

pub claim_none :
    (now : ℕ) (db : JobDb)
    → (db.pool ≡ false) ⊎ (first_claimable db.jobs ≡ none)
    → claim_job now db ≡ (none, db)
unfolding claim_job
claim_none now db (inl down) = ground arith
claim_none now db (inr idle) = ground arith

pub claim_some :
    (now : ℕ) (db : JobDb) (j : Job)
    → db.pool ≡ true
    → first_claimable db.jobs ≡ some j
    → claim_job now db ≡ (
      some (returned (as_running now j)),
      record db { jobs = update job_key j.id (as_running now) db.jobs },
    )
unfolding claim_job
claim_some now db j up first = simp (up, first)

-- claiming the oldest claimable job keeps the world sound
pub claim-IsSound :
    (now : ℕ) (w : World)
    → IsSound w
    → (j : Job) → first_claimable w.jobs ≡ some j
    → IsSound (
        spawned
          (returned (as_running now j))
          (record w.db { jobs = update job_key j.id (as_running now) w.jobs })
          w)
unfolding claimed_jobs
claim-IsSound now w s j first = claimed-IsSound now w s j first

pub fill_slots-IsSound :
    (fuel max : ℕ) (clock : ℕ → ℕ) (w : World) → IsSound w → IsSound (fill_slots fuel max clock w).0
unfolding fill_slots
fill_slots-IsSound zero max clock w s = s
fill_slots-IsSound (suc fuel) max clock w s =
    elim (Bool-cases (not w.shutdown && ltb (in_flight w) max)) [
      | inr full ↦ simp full s
      | inl room ↦ elim (Bool-cases w.pool) [
        | inr down ↦ simp (room, claim_none (clock fuel) w.db (inl down)) s
        | inl up ↦ elim (Option-cases (first_claimable w.jobs)) [
          | inl idle ↦ simp (room, claim_none (clock fuel) w.db (inr idle)) s
          | inr (j, first) ↦
              simp (room, claim_some (clock fuel) w.db j up first)
                (fill_slots-IsSound fuel max clock _ (claim-IsSound (clock fuel) w s j first))
        ]
      ]
    ]

pub find-without_absent :
    (k m : ℕ) (cs : List Claimed)
    → find task_key m cs ≡ none
    → find task_key m (without k cs) ≡ none
find-without_absent k m [] h = refl
find-without_absent k m (c ∷ cs) h = ground (arith, find-without_absent k m cs)

IsKeyed-without :
    (k : ℕ) (cs : List Claimed) → IsKeyed task_key cs → IsKeyed task_key (without k cs)
IsKeyed-without k [] h = tt
IsKeyed-without k (c ∷ cs) h = elim (Bool-cases (c.id == k)) [
  | inl e ↦ simp e (h.1)
  | inr e ↦ simp e (find-without_absent k c.id cs h.0, IsKeyed-without k cs h.1)
]

All-absent {κ} :
    {P Q : Claimed → Type κ} (k : ℕ) (cs : List Claimed)
    → ((c : Claimed) → c.id ≢ k → P c → Q c)
    → find task_key k cs ≡ none
    → All P cs
    → All Q cs
All-absent k [] f e h = tt
All-absent k (c ∷ cs) f e h = (f c (ground arith) h.0, All-absent k cs f (ground arith) h.1)

-- what is left after the task `k` is taken out has other ids
All-without {κ} :
    {P Q : Claimed → Type κ} (k : ℕ) (cs : List Claimed)
    → IsKeyed task_key cs
    → ((c : Claimed) → c.id ≢ k → P c → Q c)
    → All P cs
    → All Q (without k cs)
All-without k [] u f h = tt
All-without k (c ∷ cs) u f h = elim (Bool-cases (c.id == k)) [
  | inl e ↦
      simp e
        (All-absent k cs f (subst (λ n. find task_key n cs ≡ none) ((==_iff c.id k).0 e) u.0) h.1)
  | inr e ↦ simp e (f c (ground arith) h.0, All-without k cs u.1 f h.1)
]

module _ (c : Claimed) (h : Handled) (now : ℕ) (w : World) (s : IsSound w)
    (mine : find task_key c.id w.active ≡ some c) where
  my_row : IsHeld w.jobs c
  my_row = All-find task_key (IsHeld w.jobs) c.id w.active s.held mine

  kept_by :
      (d : Claimed)
      → d.id ≢ c.id
      → IsHeld w.jobs d
      → IsHeld (update job_key c.id (ending c h now) w.jobs) d
  kept_by d ne held = (
    held.0,
    ground
        (arith, find-update job_key c.id d.id (ending c h now) (id-ending c h now) w.jobs, held.1),
    held.2,
  )

  pub finished-IsSound : IsSound (finished c h now w)
  finished-IsSound = elim (Bool-cases w.pool) [
    | inl up ↦ rw (jobs-run_claimed c h now w.store up) (record {
      orderly = record {
        keyed =
            IsKeyed-update job_key c.id (ending c h now) (id-ending c h now) w.jobs s.orderly.keyed;
        sane =
            All-update_found job_key IsSane c.id (ending c h now) w.jobs s.orderly.keyed
              (λ x e p.
                ending-IsSane c h now x (subst (Holds c) (ground (arith, my_row.1)) my_row.2) p)
              s.orderly.sane;
      };
      apart = IsKeyed-without c.id w.active s.apart;
      held = All-without c.id w.active s.apart kept_by s.held;
    })
    | inr down ↦ rw (run_claimed_down c h now w.store down) (record {
      orderly = s.orderly;
      apart = IsKeyed-without c.id w.active s.apart;
      held = All-without c.id w.active s.apart (λ d ne held. held) s.held;
    })
  ]

module _ (k now : ℕ) (w : World) (s : IsSound w) where
  -- `cancel_job` leaves the table alone, or cancels a queued row.
  pub cancel_job-cases :
      ((cancel_job k now w.db).1 ≡ w.db)
      ⊎ ((j : Job) × (find job_key k w.jobs ≡ some j)
          × (is_queued j.status ≡ true)
          × ((cancel_job k now w.db).1
              ≡ record w.db { jobs = update job_key k (as_cancelled now) w.jobs }))
  unfolding cancel_job
  cancel_job-cases = elim (Bool-cases w.pool) [
    | inr down ↦ inl (simp down)
    | inl up ↦ elim (Option-cases (find job_key k w.jobs)) [
      | inl gone ↦ inl (simp (up, gone))
      | inr (j, f) ↦ elim (Bool-cases (is_terminal j.status)) [
        | inl over ↦ inl (simp (up, f, over))
        | inr live ↦ elim (Bool-cases (is_queued j.status)) [
          | inr busy ↦ inl (simp (up, f, live, busy))
          | inl waits ↦ inr (j, f, waits, simp (up, f, live, waits))
        ]
      ]
    ]
  ]

  pub cancel-IsSound : IsSound (with_db (cancel_job k now w.db).1 w)
  cancel-IsSound = elim cancel_job-cases [
    | inl same ↦ rw same s
    | inr (j, f, waits, moved) ↦ rw moved (record {
      orderly = record {
        keyed = IsKeyed-update job_key k (as_cancelled now) (λ x. refl) w.jobs s.orderly.keyed;
        sane =
            All-update_found job_key IsSane k (as_cancelled now) w.jobs s.orderly.keyed
              (λ x e p. as_cancelled-IsSane now x p) s.orderly.sane;
      };
      apart = s.apart;
      held =
          All-map w.active
            (λ d held. (
              held.0,
              ground (
                arith,
                find-update job_key k d.id (as_cancelled now) (λ x. refl) w.jobs,
                held.1,
                held.2,
                (==_iff k d.id).0,
              ),
              held.2,
            ))
            s.held;
    })
  ]

module _ (k : ℕ) (n : NewJob) (w : World) (s : IsSound w) (new : find job_key k w.jobs ≡ none)
    (many : 0 < n.max_attempts) where
  pub submit-IsSound : IsSound (with_db (create_job k n w.db).1 w)
  unfolding create_job
  submit-IsSound = elim (Bool-cases w.pool) [
    | inr down ↦ simp down s
    | inl up ↦ simp up (record {
      orderly = record {
        keyed = IsKeyed-append job_key w.jobs (job_of k n) s.orderly.keyed new;
        sane = All-append IsSane w.jobs _ s.orderly.sane (job_of-IsSane k n many, tt);
      };
      apart = s.apart;
      held =
          All-map w.active
            (λ d held. (
              held.0,
              ground (arith, find-append job_key d.id w.jobs (job_of k n), held.1),
              held.2,
            ))
            s.held;
    })
  ]

pub jobs-heartbeat : (b : Option ℕ) (now : ℕ) (s : Store) → (heartbeat b now s).jobs ≡ s.jobs
unfolding heartbeat
jobs-heartbeat b now s = ground arith

step-IsSound : {max : ℕ} {u w : World} → Step max u w → IsSound u → IsSound w
step-IsSound {u = u} (submit k n new many) s = submit-IsSound k n u s new many
step-IsSound {u = u} (cancel k now) s = cancel-IsSound k now u s
step-IsSound {max = max} {u = u} (fill fuel clock) s = fill_slots-IsSound fuel max clock u s
step-IsSound {u = u} (finish c h now mine) s = finished-IsSound c h now u s mine
step-IsSound reaped s = s
step-IsSound {u = u} (beat now) s = rw (jobs-heartbeat none now u.store) s
step-IsSound stop s = s
step-IsSound die s = record { orderly = s.orderly; apart = tt; held = tt }

-- Under every interleaving of API calls, claims, task ends, reaping, shutdown and the death of the
-- worker: the rows stay sane, no job is run by two tasks, and every running task holds its row.
pub Reach-IsSound : {max : ℕ} {u w : World} → Reach max u w → IsSound u → IsSound w
Reach-IsSound here s = s
Reach-IsSound (next r st) s = step-IsSound st (Reach-IsSound r s)
