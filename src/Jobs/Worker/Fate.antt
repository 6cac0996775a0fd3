-- ===== src/Jobs/Worker/Fate.antt =====
-- What becomes of a job: an ended job stays as it is, and a running job whose task is gone is never
-- taken up again.
use cora_os.Prelude.{
  ℕ, zero, suc, ◌≡◌, ◌≢◌, refl, inl, inr, true, false, not, ◌&&◌, none, some, ltb, arith,
  Bool-cases, Option-cases, ◌==◌, ==_iff,
}
use cora_os.Prelude.Table.{find, update, find-update, find-append, All-find, key-find}
use cora_os.Jobs.{
  Job, first_claimable, as_running, as_cancelled, job_key, job_of, returned, is_terminal, is_queued,
  create_job,
}
use cora_os.Jobs.Rows.{find-first_claimable}
use cora_os.Jobs.Worker.{World, in_flight, spawned, fill_slots}
use cora_os.Jobs.Worker.Run.{ending, id-ending, jobs-run_claimed, run_claimed_down}
use cora_os.Jobs.Worker.Pool.{
  Step, submit, cancel, fill, finish, reaped, beat, stop, die, Reach, here, next, task_key,
  claim_none, claim_some, IsSound, IsHeld, Reach-IsSound, cancel_job-cases, jobs-heartbeat,
  find-without_absent, claim-IsSound,
}

-- The job is in the table as `j`, waits for nobody, and no task runs it.
pub record IsLeft (k : ℕ) (j : Job) (w : World) : Type 0 where
  pub there : find job_key k w.jobs ≡ some j
  pub not_queued : is_queued j.status ≡ false
  pub no_task : find task_key k w.active ≡ none

module _ (k : ℕ) (j : Job) where
  IsLeft-claim :
      (now : ℕ) (w : World) (i : Job)
      → IsSound w
      → first_claimable w.jobs ≡ some i
      → IsLeft k j w
      → IsLeft k j (
          spawned
            (returned (as_running now i))
            (record w.db { jobs = update job_key i.id (as_running now) w.jobs })
            w)
  IsLeft-claim now w i s first l = elim (Bool-cases (i.id == k)) [
    | inl same ↦ absurd (
        ground (
          arith,
          (==_iff i.id k).0 same,
          find-first_claimable w.jobs i s.orderly.keyed first,
          l.there,
          l.not_queued,
        ))
    | inr other ↦ record {
      there =
          ground (arith, find-update job_key i.id k (as_running now) (λ x. refl) w.jobs, l.there);
      not_queued = l.not_queued;
      no_task =
          ground (arith, find-append task_key k w.active (returned (as_running now i)), l.no_task);
    }
  ]

  IsLeft-fill :
      (fuel max : ℕ) (clock : ℕ → ℕ) (w : World)
      → IsSound w
      → IsLeft k j w
      → IsLeft k j (fill_slots fuel max clock w).0
  unfolding fill_slots
  IsLeft-fill zero max clock w s l = l
  IsLeft-fill (suc fuel) max clock w s l =
      elim (Bool-cases (not w.shutdown && ltb (in_flight w) max)) [
        | inr full ↦ simp full l
        | inl room ↦ elim (Bool-cases w.pool) [
          | inr down ↦ simp (room, claim_none (clock fuel) w.db (inl down)) l
          | inl up ↦ elim (Option-cases (first_claimable w.jobs)) [
            | inl idle ↦ simp (room, claim_none (clock fuel) w.db (inr idle)) l
            | inr (i, first) ↦
                simp (room, claim_some (clock fuel) w.db i up first)
                  (IsLeft-fill fuel max clock _ (claim-IsSound (clock fuel) w s i first)
                    (IsLeft-claim (clock fuel) w i s first l))
          ]
        ]
      ]

  IsLeft-step : {max : ℕ} {u w : World} → Step max u w → IsSound u → IsLeft k j u → IsLeft k j w
  unfolding create_job
  IsLeft-step {u = u} (submit i n new many) s l = elim (Bool-cases u.pool) [
    | inr down ↦ simp down l
    | inl up ↦ simp up (record {
      there = ground (arith, find-append job_key k u.jobs (job_of i n), l.there);
      not_queued = l.not_queued;
      no_task = l.no_task;
    })
  ]
  IsLeft-step {u = u} (cancel i now) s l = elim (cancel_job-cases i now u s) [
    | inl same ↦ rw same l
    | inr (x, f, waits, moved) ↦ rw moved (record {
      there = ground (
        arith,
        find-update job_key i k (as_cancelled now) (λ x. refl) u.jobs,
        l.there,
        l.not_queued,
        (==_iff i k).0,
      );
      not_queued = l.not_queued;
      no_task = l.no_task;
    })
  ]
  IsLeft-step {max = max} {u = u} (fill fuel clock) s l = IsLeft-fill fuel max clock u s l
  IsLeft-step {u = u} (finish c h now mine) s l =
      let apart : c.id ≢ k = (λ e. ground (arith, l.no_task, e, mine)) in
      record {
        there = elim (Bool-cases u.pool) [
          | inr down ↦ rw (run_claimed_down c h now u.store down) l.there
          | inl up ↦ rw (jobs-run_claimed c h now u.store up) (
              ground (
                arith,
                find-update job_key c.id k (ending c h now) (id-ending c h now) u.jobs,
                l.there,
              ))
        ];
        not_queued = l.not_queued;
        no_task = find-without_absent c.id k u.active l.no_task;
      }
  IsLeft-step reaped s l = record {
    there = l.there;
    not_queued = l.not_queued;
    no_task = l.no_task;
  }
  IsLeft-step {u = u} (beat now) s l = record {
    there = rw (jobs-heartbeat none now u.store) l.there;
    not_queued = l.not_queued;
    no_task = l.no_task;
  }
  IsLeft-step stop s l = record { there = l.there; not_queued = l.not_queued; no_task = l.no_task }
  IsLeft-step die s l = record { there = l.there; not_queued = l.not_queued; no_task = refl }

  -- A running job that no task of the worker holds, as after the death of the process, is left as it is
  -- for ever: no call, claim or task end changes its row again.
  pub IsLeft-stays :
      {max : ℕ} {u w : World} → Reach max u w → IsSound u → IsLeft k j u → IsLeft k j w
  IsLeft-stays here s l = l
  IsLeft-stays (next r st) s l = IsLeft-step st (Reach-IsSound r s) (IsLeft-stays r s l)

  -- A completed, failed or cancelled job keeps its row, every column of it, whatever happens after.
  pub ended_stays :
      {max : ℕ} {u w : World}
      → Reach max u w
      → IsSound u
      → find job_key k u.jobs ≡ some j
      → is_terminal j.status ≡ true
      → find job_key k w.jobs ≡ some j
  ended_stays {u = u} r s f over =
      (IsLeft-stays r s (record {
        there = f;
        not_queued = ground arith;
        no_task = elim (Option-cases (find task_key k u.active)) [
          | inl e ↦ e
          | inr (c, e) ↦
              let held : IsHeld u.jobs c = All-find task_key (IsHeld u.jobs) k u.active s.held e in
              absurd (ground (arith, key-find task_key k u.active e, held.1, held.2))
        ];
      })).there
