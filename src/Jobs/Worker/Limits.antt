-- ===== src/Jobs/Worker/Limits.antt =====
-- The bound on concurrent tasks, and how far one pass of `_fill_slots` goes.
use cora_os.Prelude.{
  ℕ, zero, suc, ◌+◌, ◌≤◌, ◌<◌, ◌≡◌, ◌⊎◌, inl, inr, Bool, true, false, not, ◌&&◌, none, some, List,
  [], ◌∷◌, ltb, arith, Bool-cases, Option-cases, length, length-append,
}
use cora_os.Prelude.Table.{find, update}
use cora_os.Jobs.{JobDb, Job, Claimed, first_claimable, as_running, job_key, returned}
use cora_os.Jobs.Worker.{World, in_flight, spawned, fill_slots}
use cora_os.Jobs.Worker.Pool.{
  Step, submit, cancel, fill, finish, reaped, beat, stop, die, Reach, here, next, without, task_key,
  claim_none, claim_some,
}

in_flight-spawned :
    (c : Claimed) (db : JobDb) (w : World) → in_flight (spawned c db w) ≡ suc (in_flight w)
in_flight-spawned c db w = omega (arith, length-append w.active (c ∷ []))

room-lt : (b : Bool) (m n : ℕ) → (not b && ltb m n) ≡ true → m < n
room-lt b m n h = ground arith

-- the world after the oldest claimable job is claimed
abbrev claimed_world : ℕ → Job → World → World
claimed_world now j w =
    spawned (returned (as_running now j))
      (record w.db { jobs = update job_key j.id (as_running now) w.jobs }) w

one_more : (now : ℕ) (j : Job) (w : World) → in_flight (claimed_world now j w) ≡ suc (in_flight w)
one_more now j w =
    in_flight-spawned (returned (as_running now j))
      (record w.db { jobs = update job_key j.id (as_running now) w.jobs }) w

-- One pass starts as many jobs as it says, and never goes past the limit.
pub fill_slots_bound :
    (fuel max : ℕ) (clock : ℕ → ℕ) (w : World)
    → in_flight w ≤ max
    → (in_flight (fill_slots fuel max clock w).0 ≡ in_flight w + (fill_slots fuel max clock w).1)
      × (in_flight (fill_slots fuel max clock w).0 ≤ max)
unfolding fill_slots
fill_slots_bound zero max clock w h = (omega arith, h)
fill_slots_bound (suc fuel) max clock w h =
    elim (Bool-cases (not w.shutdown && ltb (in_flight w) max)) [
      | inr full ↦ simp full (omega arith, h)
      | inl room ↦ elim (Bool-cases w.pool) [
        | inr down ↦ simp (room, claim_none (clock fuel) w.db (inl down)) (omega arith, h)
        | inl up ↦ elim (Option-cases (first_claimable w.jobs)) [
          | inl idle ↦ simp (room, claim_none (clock fuel) w.db (inr idle)) (omega arith, h)
          | inr (j, first) ↦
              let ih = fill_slots_bound fuel max clock (claimed_world (clock fuel) j w) (
                omega
                  (arith, one_more (clock fuel) j w, room-lt w.shutdown (in_flight w) max room)) in
              simp (room, claim_some (clock fuel) w.db j up first)
                (omega (arith, ih.0, one_more (clock fuel) j w), ih.1)
        ]
      ]
    ]

-- With fuel for the free slots, a pass ends because the worker is shutting down, every slot is
-- taken, or the table has no claimable job (or no connection pool) left.
pub fill_slots_full :
    (fuel max : ℕ) (clock : ℕ → ℕ) (w : World)
    → max ≤ fuel + in_flight w
    → let w' = (fill_slots fuel max clock w).0 in
      (w'.shutdown ≡ true)
      ⊎ ((max ≤ in_flight w') ⊎ ((w'.pool ≡ false) ⊎ (first_claimable w'.jobs ≡ none)))
unfolding fill_slots
fill_slots_full zero max clock w h = inr (inl (omega arith))
fill_slots_full (suc fuel) max clock w h =
    elim (Bool-cases (not w.shutdown && ltb (in_flight w) max)) [
      | inr full ↦ simp full (ground arith)
      | inl room ↦ elim (Bool-cases w.pool) [
        | inr down ↦ simp (room, claim_none (clock fuel) w.db (inl down)) (inr (inr (inl down)))
        | inl up ↦ elim (Option-cases (first_claimable w.jobs)) [
          | inl idle ↦ simp (room, claim_none (clock fuel) w.db (inr idle)) (inr (inr (inr idle)))
          | inr (j, first) ↦
              simp (room, claim_some (clock fuel) w.db j up first)
                (fill_slots_full fuel max clock (claimed_world (clock fuel) j w)
                  (omega (arith, one_more (clock fuel) j w)))
        ]
      ]
    ]

length-without :
    (k : ℕ) (cs : List Claimed) {c : Claimed}
    → find task_key k cs ≡ some c
    → suc (length (without k cs)) ≡ length cs
length-without k [] h = cc
length-without k (x ∷ cs) {c} h = ground (arith, length-without k cs {c = c})

step_bound : {max : ℕ} {u w : World} → Step max u w → in_flight u ≤ max → in_flight w ≤ max
step_bound (submit k n new many) h = h
step_bound (cancel k now) h = h
step_bound {max = max} {u = u} (fill fuel clock) h = (fill_slots_bound fuel max clock u h).1
step_bound {u = u} (finish c e now mine) h = omega (arith, length-without c.id u.active mine)
step_bound reaped h = omega arith
step_bound (beat now) h = h
step_bound stop h = h
step_bound die h = omega arith

-- The worker never holds more tasks, running or not yet reaped, than its limit.
pub Reach-bound : {max : ℕ} {u w : World} → Reach max u w → in_flight u ≤ max → in_flight w ≤ max
Reach-bound here h = h
Reach-bound (next r st) h = step_bound st (Reach-bound r h)
