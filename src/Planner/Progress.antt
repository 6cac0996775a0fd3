-- ===== src/Planner/Progress.antt =====
-- `current_step` is the number of the plan's steps that have ended, after every operation, and it
-- never falls.
use cora_os.Prelude.{
  ℕ, ◌+◌, ◌≡◌, ◌≢◌, refl, inl, inr, Bool, false, Option, some, List, [], ◌∷◌, ◌++◌, ◌==◌, ==_iff,
  arith, All, All-map, All-append, ap, sym, ◌∙◌, Bool-cases, Option-cases, is_some, if◌then◌else◌,
}
use cora_os.Prelude.Table.{update, All-update}
use cora_os.Prelude.Text.{Text}
use cora_os.Planner.Template.{StepTemplate, title_from_goal, template_steps}
use cora_os.Planner.Steps.{changed, Changes, update_step-cases}
use cora_os.Planner.{
  PlanStatus, Plan, Step, PlanDb, StepChange, plan_key, step_is_terminal, count_terminal,
  recompute_current_step, insert_steps, create_plan, update_plan, plan_written, step_written,
  find_step, update_where, update_step,
}

abbrev ended : Step → ℕ
ended s = if step_is_terminal s.status then 1 else 0

abbrev pub IsCountedBy : List Step → Plan → Type 0
IsCountedBy steps p = p.current_step ≡ count_terminal p.id steps

-- Every plan's `current_step` is the number of its steps in a terminal status.
abbrev pub IsCounted : PlanDb → Type 0
IsCounted db = All (IsCountedBy db.steps) db.plans

step_written_plan :
    (c : StepChange) (now : ℕ) (s : Step) → (step_written c now s).plan_id ≡ s.plan_id
unfolding step_written
step_written_plan c now s = refl

count-update_where :
    (k j : ℕ) (f : Step → Step) (row : Step) (ss : List Step)
    → ((s : Step) → (f s).plan_id ≡ s.plan_id)
    → find_step k j ss ≡ some row
    → count_terminal k (update_where k j f ss) + ended row ≡ count_terminal k ss + ended (f row)
unfolding count_terminal
count-update_where k j f row [] keeps h = cc
count-update_where k j f row (s ∷ ss) keeps h =
    ground (arith, keeps s, keeps row, count-update_where k j f row ss keeps)

count-update_where_ne :
    (k j p : ℕ) (f : Step → Step) (ss : List Step)
    → ((s : Step) → (f s).plan_id ≡ s.plan_id)
    → k ≢ p
    → count_terminal p (update_where k j f ss) ≡ count_terminal p ss
unfolding count_terminal
count-update_where_ne k j p f [] keeps h = refl
count-update_where_ne k j p f (s ∷ ss) keeps h =
    ground (arith, keeps s, count-update_where_ne k j p f ss keeps h)

pub update_plan-IsCounted :
    (k user : ℕ) (is_admin : Bool) (title goal : Option Text) (target : Option PlanStatus) (now : ℕ)
    (db : PlanDb)
    → IsCounted db
    → IsCounted (update_plan k user is_admin title goal target now db).1
unfolding update_plan
update_plan-IsCounted k user is_admin title goal target now db h = ground (
  arith,
  All-update plan_key (IsCountedBy db.steps) k (plan_written title goal target now) (λ p q e. q)
      db.plans h,
)

ended_same :
    (c : StepChange) (now : ℕ) (s : Step)
    → is_some c.status ≡ false
    → ended (step_written c now s) ≡ ended s
unfolding step_written
ended_same c now s h = ground arith

module _ (k j user : ℕ) (is_admin : Bool) (c : StepChange) (now : ℕ) (db : PlanDb) where
  abbrev steps' : List Step
  steps' = update_where k j (step_written c now) db.steps

  -- the recount, plan by plan
  recount-All :
      (ps : List Plan)
      → All (IsCountedBy db.steps) ps
      → All (IsCountedBy steps') (
          update plan_key k
            (λ p. record p { current_step = count_terminal k steps'; updated_at = now })
            ps)
  recount-All [] h = tt
  recount-All (p ∷ ps) h = elim (Bool-cases (p.id == k)) [
    | inl same ↦
        rw same
          (ap (λ n. count_terminal n steps') (sym ((==_iff p.id k).0 same)), recount-All ps h.1)
    | inr other ↦ rw other (
      ground (
        arith,
        count-update_where_ne k j p.id (step_written c now) db.steps (step_written_plan c now),
      ),
      recount-All ps h.1,
    )
  ]

  -- a change with no status leaves every count as it is
  untouched :
      (plan : Plan) (row : Step) (n : ℕ)
      → Changes k j user is_admin c now db plan row
      → is_some c.status ≡ false
      → count_terminal n steps' ≡ count_terminal n db.steps
  untouched plan row n m e = elim (Bool-cases (k == n)) [
    | inl same ↦ ground (
      arith,
      count-update_where k j (step_written c now) row db.steps (step_written_plan c now) m.there,
      ended_same c now row e,
    )
    | inr other ↦
        count-update_where_ne k j n (step_written c now) db.steps (step_written_plan c now)
          (ground arith)
  ]

  changed-IsCounted :
      (plan : Plan) (row : Step)
      → Changes k j user is_admin c now db plan row
      → IsCounted db
      → IsCounted (changed k j user is_admin c now db)
  unfolding recompute_current_step
  changed-IsCounted plan row m h = elim (Bool-cases (is_some c.status)) [
    | inl set ↦ rw set (recount-All db.plans h)
    | inr kept ↦ rw kept (All-map db.plans (λ p e. e ∙ sym (untouched plan row p.id m kept)) h)
  ]

  -- `update_step`, in every outcome, leaves each plan's `current_step` equal to the number of its
  -- steps that have ended.
  pub update_step-IsCounted : IsCounted db → IsCounted (update_step k j user is_admin c now db).1
  update_step-IsCounted h = elim (update_step-cases k j user is_admin c now db) [
    | inl (e, p) ↦ rw p h
    | inr (plan, row, m) ↦ rw (m.result) (changed-IsCounted plan row m h)
  ]

-- A new plan's steps are all pending.
count-insert_steps :
    (k n : ℕ) (ids : ℕ → ℕ) (m : ℕ) (ts : List StepTemplate)
    → count_terminal n (insert_steps k ids m ts) ≡ 0
unfolding count_terminal
count-insert_steps k n ids m [] = refl
count-insert_steps k n ids m (t ∷ ts) = ground (arith, count-insert_steps k n ids (m + 1) ts)

count-append :
    (n : ℕ) (xs ys : List Step)
    → count_terminal n (xs ++ ys) ≡ count_terminal n xs + count_terminal n ys
unfolding count_terminal
count-append n [] ys = omega arith
count-append n (x ∷ xs) ys = ground (arith, count-append n xs ys)

count_fresh : (k : ℕ) (ss : List Step) → All (λ s. s.plan_id ≢ k) ss → count_terminal k ss ≡ 0
unfolding count_terminal
count_fresh k [] h = refl
count_fresh k (s ∷ ss) h = ground (arith, count_fresh k ss h.1)

count_new :
    (k n : ℕ) (ids : ℕ → ℕ) (ss : List Step)
    → count_terminal n (ss ++ insert_steps k ids 1 template_steps) ≡ count_terminal n ss
count_new k n ids ss = omega (
  arith,
  count-append n ss (insert_steps k ids 1 template_steps),
  count-insert_steps k n ids 1 template_steps,
)

-- A plan created under an id that no step carries starts at 0, and the other plans keep their counts.
pub create_plan-IsCounted :
    (k : ℕ) (ids : ℕ → ℕ) (session user : Option ℕ) (goal : Text) (workspace : Option ℕ) (now : ℕ)
    (db : PlanDb)
    → All (λ s. s.plan_id ≢ k) db.steps
    → IsCounted db
    → IsCounted (create_plan k ids session user goal workspace now db).1
unfolding create_plan
create_plan-IsCounted k ids session user goal workspace now db fresh h = elim (Bool-cases db.pool) [
  | inr down ↦ simp down h
  | inl up ↦ elim (Option-cases (title_from_goal goal)) [
    | inl e ↦ simp (up, e) h
    | inr (t, e) ↦
        simp (up, e)
          (All-append (IsCountedBy (db.steps ++ insert_steps k ids 1 template_steps)) db.plans _
            (All-map db.plans (λ p c. c ∙ sym (count_new k p.id ids db.steps)) h)
            (sym (count_new k k ids db.steps ∙ count_fresh k db.steps fresh), tt))
  ]
]
