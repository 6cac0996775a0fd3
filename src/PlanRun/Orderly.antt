-- ===== src/PlanRun/Orderly.antt =====
-- What the run of a step, and of a plan, does to the tables that it shares with the rest.
use cora_os.Prelude.{
  ℕ, suc, ◌≡◌, refl, sym, subst, inl, inr, String, true, Option, none, some, List, [], ◌∷◌, arith,
  Bool-cases,
}
use cora_os.Prelude.Exec.{Outcome, ok, err}
use cora_os.Prelude.Table.{find}
use cora_os.Prelude.Text.{codes}
use cora_os.Planner.{
  plan_key, find_step, PlanStatus, PlanError, Plan, Step, PlanDb, step_is_terminal, update_step,
  fail_step,
}
use cora_os.Planner.Progress.{IsCounted, update_plan-IsCounted, update_step-IsCounted}
use cora_os.PlanRun.{
  PlanWorld, PlanJob, JobFailure, transient, permanent, crashed, plan_failed, plan_ended,
  StepOutcome, PlanOutcome, named_text, opened_for, open_delegation, run_tool, step_updated,
  execution_trace, tool_ran, run_found, execute_plan_step, with_plans, set_plan, plan_closed,
  step_failed, is_passed, after_step, run_steps, plan_started, plan_found, execute_plan, plan_steps,
  step_done, is_over, text_or,
}
use cora_os.PlanRun.Tame.{
  IsTame, same-IsTame, next-IsTame, trace-IsTame, run_tool-IsTame, run_tool-deleg, trace-deleg,
}
use cora_os.PlanRun.Opened.{
  IsClosedOff, IsOpened, IsOpened-opened_for, IsClosedOff-close_delegation_fail,
  IsClosedOff-close_delegation,
}

-- What a run of the handler does.
pub record IsOrderly (since : ℕ) (u v : PlanWorld) : Type 0 where
  pub tame : IsTame since u v
  pub settled_up : IsClosedOff u v

module _ (job : PlanJob) where
  same-IsOrderly : (w : PlanWorld) → IsOrderly job.since w w
  same-IsOrderly w = record {
    tame = same-IsTame job.since refl refl refl (λ c. c);
    settled_up = record { active = λ s p. omega arith };
  }

  next-IsOrderly :
      {u v w : PlanWorld}
      → IsOrderly job.since u v
      → IsOrderly job.since v w
      → IsOrderly job.since u w
  next-IsOrderly g h = record {
    tame = next-IsTame job.since g.tame h.tame;
    settled_up = record {
      active = λ s p. omega (arith, g.settled_up.active s p, h.settled_up.active s p);
    };
  }

  -- a change that leaves the delegations
  tame-IsOrderly :
      {u v : PlanWorld} → IsTame job.since u v → v.deleg ≡ u.deleg → IsOrderly job.since u v
  tame-IsOrderly t d = record {
    tame = t;
    settled_up = record { active = λ s p. rw d (omega arith) };
  }

  IsOrderly-step_updated :
      (u : PlanWorld) (k : Option ℕ) (w : PlanWorld) (o : Outcome PlanError Step) (plans : PlanDb)
      → IsTame job.since u w
      → IsOpened u k w.deleg
      → (IsCounted w.plans → IsCounted plans)
      → IsOrderly job.since u (step_updated job k w (o, plans)).1
  IsOrderly-step_updated u k w (ok step) plans t h c =
      let w' = record w { plans = plans } in
      let e = IsClosedOff-close_delegation job u k w' h in
      record {
        tame =
            next-IsTame job.since t
              (next-IsTame job.since (same-IsTame job.since refl refl refl c) e.1);
        settled_up = e.0;
      }
  IsOrderly-step_updated u k w (err x) plans t h c =
      let w' = record w { plans = plans } in
      let e = IsClosedOff-close_delegation_fail job u k "step transition failed" w' h in
      record {
        tame =
            next-IsTame job.since t
              (next-IsTame job.since (same-IsTame job.since refl refl refl c) e.1);
        settled_up = e.0;
      }

  IsOrderly-tool_ran :
      (u : PlanWorld) (step : Step) (k : Option ℕ) (o : Outcome JobFailure String) (w : PlanWorld)
      → IsTame job.since u w
      → IsOpened u k w.deleg
      → IsOrderly job.since u (tool_ran job step k (o, w)).1
  IsOrderly-tool_ran u step k (err f) w t h =
      let e = IsClosedOff-close_delegation_fail job u k "tool failed" w h in
      record { tame = next-IsTame job.since t e.1; settled_up = e.0 }
  IsOrderly-tool_ran u step k (ok result) w t h =
      let agent = text_or (codes "ATLAS") step.assigned_agent in
      let tool = text_or [] step.tool_name in
      let traced = execution_trace job "worker_execution" "ok" agent tool w in
      let r =
        update_step job.plan_id step.id job.acting_user true (step_done result) job.now
          traced.plans in
      IsOrderly-step_updated u k traced r.0 r.1
        (next-IsTame job.since t (trace-IsTame job.since job "worker_execution" "ok" agent tool w))
        (subst (IsOpened u k) (sym (trace-deleg job "worker_execution" "ok" agent tool w)) h)
        (update_step-IsCounted job.plan_id step.id job.acting_user true (step_done result) job.now
          traced.plans)

  IsOrderly-open :
      (w : PlanWorld) (step : Step)
      → (let o = open_delegation job step w in
          IsOrderly job.since w (tool_ran job step o.0 (run_tool job step o.1)).1)
  unfolding open_delegation
  IsOrderly-open w step =
      let o = opened_for job w (named_text step.assigned_agent) in
      let h = IsOpened-opened_for job w (named_text step.assigned_agent) in
      let r = run_tool job step o.1 in
      IsOrderly-tool_ran w step o.0 r.0 r.1
        (next-IsTame job.since h.1 (run_tool-IsTame job step o.1))
        (subst (IsOpened w o.0) (sym (run_tool-deleg job step o.1)) h.0)

  IsOrderly-run_found :
      (w : PlanWorld) (o : Option Step) → IsOrderly job.since w (run_found job w o).1
  IsOrderly-run_found w none = same-IsOrderly w
  IsOrderly-run_found w (some step) = elim (Bool-cases (step_is_terminal step.status)) [
    | inl e ↦ simp e (same-IsOrderly w)
    | inr e ↦ simp e (IsOrderly-open w step)
  ]

  -- A run of a step's handler, however it ends, keeps the plans' counts of ended steps, ends the
  -- delegation that it opens, and dispatches only tools that governance allows the step's agent.
  execute_plan_step-IsOrderly :
      (j : ℕ) (w : PlanWorld) → IsOrderly job.since w (execute_plan_step job j w).1
  unfolding execute_plan_step
  execute_plan_step-IsOrderly j w = IsOrderly-run_found w (find_step job.plan_id j w.plans.steps)

  IsOrderly-plans :
      (w : PlanWorld) (d : PlanDb)
      → (IsCounted w.plans → IsCounted d)
      → IsOrderly job.since w (with_plans d w)
  IsOrderly-plans w d c = tame-IsOrderly (same-IsTame job.since refl refl refl c) refl

  IsOrderly-set_plan :
      (target : PlanStatus) (w : PlanWorld) → IsOrderly job.since w (set_plan job target w).1
  IsOrderly-set_plan target w = IsOrderly-plans w _ (
      update_plan-IsCounted job.plan_id job.acting_user true none none (some target) job.now
        w.plans)

  IsOrderly-plan_closed :
      (status : String) (outcome : PlanOutcome) (o : Outcome PlanError Plan) (w : PlanWorld)
      → IsOrderly job.since w (plan_closed job status outcome (o, w)).1
  IsOrderly-plan_closed status outcome (err e) w = same-IsOrderly w
  IsOrderly-plan_closed status outcome (ok p) w =
      tame-IsOrderly
        (trace-IsTame job.since job "plan_execution" status (codes "ATLAS") (codes "execution_plan")
          w)
        (trace-deleg job "plan_execution" status (codes "ATLAS") (codes "execution_plan") w)

  IsOrderly-set_and_close :
      (target : PlanStatus) (status : String) (outcome : PlanOutcome) (w : PlanWorld)
      → IsOrderly job.since w (plan_closed job status outcome (set_plan job target w)).1
  IsOrderly-set_and_close target status outcome w =
      let r = set_plan job target w in
      next-IsOrderly (IsOrderly-set_plan target w) (IsOrderly-plan_closed status outcome r.0 r.1)

  IsOrderly-step_failed :
      (j : ℕ) (message : String) (n : ℕ) (w : PlanWorld)
      → IsOrderly job.since w (step_failed job j message n w).1
  unfolding fail_step
  IsOrderly-step_failed j message n w =
      let marked =
        fail_step job.plan_id j job.acting_user true (some (job.as_json message)) job.now w.plans in
      next-IsOrderly
        (IsOrderly-plans w marked.1
          (update_step-IsCounted job.plan_id j job.acting_user true _ job.now w.plans))
        (IsOrderly-set_and_close PlanStatus.failed "error" (plan_failed n) (with_plans marked.1 w))

  IsOrderly-after_step :
      (u : PlanWorld) (n j : ℕ) (more : PlanWorld → Outcome JobFailure PlanOutcome × PlanWorld)
      → ((w : PlanWorld) → IsOrderly job.since w (more w).1)
      → (o : Outcome JobFailure StepOutcome) (w : PlanWorld) → IsOrderly job.since u w
      → IsOrderly job.since u (after_step job n j more (o, w)).1
  IsOrderly-after_step u n j more f (ok r) w h = next-IsOrderly h (f w)
  IsOrderly-after_step u n j more f (err (transient e)) w h = h
  IsOrderly-after_step u n j more f (err (crashed e)) w h = h
  IsOrderly-after_step u n j more f (err (permanent e)) w h =
      next-IsOrderly h (IsOrderly-step_failed j e n w)

  IsOrderly-run_steps :
      (n : ℕ) (ss : List Step) (w : PlanWorld) → IsOrderly job.since w (run_steps job n ss w).1
  unfolding run_steps
  IsOrderly-run_steps n [] w = IsOrderly-set_and_close PlanStatus.completed "ok" (plan_ended n) w
  IsOrderly-run_steps n (s ∷ ss) w = elim (Bool-cases (is_passed s.status)) [
    | inl e ↦ simp e (IsOrderly-run_steps n ss w)
    | inr e ↦
        let r = execute_plan_step job s.id w in
        simp e (
          IsOrderly-after_step w n s.id (λ w'. run_steps job (suc n) ss w')
            (λ w'. IsOrderly-run_steps (suc n) ss w') r.0 r.1 (execute_plan_step-IsOrderly s.id w))
  ]

  IsOrderly-plan_started :
      (steps : List Step) (u : PlanWorld) (o : Outcome PlanError Plan) (w : PlanWorld)
      → IsOrderly job.since u w
      → IsOrderly job.since u (plan_started job steps (o, w)).1
  IsOrderly-plan_started steps u (err e) w h = h
  IsOrderly-plan_started steps u (ok p) w h = next-IsOrderly h (IsOrderly-run_steps 0 steps w)

  IsOrderly-plan_found :
      (w : PlanWorld) (o : Option Plan) → IsOrderly job.since w (plan_found job w o).1
  IsOrderly-plan_found w none = same-IsOrderly w
  IsOrderly-plan_found w (some plan) = elim (Bool-cases (is_over plan.status)) [
    | inl e ↦ simp e (same-IsOrderly w)
    | inr e ↦
        let r = set_plan job PlanStatus.running w in
        simp e (
          IsOrderly-plan_started (plan_steps job.plan_id w.plans.steps) w r.0 r.1
            (IsOrderly-set_plan PlanStatus.running w))
  ]

-- A run of a plan by the worker, however it ends and whatever the tools answer, keeps each plan's
-- count of its ended steps, ends every delegation that it opens, so that no session and no plan has
-- more active ones than before, and dispatches only tools of the table that governance allows the
-- step's agent to run without being an admin.
pub execute_plan-IsOrderly :
    (job : PlanJob) (w : PlanWorld) → IsOrderly job.since w (execute_plan job w).1
unfolding execute_plan
execute_plan-IsOrderly job w = IsOrderly-plan_found job w (find plan_key job.plan_id w.plans.plans)
