-- ===== src/PlanRun/Tame.antt =====
-- What the tool of a step does, and the relation between the tables before and after a run.
use cora_os.Prelude.{
  ℕ, ◌≡◌, refl, sym, ap, subst, ◌∙◌, inl, inr, String, true, false, Option, none, some, List, [],
  ◌∷◌, ◌++◌, All, All-append, arith, Bool-cases,
}
use mathlib.Core.List.{append-nil, append_assoc}
use cora_os.Prelude.Text.{Text}
use cora_os.Governance.{Tool, GovernanceDb, check_permission}
use cora_os.Governance.Decision.{may_run, check_permission_exact}
use cora_os.Planner.{Step}
use cora_os.Planner.Progress.{IsCounted}
use cora_os.PlanRun.{
  PlanWorld, PlanJob, Dispatch, find_by_name, agent_of, named_text, found_tool, tool_for, run_tool,
  execution_trace,
}

-- A dispatch of a tool of the table that governance allows the agent to run without being an admin.
abbrev pub IsCleared : ℕ → GovernanceDb → List Tool → Dispatch → Type 0
IsCleared since gov tools d =
    (name : Text) × (t : Tool) × (find_by_name name tools ≡ some t)
    × (t.name ≡ d.tool)
    × (may_run t d.agent false since gov ≡ true)

-- The later tables have the same tools and policies, the plans are as well counted as before, and each
-- further dispatch was cleared.
pub record IsTame (since : ℕ) (u v : PlanWorld) : Type 0 where
  pub gov : v.gov ≡ u.gov
  pub tools : v.tools ≡ u.tools
  pub counted : IsCounted u.plans → IsCounted v.plans
  pub made : List Dispatch
  pub log : v.dispatched ≡ u.dispatched ++ made
  pub cleared : All (IsCleared since u.gov u.tools) made

module _ (since : ℕ) where
  -- the same tables, but for traces, delegations and the next identifier
  pub same-IsTame :
      {u v : PlanWorld}
      → v.gov ≡ u.gov
      → v.tools ≡ u.tools
      → v.dispatched ≡ u.dispatched
      → (IsCounted u.plans → IsCounted v.plans)
      → IsTame since u v
  same-IsTame {u} g t d c = record {
    gov = g;
    tools = t;
    counted = c;
    made = [];
    log = d ∙ sym (append-nil u.dispatched);
    cleared = tt;
  }

  moved :
      {g g' : GovernanceDb} {ts ts' : List Tool}
      → g' ≡ g
      → ts' ≡ ts
      → (ds : List Dispatch) → All (IsCleared since g' ts') ds
      → All (IsCleared since g ts) ds
  moved {g} {g'} {ts} {ts'} p q ds h =
      subst (λ x. All (IsCleared since x ts) ds) p (subst (λ y. All (IsCleared since g' y) ds) q h)

  pub next-IsTame : {u v w : PlanWorld} → IsTame since u v → IsTame since v w → IsTame since u w
  next-IsTame {u} g h = record {
    gov = h.gov ∙ g.gov;
    tools = h.tools ∙ g.tools;
    counted = λ c. h.counted (g.counted c);
    made = g.made ++ h.made;
    log = h.log ∙ ap (λ ds. ds ++ h.made) g.log ∙ append_assoc u.dispatched g.made h.made;
    cleared =
        All-append (IsCleared since u.gov u.tools) g.made h.made g.cleared
          (moved g.gov g.tools h.made h.cleared);
  }

  pub trace-IsTame :
      (job : PlanJob) (trace_type status : String) (agent tool : Text) (w : PlanWorld)
      → IsTame since w (execution_trace job trace_type status agent tool w)
  trace-IsTame job trace_type status agent tool w = elim (Bool-cases w.gov.pool) [
    | inl e ↦ simp e (same-IsTame refl refl refl (λ c. c))
    | inr e ↦ simp e (same-IsTame refl refl refl (λ c. c))
  ]

-- what a tool's run leaves
module _ (job : PlanJob) (step : Step) where
  pub run_tool-IsTame : (w : PlanWorld) → IsTame job.since w (run_tool job step w).1
  unfolding run_tool
  run_tool-IsTame w = any_tool (named_text step.tool_name)
    where
      any_found :
          (name : Text) (o : Option Tool)
          → find_by_name name w.tools ≡ o
          → IsTame job.since w (found_tool job (agent_of step.assigned_agent) w o).1
      any_found name none h = same-IsTame job.since refl refl refl (λ c. c)
      any_found name (some t) h =
          let agent = agent_of step.assigned_agent in
          elim (Bool-cases (check_permission t agent false job.since w.gov).allowed) [
            | inr e ↦ simp e (same-IsTame job.since refl refl refl (λ c. c))
            | inl e ↦ simp e (record {
              gov = refl;
              tools = refl;
              counted = λ c. c;
              made = record { tool = t.name; agent = agent } ∷ [];
              log = refl;
              cleared = (
                (name, t, h, refl, sym (check_permission_exact t agent false job.since w.gov) ∙ e),
                tt,
              );
            })
          ]

      any_tool :
          (o : Option Text) → IsTame job.since w (tool_for job (agent_of step.assigned_agent) w o).1
      any_tool none = same-IsTame job.since refl refl refl (λ c. c)
      any_tool (some name) = any_found name (find_by_name name w.tools) refl

  pub run_tool-deleg : (w : PlanWorld) → (run_tool job step w).1.deleg ≡ w.deleg
  unfolding run_tool
  run_tool-deleg w = any_tool (named_text step.tool_name)
    where
      any_found :
          (o : Option Tool) → (found_tool job (agent_of step.assigned_agent) w o).1.deleg ≡ w.deleg
      any_found none = refl
      any_found (some t) =
          elim (Bool-cases
            (check_permission t (agent_of step.assigned_agent) false job.since w.gov).allowed) [
              | inr e ↦ simp e
              | inl e ↦ simp e
            ]

      any_tool :
          (o : Option Text) → (tool_for job (agent_of step.assigned_agent) w o).1.deleg ≡ w.deleg
      any_tool none = refl
      any_tool (some name) = any_found (find_by_name name w.tools)

pub trace-deleg :
    (job : PlanJob) (trace_type status : String) (agent tool : Text) (w : PlanWorld)
    → (execution_trace job trace_type status agent tool w).deleg ≡ w.deleg
trace-deleg job trace_type status agent tool w = ground arith
