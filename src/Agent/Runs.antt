-- ===== src/Agent/Runs.antt =====
-- Relations that a whole run keeps, delegations included: those that the loop keeps and that do not
-- read the tables of runs and of delegations.
use cora_os.Prelude.{
  String, suc, ℕ, ◌≤◌, arith, inl, inr, Bool, true, false, not, Option, none, some, List, leb,
  Bool-cases, if◌then◌else◌,
}
use cora_os.Prelude.Table.{update}
use cora_os.Prelude.Exec.{Outcome, ok, err}
use cora_os.Prelude.Text.{Text, upper}
use cora_os.Delegations.{Delegation, DelegationDb, DelegationError, create_delegation}
use cora_os.Agent.{
  Args, field, Run, run_key, Spoke, Observation, failed, depth_limit, Env, Settings, AgentDb,
  model_called, requested, write_run, tick,
}
use cora_os.Agent.Calls.{
  Identity, SpokeRun, handed, find_spoke, new_delegation, delegated, closed, with_deleg,
  handle_delegation,
}
use cora_os.Agent.Ends.{Finished, is_judged, evaluation_of, concluded, AgentResult}
use cora_os.Agent.Loop.{
  AgentRequest, budget_of, looped, not_configured, unconfigured_row, start_run, run_with,
  opened_row, answer_of, no_hop, spoke_request, run_spoke, run_agent,
}
use cora_os.Agent.Frame.{IsFrame, IsDesk, kept-looped}

-- The relation bears every change of the table of runs, and identifiers that are given out.
pub record IsLocal (R : AgentDb → AgentDb → Type 0) : Type 0 where
  pub bears :
      (runs : List Run) (fresh : ℕ) (u : AgentDb)
      → u.fresh ≤ fresh
      → R u (record u { runs = runs; fresh = fresh })

-- The relation bears every change of the table of delegations, and the next identifier's.
pub record IsOpen (R : AgentDb → AgentDb → Type 0) : Type 0 where
  pub delegates : (d : DelegationDb) (u : AgentDb) → R u (with_deleg d u)
  pub numbers : (u : AgentDb) → R u (record u { fresh = suc u.fresh })

module _ {R : AgentDb → AgentDb → Type 0} (loc : IsLocal R) where
  pub kept-write_run : (k : Option ℕ) (f : Run → Run) (u : AgentDb) → R u (write_run k f u)
  unfolding write_run
  kept-write_run none f u = loc.bears u.runs u.fresh u (omega arith)
  kept-write_run (some k) f u = elim (Bool-cases u.gov.pool) [
    | inl e ↦ simp e (loc.bears (update run_key k f u.runs) u.fresh u (omega arith))
    | inr e ↦ simp e (loc.bears u.runs u.fresh u (omega arith))
  ]

  kept-opened_row :
      (q : AgentRequest) (budget : ℕ) (u : AgentDb) (k : Option ℕ) → R u (opened_row q budget u k).1
  kept-opened_row q budget u (some k) = kept-write_run (some k) _ u
  kept-opened_row q budget u none = elim (Bool-cases u.gov.pool) [
    | inl e ↦ simp e (loc.bears _ (suc u.fresh) u (omega arith))
    | inr e ↦ simp e (loc.bears u.runs u.fresh u (omega arith))
  ]

  pub kept-start_run : (q : AgentRequest) (budget : ℕ) (u : AgentDb) → R u (start_run q budget u).1
  unfolding start_run
  kept-start_run q budget u = kept-opened_row q budget u q.run_id

module _ (R : AgentDb → AgentDb → Type 0) where
  kept-if :
      {A : Type 0} (b : Bool) (u : AgentDb) (x y : A × AgentDb)
      → R u x.1
      → R u y.1
      → R u (if b then x else y).1
  kept-if true u x y g h = g
  kept-if false u x y g h = h

module _ {R : AgentDb → AgentDb → Type 0} {env : Env} {depth : ℕ} (fr : IsFrame R env depth)
    (loc : IsLocal R) where
  kept-evaluation_of :
      (set : Settings) (goal : Text) (f : Finished) (v : AgentDb)
      → R v (evaluation_of env set depth goal f v).1
  kept-evaluation_of set goal f v =
      kept-if R (is_judged set depth f) v
        (env.evaluate_run (tick v) goal f.answer f.thread.steps, requested (model_called depth) v)
        (none, v) (fr.asks v) (fr.same v)

  kept-concluded :
      (set : Settings) (k : Option ℕ) (goal : Text) (u : AgentDb) (o : Outcome String Finished)
      (v : AgentDb)
      → R u v
      → R u (concluded env set depth k goal (o, v)).1
  kept-concluded set k goal u (err e) v h = h
  kept-concluded set k goal u (ok f) v h =
      let judged = evaluation_of env set depth goal f v in
      fr.next (fr.next h (kept-evaluation_of set goal f v)) (kept-write_run loc k _ judged.1)

  -- A run keeps the relation, if it bears the changes of the table of runs.
  pub kept-run_with :
      (set : Settings) (delegating : Option ℕ → Args → AgentDb → Observation × AgentDb)
      → ((k : Option ℕ) → IsDesk fr (delegating k))
      → (q : AgentRequest) (u : AgentDb) → R u (run_with env set depth delegating q u).1
  unfolding run_with
  kept-run_with set delegating d q u =
      kept-if R (not set.configured) u
        (ok (not_configured q.run_id), write_run q.run_id (unconfigured_row (env.now (tick u))) u) _
        (kept-write_run loc q.run_id _ u)
        (let opened_row = start_run q (budget_of set q) u in
          let ended = looped env set depth delegating q opened_row.0 opened_row.1 in
          kept-concluded set opened_row.0 q.message u ended.0 ended.1 (
            fr.next (kept-start_run loc q (budget_of set q) u)
              (kept-looped fr set delegating d q opened_row.0 opened_row.1)))

-- what a specialist's run keeps
abbrev pub IsSpokeRun : (AgentDb → AgentDb → Type 0) → SpokeRun → Type 0
IsSpokeRun R run = (spoke : Spoke) (args : Args) (u : AgentDb) → R u (run spoke args u).1

module _ {R : AgentDb → AgentDb → Type 0} {env : Env} {depth : ℕ} (fr : IsFrame R env depth)
    (del : IsOpen R) where
  kept-closed :
      (who : Identity) (target : Text) (k : ℕ) (u : AgentDb) (o : Outcome String Text) (v : AgentDb)
      → R u v
      → R u (closed env who target k o v).1
  kept-closed who target k u (ok a) v h = fr.next h (del.delegates _ v)
  kept-closed who target k u (err e) v h = fr.next h (del.delegates _ v)

  kept-delegated :
      (who : Identity) (run : SpokeRun)
      → IsSpokeRun R run
      → (spoke : Spoke) (args : Args) (k : ℕ) (o : Outcome DelegationError Delegation)
        (d : DelegationDb) (u : AgentDb)
      → R u (delegated env who run spoke args k (o, d) u).1
  kept-delegated who run h spoke args k (err e) d u = del.delegates d u
  kept-delegated who run h spoke args k (ok row) d u =
      let ran = run spoke args (with_deleg d u) in
      kept-closed who spoke.name k u ran.0 ran.1
        (fr.next (del.delegates d u) (h spoke args (with_deleg d u)))

  kept-handed :
      (who : Identity) (parent : Option ℕ) (level : ℕ) (run : SpokeRun)
      → IsSpokeRun R run
      → (args : Args) (u : AgentDb) (o : Option Spoke)
      → R u (handed env who parent level run args u o).1
  kept-handed who parent level run h args u none = fr.same u
  kept-handed who parent level run h args u (some spoke) =
      let made =
        create_delegation u.fresh (new_delegation env who parent (upper (field "agent" args)) args)
          u.deleg in
      kept-if R (leb 1 level) u (failed depth_limit, u) _ (fr.same u)
        (fr.next (del.numbers u) (
          kept-delegated who run h spoke args u.fresh made.0 made.1
            (record u { fresh = suc u.fresh })))

  pub kept-handle_delegation :
      (who : Identity) (parent : Option ℕ) (spokes : List Spoke) (level : ℕ) (run : SpokeRun)
      → IsSpokeRun R run
      → IsDesk fr (handle_delegation env who parent spokes level run)
  unfolding handle_delegation
  kept-handle_delegation who parent spokes level run h args u =
      kept-handed who parent level run h args u (find_spoke (upper (field "agent" args)) spokes)

module _ {R : AgentDb → AgentDb → Type 0} {env : Env} (fr : IsFrame R env 1) (loc : IsLocal R) where
  kept-answer_of :
      (u : AgentDb) (o : Outcome String AgentResult) (v : AgentDb)
      → R u v
      → R u (answer_of (o, v)).1
  kept-answer_of u (ok r) v h = h
  kept-answer_of u (err e) v h = h

  -- The run of a specialist keeps the relation.
  pub kept-run_spoke : (set : Settings) (q : AgentRequest) → IsSpokeRun R (run_spoke env set q)
  unfolding run_spoke
  kept-run_spoke set q spoke args u =
      let ran = run_with env set 1 no_hop (spoke_request env set q spoke args) u in
      kept-answer_of u ran.0 ran.1 (
        kept-run_with fr loc set no_hop (λ k args' v. fr.same v)
          (spoke_request env set q spoke args) u)

-- A whole run keeps the relation.
pub kept-run_agent :
    {R : AgentDb → AgentDb → Type 0} {env : Env} (hub : IsFrame R env 0) (hop : IsFrame R env 1)
    (loc : IsLocal R) (del : IsOpen R) (set : Settings) (q : AgentRequest) (u : AgentDb)
    → R u (run_agent env set q u).1
unfolding run_agent
kept-run_agent {env = env} hub hop loc del set q u =
    kept-run_with hub loc set
      (λ k args v. handle_delegation env q.who k set.spokes 0 (run_spoke env set q) args v)
      (λ k.
        kept-handle_delegation hub del q.who k set.spokes 0 (run_spoke env set q)
          (kept-run_spoke hop loc set q))
      q u
