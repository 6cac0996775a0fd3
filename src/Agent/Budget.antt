-- ===== src/Agent/Budget.antt =====
-- How often a run calls the model.
use cora_os.Prelude.{
  is_nil, String, ℕ, zero, suc, ◌+◌, ◌≤◌, ◌≡◌, refl, ap, ◌∙◌, inl, inr, true, false, Option, List,
  [], ◌∷◌, ◌++◌, ◌==◌, arith, Bool-cases, if◌then◌else◌,
}
use cora_os.Prelude.Exec.{Outcome, ok, err}
use cora_os.Prelude.Text.{Text}
use cora_os.Agent.{
  Args, Observation, ChatOutcome, replied, http_error, crashed, Effect, model_called, dispatched,
  created, fired, Env, Settings, AgentDb, tick, requested,
}
use cora_os.Agent.Calls.{Desk, execute_calls, handle_delegation}
use cora_os.Agent.Rounds.{
  Thread, LoopEnd, answered, exhausted, http_failed, crashed_with, Round, ends, goes_on, round_of,
  round, go_on, rounds, counted, with_reply, with_results,
}
use cora_os.Agent.Ends.{
  Finished, ended_loop, concluded, evaluation_of, is_error, pending_items, written_row,
}
use cora_os.Agent.Loop.{
  AgentRequest, budget_of, desk_of, opening, looped, unconfigured_row, start_run, run_with,
  run_spoke, run_agent,
}
use cora_os.Agent.Frame.{IsFrame, IsDesk, is_model_call, kept-execute_calls}
use cora_os.Agent.Runs.{
  IsLocal, IsOpen, kept-write_run, kept-start_run, kept-handle_delegation, kept-run_spoke,
}

-- the calls of the model that the requests contain, at a depth
abbrev pub model_calls : ℕ → List Effect → ℕ
model_calls depth [] = 0
model_calls depth (model_called d ∷ es) = (if d == depth then 1 else 0) + model_calls depth es
model_calls depth (e ∷ es) = model_calls depth es

model_calls-append :
    (depth : ℕ) (es : List Effect) (e : Effect)
    → model_calls depth (es ++ e ∷ []) ≡ model_calls depth es + model_calls depth (e ∷ [])
model_calls-append depth [] e = omega arith
model_calls-append depth (model_called d ∷ es) e = ground (arith, model_calls-append depth es e)
model_calls-append depth (dispatched a n t ∷ es) e = model_calls-append depth es e
model_calls-append depth (created a n t ∷ es) e = model_calls-append depth es e
model_calls-append depth (fired i ∷ es) e = model_calls-append depth es e

silent : (depth : ℕ) (e : Effect) → is_model_call e ≡ false → model_calls depth (e ∷ []) ≡ 0
silent depth (model_called d) h = cc
silent depth (dispatched a n t) h = refl
silent depth (created a n t) h = refl
silent depth (fired i) h = refl

-- the top level's own calls are as many as before
record IsSilent (u v : AgentDb) : Type 0 where
  calls : model_calls 0 v.effects ≡ model_calls 0 u.effects

IsLocal-IsSilent : IsLocal IsSilent
IsLocal-IsSilent = record { bears = λ runs fresh u later. record { calls = refl } }

IsOpen-IsSilent : IsOpen IsSilent
IsOpen-IsSilent = record {
  delegates = λ d u. record { calls = refl };
  numbers = λ u. record { calls = refl };
}

-- what a specialist does is silent
IsFrame-IsSilent : (env : Env) → IsFrame IsSilent env 1
IsFrame-IsSilent env = record {
  same = λ u. record { calls = refl };
  next = λ g h. record { calls = h.calls ∙ g.calls };
  asks = λ u. record { calls = omega (arith, model_calls-append 0 u.effects (model_called 1)) };
  updates = λ k th u. kept-write_run IsLocal-IsSilent k _ u;
  requests = λ e {u} {v} o r. record {
    calls =
        ap (λ (w : AgentDb). model_calls 0 w.effects) r.after
        ∙ omega (arith, model_calls-append 0 u.effects e, silent 0 e o);
  };
}

silent_within : {u v : AgentDb} → IsSilent u v → model_calls 0 v.effects ≤ model_calls 0 u.effects
silent_within {u} {v} s = omega (arith, s.calls)

-- one call of the model
asked_lem :
    (u : AgentDb)
    → model_calls 0 (requested (model_called 0) u).effects ≡ model_calls 0 u.effects + 1
asked_lem u = omega (arith, model_calls-append 0 u.effects (model_called 0))

-- the tables that a round leaves
abbrev left : Round → AgentDb
left (ends e th v) = v
left (goes_on th v) = v

module _ (env : Env) (desk : Desk) (d : IsDesk (IsFrame-IsSilent env) desk.delegating)
    (k : Option ℕ) where
  left-round_of :
      (o : ChatOutcome) (th : Thread) (u : AgentDb)
      → model_calls 0 (left (round_of env desk k o th u)).effects ≡ model_calls 0 u.effects
  left-round_of (http_error e) th u = refl
  left-round_of (crashed e) th u = refl
  left-round_of (replied r) th u = elim (Bool-cases (is_nil r.calls)) [
    | inl e ↦ simp e
    | inr e ↦
        let ran = execute_calls env desk r.calls u in
        let calm = kept-execute_calls (IsFrame-IsSilent env) desk d r.calls u in
        let row =
          (IsFrame-IsSilent env).updates k (with_results r.calls ran.0 (with_reply r th)) ran.1 in
        simp e (row.calls ∙ calm.calls)
  ]

  left-round :
      (th : Thread) (u : AgentDb)
      → model_calls 0 (left (round env desk 0 k th u)).effects ≡ model_calls 0 u.effects + 1
  unfolding round
  left-round th u =
      left-round_of (env.chat (tick u) th.messages true) (counted th) (requested (model_called 0) u)
      ∙ asked_lem u

  bound-go_on :
      (n : ℕ) (r : Round) (go : Thread → AgentDb → (LoopEnd × Thread) × AgentDb)
      → ((th : Thread) (v : AgentDb)
          → model_calls 0 (go th v).1.effects ≤ model_calls 0 v.effects + n)
      → model_calls 0 (go_on r go).1.effects ≤ model_calls 0 (left r).effects + n
  bound-go_on n (ends e th v) go h = omega arith
  bound-go_on n (goes_on th v) go h = h th v

  bound-rounds :
      (n : ℕ) (th : Thread) (u : AgentDb)
      → model_calls 0 (rounds env desk 0 k n th u).1.effects ≤ model_calls 0 u.effects + n
  unfolding rounds
  bound-rounds zero th u = omega arith
  bound-rounds (suc n) th u = omega (
    arith,
    left-round th u,
    bound-go_on n (round env desk 0 k th u) (λ th' v. rounds env desk 0 k n th' v)
        (λ th' v. bound-rounds n th' v),
  )

  bound-ended_loop :
      (e : LoopEnd) (th : Thread) (v : AgentDb)
      → model_calls 0 (ended_loop env 0 ((e, th), v)).1.effects ≤ model_calls 0 v.effects + 1
  bound-ended_loop (answered t) th v = omega arith
  bound-ended_loop (http_failed t) th v = omega arith
  bound-ended_loop (crashed_with t) th v = omega arith
  bound-ended_loop exhausted th v = omega (arith, asked_lem v)

-- the call of the evaluator
abbrev pub judge_calls : Settings → ℕ
judge_calls set = if set.eval_enabled then 1 else 0

bound-evaluation_of :
    (env : Env) (set : Settings) (goal : Text) (f : Finished) (v : AgentDb)
    → model_calls 0 (evaluation_of env set 0 goal f v).1.effects
      ≤ model_calls 0 v.effects + judge_calls set
bound-evaluation_of env set goal f v = elim (Bool-cases (is_error f.stopped)) [
  | inl e ↦ simp e (omega arith)
  | inr e ↦ elim (Bool-cases set.eval_enabled) [
    | inl on ↦ simp (e, on) (omega (arith, asked_lem v))
    | inr off ↦ simp (e, off) (omega arith)
  ]
]

bound-concluded :
    (env : Env) (set : Settings) (k : Option ℕ) (goal : Text) (o : Outcome String Finished)
    (v : AgentDb)
    → model_calls 0 (concluded env set 0 k goal (o, v)).1.effects
      ≤ model_calls 0 v.effects + judge_calls set
bound-concluded env set k goal (err e) v = omega arith
bound-concluded env set k goal (ok f) v =
    let judged = evaluation_of env set 0 goal f v in
    omega (
      arith,
      bound-evaluation_of env set goal f v,
      (kept-write_run IsLocal-IsSilent k
          (written_row env f judged.0 (pending_items env set 0 f) (env.now (tick judged.1)))
          judged.1).calls,
    )

abbrev pub Delegating : Type 0
Delegating = Option ℕ → Args → AgentDb → Observation × AgentDb

module _ (env : Env) (set : Settings) (delegating : Delegating)
    (d : (k : Option ℕ) → IsDesk (IsFrame-IsSilent env) (delegating k)) (q : AgentRequest) where
  bound-looped :
      (k : Option ℕ) (u : AgentDb)
      → model_calls 0 (looped env set 0 delegating q k u).1.effects
        ≤ model_calls 0 u.effects + budget_of set q + 1
  unfolding looped
  bound-looped k u =
      let desk = desk_of set 0 (delegating k) q in
      let ran = rounds env desk 0 k (budget_of set q) (opening set 0 q) u in
      omega (
        arith,
        bound-rounds env desk (d k) k (budget_of set q) (opening set 0 q) u,
        bound-ended_loop env desk (d k) k ran.0.0 ran.0.1 ran.1,
      )

  bound-run_with :
      (u : AgentDb)
      → model_calls 0 (run_with env set 0 delegating q u).1.effects
        ≤ model_calls 0 u.effects + budget_of set q + 1 + judge_calls set
  unfolding run_with
  bound-run_with u = elim (Bool-cases set.configured) [
    | inr e ↦ simp e (
        omega (
          arith,
          (kept-write_run IsLocal-IsSilent q.run_id (unconfigured_row (env.now (tick u))) u).calls,
        ))
    | inl e ↦
        let started = start_run q (budget_of set q) u in
        let ended = looped env set 0 delegating q started.0 started.1 in
        simp e (
          omega (
            arith,
            (kept-start_run IsLocal-IsSilent q (budget_of set q) u).calls,
            bound-looped started.0 started.1,
            bound-concluded env set started.0 q.message ended.0 ended.1,
          ))
  ]

-- A run of an agent at the top level calls the model at most once for each step of its budget, once
-- more for the answer that is forced when the budget is used up, and, when the evaluator is enabled,
-- once more for its verdict. The calls of the specialists' runs are not counted.
pub run_agent_bound :
    (env : Env) (set : Settings) (q : AgentRequest) (db : AgentDb)
    → model_calls 0 (run_agent env set q db).1.effects
      ≤ model_calls 0 db.effects + budget_of set q + 1 + judge_calls set
unfolding run_agent
run_agent_bound env set q db =
    bound-run_with env set
      (λ k args v. handle_delegation env q.who k set.spokes 0 (run_spoke env set q) args v)
      (λ k.
        kept-handle_delegation (IsFrame-IsSilent env) IsOpen-IsSilent q.who k set.spokes 0
          (run_spoke env set q) (kept-run_spoke (IsFrame-IsSilent env) IsLocal-IsSilent set q))
      q db
