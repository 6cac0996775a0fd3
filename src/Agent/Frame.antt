-- ===== src/Agent/Frame.antt =====
-- Relations between the tables before and after that the loop of a run keeps, because the requests and
-- the calls of a turn keep them.
use cora_os.Prelude.{
  is_nil, ℕ, zero, suc, ◌≡◌, ◌⊎◌, refl, sym, subst, inl, inr, Bool, true, false, Option, List, [],
  ◌∷◌, Bool-cases,
}
use cora_os.Agent.{
  Args, Call, Observation, ChatOutcome, replied, http_error, crashed, Env, Settings, AgentDb,
  Effect, model_called, dispatched, created, requested, tick,
}
use cora_os.Agent.Staging.{since}
use cora_os.Agent.Calls.{
  Desk, CallKind, delegate, staging, tool, kind_of_call, run_kind, run_one, execute_calls,
}
use cora_os.Agent.Requests.{IsRequest, dispatch_read_only-cases, handle_staging-cases}
use cora_os.Agent.Rounds.{
  Thread, LoopEnd, answered, exhausted, http_failed, crashed_with, Round, ends, goes_on, round_of,
  round, go_on, rounds, update_run, counted, with_reply, with_results,
}
use cora_os.Agent.Ends.{ended_loop}
use cora_os.Agent.Loop.{AgentRequest, budget_of, desk_of, opening, looped}

abbrev pub is_model_call : Effect → Bool
is_model_call (model_called depth) = true
is_model_call _ = false

-- A relation that the steps of a run at this depth keep.
pub record IsFrame (R : AgentDb → AgentDb → Type 0) (env : Env) (depth : ℕ) : Type 0 where
  pub same : (u : AgentDb) → R u u
  pub next : {u v w : AgentDb} → R u v → R v w → R u w
  pub asks : (u : AgentDb) → R u (requested (model_called depth) u)
  pub updates : (k : Option ℕ) (th : Thread) (u : AgentDb) → R u (update_run k th u)
  pub requests : (e : Effect) {u v : AgentDb} → is_model_call e ≡ false → IsRequest u e v → R u v

-- the same for a call that may make a request
kept-request :
    {R : AgentDb → AgentDb → Type 0} {env : Env} {depth : ℕ}
    → IsFrame R env depth
    → (e : Effect) {u v : AgentDb} → is_model_call e ≡ false
    → (v ≡ u) ⊎ IsRequest u e v
    → R u v
kept-request {R} fr e {u} o (inl q) = subst (R u) (sym q) (fr.same u)
kept-request fr e o (inr r) = fr.requests e o r

module _ {R : AgentDb → AgentDb → Type 0} {env : Env} {depth : ℕ} (fr : IsFrame R env depth) where
  -- the delegations of a desk keep the relation too
  abbrev pub IsDesk : (Args → AgentDb → Observation × AgentDb) → Type 0
  IsDesk delegating = (args : Args) (u : AgentDb) → R u (delegating args u).1

  kept-run_kind :
      (desk : Desk)
      → IsDesk desk.delegating
      → (kind : CallKind) (c : Call) (u : AgentDb) → R u (run_kind env desk kind c u).1
  kept-run_kind desk d delegate c u = d c.arguments u
  kept-run_kind desk d staging c u =
      kept-request fr (created desk.who.agent_name c.name (since env u)) refl
        (handle_staging-cases env desk.timezone desk.who.agent_name c.name c.arguments u)
  kept-run_kind desk d tool c u =
      kept-request fr (dispatched desk.who.agent_name c.name (since env u)) refl
        (dispatch_read_only-cases env desk.who.agent_name c.name c.arguments u)

  pub kept-execute_calls :
      (desk : Desk)
      → IsDesk desk.delegating
      → (cs : List Call) (u : AgentDb) → R u (execute_calls env desk cs u).1
  unfolding execute_calls
  kept-execute_calls desk d [] u = fr.same u
  kept-execute_calls desk d (c ∷ cs) u =
      fr.next (kept-run_kind desk d (kind_of_call desk.delegation_on desk.write_on c.name) c u)
        (kept-execute_calls desk d cs (run_one env desk c u).1)

  -- what the relation says of a round
  abbrev IsRound : AgentDb → Round → Type 0
  IsRound u (ends e th v) = R u v
  IsRound u (goes_on th v) = R u v

  kept-round_of :
      (desk : Desk)
      → IsDesk desk.delegating
      → (k : Option ℕ) (o : ChatOutcome) (th : Thread) (u : AgentDb)
      → IsRound u (round_of env desk k o th u)
  kept-round_of desk d k (http_error e) th u = fr.same u
  kept-round_of desk d k (crashed e) th u = fr.same u
  kept-round_of desk d k (replied r) th u = elim (Bool-cases (is_nil r.calls)) [
    | inl e ↦ rw e (fr.same u)
    | inr e ↦ rw e (
        fr.next (kept-execute_calls desk d r.calls u) (
          fr.updates k (with_results r.calls (execute_calls env desk r.calls u).0 (with_reply r th))
            (execute_calls env desk r.calls u).1))
  ]

  widened : {u v : AgentDb} → R u v → (r : Round) → IsRound v r → IsRound u r
  widened h (ends e th w) g = fr.next h g
  widened h (goes_on th w) g = fr.next h g

  kept-round :
      (desk : Desk)
      → IsDesk desk.delegating
      → (k : Option ℕ) (th : Thread) (u : AgentDb) → IsRound u (round env desk depth k th u)
  unfolding round
  kept-round desk d k th u = widened (fr.asks u) (round env desk depth k th u) (
      kept-round_of desk d k (env.chat (tick u) th.messages true) (counted th)
        (requested (model_called depth) u))

  kept-go_on :
      (u : AgentDb) (r : Round) (go : Thread → AgentDb → (LoopEnd × Thread) × AgentDb)
      → IsRound u r
      → ((th : Thread) (v : AgentDb) → R v (go th v).1)
      → R u (go_on r go).1
  kept-go_on u (ends e th v) go h f = h
  kept-go_on u (goes_on th v) go h f = fr.next h (f th v)

  pub kept-rounds :
      (desk : Desk)
      → IsDesk desk.delegating
      → (k : Option ℕ) (budget : ℕ) (th : Thread) (u : AgentDb)
      → R u (rounds env desk depth k budget th u).1
  unfolding rounds
  kept-rounds desk d k zero th u = fr.same u
  kept-rounds desk d k (suc n) th u =
      kept-go_on u (round env desk depth k th u) (λ th' v. rounds env desk depth k n th' v)
        (kept-round desk d k th u) (λ th' v. kept-rounds desk d k n th' v)

  kept-ended_loop :
      (u : AgentDb) (e : LoopEnd) (th : Thread) (v : AgentDb)
      → R u v
      → R u (ended_loop env depth ((e, th), v)).1
  kept-ended_loop u (answered t) th v h = h
  kept-ended_loop u (http_failed t) th v h = h
  kept-ended_loop u (crashed_with t) th v h = h
  kept-ended_loop u exhausted th v h = fr.next h (fr.asks v)

  -- The loop keeps the relation.
  pub kept-looped :
      (set : Settings) (delegating : Option ℕ → Args → AgentDb → Observation × AgentDb)
      → ((k : Option ℕ) → IsDesk (delegating k))
      → (q : AgentRequest) (k : Option ℕ) (u : AgentDb)
      → R u (looped env set depth delegating q k u).1
  unfolding looped
  kept-looped set delegating d q k u =
      let ran =
        rounds env (desk_of set depth (delegating k) q) depth k (budget_of set q)
          (opening set depth q) u in
      kept-ended_loop u ran.0.0 ran.0.1 ran.1 (
        kept-rounds (desk_of set depth (delegating k) q) (d k) k (budget_of set q)
          (opening set depth q) u)
