-- ===== src/Agent/Safe.antt =====
-- What a run of an agent asks of other programs.
use cora_os.Prelude.{
  arith, suc, ℕ, ◌≡◌, refl, ap, subst, sym, ◌∙◌, List, [], ◌∷◌, ◌++◌, All, All-append,
}
use mathlib.Core.List.{append-nil, append_assoc}
use cora_os.Governance.{GovernanceDb}
use cora_os.Agent.{ToolRow, Effect, model_called, Env, Settings, AgentDb, requested}
use cora_os.Agent.Requests.{IsCleared}
use cora_os.Agent.Frame.{IsFrame}
use cora_os.Agent.Loop.{AgentRequest, run_agent}
use cora_os.Agent.Runs.{IsLocal, IsOpen, kept-write_run, kept-run_agent}

-- The later tables have the same tools and policies, and each further request was cleared by them.
pub record Obeys (u v : AgentDb) : Type 0 where
  pub gov : v.gov ≡ u.gov
  pub tools : v.tools ≡ u.tools
  pub made : List Effect
  pub effects : v.effects ≡ u.effects ++ made
  pub cleared : All (IsCleared u.gov u.tools) made

same-Obeys : (u : AgentDb) → Obeys u u
same-Obeys u = record {
  gov = refl;
  tools = refl;
  made = [];
  effects = sym (append-nil u.effects);
  cleared = tt;
}

moved :
    {g g' : GovernanceDb} {ts ts' : List ToolRow}
    → g' ≡ g
    → ts' ≡ ts
    → (es : List Effect) → All (IsCleared g' ts') es
    → All (IsCleared g ts) es
moved {g} {g'} {ts} {ts'} p q es h =
    subst (λ x. All (IsCleared x ts) es) p (subst (λ y. All (IsCleared g' y) es) q h)

next-Obeys : {u v w : AgentDb} → Obeys u v → Obeys v w → Obeys u w
next-Obeys {u} {v} {w} g h = record {
  gov = h.gov ∙ g.gov;
  tools = h.tools ∙ g.tools;
  made = g.made ++ h.made;
  effects = h.effects ∙ ap (λ es. es ++ h.made) g.effects ∙ append_assoc u.effects g.made h.made;
  cleared =
      All-append (IsCleared u.gov u.tools) g.made h.made g.cleared
        (moved g.gov g.tools h.made h.cleared);
}

one-Obeys : (e : Effect) (u : AgentDb) → IsCleared u.gov u.tools e → Obeys u (requested e u)
one-Obeys e u c = record {
  gov = refl;
  tools = refl;
  made = e ∷ [];
  effects = refl;
  cleared = (c, tt);
}

pub IsLocal-Obeys : IsLocal Obeys
IsLocal-Obeys = record {
  bears = λ runs fresh u later. record {
    gov = refl;
    tools = refl;
    made = [];
    effects = sym (append-nil u.effects);
    cleared = tt;
  };
}

pub IsOpen-Obeys : IsOpen Obeys
IsOpen-Obeys = record {
  delegates = λ d u. record {
    gov = refl;
    tools = refl;
    made = [];
    effects = sym (append-nil u.effects);
    cleared = tt;
  };
  numbers = λ u. IsLocal-Obeys.bears u.runs (suc u.fresh) u (omega arith);
}

pub IsFrame-Obeys : (env : Env) (depth : ℕ) → IsFrame Obeys env depth
IsFrame-Obeys env depth = record {
  same = same-Obeys;
  next = next-Obeys;
  asks = λ u. one-Obeys (model_called depth) u tt;
  updates = λ k th u. kept-write_run IsLocal-Obeys k _ u;
  requests = λ e {u} o r. subst (Obeys u) (sym r.after) (one-Obeys e u r.cleared);
}

-- Whatever the model answers, each request that a run of an agent adds to those made before is a call
-- of the model, or the dispatch of a read-only tool that the table has, that nobody has to confirm and
-- that is not of high risk, or the creation of an artifact by a staging tool that the table has as an
-- internal action; the agent that asks for a tool, which may be a specialist, is one that governance
-- allows to run it without being an admin. Nothing staged is fired. The tools, the policies and the
-- log that governance reads are left as they are.
pub run_agent-Obeys :
    (env : Env) (set : Settings) (q : AgentRequest) (db : AgentDb)
    → Obeys db (run_agent env set q db).1
run_agent-Obeys env set q db =
    kept-run_agent (IsFrame-Obeys env 0) (IsFrame-Obeys env 1) IsLocal-Obeys IsOpen-Obeys set q db
