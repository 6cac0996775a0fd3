-- ===== src/Agent/Closed.antt =====
-- The delegations of a run: each that it opens is ended.
use cora_os.Prelude.{
  ℕ, suc, ◌≤◌, ◌<◌, ◌≡◌, refl, sym, ap, ◌∙◌, inl, inr, String, false, Option, none, some, List, [],
  ◌∷◌, ◌++◌, arith, leb, All, All-append, All-map, Bool-cases,
}
use mathlib.Core.List.{append-nil, append_assoc}
use cora_os.Prelude.Exec.{Outcome, ok, err}
use cora_os.Prelude.Text.{Text, upper}
use cora_os.Delegations.{
  Delegation, DelegationDb, NewDelegation, DelegationStatus, create_delegation, is_active,
}
use cora_os.Delegations.Bounds.{
  Creates, create_delegation-cases, Ending, completes, fails, end_delegation,
}
use cora_os.Delegations.Ended.{rows-ended}
use cora_os.Agent.{Args, field, Spoke, Env, Settings, AgentDb, tick}
use cora_os.Agent.Calls.{
  Identity, SpokeRun, handed, find_spoke, new_delegation, delegated, closed, with_deleg,
  handle_delegation,
}
use cora_os.Agent.Loop.{AgentRequest, run_spoke, run_agent}
use cora_os.Agent.Frame.{IsFrame, IsDesk}
use cora_os.Agent.Runs.{IsLocal, kept-write_run, kept-run_spoke, kept-run_with}

abbrev rows_of : AgentDb → List Delegation
rows_of u = u.deleg.delegations

-- every identifier of a delegation was generated before
abbrev pub IsBelow : AgentDb → Type 0
IsBelow u = All (λ (d : Delegation). d.id < u.fresh) (rows_of u)

-- The rows of delegations are as before, each unchanged, and after them come rows that have ended.
pub record IsClosed (u v : AgentDb) : Type 0 where
  pub opened : List Delegation
  pub rows : v.deleg.delegations ≡ u.deleg.delegations ++ opened
  pub over : All (λ (d : Delegation). is_active d.status ≡ false) opened

-- the table of delegations is the same
record IsSame (u v : AgentDb) : Type 0 where
  deleg : v.deleg ≡ u.deleg
  later : u.fresh ≤ v.fresh

IsLocal-IsSame : IsLocal IsSame
IsLocal-IsSame = record { bears = λ runs fresh u l. record { deleg = refl; later = l } }

IsFrame-IsSame : (env : Env) (depth : ℕ) → IsFrame IsSame env depth
IsFrame-IsSame env depth = record {
  same = λ u. record { deleg = refl; later = omega arith };
  next = λ g h. record { deleg = h.deleg ∙ g.deleg; later = omega (arith, g.later, h.later) };
  asks = λ u. record { deleg = refl; later = omega arith };
  updates = λ k th u. kept-write_run IsLocal-IsSame k _ u;
  requests = λ e o r. record {
    deleg = ap (λ (w : AgentDb). w.deleg) r.after;
    later = omega (arith, ap (λ (w : AgentDb). w.fresh) r.after);
  };
}

-- what a part of a run does, from identifiers that were generated before
record IsClosing (u v : AgentDb) : Type 0 where
  later : u.fresh ≤ v.fresh
  below : IsBelow u → IsBelow v
  closes : IsBelow u → IsClosed u v

IsSame-IsClosing : {u v : AgentDb} → IsSame u v → IsClosing u v
IsSame-IsClosing {u} h = record {
  later = h.later;
  below = λ b. rw (h.deleg) (All-map (rows_of u) (λ d l. omega (arith, h.later, l)) b);
  closes = λ b. record {
    opened = [];
    rows = ap (λ (t : DelegationDb). t.delegations) h.deleg ∙ sym (append-nil (rows_of u));
    over = tt;
  };
}

next-IsClosed : {u v w : AgentDb} → IsClosed u v → IsClosed v w → IsClosed u w
next-IsClosed {u} g h = record {
  opened = g.opened ++ h.opened;
  rows =
      h.rows
      ∙ ap (λ (ds : List Delegation). ds ++ h.opened) g.rows
      ∙ append_assoc (rows_of u) g.opened h.opened;
  over = All-append _ g.opened h.opened g.over h.over;
}

IsLocal-IsClosing : IsLocal IsClosing
IsLocal-IsClosing = record {
  bears = λ runs fresh u l. IsSame-IsClosing (IsLocal-IsSame.bears runs fresh u l);
}

IsFrame-IsClosing : (env : Env) (depth : ℕ) → IsFrame IsClosing env depth
IsFrame-IsClosing env depth = record {
  same = λ u. IsSame-IsClosing ((IsFrame-IsSame env depth).same u);
  next = λ g h. record {
    later = omega (arith, g.later, h.later);
    below = λ b. h.below (g.below b);
    closes = λ b. next-IsClosed (g.closes b) (h.closes (g.below b));
  };
  asks = λ u. IsSame-IsClosing ((IsFrame-IsSame env depth).asks u);
  updates = λ k th u. IsSame-IsClosing ((IsFrame-IsSame env depth).updates k th u);
  requests = λ e o r. IsSame-IsClosing ((IsFrame-IsSame env depth).requests e o r);
}

module _ (env : Env) (who : Identity) where
  -- how the code ends a delegation
  abbrev ending : Outcome String Text → Ending
  ending (ok answer) = completes (some (env.as_string answer))
  ending (err e) = fails env.as_json e

  closed-end :
      (target : Text) (k : ℕ) (o : Outcome String Text) (v : AgentDb)
      → (closed env who target k o v).1.deleg
        ≡ end_delegation (ending o) k who.user_id (env.now (tick v)) v.deleg
  closed-end target k (ok answer) v = refl
  closed-end target k (err e) v = refl

  closed-fresh :
      (target : Text) (k : ℕ) (o : Outcome String Text) (v : AgentDb)
      → (closed env who target k o v).1.fresh ≡ v.fresh
  closed-fresh target k (ok answer) v = refl
  closed-fresh target k (err e) v = refl

  -- a delegation under the next identifier of `u`
  IsClosing-created :
      (target : Text) (n : NewDelegation) (o : Outcome String Text) (u v : AgentDb)
      (status : DelegationStatus)
      → Creates u.fresh n u.deleg status
      → v.deleg ≡ (create_delegation u.fresh n u.deleg).1
      → u.fresh < v.fresh
      → IsClosing u (closed env who target u.fresh o v).1
  IsClosing-created target n o u v status c same later =
      let after = (closed env who target u.fresh o v).1 in
      let number = closed-fresh target u.fresh o v in
      let added : IsBelow u
          → (row : Delegation) × (after.deleg.delegations ≡ rows_of u ++ row ∷ [])
            × (row.id ≡ u.fresh)
            × (is_active row.status ≡ false) =
        λ b.
          rw (closed-end target u.fresh o v, same)
            (rows-ended (ending o) u.fresh n u.deleg status who.user_id (env.now (tick v)) c b) in
      record {
        later = omega (arith, later, number);
        below = λ b. rw ((added b).1) (
            All-append (λ (d : Delegation). d.id < after.fresh) (rows_of u) ((added b).0 ∷ [])
              (All-map (rows_of u) (λ d l. omega (arith, later, number, l)) b)
              (omega (arith, (added b).2, later, number), tt));
        closes =
            λ b. record { opened = (added b).0 ∷ []; rows = (added b).1; over = ((added b).3, tt) };
      }

  module _ (run : SpokeRun)
      (keeps : (spoke : Spoke) (args : Args) (u : AgentDb) → IsSame u (run spoke args u).1) where
    IsClosing-delegated :
        (spoke : Spoke) (args : Args) (n : NewDelegation) (u : AgentDb)
        → IsClosing u
            (delegated env who run spoke args u.fresh
              (create_delegation u.fresh n u.deleg)
              (record u { fresh = suc u.fresh })).1
    IsClosing-delegated spoke args n u =
        let u' : AgentDb = record u { fresh = suc u.fresh } in
        elim (create_delegation-cases u.fresh n u.deleg) [
          | inl (e, r) ↦ rw r (IsSame-IsClosing (record { deleg = refl; later = omega arith }))
          | inr (status, c) ↦
              let d = (create_delegation u.fresh n u.deleg).1 in
              let ran = run spoke args (with_deleg d u') in
              let kept = keeps spoke args (with_deleg d u') in
              rw (c.returns) (
                IsClosing-created spoke.name n ran.0 u ran.1 status c kept.deleg
                  (omega (arith, kept.later)))
        ]

    IsClosing-handed :
        (parent : Option ℕ) (level : ℕ) (args : Args) (u : AgentDb) (o : Option Spoke)
        → IsClosing u (handed env who parent level run args u o).1
    IsClosing-handed parent level args u none = (IsFrame-IsClosing env 0).same u
    IsClosing-handed parent level args u (some spoke) = elim (Bool-cases (leb 1 level)) [
      | inl deep ↦ simp deep ((IsFrame-IsClosing env 0).same u)
      | inr room ↦ simp room (
          IsClosing-delegated spoke args
            (new_delegation env who parent (upper (field "agent" args)) args) u)
    ]

    IsClosing-handle_delegation :
        (parent : Option ℕ) (spokes : List Spoke) (level : ℕ)
        → IsDesk (IsFrame-IsClosing env 0) (handle_delegation env who parent spokes level run)
    unfolding handle_delegation
    IsClosing-handle_delegation parent spokes level args u =
        IsClosing-handed parent level args u (find_spoke (upper (field "agent" args)) spokes)

-- When the identifiers that the database generates are new: a run leaves every delegation that was there
-- as it was, whether or not it has a session, and each delegation that the run opens is ended, whether
-- the specialist answers, fails or ends with an exception. The calls of a turn run one after the other.
pub run_agent-IsClosed :
    (env : Env) (set : Settings) (q : AgentRequest) (db : AgentDb)
    → IsBelow db
    → IsClosed db (run_agent env set q db).1
unfolding run_agent
run_agent-IsClosed env set q db b =
    (kept-run_with (IsFrame-IsClosing env 0) IsLocal-IsClosing set
        (λ k args v. handle_delegation env q.who k set.spokes 0 (run_spoke env set q) args v)
        (λ k.
          IsClosing-handle_delegation env q.who (run_spoke env set q)
            (kept-run_spoke (IsFrame-IsSame env 1) IsLocal-IsSame set q) k set.spokes 0)
        q db).closes
      b
