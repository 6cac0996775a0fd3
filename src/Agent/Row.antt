-- ===== src/Agent/Row.antt =====
-- What a run of an agent leaves in its row, when the row is there before (a run that the worker
-- takes).
use cora_os.Prelude.{
  ℕ, ◌≤◌, ◌<◌, ◌≡◌, refl, ap, ◌∙◌, inl, inr, String, Bool, true, false, Option, none, some, List,
  [], ◌∷◌, ◌++◌, is_some, arith, ==_refl, Bool-cases, Option-cases,
}
use mathlib.Core.Option
use cora_os.Prelude.Exec.{Outcome, ok, err}
use cora_os.Prelude.Table.{find, update, find-append, find-update}
use cora_os.Prelude.Text.{Text}
use cora_os.Governance.{GovernanceDb}
use cora_os.Agent.{
  Args, Verdict, Run, RunStatus, is_waiting, pending, running, run_key, Observation, StagedItem,
  Env, Settings, AgentDb, tick, write_run,
}
use cora_os.Agent.Calls.{handle_delegation}
use cora_os.Agent.Rounds.{Thread, update_run}
use cora_os.Agent.Ends.{
  Finished, AgentResult, result_of, written_row, evaluation_of, pending_items, concluded, is_judged,
}
use cora_os.Agent.Loop.{
  AgentRequest, budget_of, looped, start_run, opened_row, answer_of, no_hop, spoke_request,
  run_with, run_spoke, run_agent,
}
use cora_os.Agent.Frame.{IsFrame, kept-looped}
use cora_os.Agent.Runs.{IsSpokeRun, IsOpen, kept-handle_delegation, kept-run_spoke}
use cora_os.Agent.Safe.{IsFrame-Obeys, IsLocal-Obeys, IsOpen-Obeys}

-- the status of the row with an identifier
abbrev pub status_at : ℕ → AgentDb → Option RunStatus
status_at k db = Option.map (λ (r : Run). r.status) (find run_key k db.runs)

-- no longer pending or running
abbrev pub is_settled : RunStatus → Bool
is_settled pending = false
is_settled running = false
is_settled _ = true

-- The rows whose identifiers were generated before keep their status.
record IsFaithful (u v : AgentDb) : Type 0 where
  later : u.fresh ≤ v.fresh
  status : (k : ℕ) → k < u.fresh → status_at k v ≡ status_at k u

same-IsFaithful : {u v : AgentDb} → v.fresh ≡ u.fresh → v.runs ≡ u.runs → IsFaithful u v
same-IsFaithful p q = record {
  later = omega (arith, p);
  status = λ k h. ap (λ rs. Option.map (λ (r : Run). r.status) (find run_key k rs)) q;
}

next-IsFaithful : {u v w : AgentDb} → IsFaithful u v → IsFaithful v w → IsFaithful u w
next-IsFaithful g h = record {
  later = omega (arith, g.later, h.later);
  status = λ k l. h.status k (omega (arith, l, g.later)) ∙ g.status k l;
}

-- a write of other columns
pub column_lem :
    (j k : ℕ) (f : Run → Run)
    → ((r : Run) → (f r).id ≡ r.id)
    → ((r : Run) → (f r).status ≡ r.status)
    → (rs : List Run)
    → Option.map (λ (r : Run). r.status) (find run_key j (update run_key k f rs))
      ≡ Option.map (λ (r : Run). r.status) (find run_key j rs)
column_lem j k f keys same [] = refl
column_lem j k f keys same (r ∷ rs) = ground (arith, keys r, same r, column_lem j k f keys same rs)

update_run-IsFaithful :
    (k : Option ℕ) (th : Thread) (u : AgentDb) → IsFaithful u (update_run k th u)
unfolding write_run
update_run-IsFaithful none th u = same-IsFaithful refl refl
update_run-IsFaithful (some k) th u = elim (Bool-cases u.gov.pool) [
  | inr e ↦ simp e (same-IsFaithful refl refl)
  | inl e ↦ simp e (record {
    later = omega arith;
    status = λ j h. column_lem j k _ (λ r. refl) (λ r. refl) u.runs;
  })
]

-- a write to a row with a later identifier
later_lem :
    (j k : ℕ) (f : Run → Run)
    → ((r : Run) → (f r).id ≡ r.id)
    → j < k
    → (rs : List Run) → find run_key j (update run_key k f rs) ≡ find run_key j rs
later_lem j k f keys h rs = find-update run_key k j f keys rs ∙ ground arith

write_run-IsFaithful :
    (u : AgentDb) (k : ℕ) (f : Run → Run) (v : AgentDb)
    → ((r : Run) → (f r).id ≡ r.id)
    → u.fresh ≤ k
    → IsFaithful u v
    → IsFaithful u (write_run (some k) f v)
unfolding write_run
write_run-IsFaithful u k f v keys l g = elim (Bool-cases v.gov.pool) [
  | inr e ↦ simp e g
  | inl e ↦ simp e (record {
    later = g.later;
    status = λ j h.
        ap (Option.map (λ (r : Run). r.status)) (later_lem j k f keys (omega (arith, h, l)) v.runs)
        ∙ g.status j h;
  })
]

IsFrame-IsFaithful : (env : Env) (depth : ℕ) → IsFrame IsFaithful env depth
IsFrame-IsFaithful env depth = record {
  same = λ u. same-IsFaithful refl refl;
  next = next-IsFaithful;
  asks = λ u. same-IsFaithful refl refl;
  updates = update_run-IsFaithful;
  requests = λ e o r.
      same-IsFaithful (ap (λ (w : AgentDb). w.fresh) r.after)
        (ap (λ (w : AgentDb). w.runs) r.after);
}

IsOpen-IsFaithful : IsOpen IsFaithful
IsOpen-IsFaithful = record {
  delegates = λ d u. same-IsFaithful refl refl;
  numbers = λ u. record { later = omega arith; status = λ j h. refl };
}

-- the new row is no earlier one's
created_lem :
    (j : ℕ) (rs : List Run) (r : Run) → j < r.id → find run_key j (rs ++ r ∷ []) ≡ find run_key j rs
created_lem j rs r h = find-append run_key j rs r ∙ ground arith

-- an identifier that was not generated before
abbrev IsNew : AgentDb → Option ℕ → Type 0
IsNew u none = Unit
IsNew u (some k) = u.fresh ≤ k

IsNew-opened_row :
    (q : AgentRequest) (steps : ℕ) (u : AgentDb)
    → IsNew u (opened_row q steps u none).0 × IsFaithful u (opened_row q steps u none).1
IsNew-opened_row q steps u = elim (Bool-cases u.gov.pool) [
  | inr e ↦ simp e (tt, same-IsFaithful refl refl)
  | inl e ↦ simp e (
    omega arith,
    record {
      later = omega arith;
      status = λ j h. ap (Option.map (λ (r : Run). r.status)) (created_lem j u.runs _ h);
    },
  )
]

written_row-id :
    (env : Env) (f : Finished) (evaluation : Option Verdict) (items : List StagedItem) (now : ℕ)
    (r : Run)
    → (written_row env f evaluation items now r).id ≡ r.id
written_row-id env f evaluation [] now r = refl
written_row-id env f evaluation (i ∷ items) now r = refl

-- the evaluation changes no table
evaluation_of-stays :
    (env : Env) (set : Settings) (depth : ℕ) (goal : Text) (f : Finished) (v : AgentDb)
    → ((evaluation_of env set depth goal f v).1.gov ≡ v.gov)
      × ((evaluation_of env set depth goal f v).1.fresh ≡ v.fresh)
      × ((evaluation_of env set depth goal f v).1.runs ≡ v.runs)
evaluation_of-stays env set depth goal f v = elim (Bool-cases (is_judged set depth f)) [
  | inl e ↦ simp e (refl, refl, refl)
  | inr e ↦ simp e (refl, refl, refl)
]

concluded-IsFaithful :
    (env : Env) (set : Settings) (depth : ℕ) (k : Option ℕ) (goal : Text)
    (o : Outcome String Finished) (u v : AgentDb)
    → IsNew u k
    → IsFaithful u v
    → IsFaithful u (concluded env set depth k goal (o, v)).1
unfolding write_run
concluded-IsFaithful env set depth k goal (err e) u v new g = g
concluded-IsFaithful env set depth none goal (ok f) u v new g =
    let stays = evaluation_of-stays env set depth goal f v in
    next-IsFaithful g (same-IsFaithful stays.1 stays.2)
concluded-IsFaithful env set depth (some k) goal (ok f) u v new g =
    let judged = evaluation_of env set depth goal f v in
    let stays = evaluation_of-stays env set depth goal f v in
    write_run-IsFaithful u k _ judged.1
      (λ r.
        written_row-id env f judged.0 (pending_items env set depth f) (env.now (tick judged.1)) r)
      new (next-IsFaithful g (same-IsFaithful stays.1 stays.2))

answer_of-IsFaithful :
    (u : AgentDb) (o : Outcome String AgentResult) (v : AgentDb)
    → IsFaithful u v
    → IsFaithful u (answer_of (o, v)).1
answer_of-IsFaithful u (ok r) v g = g
answer_of-IsFaithful u (err e) v g = g

-- the run of a specialist has a row of its own
run_spoke-IsFaithful :
    (env : Env) (set : Settings) (q : AgentRequest) → IsSpokeRun IsFaithful (run_spoke env set q)
unfolding run_spoke run_with start_run write_run
run_spoke-IsFaithful env set q spoke args u =
    let q' = spoke_request env set q spoke args in
    elim (Bool-cases set.configured) [
      | inr e ↦ simp e (same-IsFaithful refl refl)
      | inl e ↦
          let start = opened_row q' (budget_of set q') u none in
          let new = IsNew-opened_row q' (budget_of set q') u in
          let ended = looped env set 1 no_hop q' start.0 start.1 in
          simp e (
            answer_of-IsFaithful u (concluded env set 1 start.0 q'.message ended).0
              (concluded env set 1 start.0 q'.message ended).1
              (concluded-IsFaithful env set 1 start.0 q'.message ended.0 u ended.1 new.0 (
                next-IsFaithful new.1 (
                  kept-looped (IsFrame-IsFaithful env 1) set no_hop
                    (λ k args' v. same-IsFaithful refl refl) q' start.0 start.1))))
    ]

-- What a run leaves, by its result.
pub record IsSettled (k : ℕ) (res : AgentResult) (v : AgentDb) : Type 0 where
  pub row : Run
  pub found : find run_key k v.runs ≡ some row
  pub status : row.status ≡ res.status
  pub over : is_settled res.status ≡ true
  pub pauses : is_waiting res.status ≡ is_some res.interrupt
  pub shown : is_waiting res.status ≡ true → row.interrupt ≡ res.interrupt
  pub completed : is_waiting res.status ≡ false → is_some row.completed_at ≡ true

abbrev pub Leaves : ℕ → Outcome String AgentResult × AgentDb → Type 0
Leaves k (ok res, v) = IsSettled k res v
Leaves k (err e, v) = status_at k v ≡ some running

IsSettled-written_row :
    (env : Env) (f : Finished) (evaluation : Option Verdict) (items : List StagedItem) (now k : ℕ)
    (r : Run) (v : AgentDb)
    → find run_key k v.runs ≡ some (written_row env f evaluation items now r)
    → IsSettled k (result_of (some k) evaluation items f) v
IsSettled-written_row env f evaluation (i ∷ items) now k r v e = record {
  row = written_row env f evaluation (i ∷ items) now r;
  found = e;
  status = refl;
  over = refl;
  pauses = refl;
  shown = λ h. refl;
  completed = λ h. cc;
}
IsSettled-written_row env f evaluation [] now k r v e = record {
  row = written_row env f evaluation [] now r;
  found = e;
  status = refl;
  over = ground arith;
  pauses = ground arith;
  shown = λ h. ground arith;
  completed = λ h. refl;
}

-- the row of a status
row_at :
    (k : ℕ) (v : AgentDb) (s : RunStatus)
    → status_at k v ≡ some s
    → (r : Run) × (find run_key k v.runs ≡ some r)
row_at k v s h = elim (Option-cases (find run_key k v.runs)) [ inr e ↦ e | inl e ↦ cc ]

Leaves-concluded :
    (env : Env) (set : Settings) (k : ℕ) (goal : Text) (o : Outcome String Finished) (v : AgentDb)
    → v.gov.pool ≡ true
    → status_at k v ≡ some running
    → Leaves k (concluded env set 0 (some k) goal (o, v))
unfolding write_run
Leaves-concluded env set k goal (err e) v up at = at
Leaves-concluded env set k goal (ok f) v up at =
    let judged = evaluation_of env set 0 goal f v in
    let stays = evaluation_of-stays env set 0 goal f v in
    let there = row_at k v running at in
    let items = pending_items env set 0 f in
    let now = env.now (tick judged.1) in
    let write = written_row env f judged.0 items now in
    let pooled : judged.1.gov.pool ≡ true = ap (λ (g : GovernanceDb). g.pool) stays.0 ∙ up in
    let held : find run_key k judged.1.runs ≡ some there.0 =
      ap (find run_key k) stays.2 ∙ there.1 in
    IsSettled-written_row env f judged.0 items now k there.0 (write_run (some k) write judged.1) (
      simp pooled (
        find-update run_key k k write (written_row-id env f judged.0 items now) judged.1.runs
        ∙ simp (==_refl k, held)))

-- the row of a run that starts
record IsStarted (k : ℕ) (u v : AgentDb) : Type 0 where
  gov : v.gov ≡ u.gov
  fresh : v.fresh ≡ u.fresh
  status : status_at k v ≡ some running

IsStarted-write_run :
    (k : ℕ) (r : Run) (db : AgentDb)
    → db.gov.pool ≡ true
    → find run_key k db.runs ≡ some r
    → IsStarted k db (write_run (some k) (λ (x : Run). record x { status = running }) db)
unfolding write_run
IsStarted-write_run k r db up there =
    let mark = λ (x : Run). record x { status = running } in
    let hit : find run_key k (update run_key k mark db.runs) ≡ some (mark r) =
      find-update run_key k k mark (λ x. refl) db.runs ∙ simp (==_refl k, there) in
    simp up
      (record { gov = refl; fresh = refl; status = ap (Option.map (λ (x : Run). x.status)) hit })

-- When the runtime is configured, the connection pool is open, and the identifiers that are generated
-- later differ from the row's: a run that is bound to a row of the table leaves the row as its result
-- says, with the result's status, which is no longer pending or running; with the result's interrupt
-- when it waits for the user, which it does exactly when there is one; and else with a time of
-- completion. If the run ends with an exception of the model's call that is not an httpx error, the
-- row is left with the status "running".
pub run_agent-Leaves :
    (env : Env) (set : Settings) (q : AgentRequest) (k : ℕ) (r : Run) (db : AgentDb)
    → set.configured ≡ true
    → db.gov.pool ≡ true
    → k < db.fresh
    → find run_key k db.runs ≡ some r
    → Leaves k (run_agent env set (record q { run_id = some k }) db)
unfolding run_agent run_with start_run
run_agent-Leaves env set q k r db on up old there =
    let q' = record q { run_id = some k } in
    let start = write_run (some k) (λ (x : Run). record x { status = running }) db in
    let started_row = IsStarted-write_run k r db up there in
    let delegating : Option ℕ → Args → AgentDb → Observation × AgentDb =
      λ j args v. handle_delegation env q.who j set.spokes 0 (run_spoke env set q') args v in
    let ended = looped env set 0 delegating q' (some k) start in
    let calm =
      kept-looped (IsFrame-IsFaithful env 0) set delegating
        (λ j.
          kept-handle_delegation (IsFrame-IsFaithful env 0) IsOpen-IsFaithful q.who j set.spokes 0
            (run_spoke env set q') (run_spoke-IsFaithful env set q'))
        q' (some k) start in
    let safe =
      kept-looped (IsFrame-Obeys env 0) set delegating
        (λ j.
          kept-handle_delegation (IsFrame-Obeys env 0) IsOpen-Obeys q.who j set.spokes 0
            (run_spoke env set q') (kept-run_spoke (IsFrame-Obeys env 1) IsLocal-Obeys set q'))
        q' (some k) start in
    simp on (
      Leaves-concluded env set k q.message ended.0 ended.1
        (ap (λ (g : GovernanceDb). g.pool) (safe.gov ∙ started_row.gov) ∙ up)
        (calm.status k (omega (arith, old, started_row.fresh)) ∙ started_row.status))
