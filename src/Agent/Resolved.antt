-- ===== src/Agent/Resolved.antt =====
-- The approval of a run that waits.
use cora_os.Prelude.{
  ℕ, ◌≡◌, refl, sym, ap, ◌∙◌, inl, inr, Bool, true, false, not, ◌&&◌, Option, none, some, List, [],
  ◌∷◌, ◌++◌, map, arith, ==_refl, Bool-cases, Option-cases, if◌then◌else◌,
}
use mathlib.Core.List.{append-nil, append_assoc}
use mathlib.Core.Option
use cora_os.Prelude.Table.{find, update, find-update}
use cora_os.Prelude.Text.{Text}
use cora_os.Agent.{
  Executed, Interrupt, StagedItem, RunStatus, is_waiting, Run, run_key, Settings, Env, AgentDb,
  fired, tick, requested, write_run,
}
use cora_os.Agent.Words.{ConfirmDecision, approve, reject, parse_decision}
use cora_os.Agent.Row.{status_at, column_lem}
use cora_os.Agent.Confirm.{
  is_calendar, is_owned, fire_staged, find_waiting, waiting_row, is_blocked, approves, payload_of,
  decided, decided_status, decide_row, record_executed, carried_out, Resolution, blocked, resolved,
  on_waiting, resolve_interrupt,
}

abbrev pub calendar_items : List StagedItem → List StagedItem
calendar_items [] = []
calendar_items (i ∷ is) = if is_calendar i.kind then i ∷ calendar_items is else calendar_items is

-- what an approval makes the program fire: nothing, but for the calendar items of a waiting run that
-- is approved while both switches are on
abbrev due_items : Settings → Option ConfirmDecision → Bool → Option Run → List StagedItem
due_items set (some approve) override (some r) =
    if set.interrupt_enabled && set.execution_enabled && not (is_blocked set approve override r)
    then calendar_items (payload_of r.interrupt).items
    else []
due_items set _ override _ = []

abbrev pub due : Settings → ℕ → Option ℕ → Text → Bool → AgentDb → List StagedItem
due set k user decision override db =
    if db.gov.pool
    then due_items set (parse_decision decision) override (find_waiting k user db)
    else []

effects-fire_staged :
    (env : Env) (is : List StagedItem) (u : AgentDb)
    → (fire_staged env is u).1.effects ≡ u.effects ++ map fired (calendar_items is)
unfolding fire_staged
effects-fire_staged env [] u = sym (append-nil u.effects)
effects-fire_staged env (i ∷ is) u = elim (Bool-cases (is_calendar i.kind)) [
  | inl e ↦ simp e (
      effects-fire_staged env is (requested (fired i) u)
      ∙ append_assoc u.effects (fired i ∷ []) (map fired (calendar_items is)))
  | inr e ↦ simp e (effects-fire_staged env is u)
]

effects-record_executed :
    (k : ℕ) (i : Interrupt) (es : List Executed) (u : AgentDb)
    → (record_executed k i es u).effects ≡ u.effects
unfolding write_run
effects-record_executed k i [] u = refl
effects-record_executed k i (e ∷ es) u = ground arith

-- the approval's gates
abbrev opened : Settings → ConfirmDecision → Bool
opened set decision = approves decision && set.interrupt_enabled && set.execution_enabled

effects-carried_out :
    (env : Env) (set : Settings) (decision : ConfirmDecision) (k : ℕ) (i : Interrupt) (u : AgentDb)
    → (carried_out env set decision k i u).effects
      ≡ u.effects ++ map fired (if opened set decision then calendar_items i.items else [])
unfolding carried_out
effects-carried_out env set decision k i u = elim (Bool-cases (opened set decision)) [
  | inr e ↦ simp e (sym (append-nil u.effects))
  | inl e ↦
      let shot = fire_staged env i.items u in
      simp e (effects-record_executed k i shot.0 shot.1 ∙ effects-fire_staged env i.items u)
]

blocked_due :
    (set : Settings) (decision : ConfirmDecision) (override : Bool) (r : Run)
    → is_blocked set decision override r ≡ true
    → due_items set (some decision) override (some r) ≡ []
blocked_due set approve override r h = ground arith
blocked_due set reject override r h = refl

free_due :
    (set : Settings) (decision : ConfirmDecision) (override : Bool) (r : Run)
    → is_blocked set decision override r ≡ false
    → (if opened set decision then calendar_items (payload_of r.interrupt).items else [])
      ≡ due_items set (some decision) override (some r)
free_due set approve override r h = ground arith
free_due set reject override r h = refl

effects-on_waiting :
    (env : Env) (set : Settings) (k : ℕ) (user : Option ℕ) (decision : ConfirmDecision)
    (override : Bool) (db : AgentDb) (o : Option Run)
    → (on_waiting env set k user decision override db o).1.effects
      ≡ db.effects ++ map fired (due_items set (some decision) override o)
effects-on_waiting env set k user approve override db none = sym (append-nil db.effects)
effects-on_waiting env set k user reject override db none = sym (append-nil db.effects)
effects-on_waiting env set k user decision override db (some r) =
    elim (Bool-cases (is_blocked set decision override r)) [
      | inl e ↦ simp (e, blocked_due set decision override r e) (sym (append-nil db.effects))
      | inr e ↦
          let row = decide_row decision (decided decision override r) (env.now (tick db)) in
          simp e (
            effects-carried_out env set decision k (decided decision override r)
              (record db { runs = update run_key k row db.runs })
            ∙ ap (λ is. db.effects ++ map fired is) (free_due set decision override r e))
    ]

-- `resolve_interrupt` fires what is due and nothing else, once each and in the order in which it was
-- staged: the calendar items of the run, if the text says "approve", the run waits and is the user's
-- or nobody's, the switches for interrupts and for execution are on, and the evaluator's gate does not
-- block the approval. Drafts of mail are never among them.
pub resolve_interrupt_fires :
    (env : Env) (set : Settings) (k : ℕ) (user : Option ℕ) (decision : Text) (override : Bool)
    (db : AgentDb)
    → (resolve_interrupt env set k user decision override db).1.effects
      ≡ db.effects ++ map fired (due set k user decision override db)
unfolding resolve_interrupt
resolve_interrupt_fires env set k user decision override db = elim (Bool-cases db.gov.pool) [
  | inr e ↦ simp e (sym (append-nil db.effects))
  | inl e ↦ elim (Option-cases (parse_decision decision)) [
    | inl p ↦ simp (e, p) (sym (append-nil db.effects))
    | inr (d, p) ↦
        simp (e, p) (effects-on_waiting env set k user d override db (find_waiting k user db))
  ]
]

status-record_executed :
    (k : ℕ) (i : Interrupt) (es : List Executed) (j : ℕ) (u : AgentDb)
    → status_at j (record_executed k i es u) ≡ status_at j u
unfolding write_run
status-record_executed k i [] j u = refl
status-record_executed k i (e ∷ es) j u = elim (Bool-cases u.gov.pool) [
  | inr down ↦ simp down
  | inl up ↦ simp up (
      column_lem j k (λ (r : Run). record r { interrupt = some (record i { executed = e ∷ es }) })
        (λ r. refl) (λ r. refl) u.runs)
]

runs-fire_staged :
    (env : Env) (is : List StagedItem) (u : AgentDb) → (fire_staged env is u).1.runs ≡ u.runs
unfolding fire_staged
runs-fire_staged env [] u = refl
runs-fire_staged env (i ∷ is) u = elim (Bool-cases (is_calendar i.kind)) [
  | inl e ↦ simp e (runs-fire_staged env is (requested (fired i) u))
  | inr e ↦ simp e (runs-fire_staged env is u)
]

status-carried_out :
    (env : Env) (set : Settings) (decision : ConfirmDecision) (k : ℕ) (i : Interrupt) (j : ℕ)
    (u : AgentDb)
    → status_at j (carried_out env set decision k i u) ≡ status_at j u
unfolding carried_out
status-carried_out env set decision k i j u = elim (Bool-cases (opened set decision)) [
  | inr e ↦ simp e
  | inl e ↦
      let shot = fire_staged env i.items u in
      simp e (
        status-record_executed k i shot.0 j shot.1
        ∙ ap (λ rs. Option.map (λ (r : Run). r.status) (find run_key j rs))
            (runs-fire_staged env i.items u))
]

-- What a call leaves, by its result: a decided run, or the tables as they were.
abbrev pub Decides : ℕ → Option ConfirmDecision → AgentDb → Option Resolution × AgentDb → Type 0
Decides k decision db (some (resolved r), v) = status_at k v ≡ Option.map decided_status decision
Decides k decision db (some blocked, v) = v ≡ db
Decides k decision db (none, v) = v ≡ db

waiting_row-some :
    (user : Option ℕ) (o : Option Run) (r : Run) → waiting_row user o ≡ some r → o ≡ some r
waiting_row-some user none r h = h
waiting_row-some user (some x) r h =
    elim (Bool-cases (is_owned user x.user_id && is_waiting x.status)) [
      | inl e ↦ simp e at h
      | inr e ↦ (let no : none ≡ some r = simp e at h in cc)
    ]

found_waiting :
    (k : ℕ) (user : Option ℕ) (db : AgentDb) (r : Run)
    → find_waiting k user db ≡ some r
    → find run_key k db.runs ≡ some r
unfolding find_waiting
found_waiting k user db r h = waiting_row-some user (find run_key k db.runs) r h

Decides-on_waiting :
    (env : Env) (set : Settings) (k : ℕ) (user : Option ℕ) (decision : ConfirmDecision)
    (override : Bool) (db : AgentDb) (o : Option Run)
    → find_waiting k user db ≡ o
    → Decides k (some decision) db (on_waiting env set k user decision override db o)
Decides-on_waiting env set k user decision override db none h = refl
Decides-on_waiting env set k user decision override db (some r) h =
    elim (Bool-cases (is_blocked set decision override r)) [
      | inl e ↦ simp e
      | inr e ↦
          let i = decided decision override r in
          let row = decide_row decision i (env.now (tick db)) in
          let there = found_waiting k user db r h in
          let mid = record db { runs = update run_key k row db.runs } in
          let hit : find run_key k (update run_key k row db.runs) ≡ some (row r) =
            find-update run_key k k row (λ x. refl) db.runs ∙ simp (==_refl k, there) in
          simp e (
            status-carried_out env set decision k i k mid
            ∙ ap (Option.map (λ (x : Run). x.status)) hit)
    ]

-- `resolve_interrupt` decides a run or changes nothing: when it returns the run, the row has the status
-- of the decision, "done" for an approval and "cancelled" for a rejection; when it reports that the
-- evaluator's verdict blocks the approval, or returns nothing, no table is changed and no request is
-- made.
resolve_interrupt-Decides :
    (env : Env) (set : Settings) (k : ℕ) (user : Option ℕ) (decision : Text) (override : Bool)
    (db : AgentDb)
    → Decides k (parse_decision decision) db (resolve_interrupt env set k user decision override db)
unfolding resolve_interrupt
resolve_interrupt-Decides env set k user decision override db = elim (Bool-cases db.gov.pool) [
  | inr e ↦ simp e
  | inl e ↦ elim (Option-cases (parse_decision decision)) [
    | inl p ↦ simp (e, p)
    | inr (d, p) ↦
        simp (e, p) (Decides-on_waiting env set k user d override db (find_waiting k user db) refl)
  ]
]

not_waiting : (d : ConfirmDecision) (s : RunStatus) → s ≡ decided_status d → is_waiting s ≡ false
not_waiting approve s h = ap is_waiting h
not_waiting reject s h = ap is_waiting h

decided_waiting :
    (user : Option ℕ) (d : Option ConfirmDecision) (o : Option Run)
    → Option.map (λ (r : Run). r.status) o ≡ Option.map decided_status d
    → waiting_row user o ≡ none
decided_waiting user d none h = refl
decided_waiting user none (some x) h = cc
decided_waiting user (some d) (some x) h =
    (let p : x.status ≡ decided_status d = cc in ground (arith, not_waiting d x.status p))

-- a call finds a decided row no more
again :
    (env : Env) (set : Settings) (k : ℕ) (user : Option ℕ) (decision : Text) (override : Bool)
    (d : Option ConfirmDecision) (v : AgentDb)
    → status_at k v ≡ Option.map decided_status d
    → resolve_interrupt env set k user decision override v ≡ (none, v)
unfolding resolve_interrupt find_waiting
again env set k user decision override d v h =
    let gone = decided_waiting user d (find run_key k v.runs) h in
    elim (Bool-cases v.gov.pool) [
      | inr e ↦ simp e
      | inl e ↦ elim (Option-cases (parse_decision decision)) [
        | inl p ↦ simp (e, p)
        | inr (x, p) ↦ simp (e, p, gone)
      ]
    ]

decided_by :
    (k : ℕ) (d : Option ConfirmDecision) (db : AgentDb) (r : Option Run) (o : Option Resolution)
    (v : AgentDb)
    → Decides k d db (o, v)
    → o ≡ some (resolved r)
    → status_at k v ≡ Option.map decided_status d
decided_by k d db r none v h e = cc
decided_by k d db r (some blocked) v h e = cc
decided_by k d db r (some (resolved x)) v h e = h

-- A run is decided once: after `resolve_interrupt` has returned it, a further call for it returns
-- nothing and changes nothing, whoever makes it, whatever it decides, and with whichever switches.
pub resolve_interrupt_once :
    (env : Env) (set : Settings) (k : ℕ) (user : Option ℕ) (decision : Text) (override : Bool)
    (db : AgentDb) (r : Option Run) (env' : Env) (set' : Settings) (user' : Option ℕ)
    (decision' : Text) (override' : Bool)
    → (resolve_interrupt env set k user decision override db).0 ≡ some (resolved r)
    → resolve_interrupt env' set' k user' decision' override'
        (resolve_interrupt env set k user decision override db).1
      ≡ (none, (resolve_interrupt env set k user decision override db).1)
resolve_interrupt_once env set k user decision override db r env' set' user' decision' override' h =
    let first = resolve_interrupt env set k user decision override db in
    again env' set' k user' decision' override' (parse_decision decision) first.1 (
      decided_by k (parse_decision decision) db r first.0 first.1
        (resolve_interrupt-Decides env set k user decision override db) h)
