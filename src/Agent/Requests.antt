-- ===== src/Agent/Requests.antt =====
-- What a run asks of other programs: each request, with what the code tested before it.
use cora_os.Prelude.{
  is_nil, ℕ, ◌≡◌, ◌⊎◌, refl, inl, inr, sym, ◌∙◌, Bool, true, false, ◌||◌, Option, some, List, arith,
  Bool-cases, Option-cases, if◌then◌else◌,
}
use text.Mathlib.Text.{◌==◌ as str_eq}
use cora_os.Prelude.Text.{Text, codes, text_eq}
use cora_os.Governance.{GovernanceDb, check_permission, is_high}
use cora_os.Governance.Decision.{may_run, check_permission_exact}
use cora_os.Agent.{
  Args, field, ToolRow, Observation, Effect, model_called, dispatched, created, fired, Env, AgentDb,
  find_tool, fetch_tool_row, is_read_only, is_staging, requested,
}
use cora_os.Agent.Staging.{handle_staging, stage_artifact, since, has_fields, proposal_fields}
use cora_os.Agent.Calls.{dispatch_read_only}

-- A cleared request for a tool: the table has it, and governance allows the agent to run it.
pub record IsAllowed (gov : GovernanceDb) (tools : List ToolRow) (agent : Option Text) (name : Text)
    (time : ℕ) (t : ToolRow) : Type 0 where
  pub row : find_tool name tools ≡ some t
  pub may : may_run t.gov agent false time gov ≡ true

-- A request that a run may make. A dispatch is one of a read-only tool that nobody has to confirm, an
-- artifact is made for an internal action, and no artifact is fired.
abbrev pub IsCleared : GovernanceDb → List ToolRow → Effect → Type 0
IsCleared gov tools (model_called depth) = Unit
IsCleared gov tools (dispatched agent name time) =
    (t : ToolRow) × IsAllowed gov tools agent name time t
    × (is_read_only name ≡ true)
    × ((t.gov.requires_confirmation || is_high t.gov.risk_level) ≡ false)
IsCleared gov tools (created agent name time) =
    (t : ToolRow) × IsAllowed gov tools agent name time t
    × (is_staging name ≡ true)
    × (str_eq t.tool_type "internal_action" ≡ true)
IsCleared gov tools (fired i) = ⊥

-- the request of a call that may make one
pub record IsRequest (u : AgentDb) (e : Effect) (v : AgentDb) : Type 0 where
  pub cleared : IsCleared u.gov u.tools e
  pub after : v ≡ requested e u

fetched :
    (name : Text) (u : AgentDb) (t : ToolRow)
    → fetch_tool_row name u ≡ some t
    → find_tool name u.tools ≡ some t
unfolding fetch_tool_row
fetched name u t h = ground arith

allowed_row :
    (agent : Option Text) (name : Text) (time : ℕ) (u : AgentDb) (t : ToolRow)
    → fetch_tool_row name u ≡ some t
    → (check_permission t.gov agent false time u.gov).allowed ≡ true
    → IsAllowed u.gov u.tools agent name time t
allowed_row agent name time u t row may = record {
  row = fetched name u t row;
  may = sym (check_permission_exact t.gov agent false time u.gov) ∙ may;
}

pub dispatch_read_only-cases :
    (env : Env) (agent : Option Text) (name : Text) (args : Args) (u : AgentDb)
    → ((dispatch_read_only env agent name args u).1 ≡ u)
      ⊎ IsRequest u
          (dispatched agent name (since env u))
          (dispatch_read_only env agent name args u).1
unfolding dispatch_read_only
dispatch_read_only-cases env agent name args u = elim (Bool-cases (is_read_only name)) [
  | inr e ↦ inl (simp e)
  | inl known ↦ elim (Option-cases (fetch_tool_row name u)) [
    | inl e ↦ inl (simp (known, e))
    | inr (t, row) ↦ elim (Bool-cases (t.gov.requires_confirmation || is_high t.gov.risk_level)) [
      | inl e ↦ inl (simp (known, row, e))
      | inr free ↦
          elim (Bool-cases (check_permission t.gov agent false (since env u) u.gov).allowed) [
            | inr e ↦ inl (simp (known, row, free, e))
            | inl may ↦ inr record {
              cleared = (t, allowed_row agent name (since env u) u t row may, known, free);
              after = simp (known, row, free, may);
            }
          ]
    ]
  ]
]

-- an artifact is made, or none
stage_artifact-cases :
    (env : Env) (zone : Text) (agent : Option Text) (name : Text) (args : Args) (u : AgentDb)
    → ((stage_artifact env zone agent name args u).1 ≡ u)
      ⊎ ((stage_artifact env zone agent name args u).1
          ≡ requested (created agent name (since env u)) u)
unfolding stage_artifact
stage_artifact-cases env zone agent name args u =
    either (text_eq name (codes "signal_create_draft")) _ _
      (either (is_nil (field "body" args)) _ _ (inl refl) (inr refl))
      (either (text_eq name (codes "chronos_create_schedule_proposal")) _ _
        (either (is_nil (field "title" args)) _ _ (inl refl) (inr refl))
        (either (text_eq name (codes "chronos_update_calendar_event")) _ _
          (either (is_nil (field "provider" args) || is_nil (field "event_id" args)) _ _ (inl refl)
            (either (has_fields (proposal_fields env.plus_one_hour zone args)) _ _ (inl refl)
              (inl refl)))
          (either (text_eq name (codes "chronos_cancel_calendar_event")) _ _
            (either (is_nil (field "provider" args) || is_nil (field "event_id" args)) _ _
              (inl refl) (inl refl))
            (inl refl))))
  where
    either :
        (b : Bool) (x y : Observation × AgentDb)
        → (x.1 ≡ u) ⊎ (x.1 ≡ requested (created agent name (since env u)) u)
        → (y.1 ≡ u) ⊎ (y.1 ≡ requested (created agent name (since env u)) u)
        → ((if b then x else y).1 ≡ u)
          ⊎ ((if b then x else y).1 ≡ requested (created agent name (since env u)) u)
    either true x y g h = g
    either false x y g h = h

pub handle_staging-cases :
    (env : Env) (zone : Text) (agent : Option Text) (name : Text) (args : Args) (u : AgentDb)
    → ((handle_staging env zone agent name args u).1 ≡ u)
      ⊎ IsRequest u (created agent name (since env u)) (handle_staging env zone agent name args u).1
unfolding handle_staging
handle_staging-cases env zone agent name args u = elim (Bool-cases (is_staging name)) [
  | inr e ↦ inl (simp e)
  | inl known ↦ elim (Option-cases (fetch_tool_row name u)) [
    | inl e ↦ inl (simp (known, e))
    | inr (t, row) ↦ elim (Bool-cases (str_eq t.tool_type "internal_action")) [
      | inr e ↦ inl (simp (known, row, e))
      | inl internal ↦
          elim (Bool-cases (check_permission t.gov agent false (since env u) u.gov).allowed) [
            | inr e ↦ inl (simp (known, row, internal, e))
            | inl may ↦ elim (stage_artifact-cases env zone agent name args u) [
              | inl e ↦ inl (simp (known, row, internal, may) e)
              | inr e ↦ inr record {
                cleared = (t, allowed_row agent name (since env u) u t row may, known, internal);
                after = simp (known, row, internal, may) e;
              }
            ]
          ]
    ]
  ]
]
