-- ===== src/Governance/Decision.antt =====
-- What a permission decision depends on, and how decisions, the block and the log fit together.
use cora_os.Prelude.{
  ℕ, ◌≡◌, refl, inl, inr, Bool, true, false, not, ◌&&◌, ◌||◌, Option, none, some, List, [], ◌∷◌,
  any, arith, ltb, Bool-cases,
}
use cora_os.Prelude.Text.{Text, text_eq}
use cora_os.Governance.{
  Tool, Policy, GovernanceDb, fetch_policy, count_recent_executions, Stage, returned, passed,
  agent_stage, table_stage, rate_stage, list_stage, check_permission, last_stage, is_high,
  is_external_execution_tool,
}

-- the policy that applies to a call, if an agent makes it and there is one
abbrev pub policy_of : Tool → Option Text → GovernanceDb → Option Policy
policy_of t none db = none
policy_of t (some agent) db = fetch_policy t.name agent db

-- a limit leaves room for one more call
abbrev pub has_room : ℕ → Option ℕ → Bool
has_room cnt none = true
has_room cnt (some m) = ltb cnt m

abbrev pub listed : Text → List Text → Bool
listed agent [] = true
listed agent (a ∷ rest) = any (text_eq agent) (a ∷ rest)

abbrev pub policy_may : Tool → Text → Bool → ℕ → GovernanceDb → Option Policy → Bool
policy_may t agent is_admin since db none = is_admin || listed agent t.allowed_agents
policy_may t agent is_admin since db (some p) =
    p.allowed
    && has_room (count_recent_executions t.name since none (some agent) db) p.max_calls_per_hour

unfoldable pub agent_may : Tool → Option Text → Bool → ℕ → GovernanceDb → Bool
agent_may t none is_admin since db = true
agent_may t (some agent) is_admin since db =
    policy_may t agent is_admin since db (fetch_policy t.name agent db)

-- The decision as one conjunction, in which no condition comes before another.
abbrev pub may_run : Tool → Option Text → Bool → ℕ → GovernanceDb → Bool
may_run t agent is_admin since db =
    not (is_external_execution_tool (some t.name))
    && t.enabled
    && agent_may t agent is_admin since db
    && (is_admin || not (is_high t.risk_level))

-- the confirmation that a policy adds
abbrev pub policy_confirms : Option Policy → Bool
policy_confirms none = false
policy_confirms (some p) = p.requires_confirmation

abbrev goes_on : Stage → Bool
goes_on (returned d) = d.allowed
goes_on (passed _ _ _) = true

abbrev asks : Stage → Bool
asks (returned d) = d.requires_confirmation
asks (passed c _ _) = c

-- An early return denies, and asks for no confirmation.
abbrev IsFinal : Stage → Type 0
IsFinal (returned d) = (d.allowed ≡ false) × (d.requires_confirmation ≡ false)
IsFinal (passed _ _ _) = Unit

-- A stage with this verdict and, if it passes, this need of confirmation.
record IsStage (may confirm : Bool) (s : Stage) : Type 0 where
  final : IsFinal s
  verdict : goes_on s ≡ may
  confirmation : asks s ≡ (may && confirm)

IsStage-rate_stage :
    (tool agent : Text) (confirm : Bool) (cnt : ℕ) (m : Option ℕ)
    → IsStage (has_room cnt m) confirm (rate_stage tool agent confirm cnt m)
IsStage-rate_stage tool agent confirm cnt none = record {
  final = tt;
  verdict = refl;
  confirmation = refl;
}
IsStage-rate_stage tool agent confirm cnt (some m) = record {
  final = ground arith;
  verdict = ground arith;
  confirmation = ground arith;
}

IsStage-list_stage :
    (t : Tool) (agent : Text) (names : List Text)
    → IsStage (listed agent names) t.requires_confirmation (list_stage t agent names)
IsStage-list_stage t agent [] = record { final = tt; verdict = refl; confirmation = refl }
IsStage-list_stage t agent (a ∷ rest) = elim (Bool-cases (any (text_eq agent) (a ∷ rest))) [
  | inl e ↦ record { final = rw e tt; verdict = rw e; confirmation = rw e }
  | inr e ↦ record { final = rw e (refl, refl); verdict = rw e; confirmation = rw e }
]

IsStage-table_stage :
    (t : Tool) (agent : Text) (is_admin : Bool) (since : ℕ) (db : GovernanceDb) (p : Option Policy)
    → IsStage
        (policy_may t agent is_admin since db p)
        (policy_confirms p || t.requires_confirmation)
        (table_stage t agent is_admin since db p)
IsStage-table_stage t agent is_admin since db (some p) =
    let r =
      IsStage-rate_stage t.name agent (p.requires_confirmation || t.requires_confirmation)
        (count_recent_executions t.name since none (some agent) db) p.max_calls_per_hour in
    elim (Bool-cases p.allowed) [
      | inl e ↦ record {
        final = simp e (r.final);
        verdict = simp e (r.verdict);
        confirmation = simp e (r.confirmation);
      }
      | inr e ↦ record { final = simp e (refl, refl); verdict = simp e; confirmation = simp e }
    ]
IsStage-table_stage t agent is_admin since db none =
    let l = IsStage-list_stage t agent t.allowed_agents in
    elim (Bool-cases is_admin) [
      | inl e ↦ record { final = simp e tt; verdict = simp e; confirmation = simp e }
      | inr e ↦ record {
        final = simp e (l.final);
        verdict = simp e (l.verdict);
        confirmation = simp e (l.confirmation);
      }
    ]

IsStage-agent_stage :
    (t : Tool) (agent : Option Text) (is_admin : Bool) (since : ℕ) (db : GovernanceDb)
    → IsStage
        (agent_may t agent is_admin since db)
        (policy_confirms (policy_of t agent db) || t.requires_confirmation)
        (agent_stage t agent is_admin since db)
unfolding agent_stage agent_may
IsStage-agent_stage t none is_admin since db = record {
  final = tt;
  verdict = refl;
  confirmation = refl;
}
IsStage-agent_stage t (some agent) is_admin since db =
    IsStage-table_stage t agent is_admin since db (fetch_policy t.name agent db)

last_stage_lem :
    (t : Tool) (is_admin may confirm : Bool) (s : Stage)
    → IsStage may confirm s
    → let d = last_stage t is_admin s in
      (d.allowed ≡ (may && (is_admin || not (is_high t.risk_level))))
      × (d.requires_confirmation ≡ (d.allowed && confirm))
last_stage_lem t is_admin may confirm (returned d) s =
    ground (arith, s.verdict, s.confirmation, s.final.0, s.final.1)
last_stage_lem t is_admin may confirm (passed c source rule) s =
    ground (arith, s.verdict, s.confirmation)

module _ (t : Tool) (agent : Option Text) (is_admin : Bool) (since : ℕ) (db : GovernanceDb) where
  last :
      let d = last_stage t is_admin (agent_stage t agent is_admin since db) in
      (d.allowed
        ≡ (agent_may t agent is_admin since db && (is_admin || not (is_high t.risk_level))))
      × (d.requires_confirmation
          ≡ (d.allowed && (policy_confirms (policy_of t agent db) || t.requires_confirmation)))
  last =
      last_stage_lem t is_admin (agent_may t agent is_admin since db)
        (policy_confirms (policy_of t agent db) || t.requires_confirmation)
        (agent_stage t agent is_admin since db) (IsStage-agent_stage t agent is_admin since db)

  -- `check_permission` allows a call exactly when the tool is no external action, it is enabled, the
  -- agent may use it (by its policy within the hourly limit, or without a policy by the tool's list,
  -- which an admin and an empty list pass; no agent needs neither), and it is not of high risk unless
  -- an admin calls.
  pub check_permission_exact :
      (check_permission t agent is_admin since db).allowed ≡ may_run t agent is_admin since db
  unfolding check_permission
  check_permission_exact = ground (arith, last.0)
