-- ===== src/Planner/Template.antt =====
-- The template plan: `_title_from_goal` and `build_template_plan`.
use mathlib.Core.List.{reverse}
use cora_os.Prelude.{
  is_nil, ℕ, String, Bool, ◌||◌, ◌&&◌, Option, none, some, List, [], ◌∷◌, ◌++◌, ◌==◌, leb, ltb,
  length, take, if◌then◌else◌,
}
use cora_os.Prelude.Text.{Text, strip, lstrip, codes}

-- the line boundaries of str.splitlines
unfoldable pub is_line_end : ℕ → Bool
is_line_end c =
    (leb 10 c && leb c 13) || (leb 28 c && leb c 30) || c == 133 || c == 0x2028 || c == 0x2029

-- the first line of a text that is not empty
unfoldable pub first_line : Text → Text
unfolding is_line_end
first_line [] = []
first_line (c ∷ t) = if is_line_end c then [] else c ∷ first_line t

-- str.rstrip
unfoldable pub rstrip : Text → Text
unfolding lstrip
rstrip t = reverse (lstrip (reverse t))

abbrev ellipsis : ℕ
ellipsis = 0x2026

abbrev shortened : Text → Text
shortened t = if ltb 120 (length t) then rstrip (take 120 t) ++ ellipsis ∷ [] else t

abbrev or_plan : Text → Text
or_plan t = if is_nil t then codes "Plan" else t

-- `_title_from_goal`; `none` is the IndexError of `"".splitlines()[0]`.
unfoldable pub title_from_goal : Text → Option Text
unfolding strip first_line rstrip
title_from_goal [] = some (codes "Plan")
title_from_goal (c ∷ goal) =
    let line = strip (c ∷ goal) in
    if is_nil line then none else some (or_plan (shortened (first_line line)))

pub record StepTemplate : Type 0 where
  pub title : String
  pub description : String
  pub assigned_agent : Option String
  pub tool_name : Option String

abbrev template : String → String → String → StepTemplate
template title description agent = record {
  title = title;
  description = description;
  assigned_agent = some agent;
  tool_name = none;
}

-- `build_template_plan`, its steps
abbrev pub template_steps : List StepTemplate
template_steps =
    template "Define scope and constraints"
      "Clarify the goal, enumerate explicit requirements, and note constraints (governance, security, scope_type, performance)."
      "ATLAS"
    ∷ template "Inventory relevant components"
        "Identify existing Cora services, tools, MCP servers, agents, and memory entries relevant to the goal."
        "ATLAS"
    ∷ template "Propose technical approach"
        "Outline architecture: data flow, agent routing, governance controls, observability touchpoints."
        "FORGE"
    ∷ template "Implementation breakdown"
        "Break the work into ordered tasks with file paths, tools involved, and verification steps per task."
        "FORGE"
    ∷ template "Verification and rollout"
        "Define how to validate (tests, traces, manual probes) and ship (rebuild, restart, observe)."
        "FORGE"
    ∷ []
