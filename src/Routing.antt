-- ===== src/Routing.antt =====
-- apps/cora-api/app/agents/routing.py: which specialist a message goes to, by its keywords.
pub mod Keywords
pub mod Best
mod Tests
use cora_os.Prelude.{
  ℕ, ◌+◌, Bool, true, false, not, ◌&&◌, ◌||◌, Option, none, some, List, [], ◌∷◌, any, length, ltb,
  leb, ◌==◌, is_nil, if◌then◌else◌,
}
use cora_os.Prelude.Text.{Text, codes, lower, text_eq, starts_with, has_part}
use cora_os.Routing.Keywords.{
  forge_routing_keywords, pulse_routing_keywords, signal_routing_keywords, chronos_routing_keywords,
}

pub record Candidate : Type 0 where
  pub name : Text
  pub keywords : List Text

-- an agent's name, with the keywords that matched
pub record Selection : Type 0 where
  pub name : Text
  pub matched : List Text

-- `PERSONA_NAME`
abbrev pub persona_name : Text
persona_name = codes "Cora"

-- `_CANDIDATES`
abbrev pub default_candidates : List Candidate
default_candidates =
    record { name = codes "FORGE"; keywords = forge_routing_keywords }
    ∷ record { name = codes "PULSE"; keywords = pulse_routing_keywords }
    ∷ record { name = codes "SIGNAL"; keywords = signal_routing_keywords }
    ∷ record { name = codes "CHRONOS"; keywords = chronos_routing_keywords }
    ∷ []

-- `_specificity`
abbrev pub specificity : List Text → ℕ
specificity [] = 0
specificity (k ∷ ks) = length k + specificity ks

-- the entry of `keyword_overrides` for a name
abbrev override_of : Text → List Candidate → Option (List Text)
override_of name [] = none
override_of name (o ∷ os) = if text_eq o.name name then some o.keywords else override_of name os

-- the keywords of a candidate: those of the override unless there is none or it is empty
abbrev pub keywords_of : List Candidate → Candidate → List Text
keywords_of overrides c = elim (override_of c.name overrides) [
  | none ↦ c.keywords
  | some ks ↦ if is_nil ks then c.keywords else ks
]

-- the test in `select_subagent`
abbrev pub is_better : List Text → List Text → Bool
is_better matched best =
    ltb (length best) (length matched)
    || (length matched == length best && ltb (specificity best) (specificity matched))

-- what `re` takes for a letter of a word
module _ (is_word : ℕ → Bool) where
  abbrev in_word : Option ℕ → Bool
  in_word none = false
  in_word (some c) = is_word c

  -- the `\b` between two neighbours, where there is none at an end of the text
  abbrev is_boundary : Option ℕ → Option ℕ → Bool
  is_boundary a b = if in_word a then not (in_word b) else in_word b

  abbrev first_of : Text → Option ℕ
  first_of [] = none
  first_of (c ∷ t) = some c

  -- the text goes on with the keyword, which ends at a boundary
  abbrev ends_word : Option ℕ → Text → Text → Bool
  ends_word last [] t = is_boundary last (first_of t)
  ends_word last (k ∷ kw) [] = false
  ends_word last (k ∷ kw) (c ∷ t) = c == k && ends_word (some c) kw t

  -- `re.search(rf"\b{re.escape(kw)}\b", lowered)`
  abbrev has_word : Option ℕ → Text → Text → Bool
  has_word last kw [] = is_boundary last none && ends_word last kw []
  has_word last kw (c ∷ t) =
      (is_boundary last (some c) && ends_word last kw (c ∷ t)) || has_word (some c) kw t

  abbrev is_match : Text → Text → Bool
  is_match lowered kw =
      if any (λ c. c == 32) kw then has_part lowered kw else has_word none kw lowered

  abbrev matching : Text → List Text → List Text
  matching lowered [] = []
  matching lowered (k ∷ ks) =
      let rest = matching lowered ks in if is_match lowered k then k ∷ rest else rest

  -- `match_keywords`
  unfoldable pub match_keywords : Text → List Text → List Text
  match_keywords message keywords = matching (lower message) keywords

  -- the loop of `select_subagent`
  unfoldable pub select_from : Text → List Candidate → List Candidate → Selection → Selection
  select_from message overrides [] best = best
  select_from message overrides (c ∷ cs) best =
      let matched = match_keywords message (keywords_of overrides c) in
      select_from message overrides cs (
        if is_nil matched
        then best
        else if is_better matched best.matched
        then record { name = c.name; matched = matched }
        else best)

  -- `select_subagent`
  unfoldable pub select_subagent : Text → List Candidate → Selection
  select_subagent message overrides =
      select_from message overrides default_candidates record { name = persona_name; matched = [] }
