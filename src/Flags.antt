-- ===== src/Flags.antt =====
-- apps/cora-api/app/feature_flags.py: looking a flag up in the matrix and reading its verdict. The
-- children have the operations that write.
pub mod Matrix
pub mod Closed
mod Tests
use cora_os.Prelude.{
  ℕ, String, Bool, false, not, ◌&&◌, Option, none, some, List, [], ◌∷◌, if◌then◌else◌,
}
use text.Mathlib.Text.{◌==◌}
use cora_os.Prelude.Text.{Text, codes, strip, lower, text_eq}

-- the columns `requires_…`
pub record Requirements : Type 0 where
  pub human_approval : Bool
  pub final_interlock : Bool
  pub valid_oauth : Bool
  pub scope_validation : Bool
  pub connected_provider : Bool
  pub payload_hash_match : Bool
  pub kill_switch_clear : Bool

-- A row of provider_execution_feature_flags.
pub record Flag : Type 0 where
  pub id : ℕ
  pub provider_name : Text
  pub provider_type : Text
  pub action_type : Text
  pub environment : String
  pub enabled : Bool
  pub dry_run_only : Bool
  pub requires : Requirements

-- `(name or "").strip().lower()`
abbrev key_of : Option Text → Text
key_of none = []
key_of (some name) = lower (strip name)

-- `_norm_provider`, with `_PROVIDER_ALIASES`
unfoldable pub norm_provider : Option Text → Text
norm_provider name =
    if text_eq (key_of name) (codes "outlook_calendar")
    then codes "microsoft_calendar"
    else key_of name

-- `_norm_action`, with `_ACTION_ALIASES`
unfoldable pub norm_action : Option Text → Text
norm_action name =
    if text_eq (key_of name) (codes "create_event")
    then codes "create_calendar_event"
    else key_of name

abbrev pub find_flag : Text → Text → String → List Flag → Option Flag
find_flag provider action environment [] = none
find_flag provider action environment (f ∷ fs) =
    if text_eq f.provider_name provider
      && text_eq f.action_type action
      && f.environment == environment
    then some f
    else find_flag provider action environment fs

-- `get_flag` in the default environment
unfoldable pub get_flag : Option Text → Option Text → List Flag → Option Flag
get_flag provider action flags =
    find_flag (norm_provider provider) (norm_action action) "production" flags

-- `flag_allows_execution`
abbrev pub flag_allows_execution : Option Flag → Bool
flag_allows_execution none = false
flag_allows_execution (some f) = f.enabled && not f.dry_run_only
