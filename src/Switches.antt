-- ===== src/Switches.antt =====
-- apps/cora-api/app/runtime_switches.py: overrides of the execution switches. `settings` is the value
-- that config.Settings has under a name, false where it has none.
pub mod Effect
mod Tests
use cora_os.Prelude.{
  ℕ, String, Bool, true, false, not, ◌&&◌, Option, none, some, List, [], ◌∷◌, ◌++◌, if◌then◌else◌,
}
use text.Mathlib.Text.{◌==◌}
use cora_os.Prelude.Exec.{
  Exec, Outcome, ok, err, or_raise, raise_if, gets, modify, pure, ◌>>=◌, ◌>>◌,
}
use cora_os.Prelude.Text.{codes}
use cora_os.Governance.{GovernanceDb, RuntimeTrace, write_runtime_trace}

-- the keys of `_SWITCHES`, and any other text
pub data SwitchName : Type 0 where
  calendar_execution_enabled screen_vision_enabled external_execution_enabled : SwitchName
  other_name : String → SwitchName

pub data SwitchError : Type 0 where
  not_found forbidden unavailable : SwitchError

-- A row of runtime_execution_switches.
pub record Override : Type 0 where
  pub name : SwitchName
  pub enabled : Bool
  pub updated_by : ℕ
  pub updated_at : ℕ

pub record SwitchDb : Type 0 where
  pub gov : GovernanceDb
  pub open gov use *
  pub overrides : List Override

abbrev pub same_name : SwitchName → SwitchName → Bool
same_name calendar_execution_enabled calendar_execution_enabled = true
same_name screen_vision_enabled screen_vision_enabled = true
same_name external_execution_enabled external_execution_enabled = true
same_name (other_name s) (other_name t) = s == t
same_name _ _ = false

-- `name in _SWITCHES`
abbrev pub is_registered : SwitchName → Bool
is_registered (other_name _) = false
is_registered _ = true

-- `_SWITCHES[name]["manageable"]`
abbrev pub is_manageable : SwitchName → Bool
is_manageable calendar_execution_enabled = true
is_manageable screen_vision_enabled = true
is_manageable _ = false

abbrev pub find_override : SwitchName → List Override → Option Override
find_override n [] = none
find_override n (o ∷ os) = if same_name o.name n then some o else find_override n os

abbrev value_or : Bool → Option Override → Bool
value_or default none = default
value_or default (some o) = o.enabled

-- INSERT … ON CONFLICT (name) DO UPDATE
abbrev pub upsert : Override → List Override → List Override
upsert new [] = new ∷ []
upsert new (o ∷ os) = if same_name o.name new.name then new ∷ os else o ∷ upsert new os

-- DELETE … WHERE name = $1
abbrev pub removed : SwitchName → List Override → List Override
removed n [] = []
removed n (o ∷ os) = if same_name o.name n then removed n os else o ∷ removed n os

-- one entry of `get_all`
pub record SwitchView : Type 0 where
  pub name : SwitchName
  pub env_default : Bool
  pub override : Option Override
  pub effective : Bool

abbrev modified_trace : ℕ → RuntimeTrace
modified_trace admin = record {
  session_id = none;
  user_id = some admin;
  workspace_id = none;
  trace_type = "execution_switch_modified";
  status = "ok";
  selected_agent = none;
  tool_name = codes "execution_switch";
  error_message = none;
}

module _ (settings : SwitchName → Bool) where
  abbrev pub view_of : List Override → SwitchName → SwitchView
  view_of rows n = record {
    name = n;
    env_default = settings n;
    override = find_override n rows;
    effective = value_or (settings n) (find_override n rows);
  }

  -- `effective`
  unfoldable pub effective : SwitchName → Exec SwitchError SwitchDb Bool
  effective n db =
      if not (is_registered n)
      then (ok (settings n), db)
      else if not db.pool
      then (err unavailable, db)
      else (ok (value_or (settings n) (find_override n db.overrides)), db)

  -- `get_all`
  unfoldable pub get_all : Exec SwitchError SwitchDb (List SwitchView)
  get_all = do
    raise_if (not (← gets (λ db. db.pool))) unavailable
    rows ← gets (λ db. db.overrides)
    pure (
        view_of rows calendar_execution_enabled
        ∷ view_of rows screen_vision_enabled
        ∷ view_of rows external_execution_enabled
        ∷ [])

  abbrev find_view : SwitchName → List SwitchView → Option SwitchView
  find_view n [] = none
  find_view n (v ∷ vs) = if same_name v.name n then some v else find_view n vs

  -- what both changes do around their statement
  abbrev pub changed : SwitchName → (SwitchDb → SwitchDb) → ℕ → Exec SwitchError SwitchDb SwitchView
  changed n statement admin = do
    raise_if (not (is_registered n)) not_found
    raise_if (not (is_manageable n)) forbidden
    raise_if (not (← gets (λ db. db.pool))) unavailable
    modify statement
    modify (λ db. record db { gov = write_runtime_trace (modified_trace admin) db.gov })
    views ← get_all
    or_raise (find_view n views) not_found

  -- `set_switch`
  unfoldable pub set_switch : SwitchName → Bool → ℕ → ℕ → Exec SwitchError SwitchDb SwitchView
  set_switch n enabled admin now =
      changed n
        (λ db. record db {
          overrides =
              upsert record { name = n; enabled = enabled; updated_by = admin; updated_at = now }
                db.overrides;
        })
        admin

  -- `clear_override`
  unfoldable pub clear_override : SwitchName → ℕ → Exec SwitchError SwitchDb SwitchView
  clear_override n admin = changed n (λ db. record db { overrides = removed n db.overrides }) admin
