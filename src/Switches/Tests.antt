-- ===== src/Switches/Tests.antt =====
-- The switches of one installation, and the theorems there.
use cora_os.Prelude.{◌≡◌, refl, Bool, true, false, [], ◌∷◌}
use cora_os.Prelude.Exec.{ok}
use cora_os.Governance.{write_runtime_trace}
use cora_os.Switches.{
  SwitchName, calendar_execution_enabled, screen_vision_enabled, SwitchDb, effective, get_all,
  set_switch, clear_override,
}
use cora_os.Switches.Effect.{calendar, set_switch_effect}

runs : Unit {0}
unfolding effective get_all set_switch clear_override write_runtime_trace
runs = tt

abbrev all_off : SwitchName → Bool
all_off _ = false

abbrev db : SwitchDb
db = record {
  gov = record { pool = true; policies = []; logs = []; traces = [] };
  overrides =
      record { name = screen_vision_enabled; enabled = true; updated_by = 2; updated_at = 5 } ∷ [];
}

set_switch_effect_example :
    (effective all_off calendar_execution_enabled
      (set_switch all_off calendar_execution_enabled true 2 9 db).1).0
    ≡ ok true
set_switch_effect_example =
    set_switch_effect all_off calendar db refl calendar_execution_enabled true 2 9
