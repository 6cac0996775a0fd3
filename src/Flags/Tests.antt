-- ===== src/Flags/Tests.antt =====
-- A flag that is created, enabled and let out of the dry run, and an instance of the result.
use cora_os.Prelude.{◌≡◌, refl, Bool, true, false, none, some, List, [], ◌∷◌}
use cora_os.Prelude.Exec.{Outcome, ok, err}
use cora_os.Prelude.Text.{codes, is_space, lstrip, strip, lower_char, lower}
use cora_os.Governance.{log_execution_attempt, write_runtime_trace}
use cora_os.Flags.{norm_provider, norm_action}
use cora_os.Flags.Matrix.{
  FlagDb, FlagDecision, FlagError, FlagChanges, FlagIntent, decision_of, evaluate, create_flag,
  update_flag,
}
use cora_os.Flags.Closed.{
  FlagCall, creates, updates, run_flag_call, run_flag_calls, enabled_column, IsDenied,
  evaluate-run_flag_calls,
}

runs : Unit {0}
unfolding is_space lstrip strip lower_char lower norm_provider norm_action log_execution_attempt
    write_runtime_trace decision_of evaluate create_flag update_flag run_flag_call run_flag_calls
runs = tt

abbrev empty : FlagDb
empty = record {
  gov = record { pool = true; policies = []; logs = []; traces = [] };
  flags = [];
  denials = [];
  fresh = 1;
}

abbrev nothing : FlagChanges
nothing = record {
  enabled = none;
  dry_run_only = none;
  human_approval = none;
  final_interlock = none;
  valid_oauth = none;
  scope_validation = none;
  connected_provider = none;
  payload_hash_match = none;
  kill_switch_clear = none;
}

abbrev intent : FlagIntent
intent = record { id = 8; workspace_id = none; agent_name = none; status = "confirmed" }

abbrev calls : Bool → List FlagCall
calls b =
    creates 1 (codes " Outlook_Calendar") (codes "calendar") (codes "create_event") "production" 5
    ∷ updates 1 1 (record nothing { enabled = some b; dry_run_only = some false }) 6
    ∷ []

abbrev allowed : Outcome FlagError FlagDecision → Bool
allowed (ok d) = d.allows
allowed (err e) = false

opened :
    allowed
      (evaluate
        (some (codes "microsoft_calendar"))
        (some (codes "create_calendar_event"))
        none
        (some intent)
        "production"
        (run_flag_calls (calls true) empty)).0
    ≡ true
unfolding runs
opened = refl

evaluate-run_flag_calls_example :
    IsDenied
      (evaluate
        (some (codes "microsoft_calendar"))
        (some (codes "create_calendar_event"))
        none
        (some intent)
        "production"
        (run_flag_calls (calls false) empty)).0
evaluate-run_flag_calls_example =
    evaluate-run_flag_calls enabled_column (calls false) empty (some (codes "microsoft_calendar"))
      (some (codes "create_calendar_event")) none (some intent) "production" tt (refl, (refl, tt))
