-- ===== src/Intents/Tests.antt =====
-- Runs on two intents of one approved draft, and an instance of each result.
use cora_os.Prelude.{ℕ, ◌≡◌, refl, true, false, none, some, List, [], ◌∷◌, arith, map}
use cora_os.Prelude.Exec.{ok, err}
use cora_os.Prelude.Text.{codes, is_space, is_blank, lstrip, strip, lower_char, lower}
use cora_os.Review.{Status, kept_notes}
use cora_os.Intents.{
  IntentStatus, confirmed, cancelled, pending_provider, conflict, communication_draft, email,
  readiness, not_configured, Intent, IntentDb,
}
use cora_os.Intents.Preview.{validate_payload, connector_validation, critical_blockers, no_payload}
use cora_os.Intents.Build.{
  draft_spec, find_source, resolve_provider_name, built, build_intent, creation_blockers,
  resolve_provider_readiness, queue_built, create_readiness_intent,
}
use cora_os.Intents.Change.{
  change, revalidated_row, revalidate_intent, confirm_integration_intent, cancel_integration_intent,
  source_is_approved, confirm_readiness_intent, revoke_readiness_intent, dry_run_intent,
}
use cora_os.Intents.Calls.{
  Call, builds, queues, validates, dry_runs, confirms, cancels, confirms_queued, revokes, run_call,
  run_calls,
}
use cora_os.Intents.Lifecycle.{Advances}
use cora_os.Intents.Sound.{AreGood, IsSound, run_calls-AreGood}
use cora_os.Intents.Single.{IsSingle, run_calls-IsSingle}
use cora_os.Intents.Refines.{board, run_calls_refines}
use cora_os.Intents.Gates.{confirm_readiness_intent-revalidate_intent}

abbrev intent : ℕ → IntentStatus → Intent
intent k s = record {
  id = k;
  workspace_id = none;
  created_by = 3;
  source_type = communication_draft;
  source_id = 1;
  agent_name = "SIGNAL";
  provider_type = email;
  provider_name = codes "pending_provider";
  action_type = codes "send_email";
  status = s;
  dry_run = true;
  requires_confirmation = true;
  payload_preview = record no_payload { subject = codes "Hi"; body = codes "There" };
  validation_result = readiness (codes "no provider connector configured" ∷ []);
  queued = true;
  provider_status = some not_configured;
  confirmed_by = some 3;
  confirmed_at = none;
  cancelled_by = none;
  cancelled_at = none;
  updated_at = 0;
}

abbrev db : IntentStatus → IntentDb
db s = record {
  pool = true;
  intents = intent 5 cancelled ∷ intent 7 s ∷ [];
  events = [];
  drafts =
      record {
        id = 1;
        workspace_id = none;
        created_by = 3;
        subject = some (codes "Hi");
        body = some (codes "There");
        status = Status.approved;
      }
      ∷ [];
  proposals = [];
  providers =
      record {
        provider_name = codes "internal_preview_email";
        provider_type = email;
        enabled = false;
      }
      ∷ [];
  oauth = [];
  fresh = 8;
}

abbrev calls : List Call
calls =
    queues draft_spec 1 3 false none 10
    ∷ cancels 7 3 false true none 11
    ∷ queues draft_spec 1 3 false none 12
    ∷ builds draft_spec 1 3 false none (codes "send_email") none 13
    ∷ confirms 9 1 true none 14
    ∷ revokes 9 3 false true none 15
    ∷ validates 8 3 16
    ∷ confirms_queued 8 3 false true none 17
    ∷ dry_runs 8 3 18
    ∷ []

runs : Unit {0}
unfolding is_space is_blank lstrip strip lower_char lower kept_notes validate_payload
    connector_validation critical_blockers find_source resolve_provider_name built build_intent
    creation_blockers resolve_provider_readiness queue_built create_readiness_intent change
    revalidated_row revalidate_intent confirm_integration_intent cancel_integration_intent
    source_is_approved confirm_readiness_intent revoke_readiness_intent dry_run_intent run_call
    run_calls
runs = tt

-- the first call finds a duplicate, and the dry run no provider
statuses :
    map {B = ℕ × IntentStatus}
      (λ (i : Intent). (i.id, i.status))
      (run_calls calls (db pending_provider)).intents
    ≡ (5, cancelled) ∷ (7, cancelled) ∷ (8, confirmed) ∷ (9, IntentStatus.confirmation_revoked) ∷ []
unfolding runs
statuses = refl

IsSound-db : IsSound (db pending_provider)
IsSound-db = record {
  keyed = (refl, (refl, tt));
  below = (omega arith, (omega arith, tt));
  good = (
    record { dry = refl; pending = refl; named = λ c. refl },
    (record { dry = refl; pending = refl; named = λ c. refl }, tt),
  );
}

IsSingle-db : IsSingle (db pending_provider)
IsSingle-db = record { at = λ t k action. ground arith }

run_calls-AreGood_example : AreGood (run_calls calls (db pending_provider)).intents
run_calls-AreGood_example = run_calls-AreGood calls (db pending_provider) IsSound-db

run_calls-IsSingle_example : IsSingle (run_calls calls (db pending_provider))
run_calls-IsSingle_example = run_calls-IsSingle calls (db pending_provider) IsSound-db IsSingle-db

run_calls_refines_example :
    Advances (board (db pending_provider)) (board (run_calls calls (db pending_provider)))
run_calls_refines_example = run_calls_refines calls (db pending_provider) IsSound-db

confirm_readiness_intent-revalidate_intent_example :
    let confirm = confirm_readiness_intent 7 3 false true none 20 in
    ((confirm (db pending_provider)).0 ≡ err conflict)
    × (j : Intent) × ((confirm (revalidate_intent 7 3 20 (db pending_provider)).1).0 ≡ ok j)
    × (j.status ≡ confirmed)
unfolding runs
confirm_readiness_intent-revalidate_intent_example =
    confirm_readiness_intent-revalidate_intent 7 3 false true none 20 (db pending_provider)
      (intent 7 pending_provider) refl refl refl refl refl refl refl refl refl refl
