-- ===== src/Intents/Calls.antt =====
-- The operations on intents as calls, and sequences of them.
use cora_os.Prelude.{ℕ, Bool, Option, List, [], ◌∷◌}
use cora_os.Prelude.Exec.{Outcome}
use cora_os.Prelude.Text.{Text}
use cora_os.Intents.{IntegrationError, Intent, IntentDb}
use cora_os.Intents.Build.{BuildSpec, build_intent, create_readiness_intent}
use cora_os.Intents.Change.{
  revalidate_intent, confirm_integration_intent, cancel_integration_intent,
  confirm_readiness_intent, revoke_readiness_intent, dry_run_intent,
}

pub data Call : Type 0 where
  builds :
      (spec : BuildSpec) (source_id user : ℕ) (is_admin : Bool) (provider_name : Option Text)
      → (action : Text) (notes : Option Text) (now : ℕ) → Call
  queues :
      (spec : BuildSpec) (source_id user : ℕ) (is_admin : Bool) (notes : Option Text) (now : ℕ)
      → Call
  validates dry_runs : (k user now : ℕ) → Call
  confirms : (k user : ℕ) (is_admin : Bool) (notes : Option Text) (now : ℕ) → Call
  cancels confirms_queued revokes :
      (k user : ℕ) (is_admin is_owner : Bool) (notes : Option Text) (now : ℕ) → Call

unfoldable pub run_call : Call → IntentDb → Outcome IntegrationError Intent × IntentDb
run_call (builds spec s user adm p action notes now) =
    build_intent spec s user adm p action notes now
run_call (queues spec s user adm notes now) = create_readiness_intent spec s user adm notes now
run_call (validates k user now) = revalidate_intent k user now
run_call (dry_runs k user now) = dry_run_intent k user now
run_call (confirms k user adm notes now) = confirm_integration_intent k user adm notes now
run_call (cancels k user adm own notes now) = cancel_integration_intent k user adm own notes now
run_call (confirms_queued k user adm own notes now) =
    confirm_readiness_intent k user adm own notes now
run_call (revokes k user adm own notes now) = revoke_readiness_intent k user adm own notes now

-- the calls one after the other; one that raises leaves what it leaves
unfoldable pub run_calls : List Call → IntentDb → IntentDb
run_calls [] db = db
run_calls (c ∷ cs) db = run_calls cs (run_call c db).1
