-- ===== src/Intents/Moves.antt =====
-- How a call that changes a row of the table of intents may alter it.
use cora_os.Prelude.{
  ℕ, ◌≡◌, refl, Bool, true, false, ◌||◌, Option, none, some, arith, is_some, if◌then◌else◌,
}
use cora_os.Intents.{
  IntentStatus, ready_for_confirmation, blocked, confirmed, confirmation_revoked, cancelled, Intent,
  ProviderRow, intent_key,
}
use cora_os.Intents.Change.{
  revalidated_row, dry_run_row, is_confirmed, confirmed_row, cancelled_row, revoked_row, is_ready,
  is_over, confirmable, revalidated,
}
use cora_os.Intents.Lifecycle.{phase_of, is_lawful}

-- the columns that no change of a row writes
abbrev pub Keeps : Intent → Intent → Type 0
Keeps i j =
    (j.source_type ≡ i.source_type)
    × (j.source_id ≡ i.source_id)
    × (j.action_type ≡ i.action_type)
    × (j.queued ≡ i.queued)

-- A change of a row: what it keeps, and how the status moves.
pub record IsMove (i j : Intent) : Type 0 where
  pub kept : Keeps i j
  pub dry : i.dry_run ≡ true → j.dry_run ≡ true
  pub lawful : is_lawful (phase_of i.status) (phase_of j.status) ≡ true
  pub named :
      (is_confirmed i.status ≡ true → is_some i.confirmed_by ≡ true)
      → is_confirmed j.status ≡ true
      → is_some j.confirmed_by ≡ true

revalidated_status :
    (s : IntentStatus) (b : Bool)
    → is_lawful
        (phase_of s)
        (phase_of (if revalidated s then (if b then ready_for_confirmation else blocked) else s))
      ≡ true
revalidated_status s b = ground arith

revalidated_confirmed :
    (s : IntentStatus) (b : Bool)
    → is_confirmed (if revalidated s then (if b then ready_for_confirmation else blocked) else s)
      ≡ is_confirmed s
revalidated_confirmed s b = ground arith

pub revalidated-IsMove : (now : ℕ) (i : Intent) → IsMove i (revalidated_row now i)
unfolding revalidated_row
revalidated-IsMove now i = record {
  kept = (refl, refl, refl, refl);
  dry = λ h. h;
  lawful = revalidated_status i.status _;
  named = λ h c. h (ground (arith, revalidated_confirmed i.status _));
}

still_lawful : (s : IntentStatus) → is_lawful (phase_of s) (phase_of s) ≡ true
still_lawful s = ground arith

pub dry_run-IsMove :
    (now : ℕ) (i : Intent) (c : Option ProviderRow) → IsMove i (dry_run_row now i c)
dry_run-IsMove now i none = record {
  kept = (refl, refl, refl, refl);
  dry = λ h. h;
  lawful = still_lawful i.status;
  named = λ h c. h c;
}
dry_run-IsMove now i (some c) = record {
  kept = (refl, refl, refl, refl);
  dry = λ h. h;
  lawful = still_lawful i.status;
  named = λ h c. h c;
}

pub id-dry_run_row :
    (now : ℕ) (i : Intent) (c : Option ProviderRow)
    → intent_key (dry_run_row now i c) ≡ intent_key i
id-dry_run_row now i none = refl
id-dry_run_row now i (some c) = refl

-- the moves into a new status, by what the guards let through
confirm_lawful :
    (s : IntentStatus)
    → (is_ready s || confirmable s) ≡ true
    → is_lawful (phase_of s) (phase_of confirmed) ≡ true
confirm_lawful s h = ground arith

pub confirm-IsMove :
    (user now : ℕ) (i : Intent)
    → (is_ready i.status || confirmable i.status) ≡ true
    → IsMove i (confirmed_row user now i)
confirm-IsMove user now i h = record {
  kept = (refl, refl, refl, refl);
  dry = λ d. refl;
  lawful = confirm_lawful i.status h;
  named = λ n c. refl;
}

cancel_lawful :
    (s : IntentStatus) → is_over s ≡ false → is_lawful (phase_of s) (phase_of cancelled) ≡ true
cancel_lawful s h = ground arith

pub cancel-IsMove :
    (user now : ℕ) (i : Intent) → is_over i.status ≡ false → IsMove i (cancelled_row user now i)
cancel-IsMove user now i h = record {
  kept = (refl, refl, refl, refl);
  dry = λ d. refl;
  lawful = cancel_lawful i.status h;
  named = λ n c. absurd (ground arith);
}

revoke_lawful :
    (s : IntentStatus)
    → is_confirmed s ≡ true
    → is_lawful (phase_of s) (phase_of confirmation_revoked) ≡ true
revoke_lawful s h = ground arith

pub revoke-IsMove :
    (now : ℕ) (i : Intent) → is_confirmed i.status ≡ true → IsMove i (revoked_row now i)
revoke-IsMove now i h = record {
  kept = (refl, refl, refl, refl);
  dry = λ d. refl;
  lawful = revoke_lawful i.status h;
  named = λ n c. absurd (ground arith);
}
