-- ===== src/Interlock/Verdict.antt =====
-- What the interlock's verdict means, and what a run of it leaves alone.
use cora_os.Prelude.{
  ℕ, ◌≡◌, ◌↔◌, refl, ap, sym, ◌∙◌, inl, inr, ◌⊎◌, String, Bool, true, false, ◌&&◌, Option, some,
  arith, Option-cases,
}
use cora_os.Prelude.Exec.{Outcome, ok, err, ◌>>=◌}
use cora_os.Prelude.Table.{find}
use cora_os.Approval.{
  ApprovalError, IntentRow, Approval, ApprovalDb, Evidence, intent_key, latest_decision,
}
use cora_os.Approval.Checklist.{credential_snapshot, source_is_approved}
use cora_os.Approval.Visible.{visible_intent-cases}
use cora_os.Interlock.{
  ready_but_execution_disabled, InterlockResult, Checks, checks_of, internal_ready,
  future_gates_open, status_of, approval_row, is_approved_decision, run_final_safety_check,
}

given : InterlockResult → Outcome ApprovalError InterlockResult → InterlockResult
given x (ok y) = y
given x (err e) = x

ok_inj :
    {x y : InterlockResult} {o : Outcome ApprovalError InterlockResult}
    → o ≡ ok x
    → o ≡ ok y
    → x ≡ y
unfolding given
ok_inj {x} p q = sym (ap (given x) p) ∙ ap (given x) q

ready_exact :
    (c : Checks)
    → c.dry_run_cleared_for_execution ≡ false
    → (status_of c ≡ ready_but_execution_disabled) ↔ (internal_ready c ≡ true)
unfolding status_of
ready_exact c h = (λ e. ground arith, λ e. ground arith)

module _ (hash : Option String → ℕ) (enabled : Bool) (ev : Evidence) (k user : ℕ) (is_admin : Bool)
    (db : ApprovalDb) where
  gate_shut :
      (i : IntentRow) → (checks_of hash enabled ev k i db).dry_run_cleared_for_execution ≡ false
  unfolding checks_of credential_snapshot
  gate_shut i = refl

  record Runs (i : IntentRow) : Type 0 where
    there : find intent_key k db.intents ≡ some i
    returns :
        (run_final_safety_check hash enabled ev k user is_admin db).0
        ≡ ok record {
          status = status_of (checks_of hash enabled ev k i db);
          real_execution_allowed =
              internal_ready (checks_of hash enabled ev k i db)
              && future_gates_open (checks_of hash enabled ev k i db);
          checks = checks_of hash enabled ev k i db;
        }

  run-cases :
      ((e : ApprovalError) × (run_final_safety_check hash enabled ev k user is_admin db
          ≡ (err e, db)))
      ⊎ ((i : IntentRow) × Runs i)
  unfolding run_final_safety_check
  run-cases = elim (visible_intent-cases k user is_admin db) [
    | inl (e, r, same) ↦ inl (e, rw (r, same, ◌>>=◌))
    | inr (i, v) ↦ inr (i, record { there = v.there; returns = ground (arith, v.returns, v.reads) })
  ]

  -- Real execution is never allowed: whoever asks, whatever the tables, the settings and the provider
  -- say, a run that returns says `real_execution_allowed` is false.
  pub real_execution_never_allowed :
      {r : InterlockResult}
      → (run_final_safety_check hash enabled ev k user is_admin db).0 ≡ ok r
      → r.real_execution_allowed ≡ false
  unfolding checks_of credential_snapshot
  real_execution_never_allowed h = elim run-cases [
    | inl (e, p) ↦ absurd (ground (arith, p))
    | inr (i, c) ↦ ground (arith, c.returns)
  ]

  status-ready :
      (i : IntentRow)
      → (status_of (checks_of hash enabled ev k i db) ≡ ready_but_execution_disabled)
        ↔ (internal_ready (checks_of hash enabled ev k i db) ≡ true)
  status-ready i = ready_exact (checks_of hash enabled ev k i db) (gate_shut i)

  -- When a run says `ready_but_execution_disabled`, the intent is in the table, its source is approved,
  -- the latest decision on it is an approval, and the payload that the last approval recorded has the
  -- hash of the present payload.
  pub ready_means_approved :
      {r : InterlockResult}
      → (run_final_safety_check hash enabled ev k user is_admin db).0 ≡ ok r
      → r.status ≡ ready_but_execution_disabled
      → (i : IntentRow) × (a : Approval) × (find intent_key k db.intents ≡ some i)
        × (source_is_approved i db ≡ true)
        × (is_approved_decision (latest_decision k db.approvals) ≡ true)
        × (approval_row k db.approvals ≡ some a)
        × (a.payload_hash ≡ hash (credential_snapshot enabled ev i).preview)
  unfolding checks_of
  ready_means_approved {r} h ready = elim run-cases [
    | inl (e, p) ↦ absurd (ground (arith, p))
    | inr (i, c) ↦
        let all_hold : internal_ready (checks_of hash enabled ev k i db) ≡ true =
          (status-ready i).0
            (ap (λ (x : InterlockResult). x.status) (ok_inj (c.returns) h) ∙ ready) in
        elim (Option-cases (approval_row k db.approvals)) [
          | inl e ↦ absurd (ground (arith, all_hold, e))
          | inr (a, e) ↦ (
            i,
            a,
            c.there,
            ground (arith, all_hold),
            ground (arith, all_hold, e),
            e,
            ground (arith, all_hold, e),
          )
        ]
  ]
