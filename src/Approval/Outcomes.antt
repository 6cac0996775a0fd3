-- ===== src/Approval/Outcomes.antt =====
-- What a decision on an intent leaves behind.
use cora_os.Prelude.{
  ℕ, ◌≡◌, refl, inl, inr, ◌∙◌, String, Bool, true, false, ◌&&◌, Option, none, some, List, [], ◌∷◌,
  ◌++◌, ◌==◌, ==_refl, arith, Bool-cases, if◌then◌else◌,
}
use cora_os.Prelude.Text.{Text}
use cora_os.Approval.{
  ApprovalState, approved_for_execution, Decision, dec_approved, dec_blocked, IntentRow, Approval,
  ApprovalDb, Evidence, latest_decision, latest_of, decides, is_cancelled,
}
use cora_os.Approval.Visible.{IsVisible, visible_intent-cases}
use cora_os.Approval.Checklist.{ApprovalChecklist, checklist}
use cora_os.Approval.Decide.{view_intent, refuse, decide, recorded, approve}

latest_of-append :
    (k : ℕ) (last : Option Decision) (rows : List Approval) (a : Approval)
    → latest_of k last (rows ++ a ∷ [])
      ≡ (if a.intent_id == k && decides a.decision then some a.decision else latest_of k last rows)
latest_of-append k last [] a = refl
latest_of-append k last (x ∷ rows) a =
    latest_of-append k (if x.intent_id == k && decides x.decision then some x.decision else last)
      rows a

module _ (hash : Option String → ℕ) (enabled : Bool) (ev : Evidence) where
  approvals-view_intent :
      (k user : ℕ) (is_admin : Bool) (db : ApprovalDb)
      → (view_intent hash enabled ev k user is_admin db).1.approvals ≡ db.approvals
  unfolding view_intent
  approvals-view_intent k user is_admin db = elim (visible_intent-cases k user is_admin db) [
    | inl (e, r, same) ↦ ground (arith, r, same)
    | inr (i, v) ↦ ground (arith, v.returns, v.reads)
  ]

  latest-recorded :
      (k approver : ℕ) (d : Decision) (state : ApprovalState) (reason : Option Text) (payload : ℕ)
      (db : ApprovalDb)
      → latest_decision k (recorded k approver d state reason payload db).approvals
        ≡ (if decides d then some d else latest_decision k db.approvals)
  unfolding latest_decision recorded
  latest-recorded k approver d state reason payload db =
      latest_of-append k none db.approvals _ ∙ ground (arith, ==_refl k)

  latest-refuse :
      (k approver : ℕ) (i : IntentRow) (cl : ApprovalChecklist) (comment : Option Text) (now : ℕ)
      (db : ApprovalDb)
      → latest_decision k (refuse hash enabled ev k approver i cl comment now db).1.approvals
        ≡ latest_decision k db.approvals
  unfolding refuse
  latest-refuse k approver i cl comment now db =
      latest-recorded k approver dec_blocked _ comment cl.payload_hash db

  latest-decide :
      (k approver : ℕ) (i : IntentRow) (d : Decision) (state : ApprovalState) (kept : Option ℕ)
      (cl : ApprovalChecklist) (comment : Option Text) (tool : String) (now : ℕ) (db : ApprovalDb)
      → latest_decision k
          (decide hash enabled ev k approver i d state kept cl comment tool now db).approvals
        ≡ (if decides d then some d else latest_decision k db.approvals)
  unfolding decide
  latest-decide k approver i d state kept cl comment tool now db =
      latest-recorded k approver d state comment cl.payload_hash db

  module _ (k approver : ℕ) (comment : Option Text) (now : ℕ) (db : ApprovalDb) (i : IntentRow)
      (v : IsVisible k approver true db i) (live : is_cancelled i ≡ false) where
    approve_passes :
        (checklist hash enabled ev i db).can_approve ≡ true
        → approve hash enabled ev k approver true comment now db
          ≡ view_intent hash enabled ev k approver true (
              decide hash enabled ev k approver i dec_approved approved_for_execution
                (some (checklist hash enabled ev i db).payload_hash)
                (checklist hash enabled ev i db)
                comment
                "execution_approval_approved"
                now
                db)
    unfolding approve
    approve_passes may = ground (arith, v.returns, v.reads, live, may)

    approve_refuses :
        (checklist hash enabled ev i db).can_approve ≡ false
        → approve hash enabled ev k approver true comment now db
          ≡ refuse hash enabled ev k approver i (checklist hash enabled ev i db) comment now db
    unfolding approve
    approve_refuses may_not = ground (arith, v.returns, v.reads, live, may_not)

    -- An admin's `approve` of an intent that is visible and not cancelled makes the latest decision an
    -- approval when the checklist holds, and leaves the latest decision as it was when it does not.
    pub approve_decides :
        latest_decision k (approve hash enabled ev k approver true comment now db).1.approvals ≡ (
          if (checklist hash enabled ev i db).can_approve
          then some dec_approved
          else latest_decision k db.approvals)
    approve_decides = elim (Bool-cases (checklist hash enabled ev i db).can_approve) [
      | inl may ↦
          rw (may, approve_passes may, approvals-view_intent)
            (latest-decide k approver i dec_approved approved_for_execution _ _ comment _ now db)
      | inr may_not ↦
          rw (may_not, approve_refuses may_not) (latest-refuse k approver i _ comment now db)
    ]
