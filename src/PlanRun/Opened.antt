-- ===== src/PlanRun/Opened.antt =====
-- The delegation that is open while a step runs.
use cora_os.Prelude.{ℕ, ◌≤◌, ◌≡◌, refl, inl, inr, String, Option, none, some, arith, Bool-cases}
use cora_os.Prelude.Exec.{Outcome, ok, err}
use cora_os.Prelude.Text.{Text, codes, upper, text_eq}
use cora_os.Delegations.{
  Delegation, DelegationDb, DelegationError, DelegationStatus, NewDelegation, count_active,
  create_delegation, row_of,
}
use cora_os.Delegations.Bounds.{
  Creates, create_delegation-cases, Ending, completes, fails, end_delegation,
}
use cora_os.Delegations.Ended.{ended_created}
use cora_os.PlanRun.{
  PlanWorld, PlanJob, step_delegation, kept_open, opened_for, close_delegation_fail,
  close_delegation,
}
use cora_os.PlanRun.Tame.{IsTame, same-IsTame}

-- No session and no plan has more active delegations than before.
pub record IsClosedOff (u v : PlanWorld) : Type 0 where
  pub active :
      (session plan : Option ℕ)
      → count_active session plan v.deleg.delegations
        ≤ count_active session plan u.deleg.delegations

-- an open delegation for a step, or none
abbrev pub IsOpened : PlanWorld → Option ℕ → DelegationDb → Type 0
IsOpened u none d = d ≡ u.deleg
IsOpened u (some k) d =
    (n : NewDelegation) × (status : DelegationStatus) × Creates k n u.deleg status
    × (d ≡ (create_delegation k n u.deleg).1)

module _ (job : PlanJob) where
  IsOpened-kept_open :
      (w : PlanWorld) (o : Outcome DelegationError Delegation) (d : DelegationDb) (row : Delegation)
      → o ≡ ok row
      → IsOpened w (some w.fresh) d
      → IsOpened w (kept_open w.fresh (o, d) w).0 (kept_open w.fresh (o, d) w).1.deleg
        × IsTame job.since w (kept_open w.fresh (o, d) w).1
  IsOpened-kept_open w (ok r) d row e h = (h, same-IsTame job.since refl refl refl (λ c. c))
  IsOpened-kept_open w (err x) d row e h = cc

  pub IsOpened-opened_for :
      (w : PlanWorld) (o : Option Text)
      → IsOpened w (opened_for job w o).0 (opened_for job w o).1.deleg
        × IsTame job.since w (opened_for job w o).1
  IsOpened-opened_for w none = (refl, same-IsTame job.since refl refl refl (λ c. c))
  IsOpened-opened_for w (some agent) = elim (Bool-cases (text_eq (upper agent) (codes "ATLAS"))) [
    | inl e ↦ simp e (refl, same-IsTame job.since refl refl refl (λ c. c))
    | inr e ↦
        let n = step_delegation job agent in
        simp e (elim (create_delegation-cases w.fresh n w.deleg) [
          | inl (x, r) ↦ rw r (refl, same-IsTame job.since refl refl refl (λ c. c))
          | inr (status, c) ↦
              let r = create_delegation w.fresh n w.deleg in
              IsOpened-kept_open w r.0 r.1 (row_of w.fresh n status) c.returns (n, status, c, refl)
        ])
  ]

  IsClosedOff-ended :
      (u : PlanWorld) (k : ℕ) (d : DelegationDb) (e : Ending)
      → IsOpened u (some k) d
      → (s p : Option ℕ)
      → count_active s p (end_delegation e k job.user_id job.now d).delegations
        ≤ count_active s p u.deleg.delegations
  IsClosedOff-ended u k d e (n, status, c, same) s p =
      rw same (ended_created e k n u.deleg status job.user_id job.now c s p)

  pub IsClosedOff-close_delegation_fail :
      (u : PlanWorld) (k : Option ℕ) (message : String) (w : PlanWorld)
      → IsOpened u k w.deleg
      → IsClosedOff u (close_delegation_fail job k message w)
        × IsTame job.since w (close_delegation_fail job k message w)
  IsClosedOff-close_delegation_fail u none message w h =
      (record { active = λ s p. rw h (omega arith) }, same-IsTame job.since refl refl refl (λ c. c))
  IsClosedOff-close_delegation_fail u (some k) message w h = (
    record { active = IsClosedOff-ended u k w.deleg (fails job.as_json message) h },
    same-IsTame job.since refl refl refl (λ c. c),
  )

  pub IsClosedOff-close_delegation :
      (u : PlanWorld) (k : Option ℕ) (w : PlanWorld)
      → IsOpened u k w.deleg
      → IsClosedOff u (close_delegation job k w) × IsTame job.since w (close_delegation job k w)
  IsClosedOff-close_delegation u none w h =
      (record { active = λ s p. rw h (omega arith) }, same-IsTame job.since refl refl refl (λ c. c))
  IsClosedOff-close_delegation u (some k) w h = (
    record { active = IsClosedOff-ended u k w.deleg (completes (some "completed")) h },
    same-IsTame job.since refl refl refl (λ c. c),
  )
