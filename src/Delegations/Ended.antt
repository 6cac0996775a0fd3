-- ===== src/Delegations/Ended.antt =====
-- A delegation that is created and then ended.
use cora_os.Prelude.{
  ℕ, ◌≤◌, ◌<◌, ◌≡◌, refl, ap, ◌∙◌, inl, inr, false, Option, some, List, [], ◌∷◌, ◌++◌, ◌==◌,
  ==_refl, arith, All, Bool-cases,
}
use cora_os.Prelude.Table.{find, update}
use cora_os.Delegations.{
  Delegation, DelegationDb, NewDelegation, DelegationStatus, count_active, create_delegation,
  delegation_key, is_active, row_of, with_status,
}
use cora_os.Delegations.Bounds.{
  Creates, Ending, end_delegation, end_delegation-found, count_active-update_last, ended_inactive,
  ended_inactive,
}

-- the row that a creation adds is found under its identifier
found_last :
    (ds : List Delegation) (d : Delegation)
    → (e : Delegation) × (find delegation_key d.id (ds ++ d ∷ []) ≡ some e)
found_last [] d = (d, simp (==_refl d.id))
found_last (x ∷ ds) d = elim (Bool-cases (x.id == d.id)) [
  | inl e ↦ (x, simp e)
  | inr e ↦ (let more = found_last ds d in (more.0, simp e more.1))
]

-- a row that is created and ended counts in no scope
pub ended_created :
    (e : Ending) (k : ℕ) (n : NewDelegation) (db : DelegationDb) (status : DelegationStatus)
    (user : Option ℕ) (now : ℕ)
    → Creates k n db status
    → (s p : Option ℕ)
    → count_active s p (end_delegation e k user now (create_delegation k n db).1).delegations
      ≤ count_active s p db.delegations
ended_created e k n db status user now c s p =
    let row = row_of k n status in
    let there = found_last db.delegations row in
    let at = ap (find delegation_key k) c.rows ∙ there.1 in
    let end = end_delegation-found e k user now (create_delegation k n db).1 there.0 c.stays at in
    rw (end.3, c.rows) (count_active-update_last s p end.0 end.1 now end.2 db.delegations row)

-- an update of the last row, when the rows before it have smaller identifiers
update_last :
    (k : ℕ) (f : Delegation → Delegation) (ds : List Delegation) (d : Delegation)
    → All (λ (x : Delegation). x.id < k) ds
    → d.id ≡ k
    → update delegation_key k f (ds ++ d ∷ []) ≡ ds ++ f d ∷ []
update_last k f [] d h e = ground (arith, ==_refl k)
update_last k f (x ∷ ds) d h e = ground (arith, update_last k f ds d h.1 e)

-- Under a new identifier, a creation and an end together add a row that has ended, and change no other.
pub rows-ended :
    (e : Ending) (k : ℕ) (n : NewDelegation) (db : DelegationDb) (status : DelegationStatus)
    (user : Option ℕ) (now : ℕ)
    → Creates k n db status
    → All (λ (x : Delegation). x.id < k) db.delegations
    → (row : Delegation) × ((end_delegation e k user now (create_delegation k n db).1).delegations
        ≡ db.delegations ++ row ∷ [])
      × (row.id ≡ k)
      × (is_active row.status ≡ false)
rows-ended e k n db status user now c h =
    let row = row_of k n status in
    let there = found_last db.delegations row in
    let at = ap (find delegation_key k) c.rows ∙ there.1 in
    let end = end_delegation-found e k user now (create_delegation k n db).1 there.0 c.stays at in
    (
      with_status end.0 end.1 now row,
      end.3
          ∙ ap (update delegation_key k (with_status end.0 end.1 now)) c.rows
          ∙ update_last k (with_status end.0 end.1 now) db.delegations row h refl,
      refl,
      ended_inactive end.0 end.2,
    )
