-- ===== src/Delegations/Bounds.antt =====
-- What one call does to the rows, and to the number of active ones.
use cora_os.Prelude.{
  ℕ, ◌+◌, ◌≤◌, ◌≡◌, refl, inl, inr, String, true, false, ◌&&◌, ◌||◌, Option, none, some, List, [],
  ◌∷◌, ◌++◌, ◌==◌, ==_refl, arith, leb, Bool-cases, Option-cases, if◌then◌else◌, ◌⊎◌,
}
use cora_os.Prelude.Exec.{ok, err}
use cora_os.Prelude.Table.{find, update}
use cora_os.Prelude.Text.{strip, lower, text_eq}
use cora_os.Delegations.{
  DelegationStatus, completed, failed, DelegationError, invalid, self_delegation, unavailable,
  depth_exceeded, Delegation, DelegationDb, NewDelegation, delegation_key, is_empty, parse_status,
  parse_initial, is_active, in_scope, count_active, active_count, row_of, max_active, with_status,
  create_delegation, update_delegation_status, complete_delegation, fail_delegation, is_ended,
}

-- What one call of `create_delegation` does: it raises and leaves the tables alone, or it adds a row
-- whose agents differ, in a scope that has room.
pub record Creates (k : ℕ) (n : NewDelegation) (db : DelegationDb) (status : DelegationStatus)
    : Type 0 where
  pub named : (is_empty (strip n.from_agent) || is_empty (strip n.to_agent)) ≡ false
  pub apart : text_eq (lower (strip n.from_agent)) (lower (strip n.to_agent)) ≡ false
  pub initial : parse_initial n.initial_status ≡ some status
  pub up : db.pool ≡ true
  pub room : leb max_active (active_count n.session_id n.execution_plan_id db) ≡ false
  pub returns : (create_delegation k n db).0 ≡ ok (row_of k n status)
  pub rows : (create_delegation k n db).1.delegations ≡ db.delegations ++ row_of k n status ∷ []
  pub stays : (create_delegation k n db).1.pool ≡ true

pub create_delegation-cases :
    (k : ℕ) (n : NewDelegation) (db : DelegationDb)
    → ((e : DelegationError) × (create_delegation k n db ≡ (err e, db)))
      ⊎ ((status : DelegationStatus) × Creates k n db status)
unfolding create_delegation
create_delegation-cases k n db =
    elim (Bool-cases (is_empty (strip n.from_agent) || is_empty (strip n.to_agent))) [
      | inl e ↦ inl (invalid, simp e)
      | inr named ↦
          elim (Bool-cases (text_eq (lower (strip n.from_agent)) (lower (strip n.to_agent)))) [
            | inl e ↦ inl (self_delegation, simp (named, e))
            | inr apart ↦ elim (Option-cases (parse_initial n.initial_status)) [
              | inl e ↦ inl (invalid, simp (named, apart, e))
              | inr (status, initial) ↦ elim (Bool-cases db.pool) [
                | inr e ↦ inl (unavailable, simp (named, apart, initial, e))
                | inl up ↦
                    elim (Bool-cases
                      (leb max_active (active_count n.session_id n.execution_plan_id db))) [
                        | inl e ↦ inl (depth_exceeded, simp (named, apart, initial, up, e))
                        | inr room ↦ inr (
                          status,
                          record {
                            named = named;
                            apart = apart;
                            initial = initial;
                            up = up;
                            room = room;
                            returns = simp (named, apart, initial, up, room);
                            rows = simp (named, apart, initial, up, room);
                            stays = simp (named, apart, initial, up, room);
                          },
                        )
                      ]
              ]
            ]
          ]
    ]

pub count_active-append :
    (session plan : Option ℕ) (ds : List Delegation) (d : Delegation)
    → count_active session plan (ds ++ d ∷ [])
      ≡ count_active session plan ds
        + (if is_active d.status && in_scope session plan d then 1 else 0)
count_active-append session plan [] d = ground arith
count_active-append session plan (x ∷ ds) d = ground (arith, count_active-append session plan ds d)

-- with a session, the plan does not matter
pub count_active_plan :
    (s : ℕ) (p q : Option ℕ) (ds : List Delegation)
    → count_active (some s) p ds ≡ count_active (some s) q ds
count_active_plan s p q [] = refl
count_active_plan s p q (d ∷ ds) = ground (arith, count_active_plan s p q ds)

in_scope-with_status :
    (session plan : Option ℕ) (status : DelegationStatus) (output : Option String) (now : ℕ)
    (d : Delegation)
    → in_scope session plan (with_status status output now d) ≡ in_scope session plan d
in_scope-with_status none none status output now d = refl
in_scope-with_status none (some p) status output now d = refl
in_scope-with_status (some s) plan status output now d = refl

pub ended_inactive : (s : DelegationStatus) → is_ended s ≡ true → is_active s ≡ false
ended_inactive s h = ground arith

pub count_active-update :
    (session plan : Option ℕ) (k : ℕ) (status : DelegationStatus) (output : Option String) (now : ℕ)
    → is_ended status ≡ true
    → (ds : List Delegation)
    → count_active session plan (update delegation_key k (with_status status output now) ds)
      ≤ count_active session plan ds
count_active-update session plan k status output now h [] = omega arith
count_active-update session plan k status output now h (d ∷ ds) =
    let ih = count_active-update session plan k status output now h ds in
    let off = ended_inactive status h in
    elim (Bool-cases (d.id == k)) [
      | inl e ↦ simp (e, off) (ground (arith, ih))
      | inr e ↦ simp e (ground (arith, ih))
    ]

-- The ends of a delegation that the program asks for.
pub data Ending : Type 0 where
  completes : (output : Option String) → Ending
  fails : (as_json : String → String) (message : String) → Ending

abbrev pub end_delegation : Ending → ℕ → Option ℕ → ℕ → DelegationDb → DelegationDb
end_delegation (completes output) k user now db = (complete_delegation k output user now db).1
end_delegation (fails as_json message) k user now db =
    (fail_delegation as_json k message user now db).1

-- what an end writes, or nothing
pub end_delegation-rows :
    (e : Ending) (k : ℕ) (user : Option ℕ) (now : ℕ) (db : DelegationDb)
    → ((end_delegation e k user now db).delegations ≡ db.delegations)
      ⊎ ((status : DelegationStatus) × (output : Option String) × (is_ended status ≡ true)
          × ((end_delegation e k user now db).delegations
              ≡ update delegation_key k (with_status status output now) db.delegations))
unfolding complete_delegation fail_delegation update_delegation_status parse_status
end_delegation-rows (completes output) k user now db = elim (Bool-cases db.pool) [
  | inr down ↦ inl (simp down)
  | inl up ↦ elim (Option-cases (find delegation_key k db.delegations)) [
    | inl e ↦ inl (simp (up, e))
    | inr (d, e) ↦ inr (completed, output, refl, simp (up, e))
  ]
]
end_delegation-rows (fails as_json message) k user now db = elim (Bool-cases db.pool) [
  | inr down ↦ inl (simp down)
  | inl up ↦ elim (Option-cases (find delegation_key k db.delegations)) [
    | inl e ↦ inl (simp (up, e))
    | inr (d, e) ↦ inr (failed, some (as_json message), refl, simp (up, e))
  ]
]

-- the end of a row that is there
pub end_delegation-found :
    (e : Ending) (k : ℕ) (user : Option ℕ) (now : ℕ) (db : DelegationDb) (d : Delegation)
    → db.pool ≡ true
    → find delegation_key k db.delegations ≡ some d
    → (status : DelegationStatus) × (output : Option String) × (is_ended status ≡ true)
      × ((end_delegation e k user now db).delegations
          ≡ update delegation_key k (with_status status output now) db.delegations)
unfolding complete_delegation fail_delegation update_delegation_status parse_status
end_delegation-found (completes output) k user now db d up e =
    (completed, output, refl, simp (up, e))
end_delegation-found (fails as_json message) k user now db d up e =
    (failed, some (as_json message), refl, simp (up, e))

-- ending the last row leaves no more active rows than there are before it
pub count_active-update_last :
    (session plan : Option ℕ) (status : DelegationStatus) (output : Option String) (now : ℕ)
    → is_ended status ≡ true
    → (ds : List Delegation) (d : Delegation)
    → count_active session plan
        (update delegation_key d.id (with_status status output now) (ds ++ d ∷ []))
      ≤ count_active session plan ds
count_active-update_last session plan status output now h [] d =
    simp (==_refl d.id, ended_inactive status h) (omega arith)
count_active-update_last session plan status output now h (x ∷ ds) d =
    let ih = count_active-update_last session plan status output now h ds d in
    let off = ended_inactive status h in
    elim (Bool-cases (x.id == d.id)) [
      | inl e ↦ simp (e, off) (ground (arith, ih))
      | inr e ↦ simp e (ground (arith, ih, in_scope-with_status session plan status output now x))
    ]
