-- ===== src/Delegations/Race.antt =====
-- apps/cora-api/app/agents/delegations.py: the cap on active delegations. `create_delegation` counts on
-- one connection and inserts on another, with no lock, so that calls that run side by side may all
-- count before one of them inserts.
use cora_os.Prelude.{
  ℕ, suc, ◌+◌, ◌≤◌, ◌<◌, ◌≡◌, ◌⊎◌, refl, ap, inl, inr, true, false, ◌||◌, Option, none, some, List,
  [], ◌∷◌, ◌++◌, ==_iff, arith, leb, length, length-append, Bool-cases, Option-cases, if◌then◌else◌,
}
use cora_os.Prelude.Exec.{Outcome, ok, err}
use cora_os.Prelude.Table.{find}
use cora_os.Prelude.Text.{strip, lower, text_eq}
use cora_os.Delegations.{
  DelegationStatus, DelegationError, invalid, self_delegation, unavailable, depth_exceeded,
  DelegationDb, NewDelegation, delegation_key, is_empty, parse_initial, same_id, count_active,
  active_count, row_of, max_active, check_new, insert_new,
}
use cora_os.Delegations.Bounds.{
  Ending, end_delegation, end_delegation-rows, count_active-append, count_active-update,
  count_active_plan,
}

-- a call that has counted and has not inserted its row
pub record Admitted : Type 0 where
  pub request : NewDelegation
  pub status : DelegationStatus

-- the tables, and the calls between their count and their INSERT
pub record RaceWorld : Type 0 where
  pub db : DelegationDb
  pub open db use *
  pub between : List Admitted

abbrev pub counted :
    NewDelegation → RaceWorld → Outcome DelegationError DelegationStatus × DelegationDb → RaceWorld
counted n w (ok status, db) = record {
  db = db;
  between = w.between ++ record { request = n; status = status } ∷ [];
}
counted n w (err e, db) = record { db = db; between = w.between }

-- One step, with at most `most` calls between their count and their INSERT.
pub data Step (most : ℕ) (w : RaceWorld) : RaceWorld → Type 0 where
  count :
      (n : NewDelegation) → length w.between < most → Step most w (counted n w (check_new n w.db))
  insert :
      (xs ys : List Admitted) (a : Admitted) (k : ℕ)
      → w.between ≡ xs ++ a ∷ ys
      → find delegation_key k w.delegations ≡ none
      → Step most w record { db = (insert_new k a.request a.status w.db).1; between = xs ++ ys }
  give_up :
      (xs ys : List Admitted) (a : Admitted)
      → w.between ≡ xs ++ a ∷ ys
      → Step most w (record w { between = xs ++ ys })
  end_one :
      (e : Ending) (k : ℕ) (user : Option ℕ) (now : ℕ)
      → Step most w (record w { db = end_delegation e k user now w.db })

pub data Reach (most : ℕ) (w : RaceWorld) : RaceWorld → Type 0 where
  here : Reach most w w
  next : {u v : RaceWorld} → Reach most w u → Step most u v → Reach most w v

-- What a count that admits has tested.
pub record Checks (n : NewDelegation) (db : DelegationDb) (status : DelegationStatus) : Type 0 where
  pub apart : text_eq (lower (strip n.from_agent)) (lower (strip n.to_agent)) ≡ false
  pub initial : parse_initial n.initial_status ≡ some status
  pub up : db.pool ≡ true
  pub room : leb max_active (active_count n.session_id n.execution_plan_id db) ≡ false
  pub result : check_new n db ≡ (ok status, db)

pub check_new-cases :
    (n : NewDelegation) (db : DelegationDb)
    → ((e : DelegationError) × (check_new n db ≡ (err e, db)))
      ⊎ ((status : DelegationStatus) × Checks n db status)
unfolding check_new
check_new-cases n db =
    elim (Bool-cases (is_empty (strip n.from_agent) || is_empty (strip n.to_agent))) [
      | inl e ↦ inl (invalid, simp e)
      | inr named ↦
          elim (Bool-cases (text_eq (lower (strip n.from_agent)) (lower (strip n.to_agent)))) [
            | inl e ↦ inl (self_delegation, simp (named, e))
            | inr apart ↦ elim (Option-cases (parse_initial n.initial_status)) [
              | inl e ↦ inl (invalid, simp (named, apart, e))
              | inr (status, initial) ↦ elim (Bool-cases db.pool) [
                | inr e ↦ inl (unavailable, simp (named, apart, initial, e))
                | inl up ↦
                    elim (Bool-cases
                      (leb max_active (active_count n.session_id n.execution_plan_id db))) [
                        | inl e ↦ inl (depth_exceeded, simp (named, apart, initial, up, e))
                        | inr room ↦ inr (
                          status,
                          record {
                            apart = apart;
                            initial = initial;
                            up = up;
                            room = room;
                            result = simp (named, apart, initial, up, room);
                          },
                        )
                      ]
              ]
            ]
          ]
    ]

pub rows-insert_new :
    (k : ℕ) (n : NewDelegation) (status : DelegationStatus) (db : DelegationDb)
    → (insert_new k n status db).1.delegations ≡ db.delegations ++ row_of k n status ∷ []
unfolding insert_new
rows-insert_new k n status db = refl

-- the calls for a session among those in between
abbrev pub waiting : ℕ → List Admitted → ℕ
waiting s [] = 0
waiting s (a ∷ xs) = if same_id s a.request.session_id then suc (waiting s xs) else waiting s xs

waiting-append :
    (s : ℕ) (xs ys : List Admitted) → waiting s (xs ++ ys) ≡ waiting s xs + waiting s ys
waiting-append s [] ys = omega arith
waiting-append s (a ∷ xs) ys = ground (arith, waiting-append s xs ys)

waiting-le-length : (s : ℕ) (xs : List Admitted) → waiting s xs ≤ length xs
waiting-le-length s [] = omega arith
waiting-le-length s (a ∷ xs) = ground (arith, waiting-le-length s xs)

-- Active delegations and calls in between together stay below the cap and the number of calls.
record IsNear (most : ℕ) (w : RaceWorld) : Type 0 where
  few : length w.between ≤ most
  near :
      (s : ℕ) (p : Option ℕ)
      → count_active (some s) p w.delegations + waiting s w.between < max_active + most

same_id-some : (k : ℕ) (o : Option ℕ) → same_id k o ≡ true → o ≡ some k
same_id-some k none h = cc
same_id-some k (some j) h = ap some ((==_iff j k).0 h)

-- the session of an admitted call had room
room_left :
    (n : NewDelegation) (db : DelegationDb) (status : DelegationStatus) (s : ℕ) (p : Option ℕ)
    → Checks n db status
    → n.session_id ≡ some s
    → count_active (some s) p db.delegations < max_active
unfolding active_count
room_left n db status s p c e =
    ground (arith, c.room, c.up, e, count_active_plan s p n.execution_plan_id db.delegations)

IsNear-counted :
    (most : ℕ) (n : NewDelegation) (w : RaceWorld)
    → length w.between < most
    → IsNear most w
    → IsNear most (counted n w (check_new n w.db))
IsNear-counted most n w free h = elim (check_new-cases n w.db) [
  | inl (e, r) ↦ rw r (record { few = h.few; near = h.near })
  | inr (status, c) ↦
      let a : Admitted = record { request = n; status = status } in
      rw (c.result) (record {
        few = omega (arith, length-append w.between (a ∷ []));
        near = λ s p. elim (Bool-cases (same_id s n.session_id)) [
          | inr apart ↦ ground (arith, waiting-append s w.between (a ∷ []), h.near s p)
          | inl mine ↦ ground (
            arith,
            waiting-append s w.between (a ∷ []),
            waiting-le-length s w.between,
            room_left n w.db status s p c (same_id-some s n.session_id mine),
          )
        ];
      })
]

IsNear-step : {most : ℕ} {u w : RaceWorld} → Step most u w → IsNear most u → IsNear most w
IsNear-step {most} {u} (count n free) h = IsNear-counted most n u free h
IsNear-step {most} {u} (insert xs ys a k at new) h = record {
  few = omega (arith, h.few, ap length at, length-append xs (a ∷ ys), length-append xs ys);
  near = λ s p. rw (rows-insert_new k a.request a.status u.db) (
      ground (
        arith,
        h.near s p,
        ap (waiting s) at,
        waiting-append s xs (a ∷ ys),
        waiting-append s xs ys,
        count_active-append (some s) p u.delegations (row_of k a.request a.status),
      ));
}
IsNear-step {most} {u} (give_up xs ys a at) h = record {
  few = omega (arith, h.few, ap length at, length-append xs (a ∷ ys), length-append xs ys);
  near = λ s p.
      ground (
        arith,
        h.near s p,
        ap (waiting s) at,
        waiting-append s xs (a ∷ ys),
        waiting-append s xs ys,
      );
}
IsNear-step {most} {u} (end_one e k user now) h = elim (end_delegation-rows e k user now u.db) [
  | inl same ↦ record { few = h.few; near = λ s p. rw same (h.near s p) }
  | inr (status, output, ended, rows) ↦ record {
    few = h.few;
    near = λ s p. rw rows (
        omega (
          arith,
          count_active-update (some s) p k status output now ended u.delegations,
          h.near s p,
        ));
  }
]

IsNear-Reach : {most : ℕ} {u w : RaceWorld} → Reach most u w → IsNear most u → IsNear most w
IsNear-Reach here h = h
IsNear-Reach (next r st) h = IsNear-step st (IsNear-Reach r h)

-- No session has more active delegations than the cap.
pub record IsBounded (db : DelegationDb) : Type 0 where
  pub bound : (s : ℕ) (p : Option ℕ) → count_active (some s) p db.delegations ≤ max_active

-- The cap, as far as it is kept: from tables in which no session has more than three active delegations
-- and with no call under way, however calls of `create_delegation` interleave with one another and with
-- the ends of delegations, no session has more active ones than two and the number of calls that may be
-- between their count and their INSERT at a time. With one such call at a time that is the cap, three.
pub Reach-bound_race :
    (most : ℕ) {u w : RaceWorld} (s : ℕ) (p : Option ℕ)
    → 0 < most
    → u.between ≡ []
    → IsBounded u.db
    → Reach most u w
    → count_active (some s) p w.delegations < max_active + most
Reach-bound_race most {u} {w} s p some_one idle h r =
    let start : IsNear most u = record {
      few = omega (arith, ap length idle);
      near = λ t q. omega (arith, h.bound t q, ap (waiting t) idle);
    } in
    omega (arith, (IsNear-Reach r start).near s p)
