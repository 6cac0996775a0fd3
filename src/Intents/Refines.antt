-- ===== src/Intents/Refines.antt =====
-- The table of intents implements the abstract lifecycle.
use mathlib.Core.Option
use cora_os.Prelude.{
  ℕ, ◌≡◌, refl, ◌∙◌, inl, inr, none, some, List, [], ◌∷◌, arith, Bool-cases, ==_refl, if◌then◌else◌,
  ◌==◌, ap, Option-cases,
}
use cora_os.Prelude.Table.{find, find-append, find-update}
use cora_os.Intents.{Intent, IntentDb, intent_key, IntentStatus, cancelled}
use cora_os.Intents.Calls.{Call, run_call, run_calls}
use cora_os.Intents.Lifecycle.{
  closed, phase_of, Board, Advance, stays, opens, moves, Advances, here, next,
}
use cora_os.Intents.Effect.{Adds, Alters, run_call_effect}
use cora_os.Intents.Sound.{IsSound, run_call-IsSound, find_fresh}

-- The abstract view of the table: the phase of each intent.
abbrev pub board : IntentDb → Board
board db k = Option.map (λ (i : Intent). phase_of i.status) (find intent_key k db.intents)

module _ {db db' : IntentDb} where
  find_added :
      (a : Adds db db') (j : ℕ)
      → find intent_key j db'.intents ≡ elim (find intent_key j db.intents) [
        | none ↦ if db.fresh == j then some a.row else none
        | some i ↦ some i
      ]
  find_added a j = rw (a.intents) (ground (arith, find-append intent_key j db.intents a.row, a.id))

  opens_added : (a : Adds db db') → IsSound db → Advance (board db) (board db')
  opens_added a s =
      let gone = find_fresh db.fresh db.intents s.below in
      let there : find intent_key db.fresh db'.intents ≡ some a.row =
        ground (arith, find_added a db.fresh, ==_refl db.fresh) in
      opens db.fresh (rw gone refl) (rw there (ap some a.new.undecided_yet)) (λ j ne.
        (let same : find intent_key j db'.intents ≡ find intent_key j db.intents =
            ground (arith, find_added a j, Option-cases (find intent_key j db.intents)) in
          rw same refl))

  moves_altered : (a : Alters db db') → Advance (board db) (board db')
  moves_altered a =
      let found = λ (j : ℕ). find-update intent_key a.k j a.f a.keeps db.intents in
      let there : find intent_key a.k db'.intents ≡ some (a.f a.row) =
        rw (a.intents) (ground (arith, found a.k, a.there, ==_refl a.k)) in
      moves a.k (phase_of a.row.status) (phase_of (a.f a.row).status) (rw (a.there) refl)
        (rw there refl) a.move.lawful
        (λ j ne.
          (let same : find intent_key j db'.intents ≡ find intent_key j db.intents =
              rw (a.intents) (ground (arith, found j)) in
            rw same refl))

run_call_refines :
    (c : Call) (db : IntentDb) → IsSound db → Advance (board db) (board (run_call c db).1)
run_call_refines c db s = elim (run_call_effect c db) [
  | inl same ↦ stays (λ j. rw same refl)
  | inr (inl added) ↦ opens_added added s
  | inr (inr altered) ↦ moves_altered altered
]

pub Advances-trans : {b b' b'' : Board} → Advances b b' → Advances b' b'' → Advances b b''
Advances-trans r here = r
Advances-trans r (next q a) = next (Advances-trans r q) a

-- From a sound table every sequence of calls, whatever their arguments and whether they raise, is a
-- sequence of steps of the abstract lifecycle.
pub run_calls_refines :
    (cs : List Call) (db : IntentDb) → IsSound db → Advances (board db) (board (run_calls cs db))
unfolding run_calls
run_calls_refines [] db s = here
run_calls_refines (c ∷ cs) db s =
    Advances-trans (next here (run_call_refines c db s))
      (run_calls_refines cs (run_call c db).1 (run_call-IsSound c db s))

-- what the abstract lifecycle leaves for good
closed_step : {b b' : Board} (k : ℕ) → Advance b b' → b k ≡ some closed → b' k ≡ some closed
closed_step k (stays same) h = same k ∙ h
closed_step k (opens j gone new others) h = elim (Bool-cases (j == k)) [
  | inl e ↦ absurd (ground arith)
  | inr ne ↦ others k (ground arith) ∙ h
]
closed_step k (moves j p q before after law others) h = elim (Bool-cases (j == k)) [
  | inl e ↦ ground arith
  | inr ne ↦ others k (ground arith) ∙ h
]

closed_stays : {b b' : Board} (k : ℕ) → Advances b b' → b k ≡ some closed → b' k ≡ some closed
closed_stays k here h = h
closed_stays k (next r a) h = closed_step k a (closed_stays k r h)

closed_status : (t : IntentStatus) → phase_of t ≡ closed → t ≡ cancelled
closed_status t h = ground arith

-- From a sound table, a cancelled intent stays cancelled whatever calls follow.
cancelled_is_final :
    (cs : List Call) (db : IntentDb) (k : ℕ) (i : Intent)
    → IsSound db
    → find intent_key k db.intents ≡ some i
    → i.status ≡ cancelled
    → (j : Intent) × (find intent_key k (run_calls cs db).intents ≡ some j) × (j.status ≡ cancelled)
cancelled_is_final cs db k i s there over =
    let before : board db k ≡ some closed = rw there (ap (λ t. some (phase_of t)) over) in
    let after = closed_stays k (run_calls_refines cs db s) before in
    elim (Option-cases (find intent_key k (run_calls cs db).intents)) [
      | inl gone ↦ absurd (ground arith)
      | inr (j, found) ↦ (j, found, closed_status j.status (ground arith))
    ]
