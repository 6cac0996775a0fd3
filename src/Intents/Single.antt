-- ===== src/Intents/Single.antt =====
-- A source has at most one active intent in the readiness queue for an action.
use cora_os.Prelude.{
  ℕ, ◌≤◌, ◌+◌, ◌≡◌, refl, inl, inr, subst, sym, Bool, true, false, some, List, [], ◌∷◌, ◌++◌, arith,
  any, Bool-cases, if◌then◌else◌, ◌==◌,
}
use cora_os.Prelude.Table.{find, update, IsKeyed, update_absent}
use cora_os.Prelude.Text.{Text, text_eq}
use cora_os.Intents.{IntentStatus, SourceType, Intent, IntentDb, intent_key, source_code}
use cora_os.Intents.Build.{is_active, is_duplicate}
use cora_os.Intents.Calls.{Call, run_call, run_calls}
use cora_os.Intents.Lifecycle.{phase_of, is_lawful}
use cora_os.Intents.Effect.{Adds, Alters, run_call_effect}
use cora_os.Intents.Moves.{IsMove}
use cora_os.Intents.Sound.{IsSound, run_call-IsSound}

count_step :
    (b c : Bool) (m n : ℕ)
    → (b ≡ true → c ≡ true)
    → m ≤ n
    → (if b then m + 1 else m) ≤ (if c then n + 1 else n)
count_step b c m n h le = ground arith

module _ (t : SourceType) (k : ℕ) (action : Text) where
  -- the active intents of the queue for that source and action
  abbrev pub count_duplicates : List Intent → ℕ
  count_duplicates [] = 0
  count_duplicates (i ∷ is) =
      if is_duplicate t k action i then count_duplicates is + 1 else count_duplicates is

  count_duplicates-append :
      (is : List Intent) (i : Intent)
      → count_duplicates (is ++ i ∷ []) ≡ count_duplicates is + count_duplicates (i ∷ [])
  count_duplicates-append [] i = omega arith
  count_duplicates-append (j ∷ is) i = ground (arith, count_duplicates-append is i)

  count_of_no_duplicate :
      (is : List Intent) → any (is_duplicate t k action) is ≡ false → count_duplicates is ≡ 0
  count_of_no_duplicate [] h = refl
  count_of_no_duplicate (i ∷ is) h = ground (arith, count_of_no_duplicate is)

  count_duplicates-update :
      (n : ℕ) (f : Intent → Intent) (is : List Intent)
      → IsKeyed intent_key is
      → ((i : Intent)
          → find intent_key n is ≡ some i
          → is_duplicate t k action (f i) ≡ true
          → is_duplicate t k action i ≡ true)
      → count_duplicates (update intent_key n f is) ≤ count_duplicates is
  count_duplicates-update n f [] u back = omega arith
  count_duplicates-update n f (i ∷ is) u back = elim (Bool-cases (intent_key i == n)) [
    | inl hit ↦
        let gone : update intent_key n f is ≡ is =
          ground (arith, update_absent intent_key n f is) in
        rw (hit, gone)
          (count_step (is_duplicate t k action (f i)) (is_duplicate t k action i)
            (count_duplicates is) (count_duplicates is) (back i (rw hit refl)) (omega arith))
    | inr miss ↦
        let rest = count_duplicates-update n f is u.1 (λ j e. back j (rw miss e)) in
        rw miss (
          count_step (is_duplicate t k action i) (is_duplicate t k action i)
            (count_duplicates (update intent_key n f is)) (count_duplicates is) (λ h. h) rest)
  ]

active_before :
    (s s' : IntentStatus)
    → is_lawful (phase_of s) (phase_of s') ≡ true
    → is_active s' ≡ true
    → is_active s ≡ true
active_before s s' h a = ground arith

text_eq→eq : (t u : Text) → text_eq t u ≡ true → t ≡ u
text_eq→eq [] [] h = refl
text_eq→eq [] (d ∷ u) h = cc
text_eq→eq (c ∷ t) [] h = cc
text_eq→eq (c ∷ t) (d ∷ u) h = ground (arith, text_eq→eq t u)

-- what is a duplicate after a change was one before
duplicate_before :
    (t : SourceType) (k : ℕ) (action : Text) (i j : Intent)
    → IsMove i j
    → is_duplicate t k action j ≡ true
    → is_duplicate t k action i ≡ true
duplicate_before t k action i j m h = ground (arith, active_before i.status j.status)

pub record IsSingle (db : IntentDb) : Type 0 where
  pub at : (t : SourceType) (k : ℕ) (action : Text) → count_duplicates t k action db.intents ≤ 1

Alters-IsSingle : {db db' : IntentDb} → Alters db db' → IsSound db → IsSingle db → IsSingle db'
Alters-IsSingle {db} {db'} a s h = record {
  at = λ t k action. rw (a.intents) (
      omega (
        arith,
        h.at t k action,
        count_duplicates-update t k action a.k a.f db.intents s.keyed (λ i f d.
            (let e : a.row ≡ i = ground (arith, a.there) in
              subst (λ x. is_duplicate t k action (a.f x) ≡ true → is_duplicate t k action x ≡ true)
                e (duplicate_before t k action a.row (a.f a.row) a.move) d)),
      ));
}

source_code_eq : (t u : SourceType) → (source_code u == source_code t) ≡ true → t ≡ u
source_code_eq t u h = ground arith

-- two sources and actions with a common duplicate are the same
duplicate_same :
    (t : SourceType) (k : ℕ) (action : Text) (i : Intent)
    → is_duplicate t k action i ≡ true
    → (i.queued ≡ true) × (t ≡ i.source_type) × (k ≡ i.source_id) × (action ≡ i.action_type)
duplicate_same t k action i h = (
  ground arith,
  source_code_eq t i.source_type (ground arith),
  ground arith,
  sym (text_eq→eq i.action_type action (ground arith)),
)

Adds-IsSingle : {db db' : IntentDb} → Adds db db' → IsSingle db → IsSingle db'
Adds-IsSingle {db} {db'} a h = record {
  at = λ t k action.
      rw (a.intents, count_duplicates-append t k action db.intents a.row)
        (elim (Bool-cases (is_duplicate t k action a.row)) [
          | inr other ↦ rw other (omega (arith, h.at t k action))
          | inl same ↦
              let d = duplicate_same t k action a.row same in
              let none_yet : count_duplicates t k action db.intents ≡ 0 =
                rw (d.1, d.2, d.3)
                  (count_of_no_duplicate a.row.source_type a.row.source_id a.row.action_type
                    db.intents (a.single d.0)) in
              rw (same, none_yet) (omega arith)
        ]);
}

run_call-IsSingle :
    (c : Call) (db : IntentDb) → IsSound db → IsSingle db → IsSingle (run_call c db).1
run_call-IsSingle c db s h = elim (run_call_effect c db) [
  | inl same ↦ rw same h
  | inr (inl added) ↦ Adds-IsSingle added h
  | inr (inr altered) ↦ Alters-IsSingle altered s h
]

-- From a sound table in which no source has two active intents of the readiness queue for one
-- action, no sequence of calls leads to one in which a source has.
pub run_calls-IsSingle :
    (cs : List Call) (db : IntentDb) → IsSound db → IsSingle db → IsSingle (run_calls cs db)
unfolding run_calls
run_calls-IsSingle [] db s h = h
run_calls-IsSingle (c ∷ cs) db s h =
    run_calls-IsSingle cs (run_call c db).1 (run_call-IsSound c db s) (run_call-IsSingle c db s h)
