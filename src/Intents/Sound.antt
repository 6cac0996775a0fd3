-- ===== src/Intents/Sound.antt =====
-- What holds of the table of intents through every sequence of calls.
use cora_os.Prelude.{
  ℕ, suc, ◌<◌, ◌≡◌, refl, inl, inr, subst, sym, Bool, true, false, none, List, [], ◌∷◌, All,
  All-append, All-map, arith, is_some,
}
use cora_os.Prelude.Table.{
  find, IsKeyed, IsKeyed-append, IsKeyed-update, All-update_found, All-update,
}
use cora_os.Intents.{IntentStatus, executed_placeholder, Intent, IntentDb, intent_key}
use cora_os.Intents.Change.{is_confirmed}
use cora_os.Intents.Calls.{Call, run_call, run_calls}
use cora_os.Intents.Lifecycle.{phase_of, undecided, is_lawful}
use cora_os.Intents.Effect.{IsNew, Adds, Alters, run_call_effect}
use cora_os.Intents.Moves.{IsMove}

abbrev pub is_executed : IntentStatus → Bool
is_executed executed_placeholder = true
is_executed _ = false

-- An intent is a dry run, is not executed, and names who confirmed it when it is confirmed.
pub record IsGood (i : Intent) : Type 0 where
  pub dry : i.dry_run ≡ true
  pub pending : is_executed i.status ≡ false
  pub named : is_confirmed i.status ≡ true → is_some i.confirmed_by ≡ true

-- `below` says that the next identifiers that the database generates are in no row yet.
pub record IsSound (db : IntentDb) : Type 0 where
  pub keyed : IsKeyed intent_key db.intents
  pub below : All (λ (i : Intent). i.id < db.fresh) db.intents
  pub good : All IsGood db.intents

new_not_executed : (s : IntentStatus) → phase_of s ≡ undecided → is_executed s ≡ false
new_not_executed s h = ground arith

new_not_confirmed : (s : IntentStatus) → phase_of s ≡ undecided → is_confirmed s ≡ false
new_not_confirmed s h = ground arith

move_not_executed :
    (s t : IntentStatus)
    → is_lawful (phase_of s) (phase_of t) ≡ true
    → is_executed s ≡ false
    → is_executed t ≡ false
move_not_executed s t h e = ground arith

new-IsGood : (i : Intent) → IsNew i → IsGood i
new-IsGood i n = record {
  dry = n.dry;
  pending = new_not_executed i.status n.undecided_yet;
  named = λ c. absurd (ground (arith, new_not_confirmed i.status n.undecided_yet));
}

move-IsGood : (i j : Intent) → IsMove i j → IsGood i → IsGood j
move-IsGood i j m g = record {
  dry = m.dry g.dry;
  pending = move_not_executed i.status j.status m.lawful g.pending;
  named = m.named g.named;
}

-- an identifier that is not yet given stands in no row
pub find_fresh :
    (n : ℕ) (xs : List Intent) → All (λ (i : Intent). i.id < n) xs → find intent_key n xs ≡ none
find_fresh n [] h = refl
find_fresh n (x ∷ xs) h = ground (arith, find_fresh n xs h.1)

Adds-IsSound : {db db' : IntentDb} → Adds db db' → IsSound db → IsSound db'
Adds-IsSound {db} {db'} a s = record {
  keyed = subst (IsKeyed intent_key) (sym a.intents) (
      IsKeyed-append intent_key db.intents a.row s.keyed
        (rw (a.id) (find_fresh db.fresh db.intents s.below)));
  below =
      rw (a.intents, a.fresh)
        (All-append (λ (i : Intent). i.id < suc db.fresh) db.intents (a.row ∷ [])
          (All-map db.intents (λ i h. omega arith) s.below) (rw (a.id) (omega arith), tt));
  good =
      rw (a.intents)
        (All-append IsGood db.intents (a.row ∷ []) s.good (new-IsGood a.row a.new, tt));
}

Alters-IsSound : {db db' : IntentDb} → Alters db db' → IsSound db → IsSound db'
Alters-IsSound {db} {db'} a s = record {
  keyed = rw (a.intents) (IsKeyed-update intent_key a.k a.f a.keeps db.intents s.keyed);
  below =
      rw (a.intents, a.fresh)
        (All-update intent_key (λ (i : Intent). i.id < db.fresh) a.k a.f (λ i h e. rw (a.keeps i) h)
          db.intents s.below);
  good = rw (a.intents) (
      All-update_found intent_key IsGood a.k a.f db.intents s.keyed
        (λ i f g.
          (let e : a.row ≡ i = ground (arith, a.there) in
            subst (λ x. IsGood (a.f x)) e
              (move-IsGood a.row (a.f a.row) a.move (subst IsGood (sym e) g))))
        s.good);
}

pub run_call-IsSound : (c : Call) (db : IntentDb) → IsSound db → IsSound (run_call c db).1
run_call-IsSound c db s = elim (run_call_effect c db) [
  | inl same ↦ rw same s
  | inr (inl added) ↦ Adds-IsSound added s
  | inr (inr altered) ↦ Alters-IsSound altered s
]

-- Every sequence of calls keeps a table sound.
pub run_calls-IsSound : (cs : List Call) (db : IntentDb) → IsSound db → IsSound (run_calls cs db)
unfolding run_calls
run_calls-IsSound [] db s = s
run_calls-IsSound (c ∷ cs) db s = run_calls-IsSound cs (run_call c db).1 (run_call-IsSound c db s)

-- What holds of the rows of a sound table.
pub record AreGood (intents : List Intent) : Type 0 where
  pub unique : IsKeyed intent_key intents
  pub good : All IsGood intents

-- From a sound table every sequence of calls, whatever their arguments and whether they raise, leads to
-- a table in which every intent is still a dry run, none is executed, a confirmed one names who confirmed
-- it, and no two intents have the same identifier. A new intent's identifier is one that the database
-- has not generated before.
pub run_calls-AreGood :
    (cs : List Call) (db : IntentDb) → IsSound db → AreGood (run_calls cs db).intents
run_calls-AreGood cs db s =
    let after = run_calls-IsSound cs db s in record { unique = after.keyed; good = after.good }
