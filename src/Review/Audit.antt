-- ===== src/Review/Audit.antt =====
-- The event log of an item is a lawful path through the lifecycle that ends at its status.
use mathlib.Core.Option
use cora_os.Prelude.{
  ℕ, ◌≡◌, inl, inr, refl, Bool, true, ◌&&◌, ◌==◌, Option, none, some, List, [], ◌∷◌, ◌++◌, arith,
  subst, sym, ◌∙◌, ==_refl, Bool-cases, Option-cases, if◌then◌else◌, ==_iff, ap,
}
use cora_os.Prelude.Table.{find, find-update}
use cora_os.Prelude.Text.{Text}
use cora_os.Review.{
  Status, Action, ReviewConfig, Item, Event, ReviewDb, Rule, key, is_in, written, perform_action,
  of_item, status_code,
}
use cora_os.Review.Steps.{Moves, event_of, moved, perform_action-cases}

-- One event, read as a step out of `s`: it starts there, and its rule allows the move.
unfoldable pub follow : ReviewConfig → Status → Event → Option Status
follow cfg s e = elim (cfg.transitions e.action) [
  | none ↦ none
  | some rule ↦
      if status_code e.from_status == status_code s
        && is_in s rule.0
        && status_code e.to_status == status_code rule.1
      then some e.to_status
      else none
]

unfoldable pub replay : ReviewConfig → Status → List Event → Option Status
replay cfg s [] = some s
replay cfg s (e ∷ es) = elim (follow cfg s e) [ none ↦ none | some t ↦ replay cfg t es ]

-- Every item of the table has a log that leads from the initial status to its status.
pub record IsAudited (cfg : ReviewConfig) (db : ReviewDb) : Type 0 where
  pub at :
      (k : ℕ) (i : Item)
      → find key k db.items ≡ some i
      → replay cfg cfg.initial_status (of_item k db.events) ≡ some i.status

replay-append :
    (cfg : ReviewConfig) (s t : Status) (es : List Event) (e : Event)
    → replay cfg s es ≡ some t
    → replay cfg s (es ++ e ∷ []) ≡ follow cfg t e
unfolding replay
replay-append cfg s t [] e h = ground arith
replay-append cfg s t (x ∷ es) e h = elim (Option-cases (follow cfg s x)) [
  | inl lost ↦ absurd (ground arith)
  | inr (u, f) ↦ ground (arith, replay-append cfg u t es e)
]

pub of_item-append :
    (k : ℕ) (es : List Event) (e : Event)
    → of_item k (es ++ e ∷ []) ≡ (if e.item_id == k then of_item k es ++ e ∷ [] else of_item k es)
of_item-append k [] e = refl
of_item-append k (x ∷ es) e = ground (arith, of_item-append k es e)

written_id :
    (a : Action) (to : Status) (u : ℕ) (notes : Option Text) (now : ℕ) (i : Item)
    → key (written a to u notes now i) ≡ key i
unfolding written
written_id a to u notes now i = ground arith

written_status :
    (a : Action) (to : Status) (u : ℕ) (notes : Option Text) (now : ℕ) (i : Item)
    → (written a to u notes now i).status ≡ to
unfolding written
written_status a to u notes now i = ground arith

status_code_refl : (s : Status) → (status_code s == status_code s) ≡ true
status_code_refl s = ground arith

module _ (cfg : ReviewConfig) (k : ℕ) (a : Action) (user : ℕ) (is_admin : Bool)
    (notes : Option Text) (now : ℕ) (db : ReviewDb) where
  follow-event_of :
      (rule : Rule) (row : Item)
      → Moves cfg k a user is_admin notes now db rule row
      → follow cfg row.status (event_of cfg k a user is_admin notes now db rule row) ≡ some rule.1
  unfolding follow
  follow-event_of rule row m = ground (arith, status_code_refl row.status, status_code_refl rule.1)

  pub find-moved :
      (rule : Rule) (row : Item) (j : ℕ)
      → find key j (moved cfg k a user is_admin notes now db rule row).items ≡ (
          if k == j
          then Option.map (written a rule.1 user notes now) (find key j db.items)
          else find key j db.items)
  find-moved rule row j =
      find-update key k j (written a rule.1 user notes now) (written_id a rule.1 user notes now)
        db.items

  -- the log of the item that moved, one event longer
  replay-moved :
      (rule : Rule) (row : Item)
      → Moves cfg k a user is_admin notes now db rule row
      → IsAudited cfg db
      → replay cfg cfg.initial_status
          (of_item k (moved cfg k a user is_admin notes now db rule row).events)
        ≡ some rule.1
  replay-moved rule row m h =
      simp (of_item-append, ==_refl k)
        (replay-append cfg cfg.initial_status row.status (of_item k db.events)
            (event_of cfg k a user is_admin notes now db rule row) (h.at k row m.there)
          ∙ follow-event_of rule row m)

  moved-IsAudited :
      (rule : Rule) (row : Item)
      → Moves cfg k a user is_admin notes now db rule row
      → IsAudited cfg db
      → IsAudited cfg (moved cfg k a user is_admin notes now db rule row)
  moved-IsAudited rule row m h = record {
    at = λ j i f. elim (Bool-cases (k == j)) [
      | inl same ↦
          let e : k ≡ j = (==_iff k j).0 same in
          let g : written a rule.1 user notes now row ≡ i =
            ground (arith, find-moved rule row k, ==_refl k) in
          subst
            (λ n.
              replay cfg cfg.initial_status
                (of_item n (moved cfg k a user is_admin notes now db rule row).events)
              ≡ some i.status)
            e
            (replay-moved rule row m h
              ∙ ap some (
                  sym (written_status a rule.1 user notes now row) ∙ ap (λ (x : Item). x.status) g))
      | inr other ↦ simp (of_item-append, other) (h.at j i (ground (arith, find-moved rule row j)))
    ];
  }

  -- Every call of `perform_action`, whether it succeeds or raises, keeps the event log of each item
  -- a lawful path from the initial status to the status in its row.
  pub perform_action-IsAudited :
      IsAudited cfg db → IsAudited cfg (perform_action cfg k a user is_admin notes now db).1
  perform_action-IsAudited h = elim (perform_action-cases cfg k a user is_admin notes now db) [
    | inl (e, p) ↦ rw p h
    | inr (rule, row, m) ↦ rw (m.result) (moved-IsAudited rule row m h)
  ]
