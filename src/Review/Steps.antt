-- ===== src/Review/Steps.antt =====
-- What one call of `perform_action` does: it raises and leaves the tables alone, or it moves one
-- row along a rule of its configuration and appends one event.
use cora_os.Prelude.{
  ℕ, ◌≡◌, ◌⊎◌, inl, inr, Bool, true, false, not, ◌&&◌, Option, some, [], ◌∷◌, ◌++◌, Bool-cases,
  Option-cases,
}
use cora_os.Prelude.Exec.{ok, err}
use cora_os.Prelude.Table.{find, update}
use cora_os.Prelude.Text.{Text}
use cora_os.Review.{
  Action, ReviewError, ReviewConfig, Item, Event, ReviewDb, Rule, key, is_in, is_approve,
  kept_notes, written, perform_action, forbidden, invalid_transition, not_found, unavailable,
}

module _ (cfg : ReviewConfig) (k : ℕ) (a : Action) (user : ℕ) (is_admin : Bool)
    (notes : Option Text) (now : ℕ) (db : ReviewDb) where
  -- the event of a move out of `row`
  abbrev pub event_of : Rule → Item → Event
  event_of rule row = record {
    item_id = k;
    user_id = user;
    action = a;
    from_status = row.status;
    to_status = rule.1;
    notes = kept_notes notes;
  }

  -- the tables after a move
  abbrev pub moved : Rule → Item → ReviewDb
  moved rule row = record {
    pool = db.pool;
    items = update key k (written a rule.1 user notes now) db.items;
    events = db.events ++ event_of rule row ∷ [];
  }

  -- The move of `row` by `rule` that the call makes.
  pub record Moves (rule : Rule) (row : Item) : Type 0 where
    pub known : cfg.transitions a ≡ some rule
    pub there : find key k db.items ≡ some row
    pub leaves : is_in row.status rule.0 ≡ true
    pub cleared : (is_approve a && not is_admin) ≡ false
    pub result :
        perform_action cfg k a user is_admin notes now db
        ≡ (ok (written a rule.1 user notes now row, row.status, rule.1), moved rule row)

  abbrev pub Raises : Type 0
  Raises = (e : ReviewError) × (perform_action cfg k a user is_admin notes now db ≡ (err e, db))

  pub perform_action-cases : Raises ⊎ ((rule : Rule) × (row : Item) × Moves rule row)
  unfolding perform_action
  perform_action-cases = elim (Option-cases (cfg.transitions a)) [
    | inl e ↦ inl (invalid_transition, simp e)
    | inr (rule, e) ↦ elim (Bool-cases db.pool) [
      | inr down ↦ inl (unavailable, simp (e, down))
      | inl up ↦ elim (Option-cases (find key k db.items)) [
        | inl gone ↦ inl (not_found, simp (e, up, gone))
        | inr (row, f) ↦ elim (Bool-cases (is_in row.status rule.0)) [
          | inr stays ↦ inl (invalid_transition, simp (e, up, f, stays))
          | inl out ↦ elim (Bool-cases (is_approve a && not is_admin)) [
            | inl self ↦ inl (forbidden, simp (e, up, f, out, self))
            | inr free ↦ inr (
              rule,
              row,
              record {
                known = e;
                there = f;
                leaves = out;
                cleared = free;
                result = simp (e, up, f, out, free);
              },
            )
          ]
        ]
      ]
    ]
  ]
