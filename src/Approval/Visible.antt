-- ===== src/Approval/Visible.antt =====
-- Who sees an integration intent.
use cora_os.Prelude.{
  ℕ, ◌≡◌, ◌⊎◌, inl, inr, Bool, true, ◌||◌, some, ◌==◌, arith, Bool-cases, Option-cases,
}
use cora_os.Prelude.Exec.{ok, err}
use cora_os.Prelude.Table.{find}
use cora_os.Approval.{
  ApprovalError, not_found, unavailable, IntentRow, ApprovalDb, intent_key, visible_intent,
}

-- The call sees the intent: it is there, and the user made it or is an admin.
pub record IsVisible (k user : ℕ) (is_admin : Bool) (db : ApprovalDb) (i : IntentRow) : Type 0 where
  pub up : db.pool ≡ true
  pub there : find intent_key k db.intents ≡ some i
  pub may : (is_admin || i.created_by == user) ≡ true
  pub returns : (visible_intent k user is_admin db).0 ≡ ok i
  pub reads : (visible_intent k user is_admin db).1 ≡ db

pub visible_intent-cases :
    (k user : ℕ) (is_admin : Bool) (db : ApprovalDb)
    → ((e : ApprovalError) × ((visible_intent k user is_admin db).0 ≡ err e)
        × ((visible_intent k user is_admin db).1 ≡ db))
      ⊎ ((i : IntentRow) × IsVisible k user is_admin db i)
unfolding visible_intent
visible_intent-cases k user is_admin db = elim (Bool-cases db.pool) [
  | inr down ↦ inl (unavailable, simp down, simp down)
  | inl up ↦ elim (Option-cases (find intent_key k db.intents)) [
    | inl e ↦ inl (not_found, simp (up, e), simp (up, e))
    | inr (i, e) ↦ elim (Bool-cases (is_admin || i.created_by == user)) [
      | inr hidden ↦ inl (not_found, ground (arith, up, e, hidden), ground (arith, up, e, hidden))
      | inl seen ↦ inr (
        i,
        record {
          up = up;
          there = e;
          may = seen;
          returns = ground (arith, up, e, seen);
          reads = ground (arith, up, e, seen);
        },
      )
    ]
  ]
]
