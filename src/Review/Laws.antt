-- ===== src/Review/Laws.antt =====
-- Who may move an item where: atomicity, the admin's part, the final status.
use cora_os.Prelude.{
  ℕ, ◌≡◌, ◌⊎◌, inl, inr, Bool, true, false, some, List, [], ◌∷◌, arith, any, Option-cases,
}
use cora_os.Prelude.Table.{find}
use cora_os.Review.{
  Status, Action, mark_reviewed, reviewed, approved, draft, proposed, ReviewConfig, Item, Event,
  ReviewDb, key, is_in, is_approve, of_item, draft_config, proposal_config,
}
use cora_os.Review.Audit.{IsAudited, follow, replay}

-- The two lifecycles of the program.
pub data Lifecycle : Type 0 where
  drafts proposals : Lifecycle

abbrev pub config : Lifecycle → ReviewConfig
config drafts = draft_config
config proposals = proposal_config

abbrev pub is_mark_reviewed : Action → Bool
is_mark_reviewed mark_reviewed = true
is_mark_reviewed _ = false

-- the log has an event of the action that `test` names
abbrev pub logged : (Action → Bool) → List Event → Bool
logged test = any (λ e. test e.action)

-- One lawful event never leads to `approved` but by `approve` out of `reviewed`, nor to `reviewed`
-- but by `mark_reviewed`.
follow-approved :
    (l : Lifecycle) (s : Status) (e : Event)
    → follow (config l) s e ≡ some approved
    → (is_approve e.action ≡ true) × (s ≡ reviewed)
unfolding follow is_in
follow-approved drafts s e h = ground arith
follow-approved proposals s e h = ground arith

follow-reviewed :
    (l : Lifecycle) (s : Status) (e : Event)
    → follow (config l) s e ≡ some reviewed
    → is_mark_reviewed e.action ≡ true
unfolding follow is_in
follow-reviewed drafts s e h = ground arith
follow-reviewed proposals s e h = ground arith

replay-approved :
    (l : Lifecycle) (s : Status) (es : List Event)
    → replay (config l) s es ≡ some approved
    → (s ≡ approved) ⊎ (logged is_approve es ≡ true)
unfolding replay
replay-approved l s [] h = ground arith
replay-approved l s (x ∷ es) h = elim (Option-cases (follow (config l) s x)) [
  | inl lost ↦ absurd (ground arith)
  | inr (u, f) ↦ ground (arith, replay-approved l u es, follow-approved l s x)
]

replay-approved_was_reviewed :
    (l : Lifecycle) (s : Status) (es : List Event)
    → replay (config l) s es ≡ some approved
    → (s ≡ approved) ⊎ ((s ≡ reviewed) ⊎ (logged is_mark_reviewed es ≡ true))
unfolding replay
replay-approved_was_reviewed l s [] h = ground arith
replay-approved_was_reviewed l s (x ∷ es) h = elim (Option-cases (follow (config l) s x)) [
  | inl lost ↦ absurd (ground arith)
  | inr (u, f) ↦
      ground
        (arith, replay-approved_was_reviewed l u es, follow-approved l s x, follow-reviewed l s x)
]

-- In tables whose logs are lawful, an approved item has both a `mark_reviewed` and an `approve`
-- event in its log: nothing is approved without a review.
pub approved_was_reviewed :
    (l : Lifecycle) (db : ReviewDb) (k : ℕ) (i : Item)
    → IsAudited (config l) db
    → find key k db.items ≡ some i
    → i.status ≡ approved
    → (logged is_mark_reviewed (of_item k db.events) ≡ true)
      × (logged is_approve (of_item k db.events) ≡ true)
approved_was_reviewed drafts db k i h f s = ground (
  arith,
  h.at k i f,
  replay-approved drafts draft (of_item k db.events),
  replay-approved_was_reviewed drafts draft (of_item k db.events),
)
approved_was_reviewed proposals db k i h f s = ground (
  arith,
  h.at k i f,
  replay-approved proposals proposed (of_item k db.events),
  replay-approved_was_reviewed proposals proposed (of_item k db.events),
)
