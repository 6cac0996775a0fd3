-- ===== src/Review.antt =====
-- apps/cora-api/app/review_workflow.py: the review lifecycle shared by communication drafts and
-- schedule proposals. A row keeps the columns that the workflow reads or writes; title, body and
-- the other content columns are only passed through and are left out. Statuses and actions are the
-- texts of the source, one constructor each; `now` is the database's NOW().
pub mod Steps
pub mod Audit
pub mod Laws
mod Tests
use cora_os.Prelude.{
  ℕ, String, Bool, true, false, not, ◌&&◌, Option, none, some, List, [], ◌∷◌, ◌++◌, ◌==◌, any,
  if◌then◌else◌,
}
use cora_os.Prelude.Exec.{
  Exec, Outcome, ok, err, or_raise, raise_if, gets, modify, pure, transaction, ◌>>=◌, ◌>>◌,
}
use cora_os.Prelude.Table.{find, update}
use cora_os.Prelude.Text.{Text, strip}

pub data Status : Type 0 where
  draft proposed in_review changes_requested reviewed approved archived rejected : Status

pub data Action : Type 0 where
  submit_for_review request_changes mark_reviewed approve reject archive : Action
  unknown : String → Action

pub data ReviewError : Type 0 where
  invalid_transition forbidden not_found unavailable : ReviewError

abbrev pub status_code : Status → ℕ
status_code draft = 0
status_code proposed = 1
status_code in_review = 2
status_code changes_requested = 3
status_code reviewed = 4
status_code approved = 5
status_code archived = 6
status_code rejected = 7

-- `status in allowed_from`
unfoldable pub is_in : Status → List Status → Bool
is_in s = any (λ t. status_code s == status_code t)

abbrev pub Rule : Type 0
Rule = List Status × Status

-- `_DRAFT_TRANSITIONS`: the statuses that the action may leave, and the one it leads to.
abbrev pub draft_transitions : Action → Option Rule
draft_transitions submit_for_review = some (draft ∷ changes_requested ∷ [], in_review)
draft_transitions request_changes = some (in_review ∷ [], changes_requested)
draft_transitions mark_reviewed = some (draft ∷ in_review ∷ changes_requested ∷ [], reviewed)
draft_transitions approve = some (reviewed ∷ [], approved)
draft_transitions reject = some (draft ∷ in_review ∷ changes_requested ∷ reviewed ∷ [], rejected)
draft_transitions archive =
    some (draft ∷ in_review ∷ changes_requested ∷ reviewed ∷ approved ∷ rejected ∷ [], archived)
draft_transitions (unknown _) = none

-- `_PROPOSAL_TRANSITIONS`
abbrev pub proposal_transitions : Action → Option Rule
proposal_transitions submit_for_review = some (proposed ∷ changes_requested ∷ [], in_review)
proposal_transitions request_changes = some (in_review ∷ [], changes_requested)
proposal_transitions mark_reviewed = some (proposed ∷ in_review ∷ changes_requested ∷ [], reviewed)
proposal_transitions approve = some (reviewed ∷ [], approved)
proposal_transitions reject = none
proposal_transitions archive =
    some (proposed ∷ in_review ∷ changes_requested ∷ reviewed ∷ approved ∷ [], archived)
proposal_transitions (unknown _) = none

pub record ReviewConfig : Type 0 where
  pub initial_status : Status
  pub statuses : List Status
  pub editable : List Status
  pub transitions : Action → Option Rule

abbrev pub draft_config : ReviewConfig
draft_config = record {
  initial_status = draft;
  statuses = draft ∷ in_review ∷ changes_requested ∷ reviewed ∷ approved ∷ archived ∷ rejected ∷ [];
  editable = draft ∷ changes_requested ∷ [];
  transitions = draft_transitions;
}

abbrev pub proposal_config : ReviewConfig
proposal_config = record {
  initial_status = proposed;
  statuses = proposed ∷ in_review ∷ changes_requested ∷ reviewed ∷ approved ∷ archived ∷ [];
  editable = proposed ∷ changes_requested ∷ [];
  transitions = proposal_transitions;
}

-- A row of communication_drafts or schedule_proposals.
pub record Item : Type 0 where
  pub id : ℕ
  pub created_by : ℕ
  pub status : Status
  pub reviewed_by : Option ℕ
  pub reviewed_at : Option ℕ
  pub approved_by : Option ℕ
  pub approved_at : Option ℕ
  pub archived_at : Option ℕ
  pub review_notes : Option Text
  pub updated_at : ℕ

-- A row of draft_review_events or proposal_review_events.
pub record Event : Type 0 where
  pub item_id : ℕ
  pub user_id : ℕ
  pub action : Action
  pub from_status : Status
  pub to_status : Status
  pub notes : Option Text

pub record ReviewDb : Type 0 where
  pub pool : Bool  -- `clients.db_pool is not None`
  pub items : List Item
  pub events : List Event

abbrev pub key : Item → ℕ
key i = i.id

abbrev pub is_approve : Action → Bool
is_approve approve = true
is_approve _ = false

abbrev is_empty : Text → Bool
is_empty [] = true
is_empty (_ ∷ _) = false

-- `notes.strip() if notes and notes.strip() else None`
unfoldable pub kept_notes : Option Text → Option Text
kept_notes none = none
kept_notes (some t) = if is_empty (strip t) then none else some (strip t)

-- the columns that the UPDATE sets for each action
abbrev stamp : Action → ℕ → ℕ → Item → Item
stamp mark_reviewed user now i = record i { reviewed_by = some user; reviewed_at = some now }
stamp approve user now i = record i { approved_by = some user; approved_at = some now }
stamp archive user now i = record i { archived_at = some now }
stamp _ user now i = i

abbrev note : Option Text → Item → Item
note none i = i
note (some t) i = record i { review_notes = some t }

-- the UPDATE of `perform_action`
unfoldable pub written : Action → Status → ℕ → Option Text → ℕ → Item → Item
written action to user notes now i =
    note (kept_notes notes) (stamp action user now (record i { status = to; updated_at = now }))

-- `perform_action`
unfoldable pub perform_action :
    ReviewConfig
    → ℕ
    → Action
    → ℕ
    → Bool
    → Option Text
    → ℕ
    → Exec ReviewError ReviewDb (Item × Status × Status)
perform_action cfg item_id action user is_admin notes now = do
  rule ← or_raise (cfg.transitions action) invalid_transition
  raise_if (not (← gets (λ db. db.pool))) unavailable
  transaction do
    row ← or_raise (← gets (λ db. find key item_id db.items)) not_found
    raise_if (not (is_in row.status rule.0)) invalid_transition
    raise_if (is_approve action && not is_admin) forbidden
    modify (λ db. record db {
      items = update key item_id (written action rule.1 user notes now) db.items;
    })
    modify (λ db. record db {
      events =
          db.events
          ++ record {
            item_id = item_id;
            user_id = user;
            action = action;
            from_status = row.status;
            to_status = rule.1;
            notes = kept_notes notes;
          }
            ∷ [];
    })
    pure (written action rule.1 user notes now row, row.status, rule.1)

abbrev of_item : ℕ → List Event → List Event
of_item k [] = []
of_item k (e ∷ es) = if e.item_id == k then e ∷ of_item k es else of_item k es

-- `list_events`, ordered by created_at
unfoldable pub list_events : ℕ → Exec ReviewError ReviewDb (List Event)
list_events item_id = do
  raise_if (not (← gets (λ db. db.pool))) unavailable
  gets (λ db. of_item item_id db.events)
