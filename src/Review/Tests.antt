-- ===== src/Review/Tests.antt =====
-- Runs of the review workflow, and the theorems at concrete tables.
use cora_os.Prelude.{ℕ, ◌≡◌, refl, true, false, none, some, [], ◌∷◌, arith}
use cora_os.Prelude.Exec.{ok, err}
use cora_os.Prelude.Text.{codes, strip}
use cora_os.Review.{
  Status, approve, mark_reviewed, archived, reviewed, approved, draft, submit_for_review, Item,
  ReviewDb, is_in, is_approve, written, kept_notes, perform_action, list_events, of_item,
  draft_config, forbidden, not_found,
}
use cora_os.Review.Audit.{IsAudited, replay, follow, perform_action-IsAudited}
use cora_os.Review.Laws.{drafts, is_mark_reviewed, logged, approved_was_reviewed}

runs : Unit {0}
unfolding strip perform_action list_events written is_in kept_notes replay follow
runs = tt

abbrev row : ℕ → Status → Item
row k s = record {
  id = k;
  created_by = 7;
  status = s;
  reviewed_by = none;
  reviewed_at = none;
  approved_by = none;
  approved_at = none;
  archived_at = none;
  review_notes = none;
  updated_at = 0;
}

abbrev start : ReviewDb
start = record { pool = true; items = row 1 draft ∷ row 2 draft ∷ []; events = [] }

abbrev after_submit : ReviewDb
after_submit = (perform_action draft_config 1 submit_for_review 7 false none 10 start).1

abbrev after_mark : ReviewDb
after_mark =
    (perform_action draft_config 1 mark_reviewed 8 false (some (codes " fine ")) 11 after_submit).1

abbrev after_approve : ReviewDb
after_approve = (perform_action draft_config 1 approve 7 true none 12 after_mark).1

approve_run :
    (perform_action draft_config 1 approve 7 true none 12 after_mark).0
    ≡ ok (
      record {
        id = 1;
        created_by = 7;
        status = approved;
        reviewed_by = some 8;
        reviewed_at = some 11;
        approved_by = some 7;
        approved_at = some 12;
        archived_at = none;
        review_notes = some (codes "fine");
        updated_at = 12;
      },
      reviewed,
      approved,
    )
unfolding runs
approve_run = refl

approve_refused :
    (perform_action draft_config 1 approve 7 false none 12 after_mark).0 ≡ err forbidden
unfolding runs
approve_refused = refl

start-IsAudited : IsAudited draft_config start
unfolding runs
start-IsAudited = record { at = λ k i f. ground arith }

perform_action-IsAudited_example : IsAudited draft_config after_submit
perform_action-IsAudited_example =
    perform_action-IsAudited draft_config 1 submit_for_review 7 false none 10 start start-IsAudited

after_approve-IsAudited : IsAudited draft_config after_approve
after_approve-IsAudited =
    perform_action-IsAudited draft_config 1 approve 7 true none 12 after_mark (
      perform_action-IsAudited draft_config 1 mark_reviewed 8 false (some (codes " fine ")) 11
        after_submit perform_action-IsAudited_example)

missing : (perform_action draft_config 9 approve 7 true none 12 start).0 ≡ err not_found
unfolding runs
missing = refl

abbrev old : ReviewDb
old = record { pool = true; items = row 1 archived ∷ []; events = [] }

abbrev approved_row : Item
approved_row = record {
  id = 1;
  created_by = 7;
  status = approved;
  reviewed_by = some 8;
  reviewed_at = some 11;
  approved_by = some 7;
  approved_at = some 12;
  archived_at = none;
  review_notes = some (codes "fine");
  updated_at = 12;
}

approved_was_reviewed_example :
    (logged is_mark_reviewed (of_item 1 after_approve.events) ≡ true)
    × (logged is_approve (of_item 1 after_approve.events) ≡ true)
unfolding runs
approved_was_reviewed_example =
    approved_was_reviewed drafts after_approve 1 approved_row after_approve-IsAudited refl refl
