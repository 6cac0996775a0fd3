-- ===== src/Approval/Tests.antt =====
-- An intent to send an approved draft, and the decisions on it.
use cora_os.Prelude.{◌≡◌, refl, true, false, none, some}
use cora_os.Prelude.Exec.{err}
use cora_os.Approval.{Evidence, dec_approved, forbidden, conflict, latest_decision}
use cora_os.Approval.Decide.{approve}
use cora_os.Approval.Visible.{IsVisible}
use cora_os.Approval.Outcomes.{approve_decides}
use cora_os.Approval.Sample.{digest, intent, db, gmail, sampled}

abbrev unready : Evidence
unready = record gmail { connector_connected = false }

not_for_users : (approve digest false gmail 1 7 false none 20 db).0 ≡ err forbidden
unfolding sampled
not_for_users = refl

unready_refused : (approve digest false unready 1 2 true none 20 db).0 ≡ err conflict
unfolding sampled
unready_refused = refl

visible : IsVisible 1 2 true db intent
unfolding sampled
visible = record { up = refl; there = refl; may = refl; returns = refl; reads = refl }

approve_decides_example :
    latest_decision 1 (approve digest false gmail 1 2 true none 20 db).1.approvals
    ≡ some dec_approved
unfolding sampled
approve_decides_example = approve_decides digest false gmail 1 2 none 20 db intent visible refl
