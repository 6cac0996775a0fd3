-- ===== src/Delegations/Rows.antt =====
-- What holds of every delegation row.
use cora_os.Prelude.{
  ℕ, String, ◌≡◌, refl, inl, inr, true, false, not, ◌||◌, Option, some, List, [], ◌∷◌, ◌++◌, arith,
  is_some, All, All-append,
}
use cora_os.Prelude.Table.{All-update}
use cora_os.Prelude.Text.{strip, lower, text_eq}
use cora_os.Delegations.{
  DelegationStatus, Delegation, delegation_key, parse_initial, is_ended, row_of, with_status,
}
use cora_os.Delegations.Bounds.{end_delegation-rows}
use cora_os.Delegations.Race.{
  Admitted, RaceWorld, check_new-cases, rows-insert_new, Step, count, insert, give_up, end_one,
  Reach, here, next,
}

-- No agent hands work to itself, and a delegation that has ended says when.
record IsProper (d : Delegation) : Type 0 where
  pub apart : text_eq (lower d.from_agent) (lower d.to_agent) ≡ false
  pub stamped : (not (is_ended d.status) || is_some d.completed_at) ≡ true

-- what a call that has counted will write
abbrev IsReady : Admitted → Type 0
IsReady a =
    (text_eq (lower (strip a.request.from_agent)) (lower (strip a.request.to_agent)) ≡ false)
    × (parse_initial a.request.initial_status ≡ some a.status)

row_of-IsProper : (k : ℕ) (a : Admitted) → IsReady a → IsProper (row_of k a.request a.status)
unfolding parse_initial
row_of-IsProper k a c = record { apart = c.0; stamped = ground (arith, c.1) }

with_status-IsProper :
    (status : DelegationStatus) (output : Option String) (now : ℕ) (d : Delegation)
    → is_ended status ≡ true
    → IsProper d
    → IsProper (with_status status output now d)
with_status-IsProper status output now d ended p = record {
  apart = p.apart;
  stamped = rw ended refl;
}

record AreProper (w : RaceWorld) : Type 0 where
  pub rows : All IsProper w.delegations
  pub ready : All IsReady w.between

split-IsReady :
    (xs ys : List Admitted) (a : Admitted)
    → All IsReady (xs ++ a ∷ ys)
    → IsReady a × All IsReady (xs ++ ys)
split-IsReady [] ys a h = (h.0, h.1)
split-IsReady (x ∷ xs) ys a h = let more = split-IsReady xs ys a h.1 in (more.0, (h.0, more.1))

step-AreProper : {most : ℕ} {u w : RaceWorld} → Step most u w → AreProper u → AreProper w
step-AreProper {u = u} (count n free) h = elim (check_new-cases n u.db) [
  | inl (e, r) ↦ rw r (record { rows = h.rows; ready = h.ready })
  | inr (status, c) ↦ rw (c.result) (record {
    rows = h.rows;
    ready =
        All-append IsReady u.between (record { request = n; status = status } ∷ []) h.ready
          ((c.apart, c.initial), tt);
  })
]
step-AreProper {u = u} (insert xs ys a k at new) h =
    let halves = split-IsReady xs ys a (rw at at h.ready) in
    record {
      rows = rw (rows-insert_new k a.request a.status u.db) (
          All-append IsProper u.delegations (row_of k a.request a.status ∷ []) h.rows
            (row_of-IsProper k a halves.0, tt));
      ready = halves.1;
    }
step-AreProper {u = u} (give_up xs ys a at) h = record {
  rows = h.rows;
  ready = (split-IsReady xs ys a (rw at at h.ready)).1;
}
step-AreProper {u = u} (end_one e k user now) h = elim (end_delegation-rows e k user now u.db) [
  | inl same ↦ record { rows = rw same h.rows; ready = h.ready }
  | inr (status, output, ended, rows) ↦ record {
    rows = rw rows (
        All-update delegation_key IsProper k (with_status status output now)
          (λ d p at. with_status-IsProper status output now d ended p) u.delegations h.rows);
    ready = h.ready;
  }
]

-- However delegations are created, completed and failed, side by side or not: no agent hands work to
-- itself, and every delegation that has ended has its time of completion, if this held before.
Reach-AreProper : {most : ℕ} {u w : RaceWorld} → Reach most u w → AreProper u → AreProper w
Reach-AreProper here h = h
Reach-AreProper (next r st) h = step-AreProper st (Reach-AreProper r h)
