-- ===== src/Scheduling/Busy.antt =====
-- The events of a calendar as busy intervals, and the search for free ones among them.
use cora_os.Prelude.{
  ℕ, suc, ◌-◌, String, Bool, true, false, ◌||◌, Option, none, some, List, [], ◌∷◌, ltb,
  if◌then◌else◌, leb,
}
use Prim.Native.Nat.{◌*◌, compare, Ordering}
use text.Mathlib.Text.{◌==◌}
use cora_os.Scheduling.{Interval, Daypart, minute, search_days}

pub record Event : Type 0 where
  pub all_day : Bool
  pub start : Option String
  pub end : Option String

-- `fromisoformat` of Python, then `astimezone`; nothing where the first raises
module _ (parsed : String → Option ℕ) where
  -- `_local_dt`
  abbrev pub local_dt : Option String → Option ℕ
  local_dt none = none
  local_dt (some iso) = if iso == "" || iso == "—" then none else parsed iso

  -- the interval that an event adds
  abbrev pub busy_of : Event → List Interval → List Interval
  busy_of e out = elim e.all_day [
    | true ↦ out
    | false ↦ elim (local_dt e.start) [
      | none ↦ out
      | some s ↦ elim (local_dt e.end) [
        | none ↦ out
        | some en ↦ if ltb s en then record { start = s; end = en } ∷ out else out
      ]
    ]
  ]

  abbrev pub timed : List Event → List Interval
  timed [] = []
  timed (e ∷ es) = busy_of e (timed es)

-- the order of pairs
abbrev is_before : Interval → Interval → Bool
is_before a b = elim (compare a.start b.start) [
  | Ordering.lt ↦ true
  | Ordering.eq ↦ leb a.end b.end
  | Ordering.gt ↦ false
]

abbrev pub insert : Interval → List Interval → List Interval
insert i [] = i ∷ []
insert i (j ∷ js) = if is_before i j then i ∷ j ∷ js else j ∷ insert i js

abbrev pub sort : List Interval → List Interval
sort [] = []
sort (i ∷ is) = insert i (sort is)

module _ (parsed : String → Option ℕ) where
  -- `_busy_intervals`
  unfoldable pub busy_intervals : List Event → List Interval
  busy_intervals events = sort (timed parsed events)

  -- `_free_intervals`
  unfoldable pub free_intervals : List Event → ℕ → ℕ → ℕ → Option Daypart → ℕ → List Interval
  free_intervals events start_date end_date duration_min daypart now =
      search_days (busy_intervals events) (minute * duration_min) daypart now
        (suc end_date - start_date) start_date []
