-- ===== src/Scheduling/Tests.antt =====
-- A Monday with two meetings, and instances of the results.
use cora_os.Prelude.{
  ℕ, ◌+◌, ◌≤◌, ◌≡◌, refl, inr, arith, String, true, false, not, ◌&&◌, Option, none, some, List, [],
  ◌∷◌, if◌then◌else◌, length, All,
}
use Prim.Native.Nat.{◌*◌}
use text.Mathlib.Text.{◌==◌}
use cora_os.Scheduling.{
  morning, minute, hour, day, max_slots, round_up, subtract, add_slots, search_days,
}
use cora_os.Scheduling.Busy.{Event, busy_intervals, free_intervals}
use cora_os.Scheduling.Free.{has_moment, is_within, is_within-subtract}
use cora_os.Scheduling.Bookable.{IsBookable, free_intervals-IsBookable}
use cora_os.Scheduling.Held.{is_held}
use cora_os.Scheduling.Complete.{free_intervals_complete}

runs : Unit {0}
unfolding round_up subtract add_slots search_days busy_intervals free_intervals
runs = tt

abbrev monday : ℕ
monday = 700

abbrev at : ℕ → ℕ → ℕ
at h m = day * monday + hour * h + minute * m

-- three moments of the Monday
abbrev parsed : String → Option ℕ
parsed iso =
    if iso == "ten"
    then some (at 10 0)
    else if iso == "eleven"
    then some (at 11 10)
    else if iso == "noon"
    then some (at 12 0)
    else none

abbrev events : List Event
events =
    record { all_day = false; start = some "eleven"; end = some "noon" }
    ∷ record { all_day = true; start = none; end = none }
    ∷ record { all_day = false; start = some "ten"; end = some "eleven" }
    ∷ record { all_day = false; start = some "—"; end = some "noon" }
    ∷ []

-- at half past eight of the Monday
abbrev now : ℕ
now = at 8 30

proposed :
    free_intervals parsed events monday monday 30 (some morning) now
    ≡ (record { start = at 9 0; end = at 10 0 } ∷ [])
unfolding runs
proposed = refl

is_within-subtract_example :
    is_within
      (at 11 0)
      (subtract record { start = at 9 0; end = at 17 0 } (busy_intervals parsed events))
    ≡ (has_moment (at 11 0) record { start = at 9 0; end = at 17 0 }
        && not (is_within (at 11 0) (busy_intervals parsed events)))
is_within-subtract_example =
    is_within-subtract (at 11 0) record { start = at 9 0; end = at 17 0 }
      (busy_intervals parsed events)

free_intervals-IsBookable_example :
    (length (free_intervals parsed events monday monday 30 (some morning) now) ≤ max_slots)
    × All
        (IsBookable (busy_intervals parsed events) (minute * 30) (some morning) now monday monday)
        (free_intervals parsed events monday monday 30 (some morning) now)
unfolding runs
free_intervals-IsBookable_example =
    free_intervals-IsBookable parsed events monday monday 30 (some morning) now (refl, (refl, tt))

free_intervals_complete_example :
    is_held
      record { start = at 9 15; end = at 9 45 }
      (free_intervals parsed events monday monday 30 (some morning) now)
    ≡ true
unfolding runs
free_intervals_complete_example =
    free_intervals_complete parsed events monday monday 30 (some morning) now monday
      record { start = at 9 15; end = at 9 45 } (omega arith) (omega arith) (omega arith)
      (omega arith) (omega arith) (omega arith, omega arith) refl refl
      (inr (omega arith), (inr (omega arith), tt))
