-- ===== src/Scheduling.antt =====
-- apps/cora-api/app/chat_scheduling.py: the open slots of the working days. A time is the number of
-- microseconds on the local wall clock since the first day of the calendar, a Monday; so is the
-- comparison of Python's datetimes in one zone. A day is a number counted from the same one.
pub mod Busy
pub mod Round
pub mod Free
pub mod Apart
pub mod Held
pub mod Bookable
pub mod Complete
mod Tests
use cora_os.Prelude.{
  ℕ, zero, suc, ◌+◌, ◌-◌, ◌/◌, Bool, true, false, not, ◌&&◌, ◌||◌, Option, none, some, List, [],
  ◌∷◌, ◌++◌, length, ltb, leb, ◌==◌, if◌then◌else◌,
}
use Prim.Native.Nat.{◌*◌, ◌%◌, min, max}

abbrev pub minute : ℕ
minute = 60000000

abbrev pub hour : ℕ
hour = 3600000000

abbrev pub day : ℕ
day = 86400000000

-- WORK_START, WORK_END, EVENING_END, SLOT_ROUND_MIN and MAX_SLOTS
abbrev pub work_start : ℕ
work_start = 9

abbrev pub work_end : ℕ
work_end = 17

abbrev pub evening_end : ℕ
evening_end = 20

abbrev pub slot_round_min : ℕ
slot_round_min = 15

abbrev pub max_slots : ℕ
max_slots = 6

pub data Daypart : Type 0 where
  morning afternoon evening : Daypart

-- from its first moment to the moment it ends, which it does not contain
pub record Interval : Type 0 where
  pub start : ℕ
  pub end : ℕ

-- `_round_up`
unfoldable pub round_up : ℕ → ℕ
round_up dt =
    let whole = dt - dt % minute in
    let rem = whole / minute % 60 % slot_round_min in
    if rem == 0 then whole else whole + minute * (slot_round_min - rem)

-- the hours of `_work_bounds`
abbrev pub work_hours : Option Daypart → ℕ × ℕ
work_hours none = (work_start, work_end)
work_hours (some morning) = (work_start, 12)
work_hours (some afternoon) = (12, work_end)
work_hours (some evening) = (work_end, evening_end)

-- `_work_bounds`
abbrev pub work_bounds : ℕ → Option Daypart → Interval
work_bounds d daypart = record {
  start = day * d + hour * (work_hours daypart).0;
  end = day * d + hour * (work_hours daypart).1;
}

-- what the body of `_subtract`'s inner loop adds for a free interval
abbrev pub cut : Interval → Interval → List Interval → List Interval
cut b f rest =
    if leb b.end f.start || leb f.end b.start
    then f ∷ rest
    else let after =
        (if ltb b.end f.end
          then record { start = max b.end f.start; end = f.end } ∷ rest
          else rest) in
      if ltb f.start b.start
      then record { start = f.start; end = min b.start f.end } ∷ after
      else after

abbrev pub cut_all : Interval → List Interval → List Interval
cut_all b [] = []
cut_all b (f ∷ fs) = cut b f (cut_all b fs)

abbrev pub subtract_from : List Interval → List Interval → List Interval
subtract_from free [] = free
subtract_from free (b ∷ busy) = subtract_from (cut_all b free) busy

abbrev pub non_empty : List Interval → List Interval
non_empty [] = []
non_empty (f ∷ fs) = if ltb f.start f.end then f ∷ non_empty fs else non_empty fs

-- `_subtract`
unfoldable pub subtract : Interval → List Interval → List Interval
subtract w busy = non_empty (subtract_from (w ∷ []) busy)

-- the innermost loop of `_free_intervals`
unfoldable pub add_slots : ℕ → List Interval → List Interval → List Interval
add_slots need [] out = out
add_slots need (f ∷ free) out =
    let s = round_up f.start in
    let fits = leb (s + need) f.end in
    let out' = if fits then out ++ record { start = s; end = f.end } ∷ [] else out in
    let rest = add_slots need free out' in
    if fits && leb max_slots (length out') then out' else rest

-- the hours of a day that are left, the passed ones of today taken off
abbrev pub window : Option Daypart → ℕ → ℕ → Interval
window daypart now d =
    let w = work_bounds d daypart in
    if d == now / day then record w { start = max w.start (round_up (now + minute)) } else w

-- one round of the loop over the days; a week starts on Monday
abbrev pub add_day : List Interval → ℕ → Option Daypart → ℕ → ℕ → List Interval → List Interval
add_day busy need daypart now d out =
    let w = window daypart now d in
    if ltb (d % 7) 5 && ltb w.start w.end then add_slots need (subtract w busy) out else out

-- the loop over the days, with the number of days that are left
unfoldable pub search_days :
    List Interval → ℕ → Option Daypart → ℕ → ℕ → ℕ → List Interval → List Interval
search_days busy need daypart now zero d out = out
search_days busy need daypart now (suc left) d out =
    let rest =
      search_days busy need daypart now left (suc d) (add_day busy need daypart now d out) in
    if ltb (length out) max_slots then rest else out
