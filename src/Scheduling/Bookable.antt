-- ===== src/Scheduling/Bookable.antt =====
-- What `_free_intervals` proposes can be booked.
use cora_os.Prelude.{
  ℕ, zero, suc, ◌+◌, ◌-◌, ◌/◌, ◌≤◌, ◌<◌, ◌≡◌, inl, inr, String, ◌&&◌, Option, List, [], ◌∷◌, ◌++◌,
  length, length-append, ltb, leb, All, All-append, All-map, arith, Bool-cases,
}
use Prim.Native.Nat.{◌*◌, ◌%◌, max}
use cora_os.Scheduling.{
  Interval, Daypart, minute, day, max_slots, round_up, work_bounds, subtract, window, add_slots,
  add_day, search_days,
}
use cora_os.Scheduling.Busy.{Event, busy_intervals, free_intervals}
use cora_os.Scheduling.Round.{quarter, round_up-quarter, round_up_late, round_up_whole}
use cora_os.Scheduling.Apart.{AreApart, IsPart, All-subtract}

abbrev slot_of : Interval → Interval
slot_of f = record { start = round_up f.start; end = f.end }

All-add_slots :
    (P : Interval → Type 0) (need : ℕ) (free out : List Interval)
    → All P out
    → All (λ f. round_up f.start + need ≤ f.end → P (slot_of f)) free
    → All P (add_slots need free out)
unfolding add_slots
All-add_slots P need [] out h fits = h
All-add_slots P need (f ∷ free) out h fits =
    elim (Bool-cases (leb (round_up f.start + need) f.end)) [
      | inl e ↦
          let out' = out ++ slot_of f ∷ [] in
          let h' = All-append P out (slot_of f ∷ []) h (fits.0 (ground arith), tt) in
          elim (Bool-cases (leb max_slots (length out'))) [
            | inl full ↦ simp (e, full) h'
            | inr more ↦ simp (e, more) (All-add_slots P need free out' h' fits.1)
          ]
      | inr e ↦ simp e (All-add_slots P need free out h fits.1)
    ]

length-add_slots :
    (need : ℕ) (free out : List Interval)
    → length out < max_slots
    → length (add_slots need free out) ≤ max_slots
unfolding add_slots
length-add_slots need [] out h = omega arith
length-add_slots need (f ∷ free) out h = elim (Bool-cases (leb (round_up f.start + need) f.end)) [
  | inl e ↦
      let out' = out ++ slot_of f ∷ [] in
      let n = length-append out (slot_of f ∷ []) in
      elim (Bool-cases (leb max_slots (length out'))) [
        | inl full ↦ simp (e, full) (omega (arith, n))
        | inr more ↦ simp (e, more) (length-add_slots need free out' (ground arith))
      ]
  | inr e ↦ simp e (length-add_slots need free out h)
]

-- Of a day between the first and the last: a working day, within its hours, and, today, later than now;
-- long enough, from a quarter of an hour on, and apart from every busy interval.
abbrev pub IsBookable : List Interval → ℕ → Option Daypart → ℕ → ℕ → ℕ → Interval → Type 0
IsBookable busy need daypart now first last s =
    (d : ℕ) × (first ≤ d)
    × (d ≤ last)
    × (d % 7 < 5)
    × IsPart (work_bounds d daypart) s
    × (d ≡ now / day → now < s.start)
    × (s.start % quarter ≡ 0)
    × (s.start + need ≤ s.end)
    × All (λ b. AreApart b s) busy

-- the seconds and microseconds are 0
abbrev pub IsWhole : Interval → Type 0
IsWhole b = b.end % minute ≡ 0

All-apart-slot_of :
    (f : Interval) (busy : List Interval)
    → All IsWhole busy
    → All (λ b. AreApart b f) busy
    → All (λ b. AreApart b (slot_of f)) busy
All-apart-slot_of f [] whole h = tt
All-apart-slot_of f (b ∷ busy) whole (inl a, h) =
    (inl (omega (arith, round_up_whole f.start, whole.0)), All-apart-slot_of f busy whole.1 h)
All-apart-slot_of f (b ∷ busy) whole (inr a, h) = (inr a, All-apart-slot_of f busy whole.1 h)

window-IsPart :
    (daypart : Option Daypart) (now d : ℕ) → IsPart (work_bounds d daypart) (window daypart now d)
window-IsPart daypart now d = ground arith

window_today :
    (daypart : Option Daypart) (now d : ℕ)
    → d ≡ now / day
    → round_up (now + minute) ≤ (window daypart now d).start
window_today daypart now d h = ground arith

module _ (busy : List Interval) (need : ℕ) (daypart : Option Daypart) (now first last : ℕ)
    (whole : All IsWhole busy) where
  IsBookable-slot_of :
      (d : ℕ) (f : Interval)
      → first ≤ d
      → d ≤ last
      → d % 7 < 5
      → IsPart (window daypart now d) f
      → All (λ b. AreApart b f) busy
      → round_up f.start + need ≤ f.end
      → IsBookable busy need daypart now first last (slot_of f)
  IsBookable-slot_of d f from to week part free fits =
      let in_hours = window-IsPart daypart now d in
      let whole_start = round_up_whole f.start in
      let after : d ≡ now / day → now < round_up f.start = λ h. omega (
        arith,
        whole_start,
        window_today daypart now d h,
        round_up-quarter (now + minute),
        round_up_late (now + minute),
      ) in
      (
        d,
        from,
        to,
        week,
        (omega arith, omega arith),
        after,
        round_up-quarter f.start,
        fits,
        All-apart-slot_of f busy whole free,
      )

  All-add_day :
      (d : ℕ) (out : List Interval)
      → first ≤ d
      → d ≤ last
      → All (IsBookable busy need daypart now first last) out
      → All (IsBookable busy need daypart now first last) (add_day busy need daypart now d out)
  All-add_day d out from to h =
      let w = window daypart now d in
      elim (Bool-cases (ltb (d % 7) 5 && ltb w.start w.end)) [
        | inl e ↦ simp e (
            All-add_slots _ need (subtract w busy) out h (
              All-map (subtract w busy)
                (λ f p fits. IsBookable-slot_of d f from to (ground arith) p.0 p.1 fits)
                (All-subtract w busy)))
        | inr e ↦ simp e h
      ]

  All-search_days :
      (left d : ℕ) (out : List Interval)
      → first ≤ d
      → d + left ≤ max first (suc last)
      → All (IsBookable busy need daypart now first last) out
      → All
          (IsBookable busy need daypart now first last)
          (search_days busy need daypart now left d out)
  unfolding search_days
  All-search_days zero d out from to h = h
  All-search_days (suc left) d out from to h = elim (Bool-cases (ltb (length out) max_slots)) [
    | inl e ↦ simp e (
        All-search_days left (suc d) (add_day busy need daypart now d out) (omega arith)
          (omega arith) (All-add_day d out from (omega arith) h))
    | inr e ↦ simp e h
  ]

length-add_day :
    (busy : List Interval) (need : ℕ) (daypart : Option Daypart) (now d : ℕ) (out : List Interval)
    → length out < max_slots
    → length (add_day busy need daypart now d out) ≤ max_slots
length-add_day busy need daypart now d out h =
    let w = window daypart now d in
    elim (Bool-cases (ltb (d % 7) 5 && ltb w.start w.end)) [
      | inl e ↦ simp e (length-add_slots need (subtract w busy) out h)
      | inr e ↦ simp e (omega arith)
    ]

length-search_days :
    (busy : List Interval) (need : ℕ) (daypart : Option Daypart) (now left d : ℕ)
    (out : List Interval)
    → length out ≤ max_slots
    → length (search_days busy need daypart now left d out) ≤ max_slots
unfolding search_days
length-search_days busy need daypart now zero d out h = h
length-search_days busy need daypart now (suc left) d out h =
    elim (Bool-cases (ltb (length out) max_slots)) [
      | inl e ↦ simp e (
          length-search_days busy need daypart now left (suc d)
            (add_day busy need daypart now d out)
            (length-add_day busy need daypart now d out (ground arith)))
      | inr e ↦ simp e h
    ]

-- Of a calendar whose events end on whole minutes, `_free_intervals` proposes at most six slots. Each is
-- within the hours of a working day in the range and, today, later than now; it starts at a quarter of
-- an hour, is long enough, and has no moment in common with a busy interval.
pub free_intervals-IsBookable :
    (parsed : String → Option ℕ) (events : List Event) (first last duration : ℕ)
    (daypart : Option Daypart) (now : ℕ)
    → All IsWhole (busy_intervals parsed events)
    → let slots = free_intervals parsed events first last duration daypart now in
      (length slots ≤ max_slots)
      × All
          (IsBookable (busy_intervals parsed events) (minute * duration) daypart now first last)
          slots
unfolding free_intervals
free_intervals-IsBookable parsed events first last duration daypart now whole =
    let busy = busy_intervals parsed events in
    (
      length-search_days busy (minute * duration) daypart now (suc last - first) first []
          (omega arith),
      All-search_days busy (minute * duration) daypart now first last whole (suc last - first) first
          [] (omega arith) (omega arith) tt,
    )
