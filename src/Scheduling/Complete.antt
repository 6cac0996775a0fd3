-- ===== src/Scheduling/Complete.antt =====
-- What `_free_intervals` leaves out is not free, or comes after the last slot that it may propose.
use cora_os.Prelude.{
  ℕ, zero, suc, ◌+◌, ◌-◌, ◌≤◌, ◌<◌, ◌≡◌, subst, inl, inr, String, true, ◌&&◌, Option, List, [], ◌∷◌,
  ◌++◌, length, ltb, leb, All, arith, Bool-cases,
}
use Prim.Native.Nat.{◌*◌, ◌%◌}
use cora_os.Scheduling.{
  Interval, Daypart, minute, max_slots, round_up, subtract, window, add_slots, add_day, search_days,
}
use cora_os.Scheduling.Busy.{Event, busy_intervals, free_intervals}
use cora_os.Scheduling.Round.{quarter, round_up_first}
use cora_os.Scheduling.Apart.{AreApart, IsPart}
use cora_os.Scheduling.Held.{is_held, is_held-append, is_held-last, is_held-subtract}

-- a loop that keeps what is proposed and ends below the limit has not broken off
add_slots_keeps :
    (x : Interval) (need : ℕ) (free out : List Interval)
    → is_held x out ≡ true
    → is_held x (add_slots need free out) ≡ true
unfolding add_slots
add_slots_keeps x need [] out h = h
add_slots_keeps x need (f ∷ free) out h =
    let slot : Interval = record { start = round_up f.start; end = f.end } in
    let out' = out ++ slot ∷ [] in
    elim (Bool-cases (leb (round_up f.start + need) f.end)) [
      | inl e ↦ elim (Bool-cases (leb max_slots (length out'))) [
        | inl full ↦ simp (e, full) (is_held-append x out (slot ∷ []) h)
        | inr more ↦
            simp (e, more) (add_slots_keeps x need free out' (is_held-append x out (slot ∷ []) h))
      ]
      | inr e ↦ simp e (add_slots_keeps x need free out h)
    ]

add_slots_finds :
    (x : Interval) (need : ℕ) (free out : List Interval)
    → x.start % quarter ≡ 0
    → x.start + need ≡ x.end
    → is_held x free ≡ true
    → length (add_slots need free out) < max_slots
    → is_held x (add_slots need free out) ≡ true
unfolding add_slots
add_slots_finds x need [] out q n h below = ground arith
add_slots_finds x need (f ∷ free) out q n h below =
    let slot : Interval = record { start = round_up f.start; end = f.end } in
    let out' = out ++ slot ∷ [] in
    elim (Bool-cases (leb f.start x.start && leb x.end f.end)) [
      | inl here ↦
          let first = round_up_first f.start x.start q (ground arith) in
          let e : leb (round_up f.start + need) f.end ≡ true = ground arith in
          let held = is_held-last x slot out (ground arith, ground arith) in
          elim (Bool-cases (leb max_slots (length out'))) [
            | inl full ↦ simp (e, full) held
            | inr more ↦ simp (e, more) (add_slots_keeps x need free out' held)
          ]
      | inr other ↦
          let later : is_held x free ≡ true = ground arith in
          elim (Bool-cases (leb (round_up f.start + need) f.end)) [
            | inl e ↦ elim (Bool-cases (leb max_slots (length out'))) [
              | inl full ↦
                  (let much : length out' < max_slots = simp (e, full) at below in
                    absurd (ground arith))
              | inr more ↦
                  simp (e, more)
                    (add_slots_finds x need free out' q n later (simp (e, more) at below))
            ]
            | inr e ↦ simp e (add_slots_finds x need free out q n later (simp e at below))
          ]
    ]

module _ (busy : List Interval) (need : ℕ) (daypart : Option Daypart) (now : ℕ) (x : Interval) where
  add_day_keeps :
      (d : ℕ) (out : List Interval)
      → is_held x out ≡ true
      → is_held x (add_day busy need daypart now d out) ≡ true
  add_day_keeps d out h =
      let w = window daypart now d in
      elim (Bool-cases (ltb (d % 7) 5 && ltb w.start w.end)) [
        | inl e ↦ simp e (add_slots_keeps x need (subtract w busy) out h)
        | inr e ↦ simp e h
      ]

  search_days_keeps :
      (left d : ℕ) (out : List Interval)
      → is_held x out ≡ true
      → is_held x (search_days busy need daypart now left d out) ≡ true
  unfolding search_days
  search_days_keeps zero d out h = h
  search_days_keeps (suc left) d out h = elim (Bool-cases (ltb (length out) max_slots)) [
    | inl e ↦ simp e (
        search_days_keeps left (suc d) (add_day busy need daypart now d out)
          (add_day_keeps d out h))
    | inr e ↦ simp e h
  ]

  search_days_few :
      (left d : ℕ) (out : List Interval)
      → length (search_days busy need daypart now left d out) < max_slots
      → length out < max_slots
  unfolding search_days
  search_days_few zero d out h = h
  search_days_few (suc left) d out h = elim (Bool-cases (ltb (length out) max_slots)) [
    | inl e ↦ ground arith
    | inr e ↦ simp e at h
  ]

  module _ (some_time : x.start < x.end) (on_quarter : x.start % quarter ≡ 0)
      (enough : x.start + need ≡ x.end) (free : All (λ b. AreApart b x) busy) where
    add_day_finds :
        (d : ℕ) (out : List Interval)
        → d % 7 < 5
        → IsPart (window daypart now d) x
        → length (add_day busy need daypart now d out) < max_slots
        → is_held x (add_day busy need daypart now d out) ≡ true
    add_day_finds d out week part below =
        let w = window daypart now d in
        let e : (ltb (d % 7) 5 && ltb w.start w.end) ≡ true = ground arith in
        simp e (
          add_slots_finds x need (subtract w busy) out on_quarter enough
            (is_held-subtract x some_time w busy free part) (simp e at below))

    search_days_finds :
        (left d d0 : ℕ) (out : List Interval)
        → d ≤ d0
        → d0 < d + left
        → d0 % 7 < 5
        → IsPart (window daypart now d0) x
        → length (search_days busy need daypart now left d out) < max_slots
        → is_held x (search_days busy need daypart now left d out) ≡ true
    unfolding search_days
    search_days_finds zero d d0 out from to week part below = absurd (omega arith)
    search_days_finds (suc left) d d0 out from to week part below =
        elim (Bool-cases (ltb (length out) max_slots)) [
          | inr e ↦ absurd (let much : length out < max_slots = simp e at below in ground arith)
          | inl e ↦
              let out' = add_day busy need daypart now d out in
              let below' : length (search_days busy need daypart now left (suc d) out')
                  < max_slots =
                simp e at below in
              simp e (elim (Bool-cases (leb d0 d)) [
                | inl today ↦
                    let same : d0 ≡ d = ground arith in
                    search_days_keeps left (suc d) out' (
                      add_day_finds d out (ground arith)
                        (subst (λ k. IsPart (window daypart now k) x) same part)
                        (search_days_few left (suc d) out' below'))
                | inr later ↦
                    search_days_finds left (suc d) d0 out' (ground arith) (omega arith) week part
                      below'
              ])
        ]

-- When `_free_intervals` proposes fewer than six slots, every stretch of the wanted length from a quarter
-- of an hour on, within the hours that are left of a working day in the range and apart from every busy
-- interval, lies in a slot that it proposes.
pub free_intervals_complete :
    (parsed : String → Option ℕ) (events : List Event) (first last duration : ℕ)
    (daypart : Option Daypart) (now d : ℕ) (x : Interval)
    → length (free_intervals parsed events first last duration daypart now) < max_slots
    → 0 < duration
    → first ≤ d
    → d ≤ last
    → d % 7 < 5
    → IsPart (window daypart now d) x
    → x.start % quarter ≡ 0
    → x.start + minute * duration ≡ x.end
    → All (λ b. AreApart b x) (busy_intervals parsed events)
    → is_held x (free_intervals parsed events first last duration daypart now) ≡ true
unfolding free_intervals
free_intervals_complete parsed events first last duration daypart now d x few some from to week part
      q n free =
    search_days_finds (busy_intervals parsed events) (minute * duration) daypart now x (omega arith)
      q n free (suc last - first) first d [] from (omega arith) week part few
