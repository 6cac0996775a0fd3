-- ===== src/Scheduling/Apart.antt =====
-- The intervals that `_subtract` leaves are parts of the window, apart from every busy one.
use cora_os.Prelude.{
  ◌≤◌, ◌⊎◌, inl, inr, ◌||◌, List, [], ◌∷◌, ltb, leb, All, All-map, arith, Bool-cases,
}
use Prim.Native.Nat.{min, max}
use cora_os.Scheduling.{Interval, cut, cut_all, subtract_from, non_empty, subtract}

-- the intervals have no moment in common
abbrev pub AreApart : Interval → Interval → Type 0
AreApart b f = (b.end ≤ f.start) ⊎ (f.end ≤ b.start)

-- what holds of an interval holds of its parts
abbrev IsDownward : (Interval → Type 0) → Type 0
IsDownward P = (f g : Interval) → f.start ≤ g.start → g.end ≤ f.end → P f → P g

All-cut :
    (P : Interval → Type 0) (b f : Interval) (rest : List Interval)
    → IsDownward P
    → P f
    → All (λ g. P g × AreApart b g) rest
    → All (λ g. P g × AreApart b g) (cut b f rest)
All-cut P b f rest part p h = elim (Bool-cases (leb b.end f.start || leb f.end b.start)) [
  | inl off ↦ simp off ((p, ground arith), h)
  | inr hit ↦
      let left : P record { start = f.start; end = min b.start f.end }
          × AreApart b record { start = f.start; end = min b.start f.end } =
        (
          part f record { start = f.start; end = min b.start f.end } (omega arith) (omega arith) p,
          inr (omega arith),
        ) in
      let right : P record { start = max b.end f.start; end = f.end }
          × AreApart b record { start = max b.end f.start; end = f.end } =
        (
          part f record { start = max b.end f.start; end = f.end } (omega arith) (omega arith) p,
          inl (omega arith),
        ) in
      elim (Bool-cases (ltb b.end f.end)) [
        | inl e ↦ elim (Bool-cases (ltb f.start b.start)) [
          | inl s ↦ simp (hit, e, s) (left, (right, h))
          | inr s ↦ simp (hit, e, s) (right, h)
        ]
        | inr e ↦ elim (Bool-cases (ltb f.start b.start)) [
          | inl s ↦ simp (hit, e, s) (left, h)
          | inr s ↦ simp (hit, e, s) h
        ]
      ]
]

All-cut_all :
    (P : Interval → Type 0) (b : Interval) (fs : List Interval)
    → IsDownward P
    → All P fs
    → All (λ g. P g × AreApart b g) (cut_all b fs)
All-cut_all P b [] part h = tt
All-cut_all P b (f ∷ fs) part h =
    All-cut P b f (cut_all b fs) part h.0 (All-cut_all P b fs part h.1)

IsDownward-AreApart :
    (P : Interval → Type 0) (b : Interval) → IsDownward P → IsDownward (λ g. P g × AreApart b g)
IsDownward-AreApart P b part f g s e (p, inl a) = (part f g s e p, inl (omega arith))
IsDownward-AreApart P b part f g s e (p, inr a) = (part f g s e p, inr (omega arith))

All-subtract_from :
    (P : Interval → Type 0) (free busy : List Interval)
    → IsDownward P
    → All P free
    → All (λ g. P g × All (λ b. AreApart b g) busy) (subtract_from free busy)
All-subtract_from P free [] part h = All-map free (λ g p. (p, tt)) h
All-subtract_from P free (b ∷ busy) part h =
    All-map (subtract_from (cut_all b free) busy) (λ g p. (p.0.0, (p.0.1, p.1)))
      (All-subtract_from (λ g. P g × AreApart b g) (cut_all b free) busy
        (IsDownward-AreApart P b part) (All-cut_all P b free part h))

All-non_empty : (P : Interval → Type 0) (fs : List Interval) → All P fs → All P (non_empty fs)
All-non_empty P [] h = tt
All-non_empty P (f ∷ fs) h = elim (Bool-cases (ltb f.start f.end)) [
  | inl e ↦ simp e (h.0, All-non_empty P fs h.1)
  | inr e ↦ simp e (All-non_empty P fs h.1)
]

abbrev pub IsPart : Interval → Interval → Type 0
IsPart w f = (w.start ≤ f.start) × (f.end ≤ w.end)

pub All-subtract :
    (w : Interval) (busy : List Interval)
    → All (λ f. IsPart w f × All (λ b. AreApart b f) busy) (subtract w busy)
unfolding subtract
All-subtract w busy = All-non_empty _ (subtract_from (w ∷ []) busy) (
    All-subtract_from (IsPart w) (w ∷ []) busy (λ f g s e p. (omega arith, omega arith))
      ((omega arith, omega arith), tt))
