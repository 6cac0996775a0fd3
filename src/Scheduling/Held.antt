-- ===== src/Scheduling/Held.antt =====
-- A stretch that is apart from every busy interval is not cut by `_subtract`.
use cora_os.Prelude.{
  ◌<◌, ◌≡◌, inl, inr, Bool, true, ◌&&◌, List, [], ◌∷◌, ◌++◌, any, leb, All, arith, Bool-cases,
}
use cora_os.Scheduling.{Interval, cut, cut_all, subtract_from, non_empty, subtract}
use cora_os.Scheduling.Apart.{AreApart, IsPart}

abbrev pub is_held : Interval → List Interval → Bool
is_held x = any (λ i. leb i.start x.start && leb x.end i.end)

pub is_held-append :
    (x : Interval) (is js : List Interval) → is_held x is ≡ true → is_held x (is ++ js) ≡ true
is_held-append x [] js h = ground arith
is_held-append x (i ∷ is) js h = elim (Bool-cases (leb i.start x.start && leb x.end i.end)) [
  | inl e ↦ ground arith
  | inr e ↦ (let later = is_held-append x is js (ground arith) in ground arith)
]

pub is_held-last :
    (x i : Interval) (is : List Interval) → IsPart i x → is_held x (is ++ i ∷ []) ≡ true
is_held-last x i [] h = ground arith
is_held-last x i (j ∷ is) h = ground (arith, is_held-last x i is h)

module _ (x : Interval) (some_time : x.start < x.end) where
  is_held-cut :
      (b f : Interval) (rest : List Interval)
      → AreApart b x
      → is_held x (f ∷ rest) ≡ true
      → is_held x (cut b f rest) ≡ true
  is_held-cut b f rest a h = ground arith

  is_held-cut_all :
      (b : Interval) (fs : List Interval)
      → AreApart b x
      → is_held x fs ≡ true
      → is_held x (cut_all b fs) ≡ true
  is_held-cut_all b [] a h = h
  is_held-cut_all b (f ∷ fs) a h = elim (Bool-cases (is_held x fs)) [
    | inl e ↦ is_held-cut b f (cut_all b fs) a (ground (arith, is_held-cut_all b fs a e))
    | inr e ↦ is_held-cut b f (cut_all b fs) a (ground arith)
  ]

  is_held-subtract_from :
      (free busy : List Interval)
      → All (λ b. AreApart b x) busy
      → is_held x free ≡ true
      → is_held x (subtract_from free busy) ≡ true
  is_held-subtract_from free [] a h = h
  is_held-subtract_from free (b ∷ busy) a h =
      is_held-subtract_from (cut_all b free) busy a.1 (is_held-cut_all b free a.0 h)

  is_held-non_empty : (fs : List Interval) → is_held x fs ≡ true → is_held x (non_empty fs) ≡ true
  is_held-non_empty [] h = h
  is_held-non_empty (f ∷ fs) h = elim (Bool-cases (is_held x fs)) [
    | inl e ↦ (let later = is_held-non_empty fs e in ground arith)
    | inr e ↦ ground arith
  ]

  pub is_held-subtract :
      (w : Interval) (busy : List Interval)
      → All (λ b. AreApart b x) busy
      → IsPart w x
      → is_held x (subtract w busy) ≡ true
  unfolding subtract
  is_held-subtract w busy a p =
      is_held-non_empty (subtract_from (w ∷ []) busy)
        (is_held-subtract_from (w ∷ []) busy a (ground arith))
