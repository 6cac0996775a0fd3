-- ===== src/Scheduling/Free.antt =====
-- What `_subtract` leaves: the moments of the window in no busy interval.
use cora_os.Prelude.{ℕ, ◌≡◌, refl, Bool, not, ◌&&◌, ◌||◌, List, [], ◌∷◌, any, ltb, leb, arith}
use cora_os.Scheduling.{Interval, cut, cut_all, subtract_from, non_empty, subtract}

abbrev pub has_moment : ℕ → Interval → Bool
has_moment t i = leb i.start t && ltb t i.end

abbrev pub is_within : ℕ → List Interval → Bool
is_within t = any (has_moment t)

is_within-cut :
    (t : ℕ) (b f : Interval) (rest : List Interval)
    → is_within t (cut b f rest) ≡ ((has_moment t f && not (has_moment t b)) || is_within t rest)
is_within-cut t b f rest = ground arith

is_within-cut_all :
    (t : ℕ) (b : Interval) (fs : List Interval)
    → is_within t (cut_all b fs) ≡ (is_within t fs && not (has_moment t b))
is_within-cut_all t b [] = refl
is_within-cut_all t b (f ∷ fs) =
    ground (arith, is_within-cut t b f (cut_all b fs), is_within-cut_all t b fs)

is_within-subtract_from :
    (t : ℕ) (free busy : List Interval)
    → is_within t (subtract_from free busy) ≡ (is_within t free && not (is_within t busy))
is_within-subtract_from t free [] = ground arith
is_within-subtract_from t free (b ∷ busy) =
    ground (arith, is_within-subtract_from t (cut_all b free) busy, is_within-cut_all t b free)

is_within-non_empty : (t : ℕ) (fs : List Interval) → is_within t (non_empty fs) ≡ is_within t fs
is_within-non_empty t [] = refl
is_within-non_empty t (f ∷ fs) = ground (arith, is_within-non_empty t fs)

-- A moment lies in an interval that `_subtract` leaves exactly when it lies in the window and in no busy
-- interval.
pub is_within-subtract :
    (t : ℕ) (w : Interval) (busy : List Interval)
    → is_within t (subtract w busy) ≡ (has_moment t w && not (is_within t busy))
unfolding subtract
is_within-subtract t w busy = ground (
  arith,
  is_within-non_empty t (subtract_from (w ∷ []) busy),
  is_within-subtract_from t (w ∷ []) busy,
)
