-- ===== src/Routing/Best.antt =====
-- `select_subagent` takes the best candidate, and of equals the first.
use cora_os.Prelude.{
  ℕ, ◌≤◌, ◌<◌, ◌≡◌, refl, ap, sym, subst, ◌∙◌, ◌⊎◌, inl, inr, Bool, true, false, List, [], ◌∷◌,
  ◌++◌, length, ltb, is_nil, All, All-append, All-map, arith, Bool-cases, if◌then◌else◌,
}
use cora_os.Prelude.Text.{Text}
use mathlib.Core.List.{append_assoc, append-nil}
use cora_os.Routing.{
  Candidate, Selection, persona_name, default_candidates, keywords_of, is_better, specificity,
  match_keywords, select_from, select_subagent,
}

-- fewer keywords, or as many that are shorter in all
abbrev pub IsWorse : List Text → List Text → Type 0
IsWorse m n = (length m < length n) ⊎ ((length m ≡ length n) × (specificity m < specificity n))

-- fewer keywords, or as many that are not longer in all
abbrev pub IsNoBetter : List Text → List Text → Type 0
IsNoBetter m n = (length m < length n) ⊎ ((length m ≡ length n) × (specificity m ≤ specificity n))

-- The candidate has matches; each candidate before it has worse ones, and none after it has better ones.
pub record IsFirstBest (matched : Candidate → List Text) (cs : List Candidate) (s : Selection)
    : Type 0 where
  pub chosen : Candidate
  pub before : List Candidate
  pub after : List Candidate
  pub place : cs ≡ before ++ chosen ∷ after
  pub selected : s ≡ record { name = chosen.name; matched = matched chosen }
  pub some_match : is_nil (matched chosen) ≡ false
  pub ahead : All (λ c. IsWorse (matched c) (matched chosen)) before
  pub behind : All (λ c. IsNoBetter (matched c) (matched chosen)) after

-- The persona answers when no candidate has matches.
abbrev pub IsChoice : (Candidate → List Text) → List Candidate → Selection → Type 0
IsChoice matched cs s =
    ((s ≡ record { name = persona_name; matched = [] }) × All (λ c. is_nil (matched c) ≡ true) cs)
    ⊎ IsFirstBest matched cs s

some_better : (m n : List Text) → is_nil m ≡ false → is_nil n ≡ true → is_better m n ≡ true
some_better [] n h k = absurd (ground arith)
some_better (x ∷ m) [] h k = ground arith
some_better (x ∷ m) (y ∷ n) h k = absurd (ground arith)

empty-IsNoBetter : (m n : List Text) → is_nil m ≡ true → is_nil n ≡ false → IsNoBetter m n
empty-IsNoBetter [] [] h k = absurd (ground arith)
empty-IsNoBetter [] (y ∷ n) h k = inl (omega arith)
empty-IsNoBetter (x ∷ m) n h k = absurd (ground arith)

better-IsWorse : (m n : List Text) → is_better m n ≡ true → IsWorse n m
better-IsWorse m n h = elim (Bool-cases (ltb (length n) (length m))) [
  | inl e ↦ inl (ground arith)
  | inr e ↦ inr (ground arith, ground arith)
]

not_better-IsNoBetter : (m n : List Text) → is_better m n ≡ false → IsNoBetter m n
not_better-IsNoBetter m n h = elim (Bool-cases (ltb (length m) (length n))) [
  | inl e ↦ inl (ground arith)
  | inr e ↦ inr (ground arith, ground arith)
]

IsWorse-trans : (l m n : List Text) → IsNoBetter l m → IsWorse m n → IsWorse l n
IsWorse-trans l m n (inl h) (inl k) = inl (omega arith)
IsWorse-trans l m n (inl h) (inr k) = inl (omega (arith, k.0))
IsWorse-trans l m n (inr h) (inl k) = inl (omega (arith, h.0))
IsWorse-trans l m n (inr h) (inr k) = inr (h.0 ∙ k.0, omega (arith, h.1, k.1))

IsWorse-IsNoBetter : (m n : List Text) → IsWorse m n → IsNoBetter m n
IsWorse-IsNoBetter m n (inl h) = inl h
IsWorse-IsNoBetter m n (inr h) = inr (h.0, omega (arith, h.1))

module _ (matched : Candidate → List Text) where
  stays :
      (done : List Candidate) (c : Candidate) (s : Selection)
      → (r : IsFirstBest matched done s) → IsNoBetter (matched c) (matched r.chosen)
      → IsFirstBest matched (done ++ c ∷ []) s
  stays done c s r w = record {
    chosen = r.chosen;
    before = r.before;
    after = r.after ++ c ∷ [];
    place = ap (λ cs. cs ++ c ∷ []) r.place ∙ append_assoc r.before (r.chosen ∷ r.after) (c ∷ []);
    selected = r.selected;
    some_match = r.some_match;
    ahead = r.ahead;
    behind = All-append _ r.after (c ∷ []) r.behind (w, tt);
  }

  -- a candidate with better matches than what was chosen before takes its place
  takes :
      (done : List Candidate) (c : Candidate)
      → is_nil (matched c) ≡ false
      → All (λ d. IsWorse (matched d) (matched c)) done
      → IsFirstBest matched (done ++ c ∷ []) record { name = c.name; matched = matched c }
  takes done c some ahead = record {
    chosen = c;
    before = done;
    after = [];
    place = refl;
    selected = refl;
    some_match = some;
    ahead = ahead;
    behind = tt;
  }

  all-IsWorse :
      (done : List Candidate) (c : Candidate) (s : Selection)
      → (r : IsFirstBest matched done s) → IsWorse (matched r.chosen) (matched c)
      → All (λ d. IsWorse (matched d) (matched c)) done
  all-IsWorse done c s r w =
      let m = matched r.chosen in
      let below : (d : Candidate) → IsNoBetter (matched d) m → IsWorse (matched d) (matched c) =
        λ d h. IsWorse-trans (matched d) m (matched c) h w in
      subst (All (λ d. IsWorse (matched d) (matched c))) (sym r.place) (
        All-append _ r.before (r.chosen ∷ r.after)
          (All-map r.before (λ d h. below d (IsWorse-IsNoBetter (matched d) m h)) r.ahead)
          (w, All-map r.after below r.behind))

-- what the body of the loop does with a candidate
abbrev next_best : List Text → Candidate → Selection → Selection
next_best matched c best =
    if is_nil matched
    then best
    else if is_better matched best.matched
    then record { name = c.name; matched = matched }
    else best

module _ (matched : Candidate → List Text) where
  IsChoice-next_best :
      (done : List Candidate) (c : Candidate) (s : Selection)
      → IsChoice matched done s
      → IsChoice matched (done ++ c ∷ []) (next_best (matched c) c s)
  IsChoice-next_best done c s (inl (q, h)) = elim (Bool-cases (is_nil (matched c))) [
    | inl e ↦ simp e (inl (q, All-append _ done (c ∷ []) h (e, tt)))
    | inr e ↦
        let w : is_better (matched c) s.matched ≡ true =
          some_better (matched c) s.matched e (ap (λ t. is_nil t.matched) q) in
        simp (e, w)
          (inr (
            takes matched done c e (
              All-map done
                (λ d k.
                  better-IsWorse (matched c) (matched d) (some_better (matched c) (matched d) e k))
                h)))
  ]
  IsChoice-next_best done c s (inr r) = elim (Bool-cases (is_nil (matched c))) [
    | inl e ↦ simp e (
        inr (
          stays matched done c s r
            (empty-IsNoBetter (matched c) (matched r.chosen) e r.some_match)))
    | inr e ↦
        let here : s.matched ≡ matched r.chosen = ap (λ t. t.matched) r.selected in
        elim (Bool-cases (is_better (matched c) s.matched)) [
          | inl w ↦
              simp (e, w)
                (inr (
                  takes matched done c e (
                    all-IsWorse matched done c s r (
                      better-IsWorse (matched c) (matched r.chosen)
                        (ap (is_better (matched c)) (sym here) ∙ w)))))
          | inr w ↦
              simp (e, w)
                (inr (
                  stays matched done c s r (
                    not_better-IsNoBetter (matched c) (matched r.chosen)
                      (ap (is_better (matched c)) (sym here) ∙ w))))
        ]
  ]

module _ (is_word : ℕ → Bool) (message : Text) (overrides : List Candidate) where
  abbrev pub matched_of : Candidate → List Text
  matched_of c = match_keywords is_word message (keywords_of overrides c)

  IsChoice-select_from :
      (done cs : List Candidate) (s : Selection)
      → IsChoice matched_of done s
      → IsChoice matched_of (done ++ cs) (select_from is_word message overrides cs s)
  unfolding select_from
  IsChoice-select_from done [] s h =
      subst (λ ds. IsChoice matched_of ds s) (sym (append-nil done)) h
  IsChoice-select_from done (c ∷ cs) s h =
      let later =
        IsChoice-select_from (done ++ c ∷ []) cs (next_best (matched_of c) c s)
          (IsChoice-next_best matched_of done c s h) in
      subst
        (λ ds.
          IsChoice matched_of ds
            (select_from is_word message overrides cs (next_best (matched_of c) c s)))
        (append_assoc done (c ∷ []) cs) later

  -- `select_subagent` answers with the persona when no candidate has matches, and otherwise with the
  -- first of the candidates whose matches are the best: the most, and of as many the longest in all.
  pub select_subagent-IsChoice :
      IsChoice matched_of default_candidates (select_subagent is_word message overrides)
  unfolding select_subagent
  select_subagent-IsChoice =
      IsChoice-select_from [] default_candidates record { name = persona_name; matched = [] }
        (inl (refl, tt))
