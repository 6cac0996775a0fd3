-- ===== src/Memory/Windows.antt =====
-- The chunks of a text are windows that overlap and cover it.
use cora_os.Prelude.{
  ℕ, zero, suc, ◌+◌, ◌-◌, ◌≤◌, ◌<◌, ◌≡◌, refl, sym, ◌∙◌, ap, inl, inr, true, List, [], ◌∷◌, ◌++◌,
  All, arith, length, take, drop, ltb, leb, Bool-cases, if◌then◌else◌,
}
use mathlib.Core.List.{append-nil}
use cora_os.Prelude.Text.{Text, strip}
use cora_os.Memory.{kept_piece, chunk_loop}

-- The pieces that are not empty when they are stripped.
abbrev pub pieces : List Text → List Text
pieces [] = []
pieces (w ∷ ws) = kept_piece (strip w) (pieces ws)

-- the windows after the first, without what they share with the one before
abbrev pub rest_of : ℕ → List Text → Text
rest_of k [] = []
rest_of k (w ∷ ws) = drop k w ++ rest_of k ws

-- the text that overlapping windows come from
abbrev pub rejoin : ℕ → List Text → Text
rejoin k [] = []
rejoin k (w ∷ ws) = w ++ rest_of k ws

-- The views are the windows of that size over the text, in order, each `step` code points after the
-- one before, from `start` on.
abbrev pub AreCut : ℕ → ℕ → Text → ℕ → List Text → Type 0
AreCut size step text start [] = Unit
AreCut size step text start (w ∷ ws) =
    (start < length text)
    × (w ≡ take size (drop start text))
    × AreCut size step text (start + step) ws

take-append-drop : (n : ℕ) (t : Text) → take n t ++ drop n t ≡ t
take-append-drop zero t = refl
take-append-drop (suc n) [] = refl
take-append-drop (suc n) (c ∷ t) = ap (λ u. c ∷ u) (take-append-drop n t)

pub take_all : (n : ℕ) (t : Text) → length t ≤ n → take n t ≡ t
take_all zero [] h = refl
take_all zero (c ∷ t) h = absurd (omega arith)
take_all (suc n) [] h = refl
take_all (suc n) (c ∷ t) h = ap (λ u. c ∷ u) (take_all n t (omega arith))

length-drop : (n : ℕ) (t : Text) → length (drop n t) ≡ length t - n
length-drop zero t = omega arith
length-drop (suc n) [] = omega arith
length-drop (suc n) (c ∷ t) = omega (arith, length-drop n t)

length-take-le : (n : ℕ) (t : Text) → length (take n t) ≤ n
length-take-le zero t = omega arith
length-take-le (suc n) [] = omega arith
length-take-le (suc n) (c ∷ t) = omega (arith, length-take-le n t)

le-length-take : (k n : ℕ) (t : Text) → k ≤ n → k ≤ length t → k ≤ length (take n t)
le-length-take k zero t h l = h
le-length-take k (suc n) [] h l = l
le-length-take zero (suc n) (c ∷ t) h l = omega arith
le-length-take (suc k) (suc n) (c ∷ t) h l = omega (arith, le-length-take k n t)

drop_nil : (n : ℕ) → drop {A = ℕ} n [] ≡ []
drop_nil zero = refl
drop_nil (suc n) = refl

drop-drop : (m n : ℕ) (t : Text) → drop m (drop n t) ≡ drop (n + m) t
drop-drop m zero t = ap (λ k. drop k t) (omega arith)
drop-drop m (suc n) [] = drop_nil m ∙ sym (drop_nil (suc n + m))
drop-drop m (suc n) (c ∷ t) =
    let e : suc (n + m) ≡ suc n + m = omega arith in drop-drop m n t ∙ ap (λ k. drop k (c ∷ t)) e

drop-append : (k : ℕ) (s t : Text) → k ≤ length s → drop k (s ++ t) ≡ drop k s ++ t
drop-append zero s t h = refl
drop-append (suc k) [] t h = absurd (omega arith)
drop-append (suc k) (c ∷ s) t h = drop-append k s t (omega arith)

module _ (step overlap : ℕ) (text : Text) where
  -- the windows of the loop
  pub windows : ℕ → ℕ → List Text
  windows zero start = []
  windows (suc fuel) start =
      let rest = windows fuel (start + step) in
      if ltb start (length text)
      then take (step + overlap) (drop start text)
        ∷ (if leb (length text) (start + (step + overlap)) then [] else rest)
      else []

  pub chunk_loop-eq-pieces :
      (fuel start : ℕ)
      → chunk_loop (step + overlap) step text fuel start ≡ pieces (windows fuel start)
  unfolding chunk_loop windows
  chunk_loop-eq-pieces zero start = refl
  chunk_loop-eq-pieces (suc fuel) start = elim (Bool-cases (ltb start (length text))) [
    | inr past ↦ simp past
    | inl within ↦ elim (Bool-cases (leb (length text) (start + (step + overlap)))) [
      | inl last ↦ simp (within, last)
      | inr more ↦ simp (within, more, chunk_loop-eq-pieces fuel (start + step))
    ]
  ]

  pub windows_bound :
      (fuel start : ℕ) → All (λ (w : Text). length w ≤ step + overlap) (windows fuel start)
  unfolding windows
  windows_bound zero start = tt
  windows_bound (suc fuel) start =
      let short = length-take-le (step + overlap) (drop start text) in
      elim (Bool-cases (ltb start (length text))) [
        | inr past ↦ rw past tt
        | inl within ↦ elim (Bool-cases (leb (length text) (start + (step + overlap)))) [
          | inl last ↦ rw (within, last) (short, tt)
          | inr more ↦ rw (within, more) (short, windows_bound fuel (start + step))
        ]
      ]

  pub windows-AreCut :
      (fuel start : ℕ) → AreCut (step + overlap) step text start (windows fuel start)
  unfolding windows
  windows-AreCut zero start = tt
  windows-AreCut (suc fuel) start = elim (Bool-cases (ltb start (length text))) [
    | inr past ↦ rw past tt
    | inl within ↦
        let inside : start < length text = ground arith in
        elim (Bool-cases (leb (length text) (start + (step + overlap)))) [
          | inl last ↦ rw (within, last) (inside, refl, tt)
          | inr more ↦ rw (within, more) (inside, refl, windows-AreCut fuel (start + step))
        ]
  ]

  -- what the later windows add, where the first is as long as the overlap
  rest_of-windows :
      (fuel start : ℕ)
      → start + overlap ≤ length text
      → rest_of overlap (windows fuel start) ≡ drop overlap (rejoin overlap (windows fuel start))
  unfolding windows
  rest_of-windows zero start h = sym (drop_nil overlap)
  rest_of-windows (suc fuel) start h = elim (Bool-cases (ltb start (length text))) [
    | inr past ↦ rw past (sym (drop_nil overlap))
    | inl within ↦ rw within (
        sym (
          drop-append overlap (take (step + overlap) (drop start text)) _ (
            le-length-take overlap (step + overlap) (drop start text) (omega arith)
              (omega (arith, length-drop start text)))))
  ]

  -- with fuel for what is left, the windows from `start` on cover the rest of the text
  pub rejoin-windows :
      (fuel start : ℕ)
      → 0 < step
      → start < length text
      → length text ≤ start + fuel
      → rejoin overlap (windows fuel start) ≡ drop start text
  unfolding windows
  rejoin-windows zero start s h f = absurd (omega arith)
  rejoin-windows (suc fuel) start s h f =
      let r = drop start text in
      let within : ltb start (length text) ≡ true = ground arith in
      elim (Bool-cases (leb (length text) (start + (step + overlap)))) [
        | inl last ↦
            rw (within, last)
              (append-nil (take (step + overlap) r)
                ∙ take_all (step + overlap) r (ground (arith, length-drop start text)))
        | inr more ↦
            let far : start + (step + overlap) < length text = ground arith in
            let rest : rest_of overlap (windows fuel (start + step)) ≡ drop (step + overlap) r =
              rest_of-windows fuel (start + step) (omega arith)
              ∙ ap (drop overlap) (rejoin-windows fuel (start + step) s (omega arith) (omega arith))
              ∙ drop-drop overlap (start + step) text
              ∙ ap (λ k. drop k text) (omega arith)
              ∙ sym (drop-drop (step + overlap) start text) in
            rw (within, more)
              (ap (λ u. take (step + overlap) r ++ u) rest ∙ take-append-drop (step + overlap) r)
      ]
