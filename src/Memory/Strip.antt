-- ===== src/Memory/Strip.antt =====
-- A text that is stripped stays as it is under a further `strip`.
use cora_os.Prelude.{
  ◌≤◌, ◌≡◌, refl, subst, length, sym, ◌∙◌, ap, [], ◌∷◌, ◌++◌, arith, Bool-cases, inl, inr,
}
use mathlib.Core.List.{reverse, reverse-append, reverse-reverse}
use cora_os.Prelude.Text.{Text, is_space, lstrip, strip}

lstrip_twice : (t : Text) → lstrip (lstrip t) ≡ lstrip t
unfolding lstrip
lstrip_twice [] = refl
lstrip_twice (c ∷ t) = elim (Bool-cases (is_space c)) [
  | inl s ↦ simp (s, lstrip_twice t)
  | inr n ↦ simp n
]

length-lstrip-le : (t : Text) → length (lstrip t) ≤ length t
unfolding lstrip
length-lstrip-le [] = omega arith
length-lstrip-le (c ∷ t) = ground (arith, length-lstrip-le t)

-- what `lstrip` takes off
lstrip_prefix : (t : Text) → (s : Text) × (t ≡ s ++ lstrip t)
unfolding lstrip
lstrip_prefix [] = ([], refl)
lstrip_prefix (c ∷ t) = elim (Bool-cases (is_space c)) [
  | inl s ↦ (let (u, e) = lstrip_prefix t in (c ∷ u, simp s (ap (λ v. c ∷ v) e)))
  | inr n ↦ ([], simp n)
]

-- a part at the front of a text with no white space at its front has none either
lstrip_front : (s t : Text) → lstrip (s ++ t) ≡ s ++ t → lstrip s ≡ s
unfolding lstrip
lstrip_front [] t h = refl
lstrip_front (c ∷ s) t h = elim (Bool-cases (is_space c)) [
  | inl w ↦
      let e : lstrip (s ++ t) ≡ c ∷ (s ++ t) = rw w at h in
      absurd (omega (arith, ap length e, length-lstrip-le (s ++ t)))
  | inr n ↦ simp n
]

module _ (t : Text) where
  abbrev left : Text
  left = lstrip t

  abbrev right : Text
  right = lstrip (reverse left)

  lstrip-reverse-right : lstrip (reverse right) ≡ reverse right
  lstrip-reverse-right =
      let (s, e) = lstrip_prefix (reverse left) in
      let parts : left ≡ reverse right ++ reverse s =
        sym (reverse-reverse left) ∙ ap reverse e ∙ reverse-append s right in
      lstrip_front (reverse right) (reverse s) (subst (λ x. lstrip x ≡ x) parts (lstrip_twice t))

  pub strip_twice : strip (strip t) ≡ strip t
  unfolding strip
  strip_twice = rw (lstrip-reverse-right, reverse-reverse right, lstrip_twice (reverse left)) refl
