-- ===== src/Prelude/Table.antt =====
-- A database table: its rows in the order of insertion, which is that of `created_at`. The
-- statements of the source name one row by its primary key.
use Prim.Native.Nat.{ℕ}
use mathlib.Core.Path.{◌≡◌, refl, subst}
use mathlib.Core.Logic.{inl, inr}
use mathlib.Core.Option
use mathlib.Core.Option.{Option, none, some}
use mathlib.Core.List.{List, [], ◌∷◌, ◌++◌}
use native.Mathlib.Omega.{arith}
use cora_os.Prelude.Tests.{◌==◌, ==_iff, Bool-cases, if◌then◌else◌}
use cora_os.Prelude.Lists.{All}

module _ {A : Type 0} (key : A → ℕ) where
  -- SELECT … WHERE id = $1
  abbrev pub find : ℕ → List A → Option A
  find k [] = none
  find k (x ∷ xs) = if key x == k then some x else find k xs

  -- UPDATE … WHERE id = $1
  abbrev pub update : ℕ → (A → A) → List A → List A
  update k f [] = []
  update k f (x ∷ xs) = (if key x == k then f x else x) ∷ update k f xs

  -- An update that leaves the key alone changes the row with that key, and no other.
  pub find-update :
      (k j : ℕ) (f : A → A)
      → ((x : A) → key (f x) ≡ key x)
      → (xs : List A)
      → find j (update k f xs) ≡ (if k == j then Option.map f (find j xs) else find j xs)
  find-update k j f keeps [] = ground arith
  find-update k j f keeps (x ∷ xs) = ground (arith, keeps x, find-update k j f keeps xs)

  pub find-append :
      (k : ℕ) (xs : List A) (y : A)
      → find k (xs ++ y ∷ [])
        ≡ elim (find k xs) [ none ↦ if key y == k then some y else none | some x ↦ some x ]
  find-append k [] y = ground arith
  find-append k (x ∷ xs) y = ground (arith, find-append k xs y)

  pub key-find : (k : ℕ) (xs : List A) {x : A} → find k xs ≡ some x → key x ≡ k
  key-find k [] h = cc
  key-find k (y ∷ xs) {x} h = ground (arith, key-find k xs {x = x})

  module _ {κ} (P : A → Type κ) where
    pub All-find : (k : ℕ) (xs : List A) {x : A} → All P xs → find k xs ≡ some x → P x
    All-find k [] h e = cc
    All-find k (y ∷ xs) {x} h e = elim (Bool-cases (key y == k)) [
      | inl hit ↦ (let p : y ≡ x = ground arith in subst P p h.0)
      | inr miss ↦ All-find k xs h.1 (rw miss at e)
    ]

    -- A property of all rows survives an update that keeps it on the rows with that key.
    pub All-update :
        (k : ℕ) (f : A → A)
        → ((x : A) → P x → key x ≡ k → P (f x))
        → (xs : List A) → All P xs
        → All P (update k f xs)
    All-update k f keeps [] h = tt
    All-update k f keeps (x ∷ xs) h = elim (Bool-cases (key x == k)) [
      | inl hit ↦ rw hit (keeps x h.0 ((==_iff (key x) k).0 hit), All-update k f keeps xs h.1)
      | inr miss ↦ rw miss (h.0, All-update k f keeps xs h.1)
    ]

module _ {A : Type 0} (key : A → ℕ) where
  -- PRIMARY KEY: no two rows share it.
  abbrev pub IsKeyed : List A → Type 0
  IsKeyed [] = Unit
  IsKeyed (x ∷ xs) = (find key (key x) xs ≡ none) × IsKeyed xs

  pub update_absent :
      (k : ℕ) (f : A → A) (xs : List A) → find key k xs ≡ none → update key k f xs ≡ xs
  update_absent k f [] h = refl
  update_absent k f (x ∷ xs) h = ground (arith, update_absent k f xs)

  pub find_absent-update :
      (k j : ℕ) (f : A → A)
      → ((x : A) → key (f x) ≡ key x)
      → (xs : List A) → find key j xs ≡ none
      → find key j (update key k f xs) ≡ none
  find_absent-update k j f keeps [] h = refl
  find_absent-update k j f keeps (x ∷ xs) h =
      ground (arith, keeps x, find_absent-update k j f keeps xs)

  pub IsKeyed-update :
      (k : ℕ) (f : A → A)
      → ((x : A) → key (f x) ≡ key x)
      → (xs : List A) → IsKeyed xs
      → IsKeyed (update key k f xs)
  IsKeyed-update k f keeps [] h = tt
  IsKeyed-update k f keeps (x ∷ xs) h =
      ground (
        arith,
        keeps x,
        find_absent-update k (key x) f keeps xs h.0,
        IsKeyed-update k f keeps xs h.1,
      )

  pub IsKeyed-append :
      (xs : List A) (y : A) → IsKeyed xs → find key (key y) xs ≡ none → IsKeyed (xs ++ y ∷ [])
  IsKeyed-append [] y h e = (refl, tt)
  IsKeyed-append (x ∷ xs) y h e =
      ground (arith, find-append key (key x) xs y, IsKeyed-append xs y h.1)

  module _ {κ} (P : A → Type κ) where
    -- Under a key, an update has to keep `P` on the one row that it finds.
    pub All-update_found :
        (k : ℕ) (f : A → A) (xs : List A)
        → IsKeyed xs
        → ((x : A) → find key k xs ≡ some x → P x → P (f x))
        → All P xs
        → All P (update key k f xs)
    All-update_found k f [] u keeps h = tt
    All-update_found k f (x ∷ xs) u keeps h = elim (Bool-cases (key x == k)) [
      | inl hit ↦
          let gone : update key k f xs ≡ xs = ground (arith, update_absent k f xs) in
          rw (hit, gone) (keeps x (rw hit) h.0, h.1)
      | inr miss ↦
          rw miss (h.0, All-update_found k f xs u.1 (λ y e p. keeps y (ground arith) p) h.1)
    ]
