-- ===== src/Prelude/Exec.antt =====
-- A call that may write to the database and may raise. The state comes back beside an error too:
-- what was committed before a raise stays committed, and `transaction` undoes the rest.
use mathlib.Core.Bool.{Bool}
use mathlib.Core.Option.{Option, none, some}
use cora_os.Prelude.Tests.{if◌then◌else◌}

pub data Outcome (E A : Type 0) : Type 0 where
  ok : A → Outcome E A
  err : E → Outcome E A

abbrev pub Exec : Type 0 → Type 0 → Type 0 → Type 0
Exec E S A = S → Outcome E A × S

module _ {E S A : Type 0} where
  abbrev pub pure : A → Exec E S A
  pure a s = (ok a, s)

  abbrev pub raise : E → Exec E S A
  raise e s = (err e, s)

  abbrev pub or_raise : Option A → E → Exec E S A
  or_raise none e s = (err e, s)
  or_raise (some a) e s = (ok a, s)

  abbrev pub gets : (S → A) → Exec E S A
  gets f s = (ok (f s), s)

  -- `async with conn.transaction()`: an exception rolls the block back.
  abbrev pub transaction : Exec E S A → Exec E S A
  transaction m s = let (r, s') = m s in elim r [ ok a ↦ (ok a, s') | err e ↦ (err e, s) ]

module _ {E S : Type 0} where
  abbrev pub raise_if : Bool → E → Exec E S (Unit {0})
  raise_if c e s = (if c then err e else ok tt, s)

  -- the exception that a check raises, if any
  abbrev pub raise_on : Option E → Exec E S (Unit {0})
  raise_on none s = (ok tt, s)
  raise_on (some e) s = (err e, s)

  abbrev pub modify : (S → S) → Exec E S (Unit {0})
  modify f s = (ok tt, f s)

module _ {E S A B : Type 0} where
  infixl 5 ◌>>=◌ ◌>>◌
  abbrev pub ◌>>=◌ : Exec E S A → (A → Exec E S B) → Exec E S B
  ◌>>=◌ m f s = let (r, s') = m s in elim r [ ok a ↦ f a s' | err e ↦ (err e, s') ]

  abbrev pub ◌>>◌ : Exec E S A → Exec E S B → Exec E S B
  m >> k = m >>= λ _. k
