-- ===== src/Intents/Lifecycle.antt =====
-- The abstract lifecycle of intents: which phase each is in, and the moves that may be made.
use cora_os.Prelude.{ℕ, ◌≡◌, ◌≢◌, Bool, true, false, Option, none, some}
use cora_os.Intents.{IntentStatus, confirmed, cancelled, executed_placeholder}

pub data Phase : Type 0 where
  undecided agreed closed executed : Phase

abbrev pub phase_of : IntentStatus → Phase
phase_of confirmed = agreed
phase_of cancelled = closed
phase_of executed_placeholder = executed
phase_of _ = undecided

-- An intent may be agreed, an agreement may be taken back, and either may be closed. Nothing leaves
-- a closed intent, and nothing is executed.
abbrev pub is_lawful : Phase → Phase → Bool
is_lawful undecided executed = false
is_lawful undecided _ = true
is_lawful agreed executed = false
is_lawful agreed _ = true
is_lawful closed closed = true
is_lawful executed executed = true
is_lawful _ _ = false

-- the phase of each intent that there is
abbrev pub Board : Type 0
Board = ℕ → Option Phase

pub data Advance (b b' : Board) : Type 0 where
  stays : ((j : ℕ) → b' j ≡ b j) → Advance b b'
  opens :
      (k : ℕ) → b k ≡ none → b' k ≡ some undecided → ((j : ℕ) → k ≢ j → b' j ≡ b j) → Advance b b'
  moves :
      (k : ℕ) (p q : Phase)
      → b k ≡ some p
      → b' k ≡ some q
      → is_lawful p q ≡ true
      → ((j : ℕ) → k ≢ j → b' j ≡ b j)
      → Advance b b'

pub data Advances (b : Board) : Board → Type 0 where
  here : Advances b b
  next : {b' b'' : Board} → Advances b b' → Advance b' b'' → Advances b b''
