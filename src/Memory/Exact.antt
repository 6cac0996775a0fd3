-- ===== src/Memory/Exact.antt =====
-- What the chunks of a text are.
use cora_os.Prelude.{ℕ, ◌-◌, ◌≤◌, ◌≡◌, List, All, length}
use cora_os.Prelude.Text.{Text}
use cora_os.Memory.Windows.{AreCut, pieces, rejoin}

-- The chunks come from the windows of that size over the text: the window number i starts at i times
-- `size - overlap`, within the text, so that each repeats the last `overlap` code points of the one
-- before it. Without these the windows join to the text, so that none is missing.
pub record AreWindows (size overlap : ℕ) (text : Text) (chunks : List Text) : Type 0 where
  pub views : List Text
  pub stripped : chunks ≡ pieces views
  pub cut : AreCut size (size - overlap) text 0 views
  pub cover : rejoin overlap views ≡ text
  pub bound : All (λ (w : Text). length w ≤ size) views
