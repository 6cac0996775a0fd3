-- ===== src/Memory.antt =====
-- apps/cora-api/app/memory/chunking.py: long memory content as overlapping chunks, and the table of
-- chunks. The SHA-256 of a text is the number that `hash` gives, and the vector of a text, or none
-- when the call of the embedding model fails, the number that `embed` gives.
pub mod Rebuild
pub mod Strip
pub mod Windows
pub mod Exact
pub mod Stored
pub mod Backfill
mod Tests
use cora_os.Prelude.{
  ℕ, zero, suc, ◌+◌, ◌-◌, Bool, true, false, not, ◌&&◌, ◌||◌, List, [], ◌∷◌, ◌++◌, map, is_nil,
  length, take, drop, ltb, leb, ◌==◌, if◌then◌else◌,
}
use mathlib.Core.List.{reverse}
use cora_os.Prelude.Text.{Text, strip}

-- a line boundary of str.splitlines
abbrev is_break : ℕ → Bool
is_break c =
    (leb 10 c && leb c 13) || (leb 28 c && leb c 30) || c == 133 || c == 0x2028 || c == 0x2029

-- The lines after `line`, which is held in reverse; `cr` says that the last code point was a carriage
-- return, which makes one boundary with a line feed.
unfoldable pub split_from : Bool → Text → Text → List Text
split_from cr line [] = if is_nil line then [] else reverse line ∷ []
split_from cr line (c ∷ t) =
    let rest = split_from (c == 13) (if is_break c then [] else c ∷ line) t in
    if is_break c && not (cr && c == 10) then reverse line ∷ rest else rest

-- str.splitlines
unfoldable pub split_lines : Text → List Text
split_lines t = split_from false [] t

-- `_WS_RUN`
abbrev is_run : ℕ → Bool
is_run c = c == 32 || c == 9 || c == 160

-- `_WS_RUN.sub(" ", line)`, after a code point that was in a run or not
unfoldable pub collapse : Bool → Text → Text
collapse run [] = []
collapse run (c ∷ t) =
    let rest = collapse (is_run c) t in
    if is_run c then (if run then rest else 32 ∷ rest) else c ∷ rest

-- the lines with at most one blank one in a row, after that many blank ones
unfoldable pub kept_lines : ℕ → List Text → List Text
kept_lines blanks [] = []
kept_lines blanks (l ∷ ls) =
    let rest = kept_lines (if is_nil l then blanks + 1 else 0) ls in
    if is_nil l && leb 1 blanks then rest else l ∷ rest

abbrev newline : ℕ
newline = 10

-- "\n".join(lines)
unfoldable pub join_lines : List Text → Text
join_lines [] = []
join_lines (l ∷ []) = l
join_lines (l ∷ m ∷ ls) = l ++ newline ∷ join_lines (m ∷ ls)

-- `_normalize`
unfoldable pub normalize : Text → Text
normalize t =
    strip (join_lines (kept_lines 0 (map (λ l. strip (collapse false l)) (split_lines t))))

-- `CHUNK_SIZE_CHARS` and `CHUNK_OVERLAP_CHARS`
abbrev pub chunk_size : ℕ
chunk_size = 4000

abbrev pub chunk_overlap : ℕ
chunk_overlap = 400

abbrev pub chunk_step : ℕ
chunk_step = chunk_size - chunk_overlap

-- `if piece: chunks.append(piece)`
abbrev pub kept_piece : Text → List Text → List Text
kept_piece p ps = if is_nil p then ps else p ∷ ps

module _ (size step : ℕ) (text : Text) where
  -- the loop of `chunk_text`, from `start` on
  unfoldable pub chunk_loop : ℕ → ℕ → List Text
  chunk_loop zero start = []
  chunk_loop (suc fuel) start =
      let rest = chunk_loop fuel (start + step) in
      if ltb start (length text)
      then kept_piece (strip (take size (drop start text)))
          (if leb (length text) (start + size) then [] else rest)
      else []

-- `chunk_text` of a text that is normalized
unfoldable pub chunks_of : ℕ → ℕ → Text → List Text
chunks_of size step text =
    if is_nil text
    then []
    else if leb (length text) size
    then text ∷ []
    else chunk_loop size step text (length text) 0

-- `chunk_text`
unfoldable pub chunk_text : Text → List Text
chunk_text content = chunks_of chunk_size chunk_step (normalize content)
