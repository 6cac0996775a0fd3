-- ===== src/Memory/Tests.antt =====
-- Chunks of small texts, tables of two entries, and an instance of each result.
use cora_os.Prelude.{ℕ, ◌≡◌, refl, true, none, some, [], ◌∷◌, length}
use cora_os.Prelude.Text.{Text, codes, is_space, lstrip, strip}
use cora_os.Memory.{
  split_from, split_lines, collapse, kept_lines, join_lines, normalize, chunk_loop, chunks_of,
  chunk_text,
}
use cora_os.Memory.Rebuild.{
  Entry, Chunk, MemoryDb, MemoryEnv, without, new_chunks, embed_chunks, missing, rebuild_each,
  rebuild_memory_chunks, rebuild_missing_chunks, backfilled,
}
use cora_os.Memory.Stored.{contents_of, rebuild_memory_chunks_exact}
use cora_os.Memory.Backfill.{rebuild_missing_chunks_stuck}

runs : Unit {0}
unfolding is_space lstrip strip split_from split_lines collapse kept_lines join_lines normalize
    chunk_loop chunks_of chunk_text without new_chunks embed_chunks missing rebuild_each
    rebuild_memory_chunks rebuild_missing_chunks
runs = tt

abbrev ragged : Text
ragged = codes "  one \t two\r\n\n\n\nthree  "

lines_kept : normalize ragged ≡ codes "one two\n\nthree"
unfolding runs
lines_kept = refl

overlapping : chunks_of 4 3 (codes "abcdefgh") ≡ codes "abcd" ∷ codes "defg" ∷ codes "gh" ∷ []
unfolding runs
overlapping = refl

abbrev entry : ℕ → Text → Entry
entry k t = record {
  id = k;
  title = some (codes "Note");
  content = some t;
  source_id = none;
  workspace_id = none;
}

abbrev chunk : ℕ → ℕ → Text → Chunk
chunk k e t = record {
  id = k;
  memory_entry_id = e;
  source_id = none;
  workspace_id = none;
  chunk_index = 0;
  content = t;
  token_estimate = 1;
  content_hash = 0;
  embedding = none;
}

abbrev db : MemoryDb
db = record {
  pool = true;
  entries = entry 1 (codes "old") ∷ entry 2 (codes " \n ") ∷ entry 3 ragged ∷ [];
  chunks = chunk 4 1 (codes "older") ∷ [];
  fresh = 5;
}

abbrev env : MemoryEnv
env = record { hash = length; embed = λ t. some 9; is_embedding_configured = true }

rebuilt_old :
    (rebuild_memory_chunks env 1 true db).1.chunks
    ≡ record (chunk 5 1 (codes "old")) { content_hash = 3; embedding = some 9 } ∷ []
unfolding runs
rebuilt_old = refl

backfilled_two : (rebuild_missing_chunks env 2 db).0 ≡ backfilled 2 2 1 1
unfolding runs
backfilled_two = refl

rebuild_memory_chunks_exact_example :
    contents_of 1 (rebuild_memory_chunks env 1 true db).1.chunks ≡ (0, codes "old") ∷ []
unfolding runs
rebuild_memory_chunks_exact_example =
    rebuild_memory_chunks_exact env 1 1 true db (entry 1 (codes "old")) refl refl

rebuild_missing_chunks_stuck_example : (rebuild_missing_chunks env 1 db).1 ≡ db
unfolding runs
rebuild_missing_chunks_stuck_example =
    rebuild_missing_chunks_stuck env 1 db (refl, (refl, (refl, tt))) (refl, tt)
