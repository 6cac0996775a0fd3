-- ===== src/Memory/Rebuild.antt =====
-- `rebuild_memory_chunks`, `rebuild_missing_chunks` and `clear_memory_chunks` over the tables.
use cora_os.Prelude.{
  ℕ, suc, ◌+◌, ◌/◌, Bool, true, ◌&&◌, Option, none, some, List, [], ◌∷◌, ◌++◌, length, take, any,
  leb, ◌==◌, if◌then◌else◌,
}
use cora_os.Prelude.Table.{find, update}
use cora_os.Prelude.Text.{Text, codes}
use cora_os.Memory.{chunk_text}

-- A row of memory_entries; the rows are in the order of created_at.
pub record Entry : Type 0 where
  pub id : ℕ
  pub title : Option Text
  pub content : Option Text
  pub source_id : Option ℕ
  pub workspace_id : Option ℕ

-- A row of memory_entry_chunks, with the vector of the column in use.
pub record Chunk : Type 0 where
  pub id : ℕ
  pub memory_entry_id : ℕ
  pub source_id : Option ℕ
  pub workspace_id : Option ℕ
  pub chunk_index : ℕ
  pub content : Text
  pub token_estimate : ℕ
  pub content_hash : ℕ
  pub embedding : Option ℕ

pub record MemoryDb : Type 0 where
  pub pool : Bool
  pub entries : List Entry
  pub chunks : List Chunk
  pub fresh : ℕ

pub record MemoryEnv : Type 0 where
  pub hash : Text → ℕ
  pub embed : Text → Option ℕ
  pub is_embedding_configured : Bool

pub data RebuildResult : Type 0 where
  pool_unavailable not_found : RebuildResult
  rebuilt : (chunks_created embedded_count : ℕ) → RebuildResult

abbrev pub entry_key : Entry → ℕ
entry_key e = e.id

abbrev pub chunk_key : Chunk → ℕ
chunk_key c = c.id

-- DELETE … WHERE memory_entry_id = $1
unfoldable pub without : ℕ → List Chunk → List Chunk
without k [] = []
without k (c ∷ cs) = if c.memory_entry_id == k then without k cs else c ∷ without k cs

abbrev pub text_of : Option Text → Text
text_of none = []
text_of (some t) = t

abbrev token_estimate_of : Text → ℕ
token_estimate_of t = if leb 1 (length t / 4) then length t / 4 else 1

-- the rows that are inserted for the pieces, from an index and an identifier on
unfoldable pub new_chunks : MemoryEnv → Entry → ℕ → ℕ → List Text → List Chunk
new_chunks env e index k [] = []
new_chunks env e index k (p ∷ ps) =
    record {
      id = k;
      memory_entry_id = e.id;
      source_id = e.source_id;
      workspace_id = e.workspace_id;
      chunk_index = index;
      content = p;
      token_estimate = token_estimate_of p;
      content_hash = env.hash p;
      embedding = none;
    }
    ∷ new_chunks env e (suc index) (suc k) ps

abbrev pub embedded : ℕ → Chunk → Chunk
embedded v c = record c { embedding = some v }

-- the vector of one chunk: `_persist_chunk_embedding`
abbrev pub persisted : Chunk → Option ℕ → ℕ × List Chunk → ℕ × List Chunk
persisted c none (n, table) = (n, table)
persisted c (some v) (n, table) = (suc n, update chunk_key c.id (embedded v) table)

-- the loop over the new rows, with the number of vectors stored
unfoldable pub embed_chunks : MemoryEnv → Text → List Chunk → ℕ × List Chunk → ℕ × List Chunk
embed_chunks env title [] s = s
embed_chunks env title (c ∷ cs) s =
    embed_chunks env title cs (persisted c (env.embed (title ++ codes "\n\n" ++ c.content)) s)

abbrev pub rebuilt_table : MemoryEnv → Bool → Entry → MemoryDb → ℕ × List Chunk
rebuilt_table env auto_embed e db =
    let new = new_chunks env e 0 db.fresh (chunk_text (text_of e.content)) in
    let table = without e.id db.chunks ++ new in
    if auto_embed && env.is_embedding_configured
    then embed_chunks env (text_of e.title) new (0, table)
    else (0, table)

abbrev pub rebuild_entry : MemoryEnv → Bool → MemoryDb → Option Entry → RebuildResult × MemoryDb
rebuild_entry env auto_embed db none = (not_found, db)
rebuild_entry env auto_embed db (some e) =
    let n = length (chunk_text (text_of e.content)) in
    let r = rebuilt_table env auto_embed e db in
    (rebuilt n r.0, record db { chunks = r.1; fresh = db.fresh + n })

-- `rebuild_memory_chunks`
unfoldable pub rebuild_memory_chunks : MemoryEnv → ℕ → Bool → MemoryDb → RebuildResult × MemoryDb
rebuild_memory_chunks env k auto_embed db =
    if db.pool
    then rebuild_entry env auto_embed db (find entry_key k db.entries)
    else (pool_unavailable, db)

abbrev pub has_chunks : ℕ → List Chunk → Bool
has_chunks k = any (λ c. c.memory_entry_id == k)

-- the entries that have no chunk
unfoldable pub missing : List Chunk → List Entry → List Entry
missing cs [] = []
missing cs (e ∷ es) = if has_chunks e.id cs then missing cs es else e ∷ missing cs es

pub data Backfilled : Type 0 where
  backfill_unavailable : Backfilled
  backfilled : (scanned rebuilt chunks_created embedded_count : ℕ) → Backfilled

abbrev pub counted : RebuildResult → Backfilled → Backfilled
counted (rebuilt n m) (backfilled s r c e) = backfilled s (suc r) (c + n) (e + m)
counted _ b = b

-- the loop over the entries that were read
unfoldable pub rebuild_each : MemoryEnv → List Entry → Backfilled × MemoryDb → Backfilled × MemoryDb
rebuild_each env [] s = s
rebuild_each env (e ∷ es) (b, db) =
    let r = rebuild_memory_chunks env e.id true db in rebuild_each env es (counted r.0 b, r.1)

-- `rebuild_missing_chunks`
unfoldable pub rebuild_missing_chunks : MemoryEnv → ℕ → MemoryDb → Backfilled × MemoryDb
rebuild_missing_chunks env limit db =
    let rows = take limit (missing db.chunks db.entries) in
    if db.pool
    then rebuild_each env rows (backfilled (length rows) 0 0 0, db)
    else (backfill_unavailable, db)

-- `clear_memory_chunks`
unfoldable pub clear_memory_chunks : ℕ → MemoryDb → MemoryDb
clear_memory_chunks k db = if db.pool then record db { chunks = without k db.chunks } else db
