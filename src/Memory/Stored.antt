-- ===== src/Memory/Stored.antt =====
-- What a rebuild stores: the chunks of the entry's content, in order, and nothing else.
use cora_os.Prelude.{
  ℕ, suc, ◌≡◌, refl, subst, ◌∙◌, inl, inr, Bool, true, ◌&&◌, Option, none, some, List, [], ◌∷◌,
  ◌++◌, arith, ◌==◌, Bool-cases, if◌then◌else◌,
}
use mathlib.Core.List.{append-nil}
use cora_os.Prelude.Table.{find, update, key-find}
use cora_os.Prelude.Text.{Text}
use cora_os.Memory.{chunk_text}
use cora_os.Memory.Rebuild.{
  Entry, Chunk, MemoryDb, MemoryEnv, entry_key, chunk_key, without, text_of, new_chunks, embedded,
  persisted, embed_chunks, rebuilt_table, rebuild_memory_chunks,
}

-- The chunks of an entry: their indexes and contents, in the order of the rows.
abbrev pub contents_of : ℕ → List Chunk → List (ℕ × Text)
contents_of k [] = []
contents_of k (c ∷ cs) =
    if c.memory_entry_id == k
    then (c.chunk_index, c.content) ∷ contents_of k cs
    else contents_of k cs

abbrev pub numbered : ℕ → List Text → List (ℕ × Text)
numbered n [] = []
numbered n (p ∷ ps) = (n, p) ∷ numbered (suc n) ps

module _ (j : ℕ) where
  contents_of-append :
      (cs ds : List Chunk) → contents_of j (cs ++ ds) ≡ contents_of j cs ++ contents_of j ds
  contents_of-append [] ds = refl
  contents_of-append (c ∷ cs) ds = ground (arith, contents_of-append cs ds)

  contents_of-without :
      (k : ℕ) (cs : List Chunk)
      → contents_of j (without k cs) ≡ (if k == j then [] else contents_of j cs)
  unfolding without
  contents_of-without k [] = ground arith
  contents_of-without k (c ∷ cs) = ground (arith, contents_of-without k cs)

  contents_of-new_chunks :
      (env : MemoryEnv) (e : Entry) (i n : ℕ) (ps : List Text)
      → contents_of j (new_chunks env e i n ps) ≡ (if e.id == j then numbered i ps else [])
  unfolding new_chunks
  contents_of-new_chunks env e i n [] = ground arith
  contents_of-new_chunks env e i n (p ∷ ps) =
      ground (arith, contents_of-new_chunks env e (suc i) (suc n) ps)

  contents_of-update :
      (n v : ℕ) (cs : List Chunk)
      → contents_of j (update chunk_key n (embedded v) cs) ≡ contents_of j cs
  contents_of-update n v [] = refl
  contents_of-update n v (c ∷ cs) = ground (arith, contents_of-update n v cs)

  contents_of-persisted :
      (c : Chunk) (o : Option ℕ) (s : ℕ × List Chunk)
      → contents_of j (persisted c o s).1 ≡ contents_of j s.1
  contents_of-persisted c none (n, table) = refl
  contents_of-persisted c (some v) (n, table) = contents_of-update c.id v table

  contents_of-embed_chunks :
      (env : MemoryEnv) (title : Text) (cs : List Chunk) (s : ℕ × List Chunk)
      → contents_of j (embed_chunks env title cs s).1 ≡ contents_of j s.1
  unfolding embed_chunks
  contents_of-embed_chunks env title [] s = refl
  contents_of-embed_chunks env title (c ∷ cs) s =
      contents_of-embed_chunks env title cs _ ∙ contents_of-persisted c _ s

  contents_of-rebuilt_table :
      (env : MemoryEnv) (auto_embed : Bool) (e : Entry) (db : MemoryDb)
      → contents_of j (rebuilt_table env auto_embed e db).1 ≡ (
          if e.id == j
          then numbered 0 (chunk_text (text_of e.content))
          else contents_of j db.chunks)
  contents_of-rebuilt_table env auto_embed e db =
      let new = new_chunks env e 0 db.fresh (chunk_text (text_of e.content)) in
      let gone = contents_of-without e.id db.chunks in
      let added = contents_of-new_chunks env e 0 db.fresh (chunk_text (text_of e.content)) in
      let placed : contents_of j (without e.id db.chunks) ++ contents_of j new ≡ (
          if e.id == j
          then numbered 0 (chunk_text (text_of e.content))
          else contents_of j db.chunks) =
        elim (Bool-cases (e.id == j)) [
          | inl same ↦ simp (gone, added, same)
          | inr other ↦ simp (gone, added, other) (append-nil (contents_of j db.chunks))
        ] in
      let table : contents_of j (without e.id db.chunks ++ new) ≡ (
          if e.id == j
          then numbered 0 (chunk_text (text_of e.content))
          else contents_of j db.chunks) =
        contents_of-append (without e.id db.chunks) new ∙ placed in
      elim (Bool-cases (auto_embed && env.is_embedding_configured)) [
        | inl on ↦ rw on (contents_of-embed_chunks env (text_of e.title) new _ ∙ table)
        | inr off ↦ rw off table
      ]

-- After a rebuild of an entry that is there, its chunks are those of its content, numbered in order
-- from 0, and the chunks of every other entry have the indexes and contents that they had.
pub rebuild_memory_chunks_exact :
    (env : MemoryEnv) (k j : ℕ) (auto_embed : Bool) (db : MemoryDb) (e : Entry)
    → db.pool ≡ true
    → find entry_key k db.entries ≡ some e
    → contents_of j (rebuild_memory_chunks env k auto_embed db).1.chunks
      ≡ (if k == j then numbered 0 (chunk_text (text_of e.content)) else contents_of j db.chunks)
unfolding rebuild_memory_chunks
rebuild_memory_chunks_exact env k j auto_embed db e up there =
    let id : e.id ≡ k = key-find entry_key k db.entries there in
    simp (up, there)
      (subst
        (λ (n : ℕ). contents_of j (rebuilt_table env auto_embed e db).1 ≡ (
          if n == j then numbered 0 (chunk_text (text_of e.content)) else contents_of j db.chunks))
        id (contents_of-rebuilt_table j env auto_embed e db))
