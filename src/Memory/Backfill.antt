-- ===== src/Memory/Backfill.antt =====
-- The backfill does not get past entries that have nothing to store.
use cora_os.Prelude.{
  ℕ, zero, suc, ◌+◌, ◌≡◌, refl, ◌∙◌, ap, inl, inr, true, false, some, List, [], ◌∷◌, ◌++◌, All,
  All-map, arith, take, length, ==_refl, ==_iff, Bool-cases,
}
use mathlib.Core.List.{append-nil}
use cora_os.Prelude.Table.{find, IsKeyed}
use cora_os.Memory.{chunk_text}
use cora_os.Memory.Rebuild.{
  Entry, Chunk, MemoryDb, MemoryEnv, Backfilled, entry_key, without, text_of, new_chunks,
  embed_chunks, rebuilt_table, rebuild_memory_chunks, has_chunks, missing, counted, rebuild_each,
  rebuild_missing_chunks,
}

-- a content that has no chunks
abbrev pub IsBare : Entry → Type 0
IsBare e = chunk_text (text_of e.content) ≡ []

module _ {ℓ κ} {A : Type ℓ} (P : A → Type κ) where
  All-take : (n : ℕ) (xs : List A) → All P xs → All P (take n xs)
  All-take zero xs h = tt
  All-take (suc n) [] h = tt
  All-take (suc n) (x ∷ xs) h = (h.0, All-take n xs h.1)

find_self :
    (es : List Entry)
    → IsKeyed entry_key es
    → All (λ (e : Entry). find entry_key e.id es ≡ some e) es
find_self [] u = tt
find_self (e ∷ es) u = (
  rw (==_refl e.id) refl,
  All-map es (λ d h. ground (arith, ==_iff e.id d.id)) (find_self es u.1),
)

without_none : (k : ℕ) (cs : List Chunk) → has_chunks k cs ≡ false → without k cs ≡ cs
unfolding without
without_none k [] h = refl
without_none k (c ∷ cs) h = ground (arith, without_none k cs)

-- an entry that a rebuild leaves without chunks, and the tables as they are
pub record IsStuck (db : MemoryDb) (e : Entry) : Type 0 where
  pub there : find entry_key e.id db.entries ≡ some e
  pub bare : IsBare e
  pub none_yet : has_chunks e.id db.chunks ≡ false

table_stuck :
    (env : MemoryEnv) (e : Entry) (db : MemoryDb)
    → IsStuck db e
    → (rebuilt_table env true e db).1 ≡ db.chunks
unfolding new_chunks embed_chunks
table_stuck env e db s =
    let same : without e.id db.chunks ++ [] ≡ db.chunks =
      append-nil (without e.id db.chunks) ∙ without_none e.id db.chunks s.none_yet in
    elim (Bool-cases env.is_embedding_configured) [
      | inl on ↦ rw (on, s.bare) same
      | inr off ↦ rw (off, s.bare) same
    ]

rebuild_stuck :
    (env : MemoryEnv) (e : Entry) (db : MemoryDb)
    → IsStuck db e
    → (rebuild_memory_chunks env e.id true db).1 ≡ db
unfolding rebuild_memory_chunks
rebuild_stuck env e db s = elim (Bool-cases db.pool) [
  | inr down ↦ rw down refl
  | inl up ↦
      let none_new : db.fresh + length (chunk_text (text_of e.content)) ≡ db.fresh =
        rw (s.bare) (omega arith) in
      rw (up, s.there) (rw (table_stuck env e db s, none_new) refl)
]

IsStuck-missing :
    (db : MemoryDb) (es : List Entry)
    → All (λ (e : Entry). find entry_key e.id db.entries ≡ some e) es
    → All
        (λ (e : Entry).
          (find entry_key e.id db.entries ≡ some e) × (has_chunks e.id db.chunks ≡ false))
        (missing db.chunks es)
unfolding missing
IsStuck-missing db [] h = tt
IsStuck-missing db (e ∷ es) h = elim (Bool-cases (has_chunks e.id db.chunks)) [
  | inl has ↦ rw has (IsStuck-missing db es h.1)
  | inr not_yet ↦ rw not_yet ((h.0, not_yet), IsStuck-missing db es h.1)
]

IsStuck-take :
    (db : MemoryDb) (es : List Entry)
    → All
        (λ (e : Entry).
          (find entry_key e.id db.entries ≡ some e) × (has_chunks e.id db.chunks ≡ false))
        es
    → All IsBare es
    → All (IsStuck db) es
IsStuck-take db [] h b = tt
IsStuck-take db (e ∷ es) h b =
    (record { there = h.0.0; bare = b.0; none_yet = h.0.1 }, IsStuck-take db es h.1 b.1)

rebuild_each_stuck :
    (env : MemoryEnv) (es : List Entry) (b : Backfilled) (db : MemoryDb)
    → All (IsStuck db) es
    → (rebuild_each env es (b, db)).1 ≡ db
unfolding rebuild_each
rebuild_each_stuck env [] b db h = refl
rebuild_each_stuck env (e ∷ es) b db h =
    let counts = counted (rebuild_memory_chunks env e.id true db).0 b in
    ap (λ d. (rebuild_each env es (counts, d)).1) (rebuild_stuck env e db h.0)
    ∙ rebuild_each_stuck env es counts db h.1

-- When the first entries without chunks, up to the limit, have no content to make chunks of, a
-- backfill changes nothing, so that the entries after them are never reached. Identifiers of entries
-- are unique.
pub rebuild_missing_chunks_stuck :
    (env : MemoryEnv) (limit : ℕ) (db : MemoryDb)
    → IsKeyed entry_key db.entries
    → All IsBare (take limit (missing db.chunks db.entries))
    → (rebuild_missing_chunks env limit db).1 ≡ db
unfolding rebuild_missing_chunks
rebuild_missing_chunks_stuck env limit db keyed bare = elim (Bool-cases db.pool) [
  | inr down ↦ simp down
  | inl up ↦ simp up (
      rebuild_each_stuck env (take limit (missing db.chunks db.entries)) _ db (
        IsStuck-take db (take limit (missing db.chunks db.entries))
          (All-take _ limit (missing db.chunks db.entries)
            (IsStuck-missing db db.entries (find_self db.entries keyed)))
          bare))
]
