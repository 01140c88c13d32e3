-- ===== src/Engine/Laws/Moved.antt =====
-- Rotation and flush in internal/engine/engine.go move records, and no reader notices.
use dist_log.Prelude.{
  suc, ◌≡◌, refl, ap, ◌∙◌, sym, List, [], ◌∷◌, ◌++◌, Option, none, some, Bool, true, false,
  if◌then◌else◌, ◌||◌, ltb, Bool-cases, ◌⊎◌, length, inl, inr,
}
use dist_log.Prelude.Int.{ltb_ℤ, pos}
use dist_log.Types.{DocId, LogRecord}
use dist_log.Types.Entries.{lookup, IsNewest}
use dist_log.Memtable.Compared.{get-walk}
use dist_log.Memtable as Memtable
use dist_log.Memtable.{SkipList, MemTable}
use dist_log.Memtable.Laws as MemtableLaws
use dist_log.Sstable.Reader.{Reader, GetResult, found, absent, load_error}
use dist_log.Sstable.Reader as Table
use dist_log.Sstable.Reader.Iterator.{readable}
use dist_log.Sstable.Reader.Get.{WellFormed, of_lookup, get-readable}
use dist_log.Engine.State.{Engine}
use dist_log.Engine.Write.{at_least}
use dist_log.Engine.Read.{get, or_search, get_from_frozen, get_from_sstables}
use dist_log.Engine.Flush.{table, rotate, do_freeze, flush_front, flush_one_if_any}

three_tests :
    {A : Type 0} (a b c : Bool) (x y : A)
    → let z = if a then x else if b then x else if c then x else y in
      (z ≡ x) ⊎ ((a ≡ false) × (b ≡ false) × (c ≡ false) × (z ≡ y))
three_tests true b c x y = inl refl
three_tests false true c x y = inl refl
three_tests false false true x y = inl refl
three_tests false false false x y = inr (refl, refl, refl, refl)

module _ (S : SkipList) where
  -- The table file holds what the frozen table held.
  pub record Represents (m : MemTable S) (t : Reader) : Type 0 where
    pub well_formed : WellFormed t.meta.min_doc_id (suc t.meta.max_doc_id) t.blocks
    pub same_records : readable t.blocks ≡ Memtable.entries S m
    pub newest : IsNewest t.meta.max_doc_id (Memtable.entries S m)

  get_from_frozen-append :
      (k : DocId) (ms : List (MemTable S)) (m : MemTable S) (older : GetResult)
      → get_from_frozen S k (ms ++ (m ∷ [])) older
        ≡ or_search S (Memtable.get S k m) (get_from_frozen S k ms older)
  unfolding get_from_frozen
  get_from_frozen-append k [] m older = refl
  get_from_frozen-append k (n ∷ ms) m older =
      get_from_frozen-append k ms m (or_search S (Memtable.get S k n) older)

  pub get-new_mem_table : (k : DocId) → Memtable.get S k (Memtable.new_mem_table S) ≡ none
  unfolding Memtable.get Memtable.new_mem_table lookup
  get-new_mem_table k = get-walk S k S.empty ∙ ap (lookup k) S.walk_empty

  -- Either the coordinator does nothing, or there is room for one more frozen table and it rotates.
  pub do_freeze-cases :
      (seal_fails : Bool) (e : Engine S)
      → (do_freeze S seal_fails e ≡ e)
        ⊎ ((e.fatal ≡ false)
            × (ltb_ℤ e.active.size_bytes e.config.mem_table_size_limit ≡ false)
            × (at_least (pos (length e.frozen)) e.config.max_frozen_mem_tables ≡ false)
            × (do_freeze S seal_fails e ≡ rotate S seal_fails e))
  unfolding do_freeze
  do_freeze-cases seal_fails e =
      three_tests e.fatal (ltb_ℤ e.active.size_bytes e.config.mem_table_size_limit)
        (at_least (pos (length e.frozen)) e.config.max_frozen_mem_tables) e (rotate S seal_fails e)

  get-rotate : (k : DocId) (e : Engine S) → get S k (rotate S false e) ≡ get S k e
  unfolding rotate get Memtable.freeze
  get-rotate k e =
      ap
        (λ o. or_search S o (
          get_from_frozen S k (e.frozen ++ (Memtable.freeze S e.active ∷ []))
            (get_from_sstables k e.sstables)))
        (get-new_mem_table k)
      ∙ get_from_frozen-append k e.frozen (Memtable.freeze S e.active)
          (get_from_sstables k e.sstables)

  -- A rotation that can seal the log changes no read.
  pub get-do_freeze : (k : DocId) (e : Engine S) → get S k (do_freeze S false e) ≡ get S k e
  get-do_freeze k e = elim (do_freeze-cases false e) [
    | inl h ↦ ap (get S k) h
    | inr (a, b, c, h) ↦ ap (get S k) h ∙ get-rotate k e
  ]

  get-Represents :
      (k : DocId) (m : MemTable S) (t : Reader)
      → Represents m t
      → Table.get k t ≡ of_lookup (Memtable.get S k m)
  get-Represents k m t h =
      get-readable k t h.well_formed
      ∙ ap of_lookup (ap (lookup k) h.same_records ∙ sym (MemtableLaws.get-entries S k m))

  pub front_lem :
      (b : Bool) (g rest : GetResult) (o : Option LogRecord)
      → (if b then absent else g) ≡ of_lookup o
      → (if b then rest else elim (if b then absent else g) as (λ x. GetResult) [
        | found r ↦ found r
        | absent ↦ rest
        | load_error ↦ load_error
      ])
        ≡ or_search S o rest
  front_lem true g rest none h = refl
  front_lem true g rest (some r) h = cc
  front_lem false g rest none h =
      ap
        (λ x. elim x as (λ x. GetResult) [
          | found r ↦ found r
          | absent ↦ rest
          | load_error ↦ load_error
        ])
        h
  front_lem false g rest (some r) h =
      ap
        (λ x. elim x as (λ x. GetResult) [
          | found r ↦ found r
          | absent ↦ rest
          | load_error ↦ load_error
        ])
        h

  get_from_sstables-front :
      (k : DocId) (m : MemTable S) (t : Reader) (ts : List Reader)
      → Represents m t
      → get_from_sstables k (t ∷ ts) ≡ or_search S (Memtable.get S k m) (get_from_sstables k ts)
  unfolding get_from_sstables Table.get
  get_from_sstables-front k m t ts h =
      front_lem (ltb k t.meta.min_doc_id || ltb t.meta.max_doc_id k)
        (Table.get_in_block t.blocks k (Table.find_block t.blocks k)) (get_from_sstables k ts)
        (Memtable.get S k m) (get-Represents k m t h)

  -- A flush whose file holds the records of the oldest frozen table changes no read.
  pub get-flush_one_if_any :
      (k : DocId) (deleted : Bool) (t : Reader) (m : MemTable S) (ms : List (MemTable S))
      (e : Engine S)
      → e.frozen ≡ m ∷ ms
      → Represents m t
      → get S k (flush_one_if_any S (table deleted t) e).1 ≡ get S k e
  unfolding flush_one_if_any flush_front get get_from_frozen
  get-flush_one_if_any k deleted t m ms e h q = elim (Bool-cases e.fatal) [
    | inl f ↦ simp f refl
    | inr f ↦
        simp (f, h)
          (ap (λ x. or_search S (Memtable.get S k e.active) (get_from_frozen S k ms x))
            (get_from_sstables-front k m t e.sstables q))
  ]
