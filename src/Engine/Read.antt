-- ===== src/Engine/Read.antt =====
-- `Get`, `ScanWithOptions` and `Stats` of internal/engine/engine.go.
use dist_log.Prelude.{
  ℕ, suc, ◌+◌, List, [], ◌∷◌, Option, none, some, Bool, false, ◌||◌, length, ltb, if◌then◌else◌,
}
use dist_log.Prelude.Int.{ℤ}
use dist_log.Types.{DocId, LogRecord}
use dist_log.Types.Allocator as Allocator
use dist_log.Memtable as Memtable
use dist_log.Memtable.{SkipList, MemTable}
use dist_log.Sstable.Reader.{Reader, GetResult, found, absent, load_error}
use dist_log.Sstable.Reader as Table
use dist_log.Sstable.Reader.Iterator.{readable, fails}
use dist_log.Query.Plan.{ScanOptions, prune_sstable}
use dist_log.Query.Execute.{Visitor, Visited, stop, scan_failure, closed}
use dist_log.Engine.Scan.{Source, Context, scan_sources}
use dist_log.Engine.State.{Engine}

-- The tables in their order; the first error ends the search.
unfoldable pub get_from_sstables : DocId → List Reader → GetResult
unfolding Table.get
get_from_sstables k [] = absent
get_from_sstables k (t ∷ ts) =
    let rest = get_from_sstables k ts in
    if ltb k t.meta.min_doc_id || ltb t.meta.max_doc_id k
    then rest
    else elim (Table.get k t) [ found r ↦ found r | absent ↦ rest | load_error ↦ load_error ]

abbrev pub table_source : Reader → Source
table_source t = record { entries = readable t.blocks; failed = fails t.blocks }

abbrev is_pruned : ScanOptions → Reader → Bool
is_pruned o t = prune_sstable o t.meta.min_timestamp t.meta.max_timestamp

unfoldable pub table_sources : ScanOptions → List Reader → List Source
unfolding readable fails prune_sstable
table_sources o [] = []
table_sources o (t ∷ ts) =
    let rest = table_sources o ts in if is_pruned o t then rest else table_source t ∷ rest

unfoldable pub count_pruned : ScanOptions → List Reader → ℕ
unfolding prune_sstable
count_pruned o [] = 0
count_pruned o (t ∷ ts) = let rest = count_pruned o ts in if is_pruned o t then suc rest else rest

pub record Stats : Type 0 where
  pub active_mem_table_size : ℤ
  pub frozen_mem_table_count : ℕ
  pub sstable_count : ℕ
  pub next_doc_id : ℕ
  pub fatal : Bool
  pub closed : Bool
  pub last_scan_pruned_sstables : ℕ

module _ (S : SkipList) where
  abbrev pub or_search : Option LogRecord → GetResult → GetResult
  or_search none rest = rest
  or_search (some r) rest = found r

  -- The frozen tables, which are given oldest first, from the newest to the oldest, and `older` behind.
  unfoldable pub get_from_frozen : DocId → List (MemTable S) → GetResult → GetResult
  unfolding Memtable.get
  get_from_frozen k [] older = older
  get_from_frozen k (m ∷ ms) older = get_from_frozen k ms (or_search (Memtable.get S k m) older)

  unfoldable pub get : DocId → Engine S → GetResult
  unfolding Memtable.get get_from_frozen get_from_sstables
  get k e =
      or_search (Memtable.get S k e.active)
        (get_from_frozen k e.frozen (get_from_sstables k e.sstables))

  abbrev mem_source : MemTable S → Source
  unfolding Memtable.entries
  mem_source m = record { entries = Memtable.entries S m; failed = false }

  unfoldable pub frozen_sources : List (MemTable S) → List Source → List Source
  unfolding Memtable.entries
  frozen_sources [] older = older
  frozen_sources (m ∷ ms) older =
      frozen_sources ms (record { entries = Memtable.entries S m; failed = false } ∷ older)

  unfoldable pub sources : ScanOptions → Engine S → List Source
  unfolding Memtable.entries frozen_sources table_sources
  sources o e =
      record { entries = Memtable.entries S e.active; failed = false }
      ∷ frozen_sources e.frozen (table_sources o e.sstables)

  -- `ScanWithOptions`: a closed engine refuses, and every other scan leaves how many tables it passed over.
  unfoldable pub scan_with_options :
      {A : Type 0} → ScanOptions → Context → Visitor A → Engine S → A → Visited A × Engine S
  unfolding scan_sources sources count_pruned
  scan_with_options o ctx visit e s = if e.closed then (stop (scan_failure closed) s, e) else (
    scan_sources ctx visit (sources o e) s,
    record e { last_scan_pruned = count_pruned o e.sstables },
  )

  unfoldable pub stats : Engine S → Stats
  unfolding Allocator.peek
  stats e = record {
    active_mem_table_size = e.active.size_bytes;
    frozen_mem_table_count = length e.frozen;
    sstable_count = length e.sstables;
    next_doc_id = Allocator.peek e.alloc + 1;
    fatal = e.fatal;
    closed = e.closed;
    last_scan_pruned_sstables = e.last_scan_pruned;
  }
