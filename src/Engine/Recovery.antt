-- ===== src/Engine/Recovery.antt =====
-- `Open` of internal/engine/engine.go from its step 4 on: what it makes of the loaded tables and of the log
-- that the crash left. The log is given as records, so every payload decodes; which covered segments can be
-- deleted is an argument.
pub mod Kept
pub mod Greatest
pub mod Crash
use dist_log.Prelude.{
  ℕ, zero, suc, ◌+◌, ◌-◌, List, [], ◌∷◌, ◌++◌, Bool, true, false, ◌&&◌, ◌||◌, length, ltb, leb,
  ◌==◌, if◌then◌else◌,
}
use dist_log.Types.{DocId, LogRecord}
use dist_log.Types.Entries.{Entry}
use dist_log.Types.Allocator as Allocator
use dist_log.Types.Allocator.{DocIdAllocator, new_doc_id_allocator}
use dist_log.Memtable as Memtable
use dist_log.Memtable.{SkipList, MemTable}
use dist_log.Sstable.Reader.{Reader}
use dist_log.Engine.Startup.{Loaded, sort_sstables_newest_first}
use dist_log.Engine.State.{Config, apply_defaults, Engine, Log, Segment}

-- The loop over the tables that looks for the greatest number.
unfoldable pub max_doc_id_from : ℕ → List Reader → ℕ
max_doc_id_from n [] = n
max_doc_id_from n (t ∷ ts) =
    max_doc_id_from (if ltb n t.meta.max_doc_id then t.meta.max_doc_id else n) ts

-- The same over records: `localMax`, and the loop over the recovered table.
unfoldable pub max_entry_from : ℕ → List Entry → ℕ
max_entry_from n [] = n
max_entry_from n ((id, r) ∷ es) = max_entry_from (if ltb n id then id else n) es

abbrev pub is_empty : List Entry → Bool
is_empty [] = true
is_empty (e ∷ es) = false

-- A sealed segment without a record above the cutoff.
unfoldable pub is_covered : ℕ → Segment → Bool
unfolding max_entry_from
is_covered cutoff s = is_empty s.records || leb (max_entry_from 0 s.records) cutoff

unfoldable pub keep_uncovered : (ℕ → Bool) → ℕ → List Segment → List Segment
unfolding is_covered
keep_uncovered deletable cutoff [] = []
keep_uncovered deletable cutoff (s ∷ ss) =
    let rest = keep_uncovered deletable cutoff ss in
    if is_covered cutoff s && deletable s.id then rest else s ∷ rest

-- All records of the segments, in order.
unfoldable pub records_of : List Segment → List Entry
records_of [] = []
records_of (s ∷ ss) = s.records ++ records_of ss

pub record RecoveryReport : Type 0 where
  pub sstables_loaded : ℕ
  pub sstables_quarantined : ℕ
  pub max_sstable_doc_id : ℕ
  pub wal_segments_replayed : ℕ
  pub wal_segments_deleted : ℕ
  pub wal_records_replayed : ℕ
  pub wal_records_skipped : ℕ
  pub next_doc_id : ℕ

unfoldable pub count_skipped : ℕ → List Entry → ℕ
count_skipped cutoff [] = 0
count_skipped cutoff ((id, r) ∷ es) =
    let rest = count_skipped cutoff es in if leb id cutoff then suc rest else rest

unfoldable pub count_replayed : ℕ → List Entry → ℕ
count_replayed cutoff [] = 0
count_replayed cutoff ((id, r) ∷ es) =
    let rest = count_replayed cutoff es in if leb id cutoff then rest else suc rest

module _ (S : SkipList) where
  -- `replayCallback` on one record after the other. The recovered table is never frozen.
  unfoldable pub replay_records : ℕ → List Entry → MemTable S → MemTable S
  unfolding Memtable.put
  replay_records cutoff [] m = m
  replay_records cutoff ((id, r) ∷ es) m =
      replay_records cutoff es (if leb id cutoff then m else (Memtable.put S id r m).1)

  -- Step 7: the allocator is told of the greatest number in the tables and in the recovered records.
  unfoldable pub rebuild_allocator : ℕ → MemTable S → DocIdAllocator
  unfolding Memtable.entries max_entry_from Allocator.observe
  rebuild_allocator cutoff m =
      let alloc = Allocator.observe cutoff new_doc_id_allocator in
      if is_empty (Memtable.entries S m)
      then alloc
      else Allocator.observe (max_entry_from 0 (Memtable.entries S m)) alloc

  unfoldable pub open_engine : Config → ℕ → Loaded → (ℕ → Bool) → Log → Engine S
  unfolding apply_defaults max_doc_id_from replay_records records_of keep_uncovered
      rebuild_allocator sort_sstables_newest_first Memtable.new_mem_table
  open_engine c max_sstable_id loaded deletable l =
      let cutoff = max_doc_id_from 0 loaded.readers in
      let m =
        replay_records cutoff (records_of l.sealed ++ l.active.records)
          (Memtable.new_mem_table S) in
      record {
        config = apply_defaults c;
        active = m;
        frozen = [];
        frozen_wals = [];
        sstables = sort_sstables_newest_first loaded.readers;
        log = record l { sealed = keep_uncovered deletable cutoff l.sealed };
        alloc = rebuild_allocator cutoff m;
        next_sst_seq = max_sstable_id;
        last_scan_pruned = 0;
        freeze_signal = false;
        flush_signal = false;
        shutdown = false;
        closed = false;
        fatal = false;
      }

  unfoldable pub recovery_report : ℕ → Loaded → (ℕ → Bool) → Log → RecoveryReport
  unfolding max_doc_id_from replay_records records_of keep_uncovered rebuild_allocator
      Allocator.peek Memtable.new_mem_table count_skipped count_replayed
  recovery_report max_sstable_id loaded deletable l =
      let cutoff = max_doc_id_from 0 loaded.readers in
      let es = records_of l.sealed ++ l.active.records in
      let m = replay_records cutoff es (Memtable.new_mem_table S) in
      record {
        sstables_loaded = length loaded.readers;
        sstables_quarantined = loaded.quarantined_count;
        max_sstable_doc_id = cutoff;
        wal_segments_replayed = length l.sealed + 1;
        wal_segments_deleted = length l.sealed - length (keep_uncovered deletable cutoff l.sealed);
        wal_records_replayed = count_replayed cutoff es;
        wal_records_skipped = count_skipped cutoff es;
        next_doc_id = Allocator.peek (rebuild_allocator cutoff m) + 1;
      }
