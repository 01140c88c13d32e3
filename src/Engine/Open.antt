-- ===== src/Engine/Open.antt =====
-- `Open` of internal/engine/engine.go as a whole: from the files of the data directory, with its error
-- exits. The log of the model's engine is the log as records that the segment files hold.
pub mod Refines
pub mod Crash
pub mod Errors
use dist_log.Prelude.{
  ℕ, String, List, [], ◌∷◌, Option, none, some, Bool, true, false, ◌&&◌, str_eq, if◌then◌else◌,
}
use dist_log.Types.Codec.{Json}
use dist_log.Memtable.{SkipList, MemTable}
use dist_log.Sstable.Source.{Source, Checked, good, bad, OpenTable, open_source, view}
use dist_log.Wal.Record as WalRecord
use dist_log.Wal.Manager.{DirEntry}
use dist_log.Engine.State.{apply_defaults, Config, Engine, Log, Segment}
use dist_log.Engine.Startup.{
  Opened, readable, quarantined, quarantine_failed, Loaded, load_all_sstables, load_sstable_max_id,
  sort_sstables_newest_first, remove_orphan_sstable_tmp,
}
use dist_log.Engine.Recovery.{max_doc_id_from, rebuild_allocator}
use dist_log.Engine.Replay.{Tally, SealedInfo, deletes, Recovered, recovered, failed, replay_log}

pub data OpenError : Type 0 where
  data_dir_required scan_failed clean_failed list_failed quarantine_error wal_failed : OpenError
  replay_failed : ℕ → OpenError

-- The data directory, its files, and which operations on it fail. `table_file` is `none` for a file that
-- cannot be opened.
pub record Directory : Type 0 where
  pub entries : List DirEntry
  pub table_file : String → Option Source
  pub sealed : List (ℕ × WalRecord.Reader)
  pub active_id : ℕ
  pub active : WalRecord.Reader
  pub scan_fails : Bool
  pub clean_fails : Bool
  pub list_fails : Bool
  pub quarantine_fails : String → Bool
  pub wal_fails : Bool
  pub deletable : ℕ → Bool

-- `sstable.Open`
abbrev pub open_table : Option Source → Option (Checked OpenTable)
open_table none = none
open_table (some s) = some (open_source s)

module _ (J : Json) where
  abbrev pub or_quarantine : Bool → Option (Checked OpenTable) → Opened
  or_quarantine fails (some (good t)) = readable (view J t)
  or_quarantine fails (some (bad e)) = if fails then quarantine_failed else quarantined
  or_quarantine fails none = if fails then quarantine_failed else quarantined

  -- One table file in the loop of `loadAllSSTables`.
  unfoldable pub load_table : Directory → String → Opened
  unfolding open_source view
  load_table d name = or_quarantine (d.quarantine_fails name) (open_table (d.table_file name))

-- Step 6 on the log: the segments that are covered and can be deleted go.
unfoldable pub keep_by : (ℕ → Bool) → ℕ → List SealedInfo → List Segment → List Segment
unfolding deletes
keep_by deletable cutoff [] ss = ss
keep_by deletable cutoff (i ∷ is) [] = []
keep_by deletable cutoff (i ∷ is) (s ∷ ss) =
    let rest = keep_by deletable cutoff is ss in
    if deletes cutoff i && deletable i.id then rest else s ∷ rest

module _ (S : SkipList) where
  pub data OpenResult : Type 0 where
    refused : OpenError → OpenResult
    opened : Engine S → OpenResult

  -- The engine that is put together at the end.
  unfoldable pub engine_of :
      Config → Directory → Loaded → Log → List SealedInfo → Tally S → Engine S
  unfolding apply_defaults keep_by rebuild_allocator max_doc_id_from load_sstable_max_id
      sort_sstables_newest_first
  engine_of c d loaded l is t =
      let cutoff = max_doc_id_from 0 loaded.readers in
      record {
        config = apply_defaults c;
        active = t.table;
        frozen = [];
        frozen_wals = [];
        sstables = sort_sstables_newest_first loaded.readers;
        log = record l { sealed = keep_by d.deletable cutoff is l.sealed };
        alloc = rebuild_allocator S cutoff t.table;
        next_sst_seq = load_sstable_max_id d.entries;
        last_scan_pruned = 0;
        freeze_signal = false;
        flush_signal = false;
        shutdown = false;
        closed = false;
        fatal = false;
      }

  abbrev pub after_replay : Config → Directory → Loaded → Log → Recovered S → OpenResult
  after_replay c d loaded l (failed id) = refused (replay_failed id)
  after_replay c d loaded l (recovered is t) = opened (engine_of c d loaded l is t)

  abbrev pub after_load : Json → Config → Directory → Log → Option Loaded → OpenResult
  after_load J c d l none = refused quarantine_error
  after_load J c d l (some loaded) =
      if d.wal_fails
      then refused wal_failed
      else after_replay c d loaded l
          (replay_log S J (max_doc_id_from 0 loaded.readers) d.sealed d.active_id d.active)

  -- `Open`, for the data directory of that name.
  unfoldable pub open_dir : Json → Config → String → Directory → Log → OpenResult
  unfolding load_all_sstables load_table replay_log engine_of remove_orphan_sstable_tmp
  open_dir J c name d l =
      if str_eq name ""
      then refused data_dir_required
      else if d.scan_fails
      then refused scan_failed
      else if d.clean_fails
      then refused clean_failed
      else if d.list_fails
      then refused list_failed
      else after_load J c d l
          (load_all_sstables (load_table J d) (remove_orphan_sstable_tmp d.entries))
