-- ===== src/Tests/Crashes.antt =====
-- The theorems on crash and recovery at concrete inputs.
use dist_log.Prelude.{◌≡◌, [], ◌∷◌, ◌++◌, none, Bool, true, false, leb, arith, if◌then◌else◌}
use dist_log.Prelude.Int.{pos}
use dist_log.Types.{DocId}
use dist_log.Memtable.{MemTable}
use dist_log.Memtable.SortedList.{sorted_list}
use dist_log.Engine.Startup.{Loaded, sort_sstables_newest_first}
use dist_log.Engine.State.{Engine}
use dist_log.Engine.Read.{get, or_search, get_from_sstables}
use dist_log.Engine.Laws.Logged.{replayed}
use dist_log.Engine.Recovery.{max_doc_id_from, records_of, open_engine}
use dist_log.Engine.Recovery.Kept.{get-open_engine, get_again-open_engine}
use dist_log.Tests.Queries.{acme, a_table}
use dist_log.Tests.Engines.{a_config}

-- A table with one record.
abbrev holding : DocId → Bool → MemTable sorted_list
holding id frozen = record {
  list = ((id, acme) ∷ [], (omega arith, tt));
  size_bytes = pos 81;
  frozen = frozen;
}

-- The record 4 is in a table file, and its segment is still there; 5 is frozen, and 6 in the active table.
abbrev crashed : Engine sorted_list
crashed = record {
  config = a_config;
  active = holding 6 false;
  frozen = holding 5 true ∷ [];
  frozen_wals = 2 ∷ [];
  sstables = a_table ∷ [];
  log = record {
    active = record { id = 3; records = (6, acme) ∷ []; torn = false; behind = [] };
    sealed =
        record { id = 1; records = (4, acme) ∷ []; torn = false; behind = [] }
        ∷ record { id = 2; records = (5, acme) ∷ []; torn = false; behind = [] }
        ∷ [];
    next_id = 4;
  };
  alloc = record { counter = 6 };
  next_sst_seq = 1;
  last_scan_pruned = 0;
  freeze_signal = true;
  flush_signal = false;
  shutdown = false;
  closed = false;
  fatal = false;
}

abbrev loaded : Loaded
loaded = record { readers = a_table ∷ []; quarantined_count = 0 }

get-open_engine_example :
    get sorted_list 5 (open_engine sorted_list a_config 1 loaded (λ id. true) crashed.log)
    ≡ or_search sorted_list
        (if leb 5 (max_doc_id_from 0 loaded.readers)
          then none
          else replayed 5 none (records_of crashed.log.sealed ++ crashed.log.active.records))
        (get_from_sstables 5 (sort_sstables_newest_first loaded.readers))
get-open_engine_example = get-open_engine sorted_list 5 a_config 1 loaded (λ id. true) crashed.log

get_again-open_engine_example :
    get sorted_list 5 (
      open_engine sorted_list a_config 1 loaded
        (λ id. true)
        (open_engine sorted_list a_config 1 loaded (λ id. false) crashed.log).log)
    ≡ get sorted_list 5 (open_engine sorted_list a_config 1 loaded (λ id. false) crashed.log)
get_again-open_engine_example =
    get_again-open_engine sorted_list 5 a_config 1 loaded (λ id. false) (λ id. true) crashed.log
