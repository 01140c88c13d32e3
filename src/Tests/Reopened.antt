-- ===== src/Tests/Reopened.antt =====
-- The theorems on opening a directory again from its bytes, at concrete inputs.
use dist_log.Prelude.{
  ℕ, String, ◌≡◌, ◌≤◌, ◌<◌, ◌^◌, refl, List, [], ◌∷◌, ◌++◌, none, some, Bool, true, false, arith,
  map, replicate, str_eq, if◌then◌else◌, inl, inr,
}
use dist_log.Prelude.Int.{pos}
use dist_log.Bytes.{Byte, put_le, to_u64, from_u64, get_le}
use dist_log.Bytes.Crc.{checksum}
use dist_log.Types.{DocId}
use dist_log.Types.Entries.{Entry, lookup}
use dist_log.Memtable as Memtable
use dist_log.Memtable.{MemTable}
use dist_log.Memtable.SortedList.{sorted_list}
use dist_log.Sstable.Reader.{Reader}
use dist_log.Sstable.Source.{file_source, open_source}
use dist_log.Wal.Record as WalRecord
use dist_log.Wal.Record.{record_put, max_payload, decode_record}
use dist_log.Wal.Replay.Laws.{segment_bytes}
use dist_log.Engine.Codec.{encode_wal_payload, decode_wal_payload}
use dist_log.Engine.Read.{get}
use dist_log.Engine.State.{Engine, Segment}
use dist_log.Engine.Startup.{
  Opened, readable, quarantined, load_all_sstables, remove_orphan_sstable_tmp,
  sort_sstables_newest_first,
}
use dist_log.Engine.Table.{write_table}
use dist_log.Engine.Laws.Logged.{replayed, Covers}
use dist_log.Engine.Recovery.{max_doc_id_from}
use dist_log.Engine.Recovery.Crash.{Aligned, NothingBelow}
use dist_log.Engine.Replay.Same.{Logged, AllLogged, OnDisk, appended}
use dist_log.Engine.Open.{Directory, load_table, opened, open_dir}
use dist_log.Engine.Open.Refines.{HoldsLog}
use dist_log.Engine.Open.{refused, replay_failed}
use dist_log.Engine.Open.Errors.{HasUnreadable, open_dir-HasUnreadable}
use dist_log.Engine.Open.Crash.{LeftByCrash, get-open_dir}
use dist_log.Tests.Engines.{a_config, an_engine}
use dist_log.Tests.Tables.{record_at, braces, calm, two_entries}

-- The table file of the records 4 and 7.
abbrev table_bytes : List Byte
table_bytes =
    (4 ∷ 0 ∷ 0 ∷ 0 ∷ 0 ∷ 0 ∷ 0 ∷ 0 ∷ 9 ∷ 0 ∷ 0 ∷ 0 ∷ 0 ∷ 0 ∷ 0 ∷ 0 ∷ 2 ∷ 0 ∷ 0 ∷ 0 ∷ 123 ∷ 125 ∷ 7
      ∷ 0 ∷ 0 ∷ 0 ∷ 0 ∷ 0 ∷ 0 ∷ 0 ∷ 5 ∷ 0 ∷ 0 ∷ 0 ∷ 0 ∷ 0 ∷ 0 ∷ 0 ∷ 2 ∷ 0 ∷ 0 ∷ 0 ∷ 123 ∷ 125 ∷ 2
      ∷ 0 ∷ 0 ∷ 0 ∷ 110 ∷ 49 ∷ 75 ∷ 51 ∷ 4 ∷ 0 ∷ 0 ∷ 0 ∷ 0 ∷ 0 ∷ 0 ∷ 0 ∷ 0 ∷ 0 ∷ 0 ∷ 0 ∷ 0 ∷ 0 ∷ 0
      ∷ 0 ∷ 52 ∷ 0 ∷ 0 ∷ 0 ∷ 0 ∷ 0 ∷ 0 ∷ 0 ∷ 1 ∷ 0 ∷ 0 ∷ 0 ∷ 248 ∷ 9 ∷ 64 ∷ 203 ∷ 4 ∷ 0 ∷ 0 ∷ 0 ∷ 0
      ∷ 0 ∷ 0 ∷ 0 ∷ 7 ∷ 0 ∷ 0 ∷ 0 ∷ 0 ∷ 0 ∷ 0 ∷ 0 ∷ 5 ∷ 0 ∷ 0 ∷ 0 ∷ 0 ∷ 0 ∷ 0 ∷ 0 ∷ 9 ∷ 0 ∷ 0 ∷ 0
      ∷ 0 ∷ 0 ∷ 0 ∷ 0 ∷ 2 ∷ 0 ∷ 0 ∷ 0 ∷ 0 ∷ 0 ∷ 0 ∷ 0 ∷ 1 ∷ 0 ∷ 0 ∷ 0 ∷ 100 ∷ 0 ∷ 0 ∷ 0 ∷ 0 ∷ 0 ∷ 0
      ∷ 0 ∷ [])
    ++ (replicate 32 0
        ++ (10 ∷ 238 ∷ 45 ∷ 164 ∷ 1 ∷ 0 ∷ 0 ∷ 0 ∷ 0 ∷ 0 ∷ 0 ∷ 0 ∷ 52 ∷ 0 ∷ 0 ∷ 0 ∷ 0 ∷ 0 ∷ 0 ∷ 0
            ∷ 32 ∷ 0 ∷ 0 ∷ 0 ∷ 84 ∷ 0 ∷ 0 ∷ 0 ∷ 0 ∷ 0 ∷ 0 ∷ 0 ∷ 88 ∷ 0 ∷ 0 ∷ 0 ∷ 92 ∷ 114 ∷ 144 ∷ 38
            ∷ 0 ∷ 0 ∷ 0 ∷ 0 ∷ 68 ∷ 76 ∷ 83 ∷ 83 ∷ 84 ∷ 66 ∷ 76 ∷ 0 ∷ []))

-- It is what a flush leaves.
write_table-table_bytes : (write_table braces calm none two_entries).1.final ≡ some table_bytes
unfolding write_table put_le to_u64 checksum
write_table-table_bytes = refl

-- The table file of one record with the number, given its checksums.
abbrev pub tiny_file : ℕ → List Byte → List Byte → List Byte → List Byte
tiny_file id block index meta =
    (id ∷ 0 ∷ 0 ∷ 0 ∷ 0 ∷ 0 ∷ 0 ∷ 0 ∷ 0 ∷ 0 ∷ 0 ∷ 0 ∷ 0 ∷ 0 ∷ 0 ∷ 0 ∷ 2 ∷ 0 ∷ 0 ∷ 0 ∷ 123 ∷ 125 ∷ 1
      ∷ 0 ∷ 0 ∷ 0 ∷ [])
    ++ (block
        ++ ((id ∷ 0 ∷ 0 ∷ 0 ∷ 0 ∷ 0 ∷ 0 ∷ 0 ∷ 0 ∷ 0 ∷ 0 ∷ 0 ∷ 0 ∷ 0 ∷ 0 ∷ 0 ∷ 30 ∷ 0 ∷ 0 ∷ 0 ∷ 0 ∷ 0
              ∷ 0 ∷ 0 ∷ 1 ∷ 0 ∷ 0 ∷ 0 ∷ [])
            ++ (index
                ++ ((id ∷ 0 ∷ 0 ∷ 0 ∷ 0 ∷ 0 ∷ 0 ∷ 0 ∷ id ∷ 0 ∷ 0 ∷ 0 ∷ 0 ∷ 0 ∷ 0 ∷ 0 ∷ [])
                    ++ (replicate 16 0
                        ++ ((1 ∷ 0 ∷ 0 ∷ 0 ∷ 0 ∷ 0 ∷ 0 ∷ 0 ∷ 1 ∷ 0 ∷ 0 ∷ 0 ∷ 100 ∷ 0 ∷ 0 ∷ 0 ∷ 0 ∷ 0
                              ∷ 0 ∷ 0 ∷ [])
                            ++ (replicate 32 0
                                ++ (meta
                                    ++ (1 ∷ 0 ∷ 0 ∷ 0 ∷ 0 ∷ 0 ∷ 0 ∷ 0 ∷ 30 ∷ 0 ∷ 0 ∷ 0 ∷ 0 ∷ 0 ∷ 0
                                        ∷ 0 ∷ 32 ∷ 0 ∷ 0 ∷ 0 ∷ 62 ∷ 0 ∷ 0 ∷ 0 ∷ 0 ∷ 0 ∷ 0 ∷ 0 ∷ 88
                                        ∷ 0 ∷ 0 ∷ 0 ∷ 254 ∷ 248 ∷ 21 ∷ 17 ∷ 0 ∷ 0 ∷ 0 ∷ 0 ∷ 68 ∷ 76
                                        ∷ 83 ∷ 83 ∷ 84 ∷ 66 ∷ 76 ∷ 0 ∷ [])))))))))

abbrev pub first_bytes : List Byte
first_bytes =
    tiny_file 1 (151 ∷ 217 ∷ 182 ∷ 16 ∷ []) (30 ∷ 140 ∷ 213 ∷ 75 ∷ []) (240 ∷ 126 ∷ 41 ∷ 100 ∷ [])

abbrev pub second_bytes : List Byte
second_bytes =
    tiny_file 2 (215 ∷ 116 ∷ 206 ∷ 41 ∷ []) (54 ∷ 37 ∷ 203 ∷ 19 ∷ []) (162 ∷ 74 ∷ 155 ∷ 195 ∷ [])

-- The table file of one record with the number.
unfoldable pub tiny_table : ℕ → Reader
tiny_table id = record {
  meta = record {
    min_doc_id = id;
    max_doc_id = id;
    min_timestamp = pos 0;
    max_timestamp = pos 0;
    record_count = 1;
    data_block_count = 1;
    created_at_unix = pos 100;
    reserved = replicate 32 0;
  };
  blocks = record { first_doc_id = id; contents = some ((id, record_at 0) ∷ []) } ∷ [];
}

-- Behind the records of a segment a record was torn.
unfoldable pub segment_file : Segment → WalRecord.Reader
unfolding segment_bytes encode_wal_payload
segment_file s = record {
  rest =
      segment_bytes
        (map (λ (e : Entry). (record_put, encode_wal_payload e.0 (b'{' ∷ b'}' ∷ []))) s.records)
      ++ (51 ∷ 156 ∷ []);
  fault = false;
}

abbrev pub segment : ℕ → List DocId → Segment
segment n ids = record {
  id = n;
  records = map (λ id. (id, record_at 0)) ids;
  torn = false;
  behind = [];
}

-- Two table files are readable, and one is not and goes into quarantine; the segment of the newer one is still
-- there, the segment 2 is that of a frozen table, and the segment 3 is active.
unfoldable left_dir : Directory
unfolding segment_file file_source
left_dir = record {
  entries =
      record { name = "sst-0000000000000001.sst"; is_dir = false }
      ∷ record { name = "sst-0000000000000002.sst"; is_dir = false }
      ∷ record { name = "sst-0000000000000003.sst"; is_dir = false }
      ∷ record { name = "sst-0000000000000004.sst.tmp"; is_dir = false }
      ∷ [];
  table_file = λ name.
      if str_eq name "sst-0000000000000001.sst"
      then some (file_source first_bytes)
      else if str_eq name "sst-0000000000000002.sst"
      then some (file_source table_bytes)
      else none;
  sealed = (1, segment_file (segment 1 (4 ∷ 7 ∷ []))) ∷ (2, segment_file (segment 2 (8 ∷ []))) ∷ [];
  active_id = 3;
  active = segment_file (segment 3 (9 ∷ []));
  scan_fails = false;
  clean_fails = false;
  list_fails = false;
  quarantine_fails = λ _. false;
  wal_fails = false;
  deletable = λ id. true;
}

-- The newer readable table.
unfoldable flushed_table : Reader
flushed_table = record {
  meta = record {
    min_doc_id = 4;
    max_doc_id = 7;
    min_timestamp = pos 5;
    max_timestamp = pos 9;
    record_count = 2;
    data_block_count = 1;
    created_at_unix = pos 100;
    reserved = replicate 32 0;
  };
  blocks = record { first_doc_id = 4; contents = some two_entries } ∷ [];
}

load_table-first : load_table braces left_dir "sst-0000000000000001.sst" ≡ readable (tiny_table 1)
unfolding left_dir load_table open_source file_source from_u64 get_le checksum tiny_table
load_table-first = refl

load_table-second : load_table braces left_dir "sst-0000000000000002.sst" ≡ readable flushed_table
unfolding left_dir load_table open_source file_source from_u64 get_le checksum flushed_table
load_table-second = refl

load_table-third : load_table braces left_dir "sst-0000000000000003.sst" ≡ quarantined
unfolding left_dir load_table
load_table-third = refl

loads_three :
    (open_table : String → Opened) (r t : Reader)
    → open_table "sst-0000000000000001.sst" ≡ readable r
    → open_table "sst-0000000000000002.sst" ≡ readable t
    → open_table "sst-0000000000000003.sst" ≡ quarantined
    → load_all_sstables open_table (remove_orphan_sstable_tmp left_dir.entries)
      ≡ some (record { readers = r ∷ t ∷ []; quarantined_count = 1 })
unfolding left_dir load_all_sstables remove_orphan_sstable_tmp
loads_three open_table r t first second third = λ i.
    load_all_sstables
      (λ name.
        if str_eq name "sst-0000000000000001.sst"
        then first i
        else if str_eq name "sst-0000000000000002.sst"
        then second i
        else third i)
      (remove_orphan_sstable_tmp left_dir.entries)

left_dir-loads :
    load_all_sstables (load_table braces left_dir) (remove_orphan_sstable_tmp left_dir.entries)
    ≡ some (record { readers = tiny_table 1 ∷ flushed_table ∷ []; quarantined_count = 1 })
left_dir-loads =
    loads_three (load_table braces left_dir) (tiny_table 1) flushed_table load_table-first
      load_table-second load_table-third

abbrev memory_table : DocId → Bool → MemTable sorted_list
memory_table id frozen = record {
  list = ((id, record_at 0) ∷ [], (omega arith, tt));
  size_bytes = pos 81;
  frozen = frozen;
}

-- The engine that crashed.
abbrev lost : Engine sorted_list
lost = record an_engine {
  active = memory_table 9 false;
  frozen = memory_table 8 true ∷ [];
  frozen_wals = 2 ∷ [];
  sstables = flushed_table ∷ tiny_table 1 ∷ [];
  log = record {
    active = segment 3 (9 ∷ []);
    sealed = segment 1 (4 ∷ 7 ∷ []) ∷ segment 2 (8 ∷ []) ∷ [];
    next_id = 4;
  };
  alloc = record { counter = 9 };
}

unfoldable pub small-Logged : (id : DocId) → id < 2 ^ 64 → Logged braces (id, record_at 0)
unfolding encode_wal_payload put_le to_u64
small-Logged id h = record {
  bytes = b'{' ∷ b'}' ∷ [];
  encoded = refl;
  decoded = refl;
  doc_id = h;
  fits = omega arith;
}

pub torn_tail :
    (s : Segment) (h : AllLogged braces s.records)
    → (segment_file s).rest ≡ segment_bytes (appended braces s.records h) ++ (51 ∷ 156 ∷ [])
    → OnDisk sorted_list braces s (segment_file s)
unfolding segment_file
torn_tail s h e = record {
  logged = h;
  tail = 51 ∷ 156 ∷ [];
  contents = e;
  ends = unfold decode_record in tt;
}

lost-HoldsLog : HoldsLog sorted_list braces (max_doc_id_from 0 lost.sstables) left_dir lost.log
unfolding left_dir segment_file appended segment_bytes small-Logged
lost-HoldsLog = record {
  disk = segment_file;
  sealed = refl;
  active_id = refl;
  active = refl;
  sealed_files = (
    torn_tail (segment 1 (4 ∷ 7 ∷ []))
        (small-Logged 4 (omega arith), (small-Logged 7 (omega arith), tt)) refl,
    (torn_tail (segment 2 (8 ∷ [])) (small-Logged 8 (omega arith), tt) refl, tt),
  );
  active_file = torn_tail (segment 3 (9 ∷ [])) (small-Logged 9 (omega arith), tt) refl;
  numbered = refl;
}

covered :
    (id : DocId) (frozen : Bool)
    → Covers sorted_list (memory_table id frozen) ((id, record_at 0) ∷ [])
unfolding Covers Memtable.get lookup replayed
covered id frozen = λ k. refl

nothing_below :
    (id : DocId) (frozen : Bool) (k : DocId)
    → 7 < id
    → k ≤ 7
    → Memtable.get sorted_list k (memory_table id frozen) ≡ none
unfolding Memtable.get lookup
nothing_below id frozen k h l = ground arith

lost-LeftByCrash : LeftByCrash sorted_list braces lost
unfolding Aligned NothingBelow max_doc_id_from sort_sstables_newest_first flushed_table tiny_table
lost-LeftByCrash = record {
  active = covered 9 false;
  frozen = inl ((omega arith, (omega arith, tt)), inr (covered 8 true, tt));
  above = (
    λ k l. nothing_below 9 false k (omega arith) l,
    (λ k l. nothing_below 8 true k (omega arith) l, tt),
  );
}

get-open_dir_example :
    (e : Engine sorted_list) × (open_dir sorted_list braces a_config "data" left_dir lost.log
      ≡ opened e)
    × ((k : DocId) → get sorted_list k e ≡ get sorted_list k lost)
get-open_dir_example =
    get-open_dir sorted_list braces lost a_config "data" left_dir
      (tiny_table 1 ∷ flushed_table ∷ []) 1 refl
      (unfold left_dir in record { scan = refl; clean = refl; list = refl; wal = refl })
      left_dir-loads (unfold sort_sstables_newest_first flushed_table tiny_table in refl)
      lost-HoldsLog lost-LeftByCrash

-- A segment file whose only record has three bytes.
unfoldable short_file : WalRecord.Reader
unfolding segment_bytes
short_file = record {
  rest = segment_bytes ((record_put, 1 ∷ 2 ∷ 3 ∷ []) ∷ []) ++ [];
  fault = false;
}

short_file-HasUnreadable : HasUnreadable sorted_list braces 7 short_file
unfolding short_file appended decode_wal_payload
short_file-HasUnreadable = record {
  before = [];
  logged = tt;
  typ = record_put;
  payload = 1 ∷ 2 ∷ 3 ∷ [];
  unreadable = inl refl;
  behind = [];
  fit = (omega arith, tt);
  tail = [];
  contents = refl;
  ends = unfold decode_record in tt;
}

abbrev short_dir : Directory
short_dir = record left_dir {
  sealed = (1, segment_file (segment 1 (4 ∷ 7 ∷ []))) ∷ (2, short_file) ∷ [];
}

open_dir-HasUnreadable_example :
    open_dir sorted_list braces a_config "data" short_dir lost.log ≡ refused (replay_failed 2)
unfolding tiny_table left_dir segment_file appended segment_bytes small-Logged flushed_table
    max_doc_id_from load_table
open_dir-HasUnreadable_example =
    open_dir-HasUnreadable sorted_list braces a_config short_dir lost.log
      (record { readers = tiny_table 1 ∷ flushed_table ∷ []; quarantined_count = 1 }) "data"
      segment_file (segment 1 (4 ∷ 7 ∷ []) ∷ []) 2 short_file [] refl
      (record { scan = refl; clean = refl; list = refl; wal = refl }) left_dir-loads refl
      (
        torn_tail (segment 1 (4 ∷ 7 ∷ []))
            (small-Logged 4 (omega arith), (small-Logged 7 (omega arith), tt)) refl,
        tt,
      )
      short_file-HasUnreadable
