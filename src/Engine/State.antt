-- ===== src/Engine/State.antt =====
-- The engine of internal/engine/engine.go: its configuration, its state and its steps. The log is seen as
-- records of each segment.
use dist_log.Prelude.{
  ℕ, ◌+◌, ◌*◌, ◌-◌, ◌%◌, ◌^◌, List, [], ◌∷◌, ◌++◌, Bool, true, false, ◌||◌, not, ◌==◌,
  if◌then◌else◌,
}
use dist_log.Prelude.Int.{ℤ, pos, ltb_ℤ}
use dist_log.Bytes.{to_u64, from_u64}
use dist_log.Types.Entries.{Entry}
use dist_log.Types.Allocator.{DocIdAllocator}
use dist_log.Memtable.{SkipList, MemTable}
use dist_log.Sstable.Reader.{Reader}
use dist_log.Query.Plan.{is_zero}

pub record Config : Type 0 where
  pub mem_table_size_limit : ℤ
  pub mem_table_hard_limit : ℤ
  pub max_frozen_mem_tables : ℤ
  pub max_flush_retries : ℤ
  pub flush_retry_base_delay : ℤ
  pub flush_retry_max_delay : ℤ

abbrev or_default : ℤ → ℤ → ℤ
or_default d n = if is_zero n then d else n

-- `applyDefaults`; times are nanoseconds.
unfoldable pub apply_defaults : Config → Config
unfolding to_u64 from_u64
apply_defaults c =
    let size_limit = or_default (pos 4194304) c.mem_table_size_limit in
    record {
      mem_table_size_limit = size_limit;
      mem_table_hard_limit =
          or_default (from_u64 (2 * to_u64 size_limit % 2 ^ 64)) c.mem_table_hard_limit;
      max_frozen_mem_tables = or_default (pos 4) c.max_frozen_mem_tables;
      max_flush_retries = or_default (pos 5) c.max_flush_retries;
      flush_retry_base_delay = or_default (pos 100000000) c.flush_retry_base_delay;
      flush_retry_max_delay = or_default (pos 5000000000) c.flush_retry_max_delay;
    }

-- `FlushRetryBaseDelay << (failures - 1)` on 64 bits, and the cap on it.
unfoldable pub backoff : Config → ℕ → ℤ
unfolding to_u64 from_u64
backoff c failures =
    let delay = from_u64 (to_u64 c.flush_retry_base_delay * 2 ^ (failures - 1) % 2 ^ 64) in
    if ltb_ℤ c.flush_retry_max_delay delay || not (ltb_ℤ (pos 0) delay)
    then c.flush_retry_max_delay
    else delay

-- A segment file: the records that a replay reads, and, if a write into the file was cut short, the records
-- that were appended behind the torn bytes, which no replay reaches.
pub record Segment : Type 0 where
  pub id : ℕ
  pub records : List Entry
  pub torn : Bool
  pub behind : List Entry

abbrev pub new_segment : ℕ → Segment
new_segment id = record { id = id; records = []; torn = false; behind = [] }

-- The segment files of the log: the one that is written to, and the sealed ones, in their order.
pub record Log : Type 0 where
  pub active : Segment
  pub sealed : List Segment
  pub next_id : ℕ

unfoldable pub append_to : Entry → Segment → Segment
append_to e s =
    if s.torn
    then record s { behind = s.behind ++ (e ∷ []) }
    else record s { records = s.records ++ (e ∷ []) }

unfoldable pub append_record : Entry → Log → Log
unfolding append_to
append_record e l = record l { active = append_to e l.active }

-- A write that was cut short.
unfoldable pub tear : Log → Log
tear l = record l { active = record l.active { torn = true } }

unfoldable pub seal_log : Log → Log
seal_log l = record {
  active = new_segment l.next_id;
  sealed = l.sealed ++ (l.active ∷ []);
  next_id = (l.next_id + 1) % 2 ^ 64;
}

unfoldable pub delete_sealed : ℕ → List Segment → List Segment
delete_sealed id [] = []
delete_sealed id (s ∷ ss) = let rest = delete_sealed id ss in if s.id == id then rest else s ∷ rest

-- `frozen` and `frozen_wals` are oldest first, `sstables` newest first. A channel of capacity one is
-- whether it holds a signal.
pub record Engine (S : SkipList) : Type 0 where
  pub config : Config
  pub active : MemTable S
  pub frozen : List (MemTable S)
  pub frozen_wals : List ℕ
  pub sstables : List Reader
  pub log : Log
  pub alloc : DocIdAllocator
  pub next_sst_seq : ℕ
  pub last_scan_pruned : ℕ
  pub freeze_signal : Bool
  pub flush_signal : Bool
  pub shutdown : Bool
  pub closed : Bool
  pub fatal : Bool
