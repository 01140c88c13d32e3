-- ===== src/Engine/Laws/Sound.antt =====
-- The steps of internal/engine/engine.go, and the invariants that its package comment states.
pub mod Rotate
pub mod Write
use dist_log.Prelude.{
  ℕ, suc, ◌+◌, ◌<◌, ◌^◌, ◌≡◌, refl, ap, ap₂, sym, subst, ◌∙◌, List, [], ◌∷◌, none, some, Bool, true,
  false, if◌then◌else◌, ◌==◌, arith, Bool-cases, ◌⊎◌, inl, inr, length, length-append,
}
use dist_log.Prelude.Int.{ℤ, pos, negsuc, ltb_ℤ, ◌≤ℤ◌}
use dist_log.Types.{DocId, LogRecord}
use dist_log.Types.Allocator as Allocator
use dist_log.Types.Allocator.{new_doc_id_allocator}
use dist_log.Memtable as Memtable
use dist_log.Memtable.{SkipList, MemTable}
use dist_log.Memtable.Laws as MemtableLaws
use dist_log.Engine.State.{
  Config, apply_defaults, Engine, Log, append_record, seal_log, new_segment,
}
use dist_log.Engine.Write.{
  AppendOutcome, appended, nothing_written, cut_short, not_synced, Round, Gate, WriteFaults,
  WriteResult, failed, closed_error, fatal_error, no_faults, at_least, maybe_trigger_freeze,
  write_attempts, commit, behind_gate, write, wait_for_stall_clear, stall_predicate,
}
use dist_log.Engine.Flush.{
  FlushOutcome, table, write_fails, open_fails, FlushResult, nothing_to_flush, tail, drop_segment,
  signal_shutdown, on_fatal_error, rotate, do_freeze, freeze_round, flush_front, flush_one_if_any,
  close,
}
use dist_log.Engine.Laws.Written.{after_write, commit_lem}
use dist_log.Engine.Laws.Moved.{do_freeze-cases, get-new_mem_table}
use dist_log.Engine.Laws.Logged.{
  replayed-append, replayed_nothing, AscendingIn, AscendingIn-mono, AscendingIn-append, Covers,
  Paired, Paired-append, Paired-delete_sealed,
}

module _ (S : SkipList) where
  -- The engine that `Open` makes over an empty directory.
  unfoldable pub fresh : Config → Engine S
  unfolding apply_defaults Memtable.new_mem_table
  fresh c = record {
    config = apply_defaults c;
    active = Memtable.new_mem_table S;
    frozen = [];
    frozen_wals = [];
    sstables = [];
    log = record { active = new_segment 1; sealed = []; next_id = 2 };
    alloc = new_doc_id_allocator;
    next_sst_seq = 0;
    last_scan_pruned = 0;
    freeze_signal = false;
    flush_signal = false;
    shutdown = false;
    closed = false;
    fatal = false;
  }

  -- A step of one goroutine, with whatever outcome its calls have: what it does while it holds the lock, and
  -- the taking of a number, which `Write` does without the lock before its first attempt.
  pub data Step : Engine S → Engine S → Type 0 where
    number_step : (e : Engine S) → Step e (record e { alloc = (Allocator.next e.alloc).1 })
    attempt_step :
        (outcome : AppendOutcome) (id : DocId) (r : LogRecord) (e : Engine S)
        → Step e (write_attempts S 1 outcome id r e).1
    freeze_step : (seal_fails : Bool) (e : Engine S) → Step e (freeze_round S seal_fails e)
    flush_step : (outcome : FlushOutcome) (e : Engine S) → Step e (flush_one_if_any S outcome e).1
    fatal_step : (e : Engine S) → Step e (on_fatal_error S e)
    close_step : (e : Engine S) → Step e (close S e)

  -- The append of an attempt succeeds on a segment without torn bytes and for an active table that takes
  -- writes (after a seal that failed the segment is closed), or it leaves no record that a replay reads.
  abbrev pub KeepsReplay : AppendOutcome → Bool → Bool → Type 0
  KeepsReplay appended frozen torn = (frozen ≡ false) × (torn ≡ false)
  KeepsReplay nothing_written frozen torn = Unit
  KeepsReplay cut_short frozen torn = Unit
  KeepsReplay not_synced frozen torn = ⊥

  -- What a replay of the log reads stays what the tables have, and the segment numbers have 64 bits.
  unfoldable pub KeepsLog : {e f : Engine S} → Step e f → Type 0
  KeepsLog (number_step e) = Unit
  KeepsLog (attempt_step outcome id r e) = KeepsReplay outcome e.active.frozen e.log.active.torn
  KeepsLog (freeze_step seal_fails e) = suc e.log.next_id < 2 ^ 64
  KeepsLog (flush_step outcome e) = Unit
  KeepsLog (fatal_step e) = Unit
  KeepsLog (close_step e) = Unit

  pub data Steps : Engine S → Engine S → Type 0 where
    stay : (e : Engine S) → Steps e e
    step : {e f g : Engine S} → Steps e f → (k : Step f g) → KeepsLog k → Steps e g

  pub record IsSoundAt (active : MemTable S) (frozen : List (MemTable S)) (frozen_wals : List ℕ)
      (log : Log) (config : Config) (fatal : Bool) : Type 0 where
    pub active_covered : Covers S active log.active.records
    pub paired : Paired S frozen frozen_wals log.sealed
    pub ascending : AscendingIn 0 log.active.id frozen_wals
    pub next_above : log.active.id < log.next_id
    pub bounded : (length frozen ≡ 0) ⊎ (pos (length frozen) ≤ℤ config.max_frozen_mem_tables)
    pub takes_writes : fatal ≡ false → active.frozen ≡ false

  -- The invariants of the package's comment: the active table and every frozen one is what its log segment
  -- replays to, the frozen tables and their segments go together one to one in the order of the segments,
  -- every frozen table is frozen, there are no more of them than the limit, and the active table takes writes
  -- unless the engine is in its fatal state.
  abbrev pub IsSound : Engine S → Type 0
  IsSound e = IsSoundAt e.active e.frozen e.frozen_wals e.log e.config e.fatal
