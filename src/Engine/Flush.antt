-- ===== src/Engine/Flush.antt =====
-- The freeze coordinator, the flush worker and the shutdown of internal/engine/engine.go.
use dist_log.Prelude.{
  ℕ, suc, ◌+◌, ◌%◌, ◌^◌, List, [], ◌∷◌, ◌++◌, Option, none, some, Bool, true, false, length,
  if◌then◌else◌,
}
use dist_log.Prelude.Int.{pos, ltb_ℤ}
use dist_log.Memtable as Memtable
use dist_log.Memtable.{SkipList, MemTable}
use dist_log.Sstable.Reader.{Reader}
use dist_log.Engine.State.{Engine, Log, seal_log, delete_sealed}
use dist_log.Engine.Write.{at_least}

-- What writing and opening the new table file comes to, and whether its log segment can be deleted.
pub data FlushOutcome : Type 0 where
  write_fails open_fails : FlushOutcome
  table : Bool → Reader → FlushOutcome

pub data FlushResult : Type 0 where
  flushed nothing_to_flush flush_error : FlushResult

pub data WorkerEnd : Type 0 where
  idle gave_up stopped : WorkerEnd

module _ (S : SkipList) where
  unfoldable pub signal_shutdown : Engine S → Engine S
  signal_shutdown e = record e { shutdown = true }

  -- `onFatalError`, without the user's callback.
  unfoldable pub on_fatal_error : Engine S → Engine S
  unfolding signal_shutdown
  on_fatal_error e = if e.fatal then e else signal_shutdown (record e { fatal = true })

  -- The rotation proper, given whether the log can be sealed.
  unfoldable pub rotate : Bool → Engine S → Engine S
  unfolding Memtable.freeze Memtable.new_mem_table seal_log on_fatal_error
  rotate seal_fails e =
      if seal_fails
      then on_fatal_error (record e { active = Memtable.freeze S e.active })
      else record e {
        frozen = e.frozen ++ (Memtable.freeze S e.active ∷ []);
        frozen_wals = e.frozen_wals ++ (e.log.active.id ∷ []);
        active = Memtable.new_mem_table S;
        log = seal_log e.log;
        flush_signal = true;
      }

  unfoldable pub do_freeze : Bool → Engine S → Engine S
  unfolding rotate
  do_freeze seal_fails e =
      if e.fatal
      then e
      else if ltb_ℤ e.active.size_bytes e.config.mem_table_size_limit
      then e
      else if at_least (pos (length e.frozen)) e.config.max_frozen_mem_tables
      then e
      else rotate seal_fails e

  -- One round of `freezeLoop`, when the shutdown is not chosen.
  unfoldable pub freeze_round : Bool → Engine S → Engine S
  unfolding do_freeze
  freeze_round seal_fails e =
      if e.freeze_signal then do_freeze seal_fails (record e { freeze_signal = false }) else e

  abbrev pub tail : {A : Type 0} → List A → List A
  tail [] = []
  tail (x ∷ xs) = xs

  unfoldable pub drop_segment : Bool → List ℕ → Log → Log
  unfolding delete_sealed
  drop_segment deleted [] l = l
  drop_segment true (id ∷ ids) l = record l { sealed = delete_sealed id l.sealed }
  drop_segment false (id ∷ ids) l = l

  -- Phases 2 to 6 for the oldest frozen table. The number of the file is used up in any case. As only
  -- the flush worker takes tables off the queue, the front is still the same in phase 4.
  unfoldable pub flush_front : FlushOutcome → Engine S → FlushResult × Engine S
  unfolding drop_segment
  flush_front outcome e =
      let e' = record e { next_sst_seq = (e.next_sst_seq + 1) % 2 ^ 64 } in
      elim outcome [
        | write_fails ↦ (flush_error, e')
        | open_fails ↦ (flush_error, e')
        | table deleted t ↦ (
          flushed,
          record e' {
            frozen = tail e.frozen;
            frozen_wals = tail e.frozen_wals;
            sstables = t ∷ e.sstables;
            log = drop_segment deleted e.frozen_wals e.log;
            freeze_signal = true;
          },
        )
      ]

  -- `flushOneIfAny`
  unfoldable pub flush_one_if_any : FlushOutcome → Engine S → FlushResult × Engine S
  unfolding flush_front
  flush_one_if_any outcome e =
      if e.fatal
      then (nothing_to_flush, e)
      else elim e.frozen [ [] ↦ (nothing_to_flush, e) | m ∷ ms ↦ flush_front outcome e ]

  -- The inner loop of `flushLoop` after a signal: the outcomes of the flushes in their order, each with
  -- whether the shutdown comes during the delay after it. It ends when nothing is left to flush, when
  -- the failures in a row reach the limit, or when there is a shutdown.
  unfoldable pub drain :
      List (FlushOutcome × Bool) → ℕ → Engine S → Option (WorkerEnd × ℕ) × Engine S
  unfolding flush_one_if_any on_fatal_error
  drain [] failures e = (none, e)
  drain ((outcome, shut) ∷ os) failures e =
      let (result, e') = flush_one_if_any outcome e in
      elim result [
        | nothing_to_flush ↦ (some (idle, 0), e')
        | flushed ↦ drain os 0 e'
        | flush_error ↦ elim (at_least (pos (suc failures)) e.config.max_flush_retries) [
          | true ↦ (some (gave_up, suc failures), on_fatal_error e')
          | false ↦ elim shut [
            | true ↦ (some (stopped, suc failures), e')
            | false ↦ drain os (suc failures) e'
          ]
        ]
      ]

  -- `Close`: the second call does nothing. The log's files are closed, and the tables given up.
  unfoldable pub close : Engine S → Engine S
  unfolding signal_shutdown
  close e =
      if e.closed
      then e
      else record (signal_shutdown (record e { closed = true })) { sstables = [] }
