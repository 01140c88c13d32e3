-- ===== src/Engine/Life.antt =====
-- The life of an engine of internal/engine/engine.go before it is closed.
pub mod Records
pub mod Trail
pub mod Newest
pub mod Kept
pub mod Flushed
pub mod Steps
pub mod Crash
use dist_log.Prelude.{ℕ, suc, ◌<◌, ◌≤◌, ◌^◌, ◌≡◌, ◌==◌, if◌then◌else◌, List, [], ◌∷◌, Option}
use dist_log.Prelude.Decimal.{IsI64}
use dist_log.Bytes.{Byte}
use dist_log.Types.Codec.{Json}
use dist_log.Memtable as Memtable
use dist_log.Memtable.{SkipList, MemTable}
use dist_log.Sstable.Source.{file_source}
use dist_log.Sstable.Layout.{AllFit}
use dist_log.Sstable.Layout.Sizes.{Room}
use dist_log.Engine.State.{Engine}
use dist_log.Engine.Flush.{FlushOutcome}
use dist_log.Engine.Table.{TableRun, write_table}
use dist_log.Engine.Laws.Sound.{
  Step, KeepsReplay, number_step, attempt_step, freeze_step, flush_step, fatal_step, close_step,
}

module _ (S : SkipList) (J : Json) where
  -- The outcome of a flush is that of writing the oldest frozen table to a file and opening it, whatever
  -- fails in that, if a committed file is read as it was written. The records are those that the encoding
  -- gives back, and less than 1 GiB.
  unfoldable pub FromFile : FlushOutcome → List (MemTable S) → Type 0
  unfolding write_table Memtable.entries
  FromFile o [] = Unit
  FromFile o (m ∷ ms) =
      (run : TableRun) × (old : Option (List Byte)) × ((write_table J run old
          (Memtable.entries S m)).0
        ≡ o)
      × (run.read ≡ file_source)
      × IsI64 run.close.now
      × AllFit J (Memtable.entries S m)
      × Room J (Memtable.entries S m)

  -- The steps before the engine is closed that keep the log. The numbers have 64 bits, and an attempt
  -- has a number that was given out since the last rotation: one above `mark`.
  unfoldable pub InLife : ℕ → {e f : Engine S} → Step S e f → Type 0
  unfolding FromFile
  InLife mark (number_step e) = suc e.alloc.counter < 2 ^ 64
  InLife mark (attempt_step outcome id r e) =
      KeepsReplay S outcome e.active.frozen e.log.active.torn × (mark < id) × (id ≤ e.alloc.counter)
  InLife mark (freeze_step seal_fails e) = suc e.log.next_id < 2 ^ 64
  InLife mark (flush_step outcome e) = FromFile outcome e.frozen
  InLife mark (fatal_step e) = Unit
  InLife mark (close_step e) = ⊥

  -- A rotation, which is a freeze round that seals a segment, moves the mark to the last number given out.
  unfoldable pub mark_after : {e f : Engine S} → Step S e f → ℕ → ℕ
  mark_after {e} {f} k mark = if f.log.next_id == e.log.next_id then mark else e.alloc.counter

  -- The engines and marks that such steps reach.
  pub data Life (start : Engine S) : Engine S → ℕ → Type 0 where
    begin : Life start start 0
    live_on :
        {e f : Engine S} {mark : ℕ}
        → Life start e mark
        → (k : Step S e f) → InLife mark k
        → Life start f (mark_after k mark)
