-- ===== src/Engine/Table.antt =====
-- Phases 2 and 3 of `flushOneIfAny` in internal/engine/engine.go: the table file of a frozen table is
-- written and opened.
pub mod Written
pub mod Safe
use dist_log.Prelude.{List, [], ◌∷◌, Option, none, some, Bool, true, false, if◌then◌else◌}
use dist_log.Types.{DocId}
use dist_log.Types.Entries.{Entry}
use dist_log.Types.Codec.{Json}
use dist_log.Bytes.{Byte}
use dist_log.Sstable.Writer.{
  Writer, WriterError, Run, done, failed, ◌>>=◌, TwoWrites, new_writer, add,
}
use dist_log.Sstable.Writer.Close.{CloseRun, close, abort}
use dist_log.Sstable.Source.{Source, Checked, good, bad, OpenTable, open_source, view}
use dist_log.Engine.Flush.{FlushOutcome, write_fails, open_fails, table}

-- How the disk behaves while one table is flushed: whether the temporary file cannot be opened, the
-- writes of each `Add`, the close, whether removing the temporary file fails in `Abort`, how the
-- committed file is read, and whether the log segment can be deleted.
pub record TableRun : Type 0 where
  pub create_fails : Bool
  pub adds : DocId → TwoWrites
  pub close : CloseRun
  pub remove_fails : Bool
  pub read : List Byte → Source
  pub deleted : Bool

module _ (J : Json) where
  -- The loop over the iterator of the frozen table, until it ends or an `Add` fails.
  unfoldable pub write_records : (DocId → TwoWrites) → List Entry → Writer → Run Unit
  unfolding add
  write_records fs [] w = done tt w
  write_records fs ((d, r) ∷ es) w = add J (fs d) d r w >>= λ _ w'. write_records fs es w'

  abbrev open_table : Bool → Checked OpenTable → FlushOutcome
  open_table deleted (bad e) = open_fails
  open_table deleted (good t) = table deleted (view J t)

  -- `sstable.Open` of the final path.
  abbrev open_final : TableRun → Option (List Byte) → FlushOutcome
  open_final run none = open_fails
  open_final run (some file) = open_table run.deleted (open_source (run.read file))

  unfoldable pub after_close : TableRun → Option WriterError × Writer → FlushOutcome × Writer
  unfolding open_source view
  after_close run (some e, w) = (write_fails, w)
  after_close run (none, w) = (open_final run w.final, w)

  unfoldable pub finish_table : TableRun → Run Unit → FlushOutcome × Writer
  unfolding after_close close abort
  finish_table run (failed e w) = (write_fails, (abort run.remove_fails w).1)
  finish_table run (done _ w) = after_close run (close run.close w)

  -- The outcome of the flush of these records, where `old` is at the final path, and the writer in the
  -- end.
  unfoldable pub write_table : TableRun → Option (List Byte) → List Entry → FlushOutcome × Writer
  unfolding new_writer write_records finish_table
  write_table run old es =
      let w = new_writer old in
      if run.create_fails
      then (write_fails, record w { tmp = false })
      else finish_table run (write_records run.adds es w)
