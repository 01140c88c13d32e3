-- ===== src/Sstable/Writer/Close.antt =====
-- `Close` and `Abort` of internal/sstable/writer.go, and the commit by renaming.
use dist_log.Prelude.{Option, none, some, Bool, true, false, ◌&&◌, ◌||◌, if◌then◌else◌}
use dist_log.Types.{Timestamp}
use dist_log.Sstable.Writer.{
  Writer, WriterError, zero_records, flush_failed, sync_failed, close_failed, rename_failed,
  sync_dir_failed, remove_failed, Run, done, failed, ◌>>=◌, TwoWrites, flush_block,
  write_index_block, write_meta_block, write_footer,
}

-- Whether each operation of `Close` fails, and the time it reads.
pub record CloseRun : Type 0 where
  pub block : TwoWrites
  pub index : TwoWrites
  pub meta_fails : Bool
  pub footer_fails : Bool
  pub flush_fails : Bool
  pub sync_fails : Bool
  pub close_fails : Bool
  pub rename_fails : Bool
  pub sync_dir_fails : Bool
  pub remove_fails : Bool
  pub now : Timestamp

abbrev pub fail_if : WriterError → Bool → Writer → Run Unit
fail_if e true w = failed e w
fail_if e false w = done tt w

-- The index block, the meta block, the footer, the flush and the sync. `bufW.Flush` gives back the
-- error that bufio kept.
unfoldable pub write_tail : CloseRun → Writer → Run Unit
unfolding write_index_block write_meta_block write_footer
write_tail f w = write_index_block f.index w >>= λ index w1.
    write_meta_block f.meta_fails f.now w1 >>= λ meta w2.
    write_footer f.footer_fails index meta w2 >>= λ _ w3.
    fail_if flush_failed (f.flush_fails || w3.broken) w3 >>= λ _ w4.
    fail_if sync_failed f.sync_fails w4

-- The work on the temporary file.
unfoldable pub write_rest : CloseRun → Writer → Run Unit
unfolding flush_block write_tail
write_rest f w = flush_block f.block w >>= λ _ w1. write_tail f w1

-- `os.Remove` of the temporary file.
unfoldable pub remove_tmp : Bool → Writer → Writer
remove_tmp fails w = record w { tmp = fails && w.tmp }

-- The file is closed, renamed to the final path, and the directory synced.
unfoldable pub commit : CloseRun → Writer → Option WriterError × Writer
unfolding remove_tmp
commit f w =
    if f.close_fails
    then (some close_failed, remove_tmp f.remove_fails w)
    else if f.rename_fails
    then (some rename_failed, remove_tmp f.remove_fails w)
    else (let w' = record w { tmp = false; final = some w.file } in
        if f.sync_dir_fails
        then (some sync_dir_failed, w')
        else (none, record w' { finished = true }))

unfoldable pub commit_or_clean : CloseRun → Run Unit → Option WriterError × Writer
unfolding commit remove_tmp
commit_or_clean f (failed e w) = (some e, remove_tmp f.remove_fails w)
commit_or_clean f (done _ w) = commit f w

-- `Close`
unfoldable pub close : CloseRun → Writer → Option WriterError × Writer
unfolding commit_or_clean write_rest remove_tmp
close f w =
    if w.closed
    then (none, w)
    else (let w' = record w { closed = true } in
        if w.has_record
        then commit_or_clean f (write_rest f w')
        else (some zero_records, remove_tmp f.remove_fails w'))

-- `Abort`
unfoldable pub abort : Bool → Writer → Option WriterError × Writer
unfolding remove_tmp
abort remove_fails w =
    if w.finished || w.aborted
    then (none, w)
    else (let w' = record w { aborted = true; closed = true } in
        (if remove_fails && w.tmp then some remove_failed else none, remove_tmp remove_fails w'))
