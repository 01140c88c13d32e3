-- ===== src/Tests/Tables.antt =====
-- The theorems on writing, opening and flushing table files at concrete inputs.
use dist_log.Prelude.{ℕ, ◌^◌, ◌<◌, ◌≡◌, refl, List, [], ◌∷◌, none, some, true, false, arith}
use dist_log.Prelude.Int.{pos}
use dist_log.Bytes.{put_le, to_u64}
use dist_log.Types.{LogRecord}
use dist_log.Types.Entries.{Entry, put_entry}
use dist_log.Types.Codec.{Json}
use dist_log.Memtable as Memtable
use dist_log.Memtable.{MemTable, new_mem_table, put}
use dist_log.Memtable.SortedList.{sorted_list}
use dist_log.Sstable.Format.{encode_record_header}
use dist_log.Sstable.Reader.{Reader}
use dist_log.Sstable.Writer.{Writer, new_writer, note}
use dist_log.Sstable.Writer.Close.{CloseRun, close}
use dist_log.Sstable.Writer.Atomic.{Atomic, close-Atomic}
use dist_log.Sstable.Writer.Failures.{no_failures}
use dist_log.Sstable.Source.{file_source, good, decode_block}
use dist_log.Sstable.Source.Blocks.{decode_block-block_bytes}
use dist_log.Sstable.Layout.{encode_records, block_bytes, EntryFits, AllFit}
use dist_log.Sstable.Layout.Sizes.{Room}
use dist_log.Engine.State.{Engine}
use dist_log.Tests.Engines.{an_engine}
use dist_log.Engine.Read.{get}
use dist_log.Engine.Flush.{table, flush_one_if_any}
use dist_log.Engine.Table.{TableRun, write_table}
use dist_log.Engine.Table.Written.{write_table-Represents}
use dist_log.Engine.Table.Safe.{get-flush_written}
use dist_log.Engine.Laws.Moved.{Represents}

abbrev pub record_at : ℕ → LogRecord
record_at n = record {
  timestamp = pos n;
  tenant_id = "acme";
  source = "web";
  message = "hello";
  fields = [];
}

-- An encoding that keeps everything of these records but the timestamp.
abbrev pub braces : Json
braces = record { marshal = λ _. some (b'{' ∷ b'}' ∷ []); unmarshal = λ _. some (record_at 0) }

pub record_at-EntryFits : (d n : ℕ) → d < 2 ^ 64 → n < 2 ^ 63 → EntryFits braces (d, record_at n)
record_at-EntryFits d n h k = record {
  doc_id = h;
  timestamp = k;
  reads_back = record {
    bytes = b'{' ∷ b'}' ∷ [];
    encoded = refl;
    read = record_at 0;
    decoded = refl;
    same = refl;
  };
}

abbrev pub two_entries : List Entry
two_entries = (4, record_at 9) ∷ (7, record_at 5) ∷ []

two_entries-AllFit : AllFit braces two_entries
two_entries-AllFit = (
  record_at-EntryFits 4 9 (omega arith) (omega arith),
  (record_at-EntryFits 7 5 (omega arith) (omega arith), tt),
)

two_entries-Room : Room braces two_entries
unfolding encode_records encode_record_header put_le to_u64
two_entries-Room = omega arith

decode_block-block_bytes_example :
    decode_block braces (block_bytes braces two_entries) ≡ good two_entries
decode_block-block_bytes_example =
    decode_block-block_bytes braces two_entries two_entries-AllFit (omega (arith, two_entries-Room))
      (omega arith)

abbrev calm_close : CloseRun
calm_close = record {
  block = no_failures;
  index = no_failures;
  meta_fails = false;
  footer_fails = false;
  flush_fails = false;
  sync_fails = false;
  close_fails = false;
  rename_fails = false;
  sync_dir_fails = false;
  remove_fails = false;
  now = pos 100;
}

abbrev pub calm : TableRun
calm = record {
  create_fails = false;
  adds = λ _. no_failures;
  close = calm_close;
  remove_fails = false;
  read = file_source;
  deleted = true;
}

-- The disk fills up when the data blocks are flushed.
abbrev full_disk : TableRun
full_disk = record calm { close = record calm_close { flush_fails = true } }

abbrev frozen_two : MemTable sorted_list
frozen_two =
    (put sorted_list 7 (record_at 5)
      (put sorted_list 4 (record_at 9) (new_mem_table sorted_list)).1).1

frozen_two-entries : Memtable.entries sorted_list frozen_two ≡ two_entries
unfolding Memtable.entries put new_mem_table put_entry
frozen_two-entries = refl

write_table-Represents_example :
    (t : Reader) × ((write_table braces calm none (Memtable.entries sorted_list frozen_two)).0
      ≡ table true t)
    × Represents sorted_list frozen_two t
unfolding Memtable.entries put new_mem_table put_entry
write_table-Represents_example =
    write_table-Represents sorted_list braces calm none frozen_two
      (record {
        create = refl;
        adds = λ d. (refl, refl);
        close = record {
          block = (refl, refl);
          index = (refl, refl);
          meta = refl;
          footer = refl;
          flush = refl;
          sync = refl;
          close = refl;
          rename = refl;
          sync_dir = refl;
        };
        read = refl;
        now = omega arith;
      })
      two_entries-AllFit (λ q. cc) two_entries-Room

-- The writer after one record.
abbrev one_added : Writer
one_added = note 4 (record_at 9) (b'{' ∷ b'}' ∷ []) (new_writer none)

close-Atomic_example :
    Atomic
      (record calm_close { sync_dir_fails = true })
      one_added
      (close (record calm_close { sync_dir_fails = true }) one_added)
close-Atomic_example =
    close-Atomic (record calm_close { sync_dir_fails = true }) one_added
      (unfold note new_writer in refl)

-- An engine with both records in its frozen table.
abbrev flushing : Engine sorted_list
flushing = record an_engine { frozen = frozen_two ∷ [] }

get-flush_written_example :
    get sorted_list 7
      (flush_one_if_any sorted_list
        (write_table braces full_disk none (Memtable.entries sorted_list frozen_two)).0
        flushing).1
    ≡ get sorted_list 7 flushing
unfolding Memtable.entries put new_mem_table put_entry
get-flush_written_example =
    get-flush_written sorted_list braces 7 full_disk none frozen_two [] flushing refl refl
      (omega arith) two_entries-AllFit two_entries-Room
