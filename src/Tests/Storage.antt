-- ===== src/Tests/Storage.antt =====
-- The theorems on the storage formats, the log and the memory table at concrete inputs.
use dist_log.Prelude.{ℕ, ◌+◌, ◌≡◌, ◌≢◌, ◌≤◌, refl, List, [], ◌∷◌, ◌++◌, false, arith, length, ◌==◌}
use dist_log.Prelude.Int.{pos}
use dist_log.Bytes.{Byte, put_le, get_le}
use dist_log.Bytes.Crc.{checksum, update}
use dist_log.Types.{LogRecord}
use dist_log.Types.Allocator.{
  new_doc_id_allocator, call_next, call_observe, run, AllFresh, run-AllFresh,
}
use dist_log.Wal.Record.{max_payload, record_bytes, decode_record}
use dist_log.Wal.Record.Laws.Inverse.{decode_only_encoded}
use dist_log.Wal.Replay.{carry_on, Callback, replay, out_of_fuel}
use dist_log.Wal.Replay.Laws.{
  Appended, segment_bytes, feed, replay-segment_bytes, replay_cut_segment, replay_total,
}
use dist_log.Wal.Manager.{
  SegmentWriter, file_of, all_synced, short_write, at_lsn, append, list_segment_ids, seal,
  both_fine, Files, DirEntry, take_over,
}
use dist_log.Wal.Manager.Append.{Holds, append-Holds}
use dist_log.Wal.Manager.Reread.{replay-append}
use dist_log.Wal.Manager.Order.{IsOrdered, open_manager-IsOrdered, seal-IsOrdered}
use dist_log.Memtable.{new_mem_table, put}
use dist_log.Memtable.SortedList.{sorted_list}
use dist_log.Memtable.Laws.{IsAccounted, new_mem_table-IsAccounted, put-IsAccounted}

abbrev hello : List Byte
hello = 104 ∷ 105 ∷ []

abbrev two : List Appended
two = (1, hello) ∷ (1, []) ∷ []

-- A callback that counts records and refuses none.
abbrev counting : Callback ℕ ℕ
counting r n = carry_on (n + 1)

decode_only_encoded_example :
    (51 ∷ 156 ∷ 123 ∷ 146 ∷ 2 ∷ 0 ∷ 0 ∷ 0 ∷ 1 ∷ 104 ∷ 105 ∷ 9 ∷ []
      ≡ record_bytes 1 hello ++ (9 ∷ []))
    × (length hello ≤ max_payload)
unfolding get_le update decode_record
decode_only_encoded_example =
    decode_only_encoded
      (record {
        rest = 51 ∷ 156 ∷ 123 ∷ 146 ∷ 2 ∷ 0 ∷ 0 ∷ 0 ∷ 1 ∷ 104 ∷ 105 ∷ 9 ∷ [];
        fault = false;
      })
      (record { rest = 9 ∷ []; fault = false }) 1 hello
      (
        omega arith,
        (
          omega arith,
          (
            omega arith,
            (
              omega arith,
              (
                omega arith,
                (
                  omega arith,
                  (
                    omega arith,
                    (omega arith, (omega arith, (omega arith, (omega arith, (omega arith, tt))))),
                  ),
                ),
              ),
            ),
          ),
        ),
      )
      refl

replay_cut_segment_example :
    replay 3 (record { rest = segment_bytes two ++ (51 ∷ 156 ∷ []); fault = false }) counting 0
    ≡ feed 3 counting 0 two 0
unfolding put_le checksum record_bytes
replay_cut_segment_example =
    replay_cut_segment 3 counting two 1 hello (51 ∷ 156 ∷ [])
      (146 ∷ 2 ∷ 0 ∷ 0 ∷ 0 ∷ 1 ∷ 104 ∷ 105 ∷ []) 123 0 (omega arith, (omega arith, tt))
      (omega arith) refl (λ q. cc)

replay-segment_bytes_example :
    replay 3 (record { rest = segment_bytes two ++ []; fault = false }) counting 0
    ≡ feed 3 counting 0 two 0
replay-segment_bytes_example =
    replay-segment_bytes 3 counting two [] false 0 (omega arith, (omega arith, tt))
      (unfold decode_record in tt)

replay_total_example : replay 3 (record { rest = hello; fault = false }) counting 0 ≢ out_of_fuel
replay_total_example = replay_total 3 counting (record { rest = hello; fault = false }) 0

run-AllFresh_example :
    AllFresh 0
      (call_next ∷ call_observe 7 ∷ call_next ∷ [])
      (run (call_next ∷ call_observe 7 ∷ call_next ∷ []) new_doc_id_allocator).0
run-AllFresh_example =
    run-AllFresh (call_next ∷ call_observe 7 ∷ call_next ∷ []) new_doc_id_allocator (omega arith)

abbrev start : SegmentWriter
start = record { id = 1; offset = 0; closed = false }

append-Holds_example :
    ((append false all_synced 1 hello start ((1, []) ∷ [])).0 ≡ at_lsn (length (segment_bytes [])))
    × Holds
        (append false all_synced 1 hello start ((1, []) ∷ [])).1
        (append false all_synced 1 hello start ((1, []) ∷ [])).2
        ([] ++ ((1, hello) ∷ []))
    × ((j : ℕ)
        → (start.id == j) ≡ false
        → file_of j (append false all_synced 1 hello start ((1, []) ∷ [])).2
          ≡ file_of j ((1, []) ∷ []))
append-Holds_example =
    append-Holds 1 hello start ((1, []) ∷ []) [] refl (omega arith)
      (unfold file_of segment_bytes in record { contents = refl; at_end = refl })

-- A write that stops after three bytes of the record leaves the first record only.
replay-append_example :
    replay 1
      (record {
        rest =
            file_of 1
              (append false (short_write 3) 1 hello start ((1, record_bytes 1 [] ++ []) ∷ [])).2;
        fault = false;
      })
      counting
      0
    ≡ feed 1 counting 0 ((1, []) ∷ []) 0
unfolding record_bytes checksum put_le
replay-append_example =
    replay-append (short_write 3) 1 hello start ((1, record_bytes 1 [] ++ []) ∷ []) ((1, []) ∷ [])
      counting 0 refl (omega arith) (omega arith, tt) (unfold file_of segment_bytes in refl)

-- A directory with the second segment and with a file that is none.
abbrev listed : List DirEntry
listed =
    record { name = "wal-000002.log"; is_dir = false }
    ∷ record { name = "notes.txt"; is_dir = false }
    ∷ []

abbrev some_files : Files
some_files = (2, hello) ∷ []

seal-IsOrdered_example :
    IsOrdered (seal both_fine (take_over (list_segment_ids listed) some_files).0 some_files).1
unfolding list_segment_ids take_over
seal-IsOrdered_example =
    seal-IsOrdered both_fine (take_over (list_segment_ids listed) some_files).0 some_files
      (omega arith)
      (open_manager-IsOrdered "wal" listed some_files refl
        (unfold list_segment_ids in (omega arith, tt))).1

abbrev a_record : LogRecord
a_record = record {
  timestamp = pos 5;
  tenant_id = "acme";
  source = "web";
  message = "hello";
  fields = [];
}

put-IsAccounted_example :
    IsAccounted sorted_list (put sorted_list 4 a_record (new_mem_table sorted_list)).1
put-IsAccounted_example =
    put-IsAccounted sorted_list 4 a_record (new_mem_table sorted_list)
      (new_mem_table-IsAccounted sorted_list)
