-- ===== src/Tests/Lives.antt =====
-- The theorem on the life of an engine and its next start, at a concrete life.
use dist_log.Types.Allocator as Allocator
use dist_log.Prelude.{
  str_eq, ◌==◌, ◌≤◌, ◌%◌, ◌+◌, if◌then◌else◌, ◌∙◌, sym, subst, ℕ, suc, ◌≡◌, ◌<◌, ◌^◌, refl, [], ◌∷◌,
  none, some, true, false, arith, ap,
}
use dist_log.Prelude.Int.{pos, ◌+ℤ◌}
use dist_log.Types.Entries.{lookup, put_entry}
use dist_log.Bytes.{put_le, to_u64, from_u64, get_le}
use dist_log.Bytes.Crc.{checksum}
use dist_log.Memtable as Memtable
use dist_log.Memtable.{MemTable, record_size_bytes}
use dist_log.Memtable.SortedList.{sorted_list}
use dist_log.Sstable.Reader.{Reader}
use dist_log.Engine.State.{Config, Engine}
use dist_log.Engine.Write.{AppendOutcome, write_attempts}
use dist_log.Engine.Flush.{table, freeze_round, flush_one_if_any}
use dist_log.Engine.Table.{write_table}
use dist_log.Engine.Laws.Sound.{
  KeepsReplay, fresh, number_step, attempt_step, freeze_step, flush_step,
}
use dist_log.Tests.Engines.{a_config}
use dist_log.Tests.Tables.{record_at, record_at-EntryFits, braces, calm}
use dist_log.Tests.Reopened.{
  tiny_table, first_bytes, second_bytes, segment, segment_file, small-Logged, torn_tail,
}
use dist_log.Types.{DocId}
use dist_log.Sstable.Source.{file_source, open_source}
use dist_log.Sstable.Layout.Sizes.{Room}
use dist_log.Sstable.Format.{encode_record_header}
use dist_log.Sstable.Layout.{AllFit, encode_records}
use dist_log.Wal.Replay.Laws.{segment_bytes}
use dist_log.Engine.Read.{get}
use dist_log.Engine.Startup.{readable, load_all_sstables, remove_orphan_sstable_tmp}
use dist_log.Engine.Recovery.{max_doc_id_from}
use dist_log.Engine.Replay.Same.{appended}
use dist_log.Engine.Open.{Directory, load_table, opened, open_dir}
use dist_log.Engine.Open.Refines.{HoldsLog}
use dist_log.Engine.Life.{FromFile, InLife, mark_after, Life, begin, live_on}
use dist_log.Engine.Life.Newest.{oldest_first}
use dist_log.Engine.Life.Crash.{get-open_dir-Life}

-- A table of one record is frozen.
abbrev tiny : Config
tiny = record a_config { mem_table_size_limit = pos 1 }

tiny_table-written :
    (write_table braces calm none ((1, record_at 0) ∷ [])).0 ≡ table true (tiny_table 1)
unfolding write_table put_le to_u64 checksum from_u64 get_le tiny_table file_source
tiny_table-written = refl

tiny_table-second :
    (write_table braces calm none ((2, record_at 0) ∷ [])).0 ≡ table true (tiny_table 2)
unfolding write_table put_le to_u64 checksum from_u64 get_le tiny_table file_source
tiny_table-second = refl

abbrev start : Engine sorted_list
start = fresh sorted_list tiny

unfoldable numbered : Engine sorted_list → Engine sorted_list
unfolding Allocator.next
numbered e = record e { alloc = (Allocator.next e.alloc).1 }

unfoldable attempted : AppendOutcome → ℕ → Engine sorted_list → Engine sorted_list
unfolding write_attempts
attempted o id e = (write_attempts sorted_list 1 o id (record_at 0) e).1

unfoldable froze : Engine sorted_list → Engine sorted_list
unfolding freeze_round
froze e = freeze_round sorted_list false e

unfoldable stored_in : Reader → Engine sorted_list → Engine sorted_list
unfolding flush_one_if_any
stored_in t e = (flush_one_if_any sorted_list (table true t) e).1

unfoldable first_frozen : Engine sorted_list
unfolding numbered attempted froze fresh
first_frozen = froze (attempted AppendOutcome.appended 1 (numbered start))

unfoldable first_stored : Engine sorted_list
unfolding first_frozen stored_in
first_stored = stored_in (tiny_table 1) first_frozen

unfoldable second_frozen : Engine sorted_list
unfolding first_stored numbered attempted froze
second_frozen = froze (attempted AppendOutcome.appended 2 (numbered first_stored))

unfoldable second_stored : Engine sorted_list
unfolding second_frozen stored_in
second_stored = stored_in (tiny_table 2) second_frozen

unfoldable third_frozen : Engine sorted_list
unfolding second_stored numbered attempted froze
third_frozen = froze (attempted AppendOutcome.appended 3 (numbered second_stored))

-- The records 1 and 2 are in table files, 3 is frozen, and 4 in the active table. The append of a record
-- with the number 5 was cut short.
unfoldable lived : Engine sorted_list
unfolding third_frozen numbered attempted
lived =
    attempted AppendOutcome.cut_short 5
      (numbered (attempted AppendOutcome.appended 4 (numbered third_frozen)))

fits :
    (id : ℕ) (m : MemTable sorted_list)
    → Memtable.entries sorted_list m ≡ (id, record_at 0) ∷ []
    → id < 2 ^ 63
    → (write_table braces calm none ((id, record_at 0) ∷ [])).0 ≡ table true (tiny_table id)
    → FromFile sorted_list braces (table true (tiny_table id)) (m ∷ [])
unfolding FromFile file_source
fits id m e h w = (
  calm,
  none,
  ap (λ es. (write_table braces calm none es).0) e ∙ w,
  refl,
  omega arith,
  subst (AllFit braces) (sym e) (record_at-EntryFits id 0 (omega arith) (omega arith), tt),
  subst (Room braces) (sym e)
      (unfold encode_records encode_record_header put_le to_u64 in omega arith),
)

-- A number is taken, and a record is written with it.
writes :
    (o : AppendOutcome) (e : Engine sorted_list) (mark id : ℕ)
    → e.alloc.counter + 1 ≡ id
    → mark < id
    → id < 2 ^ 64
    → KeepsReplay sorted_list o e.active.frozen e.log.active.torn
    → (attempted o id (numbered e)).log.next_id ≡ e.log.next_id
    → Life sorted_list braces start e mark
    → Life sorted_list braces start (attempted o id (numbered e)) mark
unfolding attempted numbered InLife mark_after Allocator.next
writes o e mark id c m small f q l =
    let small' : suc e.alloc.counter < 2 ^ 64 = omega (arith, c, small) in
    let counted : id ≤ (e.alloc.counter + 1) % 2 ^ 64 = omega (arith, c, small) in
    let same : (e.log.next_id == e.log.next_id) ≡ true = ground arith in
    let same' : ((attempted o id (numbered e)).log.next_id == e.log.next_id) ≡ true =
      ground (arith, q) in
    let first : Life sorted_list braces start (numbered e) mark =
      subst (Life sorted_list braces start (numbered e))
        (ap (λ b. if b then mark else e.alloc.counter) same) (live_on l (number_step e) small') in
    subst (Life sorted_list braces start (attempted o id (numbered e)))
      (ap (λ b. if b then mark else (numbered e).alloc.counter) same')
      (live_on first (attempt_step o id (record_at 0) (numbered e)) (f, m, counted))

rotates :
    (e : Engine sorted_list) (mark : ℕ)
    → suc e.log.next_id < 2 ^ 64
    → ((froze e).log.next_id == e.log.next_id) ≡ false
    → Life sorted_list braces start e mark
    → Life sorted_list braces start (froze e) e.alloc.counter
unfolding froze InLife mark_after
rotates e mark w q l =
    subst (Life sorted_list braces start (froze e))
      (ap (λ b. if b then mark else e.alloc.counter) q) (live_on l (freeze_step false e) w)

stores :
    (t : Reader) (e : Engine sorted_list) (mark : ℕ)
    → FromFile sorted_list braces (table true t) e.frozen
    → ((stored_in t e).log.next_id == e.log.next_id) ≡ true
    → Life sorted_list braces start e mark
    → Life sorted_list braces start (stored_in t e) mark
unfolding stored_in InLife mark_after
stores t e mark h q l =
    subst (Life sorted_list braces start (stored_in t e))
      (ap (λ b. if b then mark else e.alloc.counter) q) (live_on l (flush_step (table true t) e) h)

first-Life : Life sorted_list braces start first_stored 1
unfolding first_stored first_frozen numbered attempted froze stored_in fresh write_attempts
    freeze_round flush_one_if_any Memtable.entries ◌+ℤ◌ lookup record_size_bytes put_entry
    tiny_table
first-Life =
    stores (tiny_table 1) first_frozen 1 (fits 1 _ refl (omega arith) tiny_table-written) refl (
      rotates (attempted AppendOutcome.appended 1 (numbered start)) 0 (omega arith) refl (
        writes AppendOutcome.appended start 0 1 refl (omega arith) (omega arith) (refl, refl) refl
          begin))

second-Life : Life sorted_list braces start second_stored 2
unfolding second_stored second_frozen first_stored first_frozen numbered attempted froze stored_in
    fresh write_attempts freeze_round flush_one_if_any Memtable.entries ◌+ℤ◌ lookup
    record_size_bytes put_entry tiny_table
second-Life =
    stores (tiny_table 2) second_frozen 2 (fits 2 _ refl (omega arith) tiny_table-second) refl (
      rotates (attempted AppendOutcome.appended 2 (numbered first_stored)) 1 (omega arith) refl (
        writes AppendOutcome.appended first_stored 1 2 refl (omega arith) (omega arith) (refl, refl)
          refl first-Life))

lived-Life : Life sorted_list braces start lived 3
unfolding lived third_frozen second_stored second_frozen first_stored first_frozen numbered
    attempted froze stored_in fresh write_attempts freeze_round flush_one_if_any ◌+ℤ◌ lookup
    record_size_bytes put_entry tiny_table
lived-Life =
    writes AppendOutcome.cut_short (attempted AppendOutcome.appended 4 (numbered third_frozen)) 3 5
      refl (omega arith) (omega arith) tt refl
      (writes AppendOutcome.appended third_frozen 3 4 refl (omega arith) (omega arith) (refl, refl)
        refl
        (rotates (attempted AppendOutcome.appended 3 (numbered second_stored)) 2 (omega arith) refl
          (writes AppendOutcome.appended second_stored 2 3 refl (omega arith) (omega arith)
            (refl, refl) refl second-Life)))

-- What is left on the disk.
unfoldable disk : Directory
unfolding segment_file file_source
disk = record {
  entries =
      record { name = "sst-0000000000000001.sst"; is_dir = false }
      ∷ record { name = "sst-0000000000000002.sst"; is_dir = false }
      ∷ [];
  table_file = λ name.
      some (
        file_source (if str_eq name "sst-0000000000000001.sst" then first_bytes else second_bytes));
  sealed = (3, segment_file (segment 3 (3 ∷ []))) ∷ [];
  active_id = 4;
  active = segment_file (segment 4 (4 ∷ []));
  scan_fails = false;
  clean_fails = false;
  list_fails = false;
  quarantine_fails = λ _. false;
  wal_fails = false;
  deletable = λ id. true;
}

load_table-first : load_table braces disk "sst-0000000000000001.sst" ≡ readable (tiny_table 1)
unfolding disk load_table open_source file_source from_u64 get_le checksum tiny_table
load_table-first = refl

load_table-second : load_table braces disk "sst-0000000000000002.sst" ≡ readable (tiny_table 2)
unfolding disk load_table open_source file_source from_u64 get_le checksum tiny_table
load_table-second = refl

disk-loads :
    load_all_sstables (load_table braces disk) (remove_orphan_sstable_tmp disk.entries)
    ≡ some (record { readers = tiny_table 1 ∷ tiny_table 2 ∷ []; quarantined_count = 0 })
unfolding disk load_all_sstables remove_orphan_sstable_tmp
disk-loads = λ i.
    load_all_sstables
      (λ name.
        if str_eq name "sst-0000000000000001.sst" then load_table-first i else load_table-second i)
      (remove_orphan_sstable_tmp disk.entries)

lived-HoldsLog : HoldsLog sorted_list braces (max_doc_id_from 0 lived.sstables) disk lived.log
unfolding disk lived third_frozen second_stored second_frozen first_stored first_frozen numbered
    attempted froze stored_in fresh write_attempts freeze_round flush_one_if_any segment_file
    appended segment_bytes small-Logged ◌+ℤ◌ lookup record_size_bytes put_entry
lived-HoldsLog = record {
  disk = segment_file;
  sealed = refl;
  active_id = refl;
  active = refl;
  sealed_files = (torn_tail (segment 3 (3 ∷ [])) (small-Logged 3 (omega arith), tt) refl, tt);
  active_file =
      torn_tail (record (segment 4 (4 ∷ [])) { torn = true }) (small-Logged 4 (omega arith), tt)
        refl;
  numbered = refl;
}

get-open_dir-Life_example :
    (e : Engine sorted_list) × (open_dir sorted_list braces a_config "data" disk lived.log
      ≡ opened e)
    × ((k : DocId) → get sorted_list k e ≡ get sorted_list k lived)
unfolding lived third_frozen second_stored second_frozen first_stored first_frozen numbered
    attempted froze stored_in fresh write_attempts freeze_round flush_one_if_any oldest_first ◌+ℤ◌
    lookup record_size_bytes put_entry
get-open_dir-Life_example =
    get-open_dir-Life sorted_list braces tiny a_config lived 3 "data" disk 0 lived-Life refl
      (unfold disk in record { scan = refl; clean = refl; list = refl; wal = refl }) disk-loads
      lived-HoldsLog
