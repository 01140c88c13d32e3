-- ===== src/Tests/Engines.antt =====
-- The theorems on the engine at concrete inputs.
use dist_log.Prelude.{
  ℕ, ◌+◌, ◌≡◌, refl, List, [], ◌∷◌, some, Bool, true, false, arith, if◌then◌else◌, ◌==◌,
}
use dist_log.Prelude.Int.{pos, ◌≤ℤ◌}
use dist_log.Types.{DocId}
use dist_log.Types.Allocator as Allocator
use dist_log.Types.Entries.{Entry, lookup, SortedFrom}
use dist_log.Memtable.{MemTable}
use dist_log.Memtable.SortedList.{sorted_list}
use dist_log.Sstable.Reader.{Reader, found}
use dist_log.Sstable.Reader.Get.{of_lookup}
use dist_log.Query.Plan.{no_options}
use dist_log.Query.Execute.{Visitor, go_on, visit_all}
use dist_log.Engine.Startup.{sort_sstables_newest_first}
use dist_log.Engine.Startup.Order.{NewestFirst, count, sort_sstables_newest_first-NewestFirst}
use dist_log.Engine.Scan.{scan_sources, cursors}
use dist_log.Engine.Scan.Merge.{merged, first_hit, scan_sources-merged}
use dist_log.Engine.State.{Config, Engine, append_record, backoff}
use dist_log.Engine.Write.{
  AppendOutcome, write_attempts, written, no_faults, write, wait_for_stall_clear, stall_predicate,
}
use dist_log.Engine.Read.{get, scan_with_options}
use dist_log.Engine.Flush.{write_fails, open_fails, gave_up, do_freeze, drain}
use dist_log.Engine.Laws.Written.{write_lem}
use dist_log.Engine.Laws.Moved.{get-do_freeze}
use dist_log.Engine.Laws.Sound.{fresh, stay, step, KeepsLog, number_step, attempt_step, IsSound}
use dist_log.Engine.Laws.Steps.{steps-IsSound}
use dist_log.Engine.Laws.Scanned.{scan_with_options-get}
use dist_log.Engine.Laws.Stalls.{backoff-bounds, drain_gives_up}
use dist_log.Tests.Queries.{acme, one, a_table}

abbrev pub a_config : Config
a_config = record {
  mem_table_size_limit = pos 1;
  mem_table_hard_limit = pos 2;
  max_frozen_mem_tables = pos 4;
  max_flush_retries = pos 2;
  flush_retry_base_delay = pos 3;
  flush_retry_max_delay = pos 9;
}

-- A table with the record 4 in it.
abbrev full_table : Bool → MemTable sorted_list
full_table frozen = record { list = (one, (omega arith, tt)); size_bytes = pos 81; frozen = frozen }

abbrev pub an_engine : Engine sorted_list
an_engine = record {
  config = a_config;
  active = full_table false;
  frozen = full_table true ∷ [];
  frozen_wals = 1 ∷ [];
  sstables = a_table ∷ [];
  log = record {
    active = record { id = 2; records = one; torn = false; behind = [] };
    sealed = record { id = 1; records = one; torn = false; behind = [] } ∷ [];
    next_id = 3;
  };
  alloc = record { counter = 4 };
  next_sst_seq = 1;
  last_scan_pruned = 0;
  freeze_signal = true;
  flush_signal = false;
  shutdown = false;
  closed = false;
  fatal = false;
}

get-do_freeze_example :
    get sorted_list 4 (do_freeze sorted_list false an_engine) ≡ get sorted_list 4 an_engine
get-do_freeze_example = get-do_freeze sorted_list 4 an_engine

write_lem_example :
    ((write sorted_list [] no_faults acme an_engine).0 ≡ written (Allocator.next an_engine.alloc).0)
    × ((write sorted_list [] no_faults acme an_engine).1.log
        ≡ append_record ((Allocator.next an_engine.alloc).0, acme) an_engine.log)
    × ((j : DocId)
        → get sorted_list j (write sorted_list [] no_faults acme an_engine).1 ≡ (
            if (Allocator.next an_engine.alloc).0 == j
            then found acme
            else get sorted_list j an_engine))
unfolding stall_predicate
write_lem_example =
    write_lem sorted_list [] acme an_engine refl refl refl (unfold wait_for_stall_clear in refl)

-- The first write: its number, and its only attempt.
steps-IsSound_example :
    IsSound sorted_list
      (write_attempts sorted_list 1 AppendOutcome.appended 1 acme
        (record (fresh sorted_list a_config) {
          alloc = (Allocator.next (fresh sorted_list a_config).alloc).1;
        })).1
unfolding fresh
steps-IsSound_example =
    let first : Engine sorted_list = record (fresh sorted_list a_config) {
      alloc = (Allocator.next (fresh sorted_list a_config).alloc).1;
    } in
    steps-IsSound sorted_list a_config
      (write_attempts sorted_list 1 AppendOutcome.appended 1 acme first).1
      (step
        (step (stay (fresh sorted_list a_config)) (number_step (fresh sorted_list a_config))
          (unfold KeepsLog in tt))
        (attempt_step AppendOutcome.appended 1 acme first) (unfold KeepsLog in (refl, refl)))

abbrev nothing : Visitor ℕ
nothing k r n = go_on (n + 1)

scan_with_options-get_example :
    (es : List Entry) × ((scan_with_options sorted_list no_options
        (λ n. false)
        nothing
        an_engine
        0).0
      ≡ visit_all nothing es 0)
    × SortedFrom 0 es
    × ((k : DocId) → get sorted_list k an_engine ≡ of_lookup (lookup k es))
scan_with_options-get_example =
    scan_with_options-get sorted_list nothing an_engine 0 refl
      ((acme, [], 5, refl, omega arith, omega arith, omega arith), tt)

backoff-bounds_example : (pos 1 ≤ℤ backoff a_config 3) × (backoff a_config 3 ≤ℤ pos 9)
backoff-bounds_example = backoff-bounds a_config 3 (omega arith)

drain_gives_up_example :
    ((drain sorted_list ((write_fails, false) ∷ (open_fails, false) ∷ []) 0 an_engine).0
      ≡ some (gave_up, 2))
    × ((drain sorted_list ((write_fails, false) ∷ (open_fails, false) ∷ []) 0 an_engine).1.fatal
        ≡ true)
    × ((drain sorted_list ((write_fails, false) ∷ (open_fails, false) ∷ []) 0 an_engine).1.shutdown
        ≡ true)
    × ((drain sorted_list ((write_fails, false) ∷ (open_fails, false) ∷ []) 0 an_engine).1.frozen
        ≡ full_table true ∷ [])
drain_gives_up_example =
    drain_gives_up sorted_list write_fails (open_fails ∷ []) 0 (full_table true) [] an_engine
      (tt, (tt, tt)) refl refl refl

sort_sstables_newest_first-NewestFirst_example :
    NewestFirst (sort_sstables_newest_first (a_table ∷ a_table ∷ []))
    × ((p : Reader → Bool)
        → count p (sort_sstables_newest_first (a_table ∷ a_table ∷ []))
          ≡ count p (a_table ∷ a_table ∷ []))
sort_sstables_newest_first-NewestFirst_example =
    sort_sstables_newest_first-NewestFirst (a_table ∷ a_table ∷ [])

scan_sources-merged_example :
    (scan_sources (λ n. false) nothing (record { entries = one; failed = false } ∷ []) 0
      ≡ visit_all nothing (merged (record { entries = one; failed = false } ∷ [])) 0)
    × SortedFrom 0 (merged (record { entries = one; failed = false } ∷ []))
    × ((j : DocId)
        → lookup j (merged (record { entries = one; failed = false } ∷ []))
          ≡ first_hit j (cursors (record { entries = one; failed = false } ∷ [])))
scan_sources-merged_example =
    scan_sources-merged nothing (record { entries = one; failed = false } ∷ []) 0
      ((omega arith, tt), tt) refl
