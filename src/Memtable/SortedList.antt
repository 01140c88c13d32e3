-- ===== src/Memtable/SortedList.antt =====
-- A list in ascending order does what internal/memtable asks of its skip list.
use dist_log.Prelude.{refl, sym, List, [], arith, length}
use dist_log.Types.Entries.{Entry, lookup, put_entry, SortedFrom, put_entry-SortedFrom}
use dist_log.Memtable.{SkipList}
use dist_log.Memtable.Compared.{
  put_by-compare_doc_ids, get_by-compare_doc_ids, SortedFrom-AscendingBy,
}

abbrev pub sorted_list : SkipList
sorted_list = record {
  Carrier = (es : List Entry) × SortedFrom 0 es;
  empty = ([], tt);
  get = λ k l. lookup k l.0;
  set = λ k v l. (put_entry k v l.0, put_entry-SortedFrom k v l.0 0 (omega arith) l.1);
  count = λ l. length l.0;
  walk = λ l. l.0;
  walk_empty = refl;
  walk_set = λ k v l. sym (put_by-compare_doc_ids k v l.0);
  walk_ascending = λ l. SortedFrom-AscendingBy 0 l.0 l.1;
  get_walk = λ k l. sym (get_by-compare_doc_ids k l.0);
  count_walk = λ l. refl;
}
