-- ===== src/Sstable/RoundTrip.antt =====
-- A table file that internal/sstable/writer.go completes, as internal/sstable/reader.go opens it.
pub mod Closed
use mathlib.Core.List.{append-nil}
use dist_log.Prelude.{
  ℕ, zero, suc, ◌+◌, ◌-◌, ◌*◌, ◌^◌, ◌<◌, ◌≤◌, ◌≡◌, refl, sym, subst, ap, ap₂, ◌∙◌, List, [], ◌∷◌,
  ◌++◌, Option, none, some, Bool, true, false, ◌≢◌, length, length-append, ◌==◌, arith, map, leb,
}
use dist_log.Prelude.Decimal.{IsI64}
use dist_log.Types.{DocId, LogRecord, Timestamp}
use dist_log.Types.Entries.{Entry, IsNewest}
use dist_log.Types.Codec.{Json}
use dist_log.Bytes.{Byte}
use dist_log.Sstable.Format.{IndexEntry, MetaBlock}
use dist_log.Sstable.Format.Laws.{MetaBlockFits, IndexEntryFits}
use dist_log.Sstable.Reader.{Reader}
use dist_log.Sstable.Reader.Get.{SortedIn, lookup_over, WellFormed}
use dist_log.Sstable.Reader.Iterator.{readable}
use dist_log.Sstable.Writer.{Writer, Run, done, failed, TwoWrites, flush_block, meta_of}
use dist_log.Sstable.Writer.Built.{Built, Range, Spans, Range-Spans, flushed, flushed-Built}
use dist_log.Sstable.Writer.Added.{Works, flush_block-Works}
use dist_log.Sstable.Source.{good, not_above, file_source, OpenTable, open_source, block_of, view}
use dist_log.Sstable.Source.Loaded.{
  AllFull, loaded, map-block_of, readable-loaded, loaded-WellFormed, SortedIn-split,
}
use dist_log.Sstable.Source.Index.{Ascending}
use dist_log.Sstable.Source.Opened.{opened_table, open_source-table}
use dist_log.Sstable.Layout.{
  concat, block_bytes, data_bytes, index_of, index_entry, table_bytes, AllFit, AllFit-right,
}
use dist_log.Sstable.Layout.Sizes.{
  Room, Room-AllSmall, length-data_bytes, length-concat, count-le-encode_records, length-index_of,
}

-- A file that opens as a well-formed table of these records.
pub record Stored (J : Json) (es : List Entry) (file : List Byte) : Type 0 where
  pub opened : OpenTable
  pub opens : open_source (file_source file) ≡ good opened
  pub records : readable (view J opened).blocks ≡ es
  pub well_formed :
      WellFormed
        (view J opened).meta.min_doc_id
        (suc (view J opened).meta.max_doc_id)
        (view J opened).blocks
  pub newest : IsNewest (view J opened).meta.max_doc_id es

abbrev Below : Option DocId → ℕ → Type 0
Below none lo = Unit
Below (some q) lo = q < lo

module _ (J : Json) where
  not_above-Below :
      (prev : Option DocId) (lo k : ℕ) → Below prev lo → lo ≤ k → not_above prev k ≡ false
  not_above-Below none lo k h s = refl
  not_above-Below (some q) lo k h s = ground arith

  -- The index of blocks with ascending records ascends.
  index-Ascending :
      (prev : Option DocId) (lo hi off : ℕ) (bs : List (List Entry))
      → Below prev lo
      → AllFull J bs
      → AllFit J (concat bs)
      → SortedIn lo hi (concat bs)
      → off + length (data_bytes J bs) < 2 ^ 32
      → Ascending prev (index_of J off bs)
  unfolding index_of concat data_bytes
  index-Ascending prev lo hi off [] b f h s n = tt
  index-Ascending prev lo hi off ([] ∷ bs) b f h s n = absurd (f.0 refl)
  index-Ascending prev lo hi off (((i, r) ∷ es) ∷ bs) b f h (a, s) n =
      let block : List Entry = (i, r) ∷ es in
      let (mid, l, m) = SortedIn-split J (suc i) hi es (concat bs) s in
      let size = length-append (block_bytes J block) (data_bytes J bs) in
      let fits : IndexEntryFits (index_entry J off block) = record {
        first_doc_id = h.0.doc_id;
        block_offset = omega (arith, n);
        block_size = omega (arith, n, size);
        reserved = omega arith;
      } in
      (
        fits,
        not_above-Below prev lo i b a,
        index-Ascending (some i) mid hi (off + length (block_bytes J block)) bs
            (SortedIn-lt i mid es l) f.1 (AllFit-right J block (concat bs) h) m
            (omega (arith, n, size)),
      )
    where
      SortedIn-lt : (i mid : ℕ) (es : List Entry) → SortedIn (suc i) mid es → i < mid
      SortedIn-lt i mid [] s = omega (arith, s)
      SortedIn-lt i mid ((j, q) ∷ es) s = omega (arith, s.0, SortedIn-lt j mid es s.1)

  spans :
      (bs : List (List Entry)) (w : Writer)
      → Built J true bs [] w
      → concat bs ≢ []
      → Spans w (concat bs)
  spans bs w h q = Range-Spans w (concat bs) q (subst (Range w) (append-nil (concat bs)) h.range)

  meta-MetaBlockFits :
      (now : Timestamp) (bs : List (List Entry)) (w : Writer)
      → Built J true bs [] w
      → concat bs ≢ []
      → Room J (concat bs)
      → IsI64 now
      → MetaBlockFits (meta_of now w)
  unfolding meta_of
  meta-MetaBlockFits now bs w h q room t =
      let (has, s, l, u0, u1, t0, t1, last) = spans bs w h q in
      let count = count-le-encode_records J (concat bs) in
      let all = ap length (append-nil (concat bs)) in
      record {
        min_doc_id = u0;
        max_doc_id = u1;
        min_timestamp = t0;
        max_timestamp = t1;
        record_count = omega (arith, h.record_count, all, count, room);
        data_block_count = omega (arith, h.block_count, length-concat J bs h.full, count, room);
        created_at_unix = t;
        reserved = refl;
      }

  -- The file of a writer that has written all its blocks.
  abbrev pub written_file : Timestamp → List (List Entry) → Writer → List Byte
  written_file now bs w = table_bytes (data_bytes J bs) (index_of J 0 bs) (meta_of now w)

  pub size_lem :
      (bs : List (List Entry))
      → AllFull J bs
      → Room J (concat bs)
      → length (data_bytes J bs) + 24 * length (index_of J 0 bs) < 2 ^ 32 - 8
  size_lem bs f room = omega (
    arith,
    length-data_bytes J bs,
    length-index_of J 0 bs,
    length-concat J bs f,
    count-le-encode_records J (concat bs),
    room,
  )

  -- Such a file is a table of the records in its blocks.
  pub written_file-Stored :
      (now : Timestamp) (bs : List (List Entry)) (w : Writer)
      → Built J true bs [] w
      → concat bs ≢ []
      → AllFit J (concat bs)
      → Room J (concat bs)
      → IsI64 now
      → Stored J (concat bs) (written_file now bs w)
  unfolding view
  written_file-Stored now bs w h q fit room t =
      let front : List Byte = data_bytes J bs in
      let es : List IndexEntry = index_of J 0 bs in
      let m : MetaBlock = meta_of now w in
      let small = size_lem bs h.full room in
      let (has, s, l, u0, u1, t0, t1, last) = spans bs w h q in
      let table : OpenTable =
        opened_table front es m (meta-MetaBlockFits now bs w h q room t) small in
      let blocks : map (block_of J (file_source (table_bytes front es m))) es ≡ loaded J bs =
        unfold table_bytes in
        map-block_of J [] _ bs fit (Room-AllSmall J bs room) (omega (arith, small)) in
      record {
        opened = table;
        opens =
            open_source-table front es m (meta-MetaBlockFits now bs w h q room t) small
              (index-Ascending none w.min_doc_id (suc w.max_doc_id) 0 bs tt h.full fit s
                (omega (arith, small)))
              (unfold meta_of in h.block_count ∙ sym (length-index_of J 0 bs));
        records = ap readable blocks ∙ readable-loaded J bs;
        well_formed =
            unfold meta_of in
            subst (WellFormed w.min_doc_id (suc w.max_doc_id)) (sym blocks)
              (loaded-WellFormed J w.min_doc_id (suc w.max_doc_id) bs h.full s);
        newest =
            unfold meta_of in
            (
              λ k p. lookup_over k w.min_doc_id (suc w.max_doc_id) (concat bs) (omega arith) s,
              last,
            );
      }
