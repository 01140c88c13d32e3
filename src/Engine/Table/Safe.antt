-- ===== src/Engine/Table/Safe.antt =====
-- The flush of a frozen table (internal/engine/engine.go) whatever operation of it fails.
use dist_log.Prelude.{
  ◌≡◌, refl, sym, subst, ap, ◌∙◌, List, [], ◌∷◌, Option, none, some, Bool, true, false,
  if◌then◌else◌, ◌≢◌,
}
use dist_log.Prelude.Decimal.{IsI64}
use dist_log.Types.{DocId}
use dist_log.Types.Entries.{Entry}
use dist_log.Types.Codec.{Json}
use dist_log.Bytes.{Byte}
use dist_log.Memtable as Memtable
use dist_log.Memtable.{SkipList, MemTable}
use dist_log.Sstable.Reader.{Reader}
use dist_log.Sstable.Writer.{Writer, WriterError, Run, done, failed, TwoWrites, new_writer, add}
use dist_log.Sstable.Writer.Close.{close, remove_tmp}
use dist_log.Sstable.Writer.Failures.{
  no_failures, working, Improves, bind-Improves, add-Improves, close-working,
}
use dist_log.Sstable.Source.{file_source}
use dist_log.Sstable.Layout.{AllFit}
use dist_log.Sstable.Layout.Sizes.{Room}
use dist_log.Engine.State.{Engine}
use dist_log.Engine.Read.{get}
use dist_log.Engine.Flush.{
  FlushOutcome, table, write_fails, open_fails, FlushResult, nothing_to_flush, flush_one_if_any,
  flush_front,
}
use dist_log.Engine.Table.{
  TableRun, write_records, after_close, finish_table, write_table, open_final,
}
use dist_log.Engine.Table.Written.{write_table-Represents}
use dist_log.Engine.Laws.Moved.{Represents, get-flush_one_if_any}

-- The same flush when nothing of it fails.
abbrev working_run : TableRun → TableRun
working_run run = record {
  create_fails = false;
  adds = λ _. no_failures;
  close = working run.close;
  remove_fails = run.remove_fails;
  read = run.read;
  deleted = run.deleted;
}

table_injective : {a b : Bool} {s t : Reader} → table a s ≡ table b t → s ≡ t
table_injective h = cc

module _ (J : Json) where
  write_records-Improves :
      (fs : DocId → TwoWrites) (es : List Entry) (w : Writer)
      → Improves (write_records J fs es w) (write_records J (λ _. no_failures) es w)
  unfolding write_records
  write_records-Improves fs [] w = λ a v p. p
  write_records-Improves fs ((d, r) ∷ es) w =
      bind-Improves (add J (fs d) d r w) _ _ _ (add-Improves J (fs d) d r w)
        (λ _ w'. write_records-Improves fs es w')

  opened-no_error :
      (run : TableRun) (x : Option WriterError × Writer) (d : Bool) (t : Reader)
      → (after_close J run x).0 ≡ table d t
      → x.0 ≡ none
  unfolding after_close
  opened-no_error run (some e, w) d t h = cc
  opened-no_error run (none, w) d t h = refl

  same_opening :
      (run : TableRun) (x : Option WriterError × Writer)
      → (after_close J (working_run run) x).0 ≡ (after_close J run x).0
  unfolding after_close
  same_opening run (some e, w) = refl
  same_opening run (none, w) = opening run w.final
    where
      opening :
          (run : TableRun) (o : Option (List Byte))
          → open_final J (working_run run) o ≡ open_final J run o
      opening run none = refl
      opening run (some f) = refl

  finish_table-working :
      (run : TableRun) (x y : Run Unit) (d : Bool) (t : Reader)
      → Improves x y
      → (finish_table J run x).0 ≡ table d t
      → (finish_table J (working_run run) y).0 ≡ table d t
  unfolding finish_table
  finish_table-working run (failed e w) y d t h p = cc
  finish_table-working run (done a w) y d t h p =
      let closed = close-working run.close w (opened-no_error run (close run.close w) d t p) in
      ap (λ z. (finish_table J (working_run run) z).0) (h a w refl)
      ∙ (ap (λ z. (after_close J (working_run run) z).0) closed
          ∙ (same_opening run (close run.close w) ∙ p))

  creating :
      (b : Bool) (x y : FlushOutcome × Writer) (d : Bool) (t : Reader)
      → (if b then x else y).0 ≡ table d t
      → x.0 ≡ write_fails
      → y.0 ≡ table d t
  creating true x y d t h p = cc
  creating false x y d t h p = h

  -- A flush that gives a table gives the table of the flush in which nothing fails.
  write_table-working :
      (run : TableRun) (old : Option (List Byte)) (es : List Entry) (d : Bool) (t : Reader)
      → (write_table J run old es).0 ≡ table d t
      → (write_table J (working_run run) old es).0 ≡ table d t
  unfolding write_table
  write_table-working run old es d t h =
      let w : Writer = new_writer old in
      finish_table-working run (write_records J run.adds es w)
        (write_records J (λ _. no_failures) es w) d t (write_records-Improves run.adds es w)
        (creating run.create_fails _ _ d t h refl)

  -- Nothing to write is refused.
  write_table-nil :
      (run : TableRun) (old : Option (List Byte))
      → (write_table J (working_run run) old []).0 ≡ write_fails
  unfolding write_table write_records finish_table close new_writer after_close remove_tmp
  write_table-nil run old = refl

no_table : {d : Bool} {t : Reader} → write_fails ≢ table d t
no_table h = cc

module _ (S : SkipList) (J : Json) where
  -- Whatever file operation fails, a flush that gives an opened table gives one that represents the
  -- frozen table, if the committed file is read as it was written. The records are as in
  -- `write_table-Represents`.
  pub write_table-safe :
      (run : TableRun) (old : Option (List Byte)) (m : MemTable S) (d : Bool) (t : Reader)
      → run.read ≡ file_source
      → IsI64 run.close.now
      → AllFit J (Memtable.entries S m)
      → Room J (Memtable.entries S m)
      → (write_table J run old (Memtable.entries S m)).0 ≡ table d t
      → Represents S m t
  write_table-safe run old m d t r n fit room h =
      let (t', e, rep) =
        write_table-Represents S J (working_run run) old m
          (record {
            create = refl;
            adds = λ d. (refl, refl);
            close = record {
              block = (refl, refl);
              index = (refl, refl);
              meta = refl;
              footer = refl;
              flush = refl;
              sync = refl;
              close = refl;
              rename = refl;
              sync_dir = refl;
            };
            read = r;
            now = n;
          })
          fit
          (λ q. no_table (
            sym (write_table-nil J run old)
            ∙ (ap (λ l. (write_table J (working_run run) old l).0) (sym q)
                ∙ write_table-working J run old _ d t h)))
          room in
      let same : t' ≡ t = table_injective (sym e ∙ write_table-working J run old _ d t h) in
      subst (Represents S m) same rep

  front_fails :
      (k : DocId) (e : Engine S) (o : FlushOutcome)
      → ((d : Bool) (t : Reader) → o ≢ table d t)
      → get S k (flush_front S o e).1 ≡ get S k e
  unfolding flush_front get
  front_fails k e write_fails h = refl
  front_fails k e open_fails h = refl
  front_fails k e (table d t) h = absurd (h d t refl)

  tried :
      (k : DocId) (b : Bool) (l : List (MemTable S)) (e : Engine S) (x : FlushResult × Engine S)
      → get S k x.1 ≡ get S k e
      → get S k
          (if b then (nothing_to_flush, e) else elim l as (λ l. FlushResult × Engine S) [
            | [] ↦ (nothing_to_flush, e)
            | m ∷ ms ↦ x
          ]).1
        ≡ get S k e
  tried k true l e x h = refl
  tried k false [] e x h = refl
  tried k false (m ∷ ms) e x h = h

  failing_flush :
      (k : DocId) (e : Engine S) (o : FlushOutcome)
      → ((d : Bool) (t : Reader) → o ≢ table d t)
      → get S k (flush_one_if_any S o e).1 ≡ get S k e
  unfolding flush_one_if_any
  failing_flush k e o h = tried k e.fatal e.frozen e (flush_front S o e) (front_fails k e o h)

  -- Whatever file operation fails, flushing the oldest frozen table changes no read, if a committed
  -- file is read as it was written. The records are as in `write_table-Represents`.
  pub get-flush_written :
      (k : DocId) (run : TableRun) (old : Option (List Byte)) (m : MemTable S)
      (ms : List (MemTable S)) (e : Engine S)
      → e.frozen ≡ m ∷ ms
      → run.read ≡ file_source
      → IsI64 run.close.now
      → AllFit J (Memtable.entries S m)
      → Room J (Memtable.entries S m)
      → get S k (flush_one_if_any S (write_table J run old (Memtable.entries S m)).0 e).1
        ≡ get S k e
  get-flush_written k run old m ms e f r n fit room =
      by_outcome (write_table J run old (Memtable.entries S m)).0 refl
    where
      by_outcome :
          (o : FlushOutcome)
          → (write_table J run old (Memtable.entries S m)).0 ≡ o
          → get S k (flush_one_if_any S o e).1 ≡ get S k e
      by_outcome write_fails h = failing_flush k e write_fails (λ d t p. cc)
      by_outcome open_fails h = failing_flush k e open_fails (λ d t p. cc)
      by_outcome (table d t) h =
          get-flush_one_if_any S k d t m ms e f (write_table-safe run old m d t r n fit room h)
