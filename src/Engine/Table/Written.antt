-- ===== src/Engine/Table/Written.antt =====
-- The flush of a frozen table (internal/engine/engine.go) on a disk that works: the opened table
-- represents the frozen one.
use mathlib.Core.List.{append-nil, append_assoc}
use dist_log.Prelude.{
  ◌≡◌, refl, sym, subst, ap, ◌∙◌, List, [], ◌∷◌, ◌++◌, Option, false, ◌≢◌, arith,
}
use dist_log.Prelude.Decimal.{IsI64}
use dist_log.Types.{DocId}
use dist_log.Types.Entries.{Entry, SortedFrom}
use dist_log.Types.Codec.{Json}
use dist_log.Bytes.{Byte}
use dist_log.Memtable.Compared.{walk-SortedFrom}
use dist_log.Memtable as Memtable
use dist_log.Memtable.{SkipList, MemTable}
use dist_log.Sstable.Reader.{Reader}
use dist_log.Sstable.Writer.{Writer, WriterError, done, ◌>>=◌, TwoWrites, new_writer}
use dist_log.Sstable.Writer.Built.{new_writer-Built, next_from}
use dist_log.Sstable.Writer.Added.{Works, Holds, add-Holds}
use dist_log.Sstable.Writer.Tail.{CloseWorks}
use dist_log.Sstable.Writer.Close.{close}
use dist_log.Sstable.Source.{file_source, open_source, view}
use dist_log.Sstable.Layout.{AllFit, concat}
use dist_log.Sstable.Layout.Sizes.{Room, length-encode_records}
use dist_log.Sstable.RoundTrip.{Stored}
use dist_log.Sstable.RoundTrip.Closed.{Committed, close-Stored}
use dist_log.Engine.Flush.{table}
use dist_log.Engine.Table.{
  TableRun, write_records, after_close, finish_table, write_table, open_final, open_table,
}
use dist_log.Engine.Laws.Moved.{Represents}

-- Nothing of the flush fails, and the file is read as it was written.
pub record TableWorks (run : TableRun) : Type 0 where
  pub create : run.create_fails ≡ false
  pub adds : (d : DocId) → Works (run.adds d)
  pub close : CloseWorks run.close
  pub read : run.read ≡ file_source
  pub now : IsI64 run.close.now

module _ (J : Json) where
  Room-left : (xs ys : List Entry) → Room J (xs ++ ys) → Room J xs
  Room-left xs ys h = omega (arith, h, length-encode_records J xs ys)

  write_records-Holds :
      (fs : DocId → TwoWrites) (es rest : List Entry) (w : Writer)
      → ((d : DocId) → Works (fs d))
      → Holds J false es w
      → AllFit J rest
      → SortedFrom (next_from w) rest
      → Room J (es ++ rest)
      → (w' : Writer) × (write_records J fs rest w ≡ done tt w') × Holds J false (es ++ rest) w'
  unfolding write_records
  write_records-Holds fs es [] w k h fit s room =
      (w, refl, subst (λ l. Holds J false l w) (sym (append-nil es)) h)
  write_records-Holds fs es ((d, r) ∷ rest) w k h fit (a, s) room =
      let e : Entry = (d, r) in
      let snoc : (es ++ (e ∷ [])) ++ rest ≡ es ++ (e ∷ rest) = append_assoc es (e ∷ []) rest in
      let room' = subst (Room J) (sym snoc) room in
      let (w1, run, h1, next) =
        add-Holds J (fs d) es d r w (k d) h fit.0 a (Room-left (es ++ (e ∷ [])) rest room') in
      let (w2, runs, h2) =
        write_records-Holds fs (es ++ (e ∷ [])) rest w1 k h1 fit.1
          (subst (λ n. SortedFrom n rest) (sym next) s) room' in
      (
        w2,
        ap (λ x. x >>= λ _ w'. write_records J fs rest w') run ∙ runs,
        subst (λ l. Holds J false l w2) snoc h2,
      )

  new_writer-Holds : (old : Option (List Byte)) → Holds J false [] (new_writer old)
  new_writer-Holds old = record {
    blocks = [];
    pending = [];
    all = unfold concat in refl;
    built = new_writer-Built J old;
  }

  created :
      (run : TableRun) (old : Option (List Byte)) (es : List Entry)
      → run.create_fails ≡ false
      → write_table J run old es ≡ finish_table J run (write_records J run.adds es (new_writer old))
  unfolding write_table
  created run old es h = rw (h, write_table) refl

  committed_lem :
      (run : TableRun) (es : List Entry) (file : List Byte) (x : Option WriterError × Writer)
      (s : Stored J es file)
      → Committed file x
      → run.read ≡ file_source
      → (after_close J run x).0 ≡ table run.deleted (view J s.opened)
  unfolding after_close
  committed_lem run es file (e, w) s c r =
      ap (λ x. (after_close J run (x, w)).0) c.no_error
      ∙ (ap (open_final J run) c.final
          ∙ (ap (λ g. open_table J run.deleted (open_source (g file))) r
              ∙ ap (open_table J run.deleted) s.opens))

  -- Ascending records are written to a file that opens as a table of them.
  pub write_table-Stored :
      (run : TableRun) (old : Option (List Byte)) (es : List Entry)
      → TableWorks run
      → AllFit J es
      → SortedFrom 0 es
      → es ≢ []
      → Room J es
      → (file : List Byte) × (s : Stored J es file) × ((write_table J run old es).0
          ≡ table run.deleted (view J s.opened))
  unfolding finish_table
  write_table-Stored run old es k fit sorted q room =
      let from : SortedFrom (next_from (new_writer old)) es =
        unfold next_from new_writer in sorted in
      let (w, runs, h) =
        write_records-Holds run.adds [] es (new_writer old) k.adds (new_writer-Holds old) fit from
          room in
      let (file, c, s) = close-Stored J run.close es w k.close h q fit room k.now in
      (
        file,
        s,
        ap (λ x. x.0) (created run old es k.create)
            ∙ (ap (λ x. (finish_table J run x).0) runs
                ∙ committed_lem run es file (close run.close w) s c k.read),
      )

module _ (S : SkipList) (J : Json) where
  -- On a disk that works the flush of a frozen table that holds a record gives an opened table that
  -- represents it: a well-formed one, whose iteration meets the records of the frozen table and no
  -- others. The records are those that the encoding gives back, with numbers and timestamps of 64 bits,
  -- and their encodings come to less than 1 GiB.
  pub write_table-Represents :
      (run : TableRun) (old : Option (List Byte)) (m : MemTable S)
      → TableWorks run
      → AllFit J (Memtable.entries S m)
      → Memtable.entries S m ≢ []
      → Room J (Memtable.entries S m)
      → (t : Reader) × ((write_table J run old (Memtable.entries S m)).0 ≡ table run.deleted t)
        × Represents S m t
  unfolding Memtable.entries
  write_table-Represents run old m k fit q room =
      let (file, s, e) =
        write_table-Stored J run old (Memtable.entries S m) k fit (walk-SortedFrom S m.list) q
          room in
      (
        view J s.opened,
        e,
        record { well_formed = s.well_formed; same_records = s.records; newest = s.newest },
      )
