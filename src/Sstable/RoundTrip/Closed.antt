-- ===== src/Sstable/RoundTrip/Closed.antt =====
-- `Close` of internal/sstable/writer.go on a disk that works: the file that it commits.
use mathlib.Core.List.{append-nil}
use dist_log.Prelude.{
  ◌≡◌, refl, sym, subst, ap, ◌∙◌, List, [], ◌∷◌, ◌++◌, Option, none, some, true, false, ◌≢◌,
}
use dist_log.Prelude.Decimal.{IsI64}
use dist_log.Types.Entries.{Entry}
use dist_log.Types.Codec.{Json}
use dist_log.Bytes.{Byte}
use dist_log.Sstable.Writer.{Writer, WriterError, done, ◌>>=◌, TwoWrites, flush_block}
use dist_log.Sstable.Writer.Built.{Built, Range, flushed, flushed-Built, Range-Spans}
use dist_log.Sstable.Writer.Added.{Works, Holds, flush_block-Works}
use dist_log.Sstable.Writer.Tail.{CloseWorks, ended, write_tail-works, ended_file}
use dist_log.Sstable.Writer.Close.{CloseRun, write_rest, write_tail, commit, commit_or_clean, close}
use dist_log.Sstable.Layout.{concat, concat-append, AllFit, data_bytes, index_of}
use dist_log.Sstable.Layout.Sizes.{Room}
use dist_log.Sstable.RoundTrip.{Stored, written_file, written_file-Stored, size_lem}

-- A close that succeeds commits the file and leaves no temporary one.
pub record Committed (file : List Byte) (result : Option WriterError × Writer) : Type 0 where
  pub no_error : result.0 ≡ none
  pub final : result.1.final ≡ some file
  pub tmp : result.1.tmp ≡ false
  pub finished : result.1.finished ≡ true

commit-works : (f : CloseRun) (w : Writer) → CloseWorks f → Committed w.file (commit f w)
unfolding commit
commit-works f w k =
    simp (k.close, k.rename, k.sync_dir)
      (record { no_error = refl; final = refl; tmp = refl; finished = refl })

module _ (J : Json) where
  -- After the last block is flushed nothing is pending.
  flush_last :
      (f : TwoWrites) (bs : List (List Entry)) (p : List Entry) (w : Writer)
      → Works f
      → Built J true bs p w
      → Room J (concat bs ++ p)
      → (w' : Writer) × (bs' : List (List Entry)) × (flush_block f w ≡ done tt w')
        × Built J true bs' [] w'
        × (concat bs' ≡ concat bs ++ p)
  unfolding concat flush_block
  flush_last f bs [] w k h room = (w, bs, rw (h.cur_records) refl, h, sym (append-nil (concat bs)))
  flush_last f bs (e ∷ p) w k h room =
      let full : e ∷ p ≢ [] = λ q. cc in
      (
        flushed w,
        bs ++ ((e ∷ p) ∷ []),
        flush_block-Works J f true bs (e ∷ p) w k h full,
        flushed-Built J true bs (e ∷ p) w h full room,
        concat-append bs ((e ∷ p) ∷ []) ∙ ap (λ l. concat bs ++ l) (append-nil (e ∷ p)),
      )

  closing-Range :
      (w : Writer) (es : List Entry) → Range w es → Range (record w { closed = true }) es
  closing-Range w [] h = h
  closing-Range w (e ∷ es) h = h

  mark_closed :
      (bs : List (List Entry)) (p : List Entry) (w : Writer)
      → Built J false bs p w
      → Built J true bs p (record w { closed = true })
  mark_closed bs p w h = record {
    file = h.file;
    sound = h.sound;
    is_closed = refl;
    cur_block = h.cur_block;
    cur_records = h.cur_records;
    cur_first = h.cur_first;
    index = h.index;
    block_count = h.block_count;
    offset = h.offset;
    record_count = h.record_count;
    full = h.full;
    range = closing-Range w (concat bs ++ p) h.range;
  }

  -- The end of the work on the temporary file, and what is in it.
  ended-Stored :
      (f : CloseRun) (bs : List (List Entry)) (es : List Entry) (w : Writer) (k : CloseWorks f)
      (h : Built J true bs [] w)
      → concat bs ≡ es
      → es ≢ []
      → AllFit J es
      → Room J es
      → IsI64 f.now
      → Stored J es (ended f k w h.sound).file
  ended-Stored f bs es w k h e q fit room t =
      let room' = subst (Room J) (sym e) room in
      let file : (ended f k w h.sound).file ≡ written_file J f.now bs w =
        ended_file f k w h.sound (data_bytes J bs) (index_of J 0 bs) h.file h.index h.offset
          (size_lem J bs h.full room') in
      subst (Stored J es) (sym file) (
        subst (λ l. Stored J l (written_file J f.now bs w)) e
          (written_file-Stored J f.now bs w h (λ p. q (sym e ∙ p)) (subst (AllFit J) (sym e) fit)
            room' t))

  open_close :
      (f : CloseRun) (w : Writer)
      → w.closed ≡ false
      → w.has_record ≡ true
      → close f w ≡ commit_or_clean f (write_rest f (record w { closed = true }))
  unfolding close
  open_close f w h r = rw (h, r, close) refl

  -- Closing a writer that holds records, on a disk that works, commits a file that opens as a table of
  -- exactly these records.
  pub close-Stored :
      (f : CloseRun) (es : List Entry) (w : Writer)
      → CloseWorks f
      → Holds J false es w
      → es ≢ []
      → AllFit J es
      → Room J es
      → IsI64 f.now
      → (file : List Byte) × Committed file (close f w) × Stored J es file
  unfolding write_rest commit_or_clean
  close-Stored f es w k h q fit room t =
      let w0 : Writer = record w { closed = true } in
      let b : Built J true h.blocks h.pending w0 = mark_closed h.blocks h.pending w h.built in
      let has : w.has_record ≡ true =
        (Range-Spans w es q (subst (Range w) h.all h.built.range)).0 in
      let (w1, bs, run, b1, all) =
        flush_last f.block h.blocks h.pending w0 k.block b (subst (Room J) (sym h.all) room) in
      let end : Writer = ended f k w1 b1.sound in
      let result : close f w ≡ commit f end =
        open_close f w h.built.is_closed has
        ∙ (ap (λ x. commit_or_clean f (x >>= λ _ w1. write_tail f w1)) run
            ∙ ap (commit_or_clean f) (write_tail-works f k w1 b1.sound)) in
      (
        end.file,
        subst (Committed end.file) (sym result) (commit-works f end k),
        ended-Stored f bs es w1 k b1 (all ∙ h.all) q fit room t,
      )
