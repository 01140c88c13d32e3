-- ===== src/Sstable/Writer/Tail.antt =====
-- The end of a table file as `Close` of internal/sstable/writer.go writes it.
use mathlib.Core.List.{append_assoc}
use dist_log.Prelude.{
  ℕ, ◌+◌, ◌-◌, ◌*◌, ◌%◌, ◌^◌, ◌<◌, ◌≡◌, refl, ap, ap₂, ◌∙◌, List, ◌++◌, Bool, false, ◌||◌, length,
  arith,
}
use dist_log.Bytes.{Byte}
use dist_log.Sstable.Format.{
  IndexEntry, marshal_meta_block, meta_block_size, marshal_footer, footer_size,
}
use dist_log.Sstable.Writer.{
  Writer, done, ◌>>=◌, write, trailer, index_body, write_index_block, meta_of, write_meta_block,
  footer_of, write_footer, flush_failed, sync_failed,
}
use dist_log.Sstable.Writer.Close.{CloseRun, write_tail, fail_if}
use dist_log.Sstable.Writer.Added.{Works, write-Works}
use dist_log.Sstable.Source.Index.{length-index_body, length-index_bytes}
use dist_log.Sstable.Layout.{index_bytes, table_footer, table_bytes}

-- No operation of the close fails.
pub record CloseWorks (f : CloseRun) : Type 0 where
  pub block : Works f.block
  pub index : Works f.index
  pub meta : f.meta_fails ≡ false
  pub footer : f.footer_fails ≡ false
  pub flush : f.flush_fails ≡ false
  pub sync : f.sync_fails ≡ false
  pub close : f.close_fails ≡ false
  pub rename : f.rename_fails ≡ false
  pub sync_dir : f.sync_dir_fails ≡ false

module _ (f : CloseRun) (k : CloseWorks f) (w : Writer) (sound : w.broken ≡ false) where
  abbrev pub body : List Byte
  body = index_body w.index_entries

  abbrev pub index_size : ℕ
  index_size = (length body + 8) % 2 ^ 32

  abbrev pub count : ℕ
  count = length w.index_entries % 2 ^ 32

  abbrev pub after_index : Writer
  after_index = record w {
    file = (w.file ++ body) ++ trailer count body;
    offset = (w.offset + index_size) % 2 ^ 64;
  }

  write_index_block-works : write_index_block f.index w ≡ done (w.offset, index_size) after_index
  unfolding write_index_block
  write_index_block-works =
      let w1 : Writer = record w { file = w.file ++ body } in
      ap
        (λ x. x >>= λ _ w1. write f.index.trailer_fails (trailer count body) w1 >>= λ _ w2.
          done (w.offset, index_size) (record w2 { offset = (w2.offset + index_size) % 2 ^ 64 }))
        (write-Works f.index.body_fails body w k.index.0 sound)
      ∙ ap
          (λ x. x >>= λ _ w2.
            done (w.offset, index_size) (record w2 { offset = (w2.offset + index_size) % 2 ^ 64 }))
          (write-Works f.index.trailer_fails (trailer count body) w1 k.index.1 sound)

  abbrev pub meta_bytes : List Byte
  meta_bytes = marshal_meta_block (meta_of f.now w)

  abbrev pub after_meta : Writer
  after_meta = record after_index {
    file = after_index.file ++ meta_bytes;
    offset = (after_index.offset + meta_block_size) % 2 ^ 64;
  }

  write_meta_block-works :
      write_meta_block f.meta_fails f.now after_index
      ≡ done (after_index.offset, meta_block_size) after_meta
  unfolding write_meta_block meta_of
  write_meta_block-works =
      ap
        (λ x. x >>= λ _ w1.
          done (after_index.offset, meta_block_size)
            (record w1 { offset = (w1.offset + meta_block_size) % 2 ^ 64 }))
        (write-Works f.meta_fails meta_bytes after_index k.meta sound)

  abbrev pub foot_bytes : List Byte
  foot_bytes =
      marshal_footer (footer_of (w.offset, index_size) (after_index.offset, meta_block_size))

  abbrev pub ended : Writer
  ended = record after_meta {
    file = after_meta.file ++ foot_bytes;
    offset = (after_meta.offset + footer_size) % 2 ^ 64;
  }

  write_footer-works :
      write_footer f.footer_fails
        (w.offset, index_size)
        (after_index.offset, meta_block_size)
        after_meta
      ≡ done tt ended
  unfolding write_footer
  write_footer-works =
      ap (λ x. x >>= λ _ w1. done tt (record w1 { offset = (w1.offset + footer_size) % 2 ^ 64 }))
        (write-Works f.footer_fails foot_bytes after_meta k.footer sound)

  synced :
      (b c : Bool)
      → b ≡ false
      → c ≡ false
      → w.broken ≡ false
      → (fail_if flush_failed (b || w.broken) ended >>= λ _ w4. fail_if sync_failed c w4)
        ≡ done tt ended
  synced b c p q r = rw (p, q, r) refl

  pub write_tail-works : write_tail f w ≡ done tt ended
  unfolding write_tail
  write_tail-works = rw write_index_block-works (
      rw write_meta_block-works
        (rw write_footer-works (synced f.flush_fails f.sync_fails k.flush k.sync sound)))

  -- What the file is in the end, if the data blocks and the index are in the writer.
  pub ended_file :
      (front : List Byte) (es : List IndexEntry)
      → w.file ≡ front
      → w.index_entries ≡ es
      → w.offset ≡ length front
      → length front + 24 * length es < 2 ^ 32 - 8
      → ended.file ≡ table_bytes front es (meta_of f.now w)
  unfolding table_bytes table_footer index_bytes
  ended_file front es a b o small =
      let n : count ≡ length es = omega (arith, ap length b, small) in
      let t : trailer count body ≡ trailer (length es) (index_body es) =
        ap₂ trailer n (ap index_body b) in
      let idx : List Byte = index_body es ++ trailer (length es) (index_body es) in
      let long : length idx ≡ 24 * length es + 8 = unfold index_bytes in length-index_bytes es in
      let size : index_size ≡ length idx =
        omega (arith, ap length b, length-index_body w.index_entries, long, small) in
      let off : after_index.offset ≡ length front + length idx =
        omega (arith, o, size, small, long) in
      let foot : foot_bytes
          ≡ marshal_footer
              (footer_of (length front, length idx) (length front + length idx, meta_block_size)) =
        λ i. marshal_footer (footer_of (o i, size i) (off i, meta_block_size)) in
      let index : (w.file ++ body) ++ trailer count body ≡ front ++ idx =
        ap₂ (λ x y. x ++ y) (ap₂ (λ x y. x ++ index_body y) a b) t
        ∙ append_assoc front (index_body es) (trailer (length es) (index_body es)) in
      ap₂ (λ x y. (x ++ meta_bytes) ++ y) index foot
      ∙ (append_assoc (front ++ idx) meta_bytes _ ∙ append_assoc front idx (meta_bytes ++ _))
