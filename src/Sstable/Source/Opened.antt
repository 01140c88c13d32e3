-- ===== src/Sstable/Source/Opened.antt =====
-- `Open` of internal/sstable/reader.go on a whole table file.
use mathlib.Core.List.{append-nil, append_assoc}
use dist_log.Prelude.{
  ℕ, ◌+◌, ◌-◌, ◌%◌, ◌*◌, ◌^◌, ◌<◌, ◌≤◌, ◌≡◌, refl, sym, ap, ap₂, ◌∙◌, List, [], ◌++◌, none, false,
  length, length-append, ltb, arith,
}
use dist_log.Prelude.Int.{ltb_ℤ, pos}
use dist_log.Bytes.{Byte, from_u64}
use dist_log.Sstable.Format.{
  ok, IndexEntry, MetaBlock, Footer, marshal_meta_block, marshal_footer, unmarshal_footer,
  unmarshal_meta_block,
}
use dist_log.Sstable.Format.Laws.{
  MetaBlockFits, unmarshal-marshal_meta_block, not_short, length-marshal_meta_block,
}
use dist_log.Sstable.Format.FooterLaws.{FooterFits, unmarshal-marshal_footer, length-marshal_footer}
use dist_log.Sstable.Source.{
  Source, good, ◌>>=◌, read_checked, from_read, checked, bad_footer, bad_meta, read_file,
  file_source, read_footer, check_bounds, read_meta, read_index_block, read_index, open_source,
  OpenTable,
}
use dist_log.Sstable.Source.Loaded.{read_file-middle}
use dist_log.Sstable.Source.Index.{Ascending, length-index_bytes, read_index-index_bytes}
use dist_log.Sstable.Layout.{index_bytes, table_footer, table_bytes}

-- A piece of a file is read from its place.
read_piece :
    (file pre mid post : List Byte) (off n : ℕ)
    → file ≡ pre ++ (mid ++ post)
    → off ≡ length pre
    → n ≡ length mid
    → off < 2 ^ 63
    → read_checked (file_source file) off n ≡ good mid
unfolding file_source
read_piece file pre mid post off n e a b h = ap from_read (
    ap (λ l. read_file l off n) e
    ∙ (ap₂ (read_file (pre ++ (mid ++ post))) a b
        ∙ read_file-middle pre mid post (omega (arith, a, h))))

below_footer :
    (size off n : ℕ)
    → off + n + 48 < 2 ^ 63
    → off + n + 48 ≤ size
    → ltb_ℤ (pos (size - 48)) (from_u64 ((off + n) % 2 ^ 64)) ≡ false
unfolding from_u64
below_footer size off n h s = ground arith

footer_read :
    (s : Source) (buf : List Byte)
    → ltb s.size 48 ≡ false
    → read_checked s (s.size - 48) 48 ≡ good buf
    → read_footer s ≡ checked bad_footer (unmarshal_footer buf)
unfolding read_footer
footer_read s buf h r =
    rw (h, read_footer) (ap (λ x. x >>= λ b. checked bad_footer (unmarshal_footer b)) r)

module _ (front : List Byte) (es : List IndexEntry) (m : MetaBlock) (fits : MetaBlockFits m)
    (small : length front + 24 * length es < 2 ^ 32 - 8) where
  abbrev file : List Byte
  file = table_bytes front es m

  abbrev foot : Footer
  foot = table_footer front es

  foot_fits : FooterFits foot
  unfolding table_footer
  foot_fits = record {
    version = omega arith;
    flags = omega arith;
    index_block_offset = omega (arith, small);
    index_block_size = omega (arith, small, length-index_bytes es);
    meta_block_offset = omega (arith, small, length-index_bytes es);
    meta_block_size = omega arith;
  }

  size : length file ≡ length front + 24 * length es + 144
  unfolding table_bytes
  size = omega (
    arith,
    length-append front (index_bytes es ++ (marshal_meta_block m ++ marshal_footer foot)),
    length-append (index_bytes es) (marshal_meta_block m ++ marshal_footer foot),
    length-append (marshal_meta_block m) (marshal_footer foot),
    length-index_bytes es,
    length-marshal_meta_block m fits,
    length-marshal_footer foot foot_fits,
  )

  read_footer-table : read_footer (file_source file) ≡ good foot
  unfolding read_footer table_footer
  read_footer-table =
      let pre : List Byte = front ++ (index_bytes es ++ marshal_meta_block m) in
      let place : file ≡ pre ++ (marshal_footer foot ++ []) =
        unfold table_bytes in
        rw append-nil (
          simp
            (
              append_assoc front (index_bytes es ++ marshal_meta_block m) (marshal_footer foot),
              append_assoc (index_bytes es) (marshal_meta_block m) (marshal_footer foot),
            )
            refl) in
      let off : length file - 48 ≡ length pre = omega (
        arith,
        size,
        length-append front (index_bytes es ++ marshal_meta_block m),
        length-append (index_bytes es) (marshal_meta_block m),
        length-index_bytes es,
        length-marshal_meta_block m fits,
      ) in
      let read : read_checked (file_source file) (length file - 48) 48
          ≡ good (marshal_footer foot) =
        read_piece file pre (marshal_footer foot) [] (length file - 48) 48 place off
          (sym (length-marshal_footer foot foot_fits)) (omega (arith, size, small)) in
      let long : ltb (length file) 48 ≡ false = not_short file 48 (omega (arith, size)) in
      unfold file_source in
      footer_read (file_source file) (marshal_footer foot) long read
      ∙ ap (checked bad_footer) (unmarshal-marshal_footer foot foot_fits)

  check_bounds-table : check_bounds (file_source file) foot ≡ good tt
  unfolding check_bounds file_source table_footer
  check_bounds-table =
      rw
        (
          below_footer (length file) (length front) (length (index_bytes es))
              (omega (arith, small, length-index_bytes es))
              (omega (arith, size, length-index_bytes es)),
          below_footer (length file) (length front + length (index_bytes es)) 88
              (omega (arith, small, length-index_bytes es))
              (omega (arith, size, length-index_bytes es)),
        )
        refl

  read_meta-table : read_meta (file_source file) foot ≡ good m
  unfolding read_meta table_footer
  read_meta-table =
      let place : file
          ≡ (front ++ index_bytes es) ++ (marshal_meta_block m ++ marshal_footer foot) =
        unfold table_bytes in
        sym (append_assoc front (index_bytes es) (marshal_meta_block m ++ marshal_footer foot)) in
      let read : read_checked (file_source file) (length front + length (index_bytes es)) 88
          ≡ good (marshal_meta_block m) =
        read_piece file (front ++ index_bytes es) (marshal_meta_block m) (marshal_footer foot) _ 88
          place (sym (length-append front (index_bytes es)))
          (sym (length-marshal_meta_block m fits)) (omega (arith, small, length-index_bytes es)) in
      let back : unmarshal_meta_block (marshal_meta_block m) ≡ ok m =
        ap unmarshal_meta_block (sym (append-nil (marshal_meta_block m)))
        ∙ unmarshal-marshal_meta_block m [] fits in
      ap (λ x. x >>= λ buf. checked bad_meta (unmarshal_meta_block buf)) read
      ∙ ap (checked bad_meta) back

  read_index_block-table :
      Ascending none es
      → m.data_block_count ≡ length es
      → read_index_block (file_source file) foot m ≡ good es
  unfolding read_index_block table_footer
  read_index_block-table a c =
      let place : file
          ≡ front ++ (index_bytes es ++ (marshal_meta_block m ++ marshal_footer foot)) =
        unfold table_bytes in refl in
      let read : read_checked (file_source file) (length front) (length (index_bytes es))
          ≡ good (index_bytes es) =
        read_piece file front (index_bytes es) (marshal_meta_block m ++ marshal_footer foot) _ _
          place refl refl (omega (arith, small)) in
      ap (λ x. x >>= read_index m.data_block_count) read
      ∙ (ap (λ n. read_index n (index_bytes es)) c
          ∙ read_index-index_bytes es a (omega (arith, small)))

  abbrev pub opened_table : OpenTable
  opened_table = record { source = file_source file; footer = foot; meta = m; index_entries = es }

  -- A whole file is opened, with the meta block and the index that were written, if the index ascends
  -- and the meta block counts its entries.
  pub open_source-table :
      Ascending none es
      → m.data_block_count ≡ length es
      → open_source (file_source file) ≡ good opened_table
  unfolding open_source
  open_source-table a c =
      rw (read_footer-table, check_bounds-table)
        (rw (read_meta-table) (rw (read_index_block-table a c) refl))
