-- ===== src/Sstable/Layout/Sizes.antt =====
-- How large the parts of a table file are (internal/sstable/writer.go).
use dist_log.Prelude.{
  ℕ, suc, ◌+◌, ◌*◌, ◌^◌, ◌<◌, ◌≤◌, ◌≡◌, refl, ap, List, [], ◌∷◌, ◌++◌, length, length-append, arith,
}
use dist_log.Types.Entries.{Entry}
use dist_log.Types.Codec.{Json}
use dist_log.Bytes.{Byte}
use dist_log.Sstable.Format.{encode_record_header}
use dist_log.Sstable.Format.Laws.{length-encode_record_header}
use dist_log.Sstable.Writer.{trailer}
use dist_log.Sstable.Source.Blocks.{length-trailer}
use dist_log.Sstable.Source.Loaded.{AllFull, AllSmall}
use dist_log.Sstable.Layout.{
  concat, payload, header_of, encode_records, encode_records-append, block_bytes, data_bytes,
  index_of,
}

module _ (J : Json) where
  -- The encodings of the records come to less than 1 GiB, which keeps every size and count of the file
  -- within 32 bits.
  abbrev pub Room : List Entry → Type 0
  Room es = length (encode_records J es) < 2 ^ 30

  pub count-le-encode_records : (es : List Entry) → 20 * length es ≤ length (encode_records J es)
  unfolding encode_records
  count-le-encode_records [] = omega arith
  count-le-encode_records (e ∷ es) =
      let hdr : List Byte = encode_record_header (header_of J e) in
      omega (
        arith,
        count-le-encode_records es,
        length-append (hdr ++ payload J e.1) (encode_records J es),
        length-append hdr (payload J e.1),
        length-encode_record_header (header_of J e),
      )

  pub length-block_bytes :
      (es : List Entry) → length (block_bytes J es) ≡ length (encode_records J es) + 8
  unfolding block_bytes
  length-block_bytes es = omega (
    arith,
    length-append (encode_records J es) (trailer (length es) (encode_records J es)),
    length-trailer (length es) (encode_records J es),
  )

  pub length-encode_records :
      (xs ys : List Entry)
      → length (encode_records J (xs ++ ys))
        ≡ length (encode_records J xs) + length (encode_records J ys)
  length-encode_records xs ys =
      let e = ap length (encode_records-append J xs ys) in
      omega (arith, e, length-append (encode_records J xs) (encode_records J ys))

  pub length-data_bytes :
      (bs : List (List Entry))
      → length (data_bytes J bs) ≡ length (encode_records J (concat bs)) + 8 * length bs
  unfolding data_bytes concat encode_records
  length-data_bytes [] = omega arith
  length-data_bytes (b ∷ bs) = omega (
    arith,
    length-data_bytes bs,
    length-append (block_bytes J b) (data_bytes J bs),
    length-block_bytes b,
    length-encode_records b (concat bs),
  )

  -- Blocks that are not empty are no more than their records.
  pub length-concat : (bs : List (List Entry)) → AllFull J bs → length bs ≤ length (concat bs)
  unfolding concat
  length-concat [] h = omega arith
  length-concat ([] ∷ bs) h = absurd (h.0 refl)
  length-concat ((e ∷ es) ∷ bs) h =
      omega (arith, length-concat bs h.1, length-append es (concat bs))

  pub Room-AllSmall : (bs : List (List Entry)) → Room (concat bs) → AllSmall J bs
  unfolding concat
  Room-AllSmall [] h = tt
  Room-AllSmall (b ∷ bs) h =
      let e = length-encode_records b (concat bs) in
      let c = count-le-encode_records b in
      (omega (arith, h, e), omega (arith, h, e, c), Room-AllSmall bs (omega (arith, h, e)))

  -- One record is no longer than all.
  pub length-payload-le :
      (es : List Entry) (e : Entry) (rest : List Entry)
      → length (payload J e.1) ≤ length (encode_records J (es ++ (e ∷ rest)))
  length-payload-le es e rest =
      let hdr : List Byte = encode_record_header (header_of J e) in
      let one : encode_records J (e ∷ rest) ≡ (hdr ++ payload J e.1) ++ encode_records J rest =
        unfold encode_records in refl in
      omega (
        arith,
        length-encode_records es (e ∷ rest),
        ap length one,
        length-append (hdr ++ payload J e.1) (encode_records J rest),
        length-append hdr (payload J e.1),
      )

  pub length-index_of : (off : ℕ) (bs : List (List Entry)) → length (index_of J off bs) ≡ length bs
  unfolding index_of
  length-index_of off [] = refl
  length-index_of off (b ∷ bs) = ap suc (length-index_of (off + length (block_bytes J b)) bs)
