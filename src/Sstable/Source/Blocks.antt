-- ===== src/Sstable/Source/Blocks.antt =====
-- `loadBlock` of internal/sstable/reader.go on the blocks that the writer lays out.
use mathlib.Core.List.{append-nil, append_assoc}
use dist_log.Prelude.{
  ℕ, suc, ◌-◌, ◌^◌, ◌<◌, ◌≡◌, refl, sym, ap, ◌∙◌, List, [], ◌∷◌, ◌++◌, some, false, length,
  length-append, take, drop, ltb, arith,
}
use dist_log.Types.{LogRecord}
use dist_log.Types.Entries.{Entry}
use dist_log.Types.Codec.{Json, ReadsBack, unmarshal}
use dist_log.Bytes.{Byte, put_le, get_le, slice}
use dist_log.Bytes.Crc.{checksum, checksum-lt}
use dist_log.Bytes.Laws.{take-length-append, drop-length-append}
use dist_log.Sstable.Format.{ok, encode_record_header, decode_record_header}
use dist_log.Sstable.Format.Laws.{
  IsU32, not_short, eq_self, u32, RecordHeaderFits, length-encode_record_header,
  decode-encode_record_header,
}
use dist_log.Sstable.Writer.{trailer}
use dist_log.Sstable.Source.{good, ◌>>=◌, decode_payload, decode_records, decode_block}
use dist_log.Sstable.Layout.{payload, header_of, encode_records, block_bytes, EntryFits, AllFit}

pub length-trailer : (n : ℕ) (body : List Byte) → length (trailer n body) ≡ 8
unfolding trailer put_le
length-trailer n body = refl

pub trailer_count : (n : ℕ) (body : List Byte) → IsU32 n → get_le (slice 0 4 (trailer n body)) ≡ n
trailer_count n body h =
    let e : slice 0 4 (trailer n body) ≡ put_le 4 n = unfold trailer put_le in refl in
    ap get_le e ∙ u32 n h

pub trailer-checksum :
    (n : ℕ) (body : List Byte) → get_le (slice 4 8 (trailer n body)) ≡ checksum body
trailer-checksum n body =
    let e : slice 4 8 (trailer n body) ≡ put_le 4 (checksum body) = unfold trailer put_le in refl in
    ap get_le e ∙ u32 (checksum body) (checksum-lt body)

-- A buffer whose last 8 bytes are a trailer is taken apart.
pub body_of :
    (n : ℕ) (body : List Byte)
    → (take (length (body ++ trailer n body) - 8) (body ++ trailer n body) ≡ body)
      × (drop (length (body ++ trailer n body) - 8) (body ++ trailer n body) ≡ trailer n body)
body_of n body =
    let e : length (body ++ trailer n body) - 8 ≡ length body =
      omega (arith, length-append body (trailer n body), length-trailer n body) in
    (
      ap (λ k. take k (body ++ trailer n body)) e ∙ take-length-append body (trailer n body),
      ap (λ k. drop k (body ++ trailer n body)) e ∙ drop-length-append body (trailer n body),
    )

module _ (J : Json) where
  pub payload-ReadsBack : (r : LogRecord) (h : ReadsBack J r) → payload J r ≡ h.bytes
  payload-ReadsBack r h = rw (h.encoded, payload) refl

  decode_payload-payload :
      (e : Entry) → ReadsBack J e.1 → decode_payload J (header_of J e) (payload J e.1) ≡ good e
  unfolding decode_payload unmarshal
  decode_payload-payload (d, r) h =
      let p : J.unmarshal (payload J r) ≡ some h.read =
        ap J.unmarshal (payload-ReadsBack r h) ∙ h.decoded in
      rw (p, decode_payload) (ap (λ x. good (d, x)) h.same)

  header-HeaderFits :
      (e : Entry)
      → EntryFits J e
      → length (payload J e.1) < 2 ^ 32
      → RecordHeaderFits (header_of J e)
  header-HeaderFits (d, r) h s = record {
    doc_id = h.doc_id;
    timestamp = h.timestamp;
    payload_len = s;
  }

  -- One round of the loop.
  decode_round :
      (n : ℕ) (e : Entry) (rest : List Byte)
      → EntryFits J e
      → length (payload J e.1) < 2 ^ 32
      → decode_records J (suc n) (encode_record_header (header_of J e) ++ (payload J e.1 ++ rest))
        ≡ (decode_records J n rest >>= λ es. good (e ∷ es))
  unfolding decode_records
  decode_round n e rest h s =
      let hdr : List Byte = encode_record_header (header_of J e) in
      let p : List Byte = payload J e.1 in
      let n20 : length hdr ≡ 20 = length-encode_record_header (header_of J e) in
      let long : ltb (length (hdr ++ (p ++ rest))) 20 ≡ false =
        not_short _ 20 (omega (arith, length-append hdr (p ++ rest), n20)) in
      let front : take 20 (hdr ++ (p ++ rest)) ≡ hdr =
        rw (← n20) (take-length-append hdr (p ++ rest)) in
      let back : drop 20 (hdr ++ (p ++ rest)) ≡ p ++ rest =
        rw (← n20) (drop-length-append hdr (p ++ rest)) in
      let read : decode_record_header hdr ≡ ok (header_of J e) =
        ap decode_record_header (sym (append-nil hdr))
        ∙ decode-encode_record_header (header_of J e) [] (header-HeaderFits e h s) in
      let fits : ltb (length (p ++ rest)) (length p) ≡ false =
        not_short _ (length p) (omega (arith, length-append p rest)) in
      rw (long, front, back, read)
        (rw (fits, take-length-append p rest, drop-length-append p rest)
          (rw (decode_payload-payload e h.reads_back) refl))

  -- The loop gives the records of a block back.
  decode_records-encode_records :
      (es : List Entry)
      → AllFit J es
      → length (encode_records J es) < 2 ^ 32
      → decode_records J (length es) (encode_records J es) ≡ good es
  unfolding encode_records
  decode_records-encode_records [] h s = unfold decode_records in refl
  decode_records-encode_records (e ∷ es) h s =
      let hdr : List Byte = encode_record_header (header_of J e) in
      let a = length-append (hdr ++ payload J e.1) (encode_records J es) in
      let b = length-append hdr (payload J e.1) in
      ap (decode_records J (suc (length es)))
        (append_assoc hdr (payload J e.1) (encode_records J es))
      ∙ decode_round (length es) e (encode_records J es) h.0 (omega (arith, s, a, b))
      ∙ ap (λ x. x >>= λ l. good (e ∷ l))
          (decode_records-encode_records es h.1 (omega (arith, s, a, b)))

  -- A data block as it is written is read back: its records, in their order, each with its number and
  -- its timestamp.
  pub decode_block-block_bytes :
      (es : List Entry)
      → AllFit J es
      → length (encode_records J es) < 2 ^ 32
      → length es < 2 ^ 32
      → decode_block J (block_bytes J es) ≡ good es
  unfolding decode_block block_bytes
  decode_block-block_bytes es h s n =
      let body : List Byte = encode_records J es in
      let t : List Byte = trailer (length es) body in
      let parts = body_of (length es) body in
      let long : ltb (length (body ++ t)) 8 ≡ false =
        not_short _ 8 (omega (arith, length-append body t, length-trailer (length es) body)) in
      rw (long, parts.0, parts.1)
        (rw (trailer-checksum (length es) body, eq_self (checksum body))
          (ap (λ k. decode_records J k body) (trailer_count (length es) body n)
            ∙ decode_records-encode_records es h s))
