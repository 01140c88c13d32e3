-- ===== src/Sstable/Format/Laws.antt =====
-- Round trips of the parts of a table file (internal/sstable/format.go).
use mathlib.Core.List.{append_assoc}
use dist_log.Prelude.{
  ℕ, ◌+◌, ◌^◌, ◌<◌, ◌≤◌, ◌≡◌, refl, ap, ◌∙◌, List, ◌++◌, true, false, length, length-append, take,
  drop, ltb, ◌==◌, arith,
}
use dist_log.Prelude.Int.{ℤ}
use dist_log.Prelude.Decimal.{IsI64}
use dist_log.Bytes.{Byte, put_le, get_le, slice, to_u64, from_u64}
use dist_log.Bytes.Laws.{
  get_le-put_le, from_u64-to_u64, to_u64-lt, length-put_le, take-length-append, drop-length-append,
}
use dist_log.Bytes.Crc.{checksum, checksum-lt}
use dist_log.Sstable.Format.{
  ok, IndexEntry, marshal_index_entry, unmarshal_index_entry, MetaBlock, meta_body,
  marshal_meta_block, unmarshal_meta_block, RecordHeader, encode_record_header,
  decode_record_header,
}

abbrev pub IsU32 : ℕ → Type 0
IsU32 n = n < 2 ^ 32

abbrev pub IsU64 : ℕ → Type 0
IsU64 n = n < 2 ^ 64

pub not_short : (b : List Byte) (n : ℕ) → n ≤ length b → ltb (length b) n ≡ false
not_short b n h = ground arith

pub eq_self : (n : ℕ) → (n == n) ≡ true
eq_self n = ground arith

pub u64 : (n : ℕ) → IsU64 n → get_le (put_le 8 n) ≡ n
u64 n h = get_le-put_le 8 n (omega arith)

pub u32 : (n : ℕ) → IsU32 n → get_le (put_le 4 n) ≡ n
u32 n h = get_le-put_le 4 n (omega arith)

i64 : (z : ℤ) → IsI64 z → from_u64 (get_le (put_le 8 (to_u64 z))) ≡ z
i64 z h = ap from_u64 (u64 (to_u64 z) (to_u64-lt z h)) ∙ from_u64-to_u64 z h

pub record IndexEntryFits (e : IndexEntry) : Type 0 where
  pub first_doc_id : IsU64 e.first_doc_id
  pub block_offset : IsU64 e.block_offset
  pub block_size : IsU32 e.block_size
  pub reserved : IsU32 e.reserved

abbrev index_fields : List Byte → IndexEntry
index_fields b = record {
  first_doc_id = get_le (slice 0 8 b);
  block_offset = get_le (slice 8 16 b);
  block_size = get_le (slice 16 20 b);
  reserved = get_le (slice 20 24 b);
}

unmarshal_index_long :
    (b : List Byte) → 24 ≤ length b → unmarshal_index_entry b ≡ ok (index_fields b)
unfolding unmarshal_index_entry
unmarshal_index_long b h = rw (not_short b 24 h)

pub length-marshal_index_entry : (e : IndexEntry) → length (marshal_index_entry e) ≡ 24
unfolding marshal_index_entry put_le
length-marshal_index_entry e = refl

-- An index entry whose fields have their machine widths is read back, whatever follows it.
pub unmarshal-marshal_index_entry :
    (e : IndexEntry) (rest : List Byte)
    → IndexEntryFits e
    → unmarshal_index_entry (marshal_index_entry e ++ rest) ≡ ok e
unmarshal-marshal_index_entry e rest h =
    let read : index_fields (marshal_index_entry e ++ rest) ≡ record {
      first_doc_id = get_le (put_le 8 e.first_doc_id);
      block_offset = get_le (put_le 8 e.block_offset);
      block_size = get_le (put_le 4 e.block_size);
      reserved = get_le (put_le 4 e.reserved);
    } =
      unfold marshal_index_entry put_le in refl in
    unmarshal_index_long (marshal_index_entry e ++ rest)
      (omega (arith, length-append (marshal_index_entry e) rest, length-marshal_index_entry e))
    ∙ ap ok read
    ∙ rw (
      u64 e.first_doc_id h.first_doc_id,
      u64 e.block_offset h.block_offset,
      u32 e.block_size h.block_size,
      u32 e.reserved h.reserved,
    )

pub record RecordHeaderFits (r : RecordHeader) : Type 0 where
  pub doc_id : IsU64 r.doc_id
  pub timestamp : IsI64 r.timestamp
  pub payload_len : IsU32 r.payload_len

abbrev header_fields : List Byte → RecordHeader
header_fields b = record {
  doc_id = get_le (slice 0 8 b);
  timestamp = from_u64 (get_le (slice 8 16 b));
  payload_len = get_le (slice 16 20 b);
}

pub length-encode_record_header : (r : RecordHeader) → length (encode_record_header r) ≡ 20
unfolding encode_record_header put_le
length-encode_record_header r = refl

decode_header_long : (b : List Byte) → 20 ≤ length b → decode_record_header b ≡ ok (header_fields b)
unfolding decode_record_header
decode_header_long b h = rw (not_short b 20 h)

-- A record header whose fields have their machine widths is read back, negative timestamps too.
pub decode-encode_record_header :
    (r : RecordHeader) (rest : List Byte)
    → RecordHeaderFits r
    → decode_record_header (encode_record_header r ++ rest) ≡ ok r
decode-encode_record_header r rest h =
    let read : header_fields (encode_record_header r ++ rest) ≡ record {
      doc_id = get_le (put_le 8 r.doc_id);
      timestamp = from_u64 (get_le (put_le 8 (to_u64 r.timestamp)));
      payload_len = get_le (put_le 4 r.payload_len);
    } =
      unfold encode_record_header put_le in refl in
    decode_header_long (encode_record_header r ++ rest)
      (omega (arith, length-append (encode_record_header r) rest, length-encode_record_header r))
    ∙ ap ok read
    ∙ rw (u64 r.doc_id h.doc_id, i64 r.timestamp h.timestamp, u32 r.payload_len h.payload_len)

pub record MetaBlockFits (m : MetaBlock) : Type 0 where
  pub min_doc_id : IsU64 m.min_doc_id
  pub max_doc_id : IsU64 m.max_doc_id
  pub min_timestamp : IsI64 m.min_timestamp
  pub max_timestamp : IsI64 m.max_timestamp
  pub record_count : IsU64 m.record_count
  pub data_block_count : IsU32 m.data_block_count
  pub created_at_unix : IsI64 m.created_at_unix
  pub reserved : length m.reserved ≡ 32

abbrev meta_fields : List Byte → MetaBlock
meta_fields b = record {
  min_doc_id = get_le (slice 0 8 b);
  max_doc_id = get_le (slice 8 16 b);
  min_timestamp = from_u64 (get_le (slice 16 24 b));
  max_timestamp = from_u64 (get_le (slice 24 32 b));
  record_count = get_le (slice 32 40 b);
  data_block_count = get_le (slice 40 44 b);
  created_at_unix = from_u64 (get_le (slice 44 52 b));
  reserved = slice 52 84 b;
}

length-meta_body : (m : MetaBlock) → length (meta_body m) ≡ 52 + length m.reserved
unfolding meta_body put_le
length-meta_body m = omega arith

pub length-marshal_meta_block :
    (m : MetaBlock) → MetaBlockFits m → length (marshal_meta_block m) ≡ 88
unfolding marshal_meta_block
length-marshal_meta_block m h = omega (
  arith,
  h.reserved,
  length-meta_body m,
  length-append (meta_body m) (put_le 4 (checksum (meta_body m))),
  length-put_le 4 (checksum (meta_body m)),
)

unmarshal_meta_checked :
    (body tail : List Byte)
    → length body ≡ 84
    → get_le (take 4 tail) ≡ checksum body
    → 4 ≤ length tail
    → unmarshal_meta_block (body ++ tail) ≡ ok (meta_fields (body ++ tail))
unfolding unmarshal_meta_block
unmarshal_meta_checked body tail e c h =
    let long = not_short (body ++ tail) 88 (omega (arith, e, length-append body tail)) in
    let front : take 84 (body ++ tail) ≡ body = rw (← e) (take-length-append body tail) in
    let back : drop 84 (body ++ tail) ≡ tail = rw (← e) (drop-length-append body tail) in
    rw long (rw (front, back) (rw (c) (rw (eq_self (checksum body)))))

-- A meta block whose fields have their machine widths is read back, whatever follows it.
pub unmarshal-marshal_meta_block :
    (m : MetaBlock) (rest : List Byte)
    → MetaBlockFits m
    → unmarshal_meta_block (marshal_meta_block m ++ rest) ≡ ok m
unmarshal-marshal_meta_block m rest h =
    let tail : List Byte = put_le 4 (checksum (meta_body m)) ++ rest in
    let split : marshal_meta_block m ++ rest ≡ meta_body m ++ tail =
      unfold marshal_meta_block in
      append_assoc (meta_body m) (put_le 4 (checksum (meta_body m))) rest in
    let read : meta_fields (meta_body m ++ tail) ≡ record {
      min_doc_id = get_le (put_le 8 m.min_doc_id);
      max_doc_id = get_le (put_le 8 m.max_doc_id);
      min_timestamp = from_u64 (get_le (put_le 8 (to_u64 m.min_timestamp)));
      max_timestamp = from_u64 (get_le (put_le 8 (to_u64 m.max_timestamp)));
      record_count = get_le (put_le 8 m.record_count);
      data_block_count = get_le (put_le 4 m.data_block_count);
      created_at_unix = from_u64 (get_le (put_le 8 (to_u64 m.created_at_unix)));
      reserved = take 32 (m.reserved ++ tail);
    } =
      unfold meta_body put_le in refl in
    let crc : get_le (take 4 tail) ≡ checksum (meta_body m) =
      (let e : take 4 tail ≡ put_le 4 (checksum (meta_body m)) = unfold put_le in refl in
        ap get_le e)
      ∙ u32 (checksum (meta_body m)) (checksum-lt (meta_body m)) in
    let kept : take 32 (m.reserved ++ tail) ≡ m.reserved =
      rw (← h.reserved) (take-length-append m.reserved tail) in
    ap unmarshal_meta_block split
    ∙ unmarshal_meta_checked (meta_body m) tail (omega (arith, length-meta_body m, h.reserved)) crc
        (omega (
          arith,
          length-append (put_le 4 (checksum (meta_body m))) rest,
          length-put_le 4 (checksum (meta_body m)),
        ))
    ∙ ap ok read
    ∙ rw (
      kept,
      u64 m.min_doc_id h.min_doc_id,
      u64 m.max_doc_id h.max_doc_id,
      i64 m.min_timestamp h.min_timestamp,
      i64 m.max_timestamp h.max_timestamp,
      u64 m.record_count h.record_count,
      u32 m.data_block_count h.data_block_count,
      i64 m.created_at_unix h.created_at_unix,
    )
