-- ===== src/Sstable/Format.antt =====
-- internal/sstable/format.go: the fixed-size parts of a table file.
pub mod Laws
pub mod FooterLaws
use dist_log.Prelude.{
  ℕ, zero, suc, ◌+◌, List, [], ◌∷◌, ◌++◌, Bool, true, false, ◌&&◌, length, ltb, ◌==◌, if◌then◌else◌,
  not,
}
use dist_log.Types.{DocId, Timestamp}
use dist_log.Bytes.{Byte, put_le, get_le, slice, to_u64, from_u64}
use dist_log.Bytes.Crc.{checksum}

abbrev pub magic : List Byte
magic = b'D' ∷ b'L' ∷ b'S' ∷ b'S' ∷ b'T' ∷ b'B' ∷ b'L' ∷ 0 ∷ []

abbrev pub format_version : ℕ
format_version = 1

abbrev pub footer_size : ℕ
footer_size = 48

abbrev pub index_entry_size : ℕ
index_entry_size = 24

abbrev pub meta_block_size : ℕ
meta_block_size = 88

abbrev pub record_header_size : ℕ
record_header_size = 20

pub data FormatError : Type 0 where
  short_buffer bad_crc bad_magic bad_version : FormatError

pub data Result {ℓ} (A : Type ℓ) : Type ℓ where
  ok : A → Result A
  err : FormatError → Result A

pub record IndexEntry : Type 0 where
  pub first_doc_id : DocId
  pub block_offset : ℕ
  pub block_size : ℕ
  pub reserved : ℕ

unfoldable pub marshal_index_entry : IndexEntry → List Byte
marshal_index_entry e =
    put_le 8 e.first_doc_id
    ++ (put_le 8 e.block_offset ++ (put_le 4 e.block_size ++ put_le 4 e.reserved))

unfoldable pub unmarshal_index_entry : List Byte → Result IndexEntry
unmarshal_index_entry b =
    if ltb (length b) index_entry_size
    then err short_buffer
    else ok (record {
      first_doc_id = get_le (slice 0 8 b);
      block_offset = get_le (slice 8 16 b);
      block_size = get_le (slice 16 20 b);
      reserved = get_le (slice 20 24 b);
    })

-- `reserved` is the array of 32 bytes.
pub record MetaBlock : Type 0 where
  pub min_doc_id : DocId
  pub max_doc_id : DocId
  pub min_timestamp : Timestamp
  pub max_timestamp : Timestamp
  pub record_count : ℕ
  pub data_block_count : ℕ
  pub created_at_unix : Timestamp
  pub reserved : List Byte

-- The 84 bytes that the checksum covers.
unfoldable pub meta_body : MetaBlock → List Byte
meta_body m =
    put_le 8 m.min_doc_id
    ++ (put_le 8 m.max_doc_id
        ++ (put_le 8 (to_u64 m.min_timestamp)
            ++ (put_le 8 (to_u64 m.max_timestamp)
                ++ (put_le 8 m.record_count
                    ++ (put_le 4 m.data_block_count
                        ++ (put_le 8 (to_u64 m.created_at_unix) ++ m.reserved))))))

unfoldable pub marshal_meta_block : MetaBlock → List Byte
unfolding meta_body
marshal_meta_block m = meta_body m ++ put_le 4 (checksum (meta_body m))

unfoldable pub unmarshal_meta_block : List Byte → Result MetaBlock
unmarshal_meta_block b =
    if ltb (length b) meta_block_size
    then err short_buffer
    else if not (checksum (slice 0 84 b) == get_le (slice 84 88 b))
    then err bad_crc
    else ok (record {
      min_doc_id = get_le (slice 0 8 b);
      max_doc_id = get_le (slice 8 16 b);
      min_timestamp = from_u64 (get_le (slice 16 24 b));
      max_timestamp = from_u64 (get_le (slice 24 32 b));
      record_count = get_le (slice 32 40 b);
      data_block_count = get_le (slice 40 44 b);
      created_at_unix = from_u64 (get_le (slice 44 52 b));
      reserved = slice 52 84 b;
    })

pub record Footer : Type 0 where
  pub version : ℕ
  pub flags : ℕ
  pub index_block_offset : ℕ
  pub index_block_size : ℕ
  pub meta_block_offset : ℕ
  pub meta_block_size : ℕ

unfoldable pub footer_body : Footer → List Byte
footer_body f =
    put_le 4 f.version
    ++ (put_le 4 f.flags
        ++ (put_le 8 f.index_block_offset
            ++ (put_le 4 f.index_block_size
                ++ (put_le 8 f.meta_block_offset ++ put_le 4 f.meta_block_size))))

unfoldable pub marshal_footer : Footer → List Byte
unfolding footer_body
marshal_footer f = footer_body f ++ (put_le 4 (checksum (footer_body f)) ++ (put_le 4 0 ++ magic))

abbrev pub same_bytes : List Byte → List Byte → Bool
same_bytes [] [] = true
same_bytes (x ∷ xs) (y ∷ ys) = x == y && same_bytes xs ys
same_bytes _ _ = false

abbrev pub footer_fields : List Byte → Footer
footer_fields b = record {
  version = get_le (slice 0 4 b);
  flags = get_le (slice 4 8 b);
  index_block_offset = get_le (slice 8 16 b);
  index_block_size = get_le (slice 16 20 b);
  meta_block_offset = get_le (slice 20 28 b);
  meta_block_size = get_le (slice 28 32 b);
}

unfoldable pub unmarshal_footer : List Byte → Result Footer
unmarshal_footer b =
    if ltb (length b) footer_size
    then err short_buffer
    else if not (same_bytes (slice 40 48 b) magic)
    then err bad_magic
    else if not (checksum (slice 0 32 b) == get_le (slice 32 36 b))
    then err bad_crc
    else if not (get_le (slice 0 4 b) == format_version)
    then err bad_version
    else ok (footer_fields b)

pub record RecordHeader : Type 0 where
  pub doc_id : DocId
  pub timestamp : Timestamp
  pub payload_len : ℕ

unfoldable pub encode_record_header : RecordHeader → List Byte
encode_record_header h =
    put_le 8 h.doc_id ++ (put_le 8 (to_u64 h.timestamp) ++ put_le 4 h.payload_len)

unfoldable pub decode_record_header : List Byte → Result RecordHeader
decode_record_header src =
    if ltb (length src) record_header_size
    then err short_buffer
    else ok (record {
      doc_id = get_le (slice 0 8 src);
      timestamp = from_u64 (get_le (slice 8 16 src));
      payload_len = get_le (slice 16 20 src);
    })
