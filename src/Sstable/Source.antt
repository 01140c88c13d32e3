-- ===== src/Sstable/Source.antt =====
-- internal/sstable/reader.go at the byte level: opening a table file and loading a data block.
pub mod Blocks
pub mod Loaded
pub mod Index
pub mod Opened
pub mod Agrees
use dist_log.Prelude.{
  ℕ, zero, suc, ◌+◌, ◌-◌, ◌*◌, ◌/◌, ◌%◌, ◌^◌, List, [], ◌∷◌, Option, none, some, Bool, true, false,
  ◌&&◌, ◌||◌, not, length, get_elem?, map, take, drop, ltb, leb, ◌==◌, if◌then◌else◌,
}
use dist_log.Prelude.Int.{ltb_ℤ, pos}
use dist_log.Types.{DocId, LogRecord}
use dist_log.Types.Entries.{Entry}
use dist_log.Types.Codec.{Json, unmarshal}
use dist_log.Bytes.{Byte, get_le, slice, from_u64}
use dist_log.Bytes.Crc.{checksum}
use dist_log.Sstable.Format.{
  FormatError, Result, ok, err, IndexEntry, unmarshal_index_entry, index_entry_size, MetaBlock,
  unmarshal_meta_block, Footer, unmarshal_footer, footer_size, RecordHeader, decode_record_header,
  record_header_size,
}
use dist_log.Sstable.Writer.{data_block_trailer_size, index_block_trailer_size}
use dist_log.Sstable.Reader.{Block, Reader}

pub data TableError : Type 0 where
  too_small read_failed index_past_footer meta_past_footer : TableError
  bad_footer bad_meta bad_index_entry : FormatError → TableError
  index_truncated index_bad_crc count_mismatch counts_disagree index_not_increasing : TableError
  index_out_of_range block_truncated block_bad_crc header_out_of_range : TableError
  bad_header : FormatError → TableError
  payload_out_of_range decode_failed trailing_bytes : TableError

pub data Checked (A : Type 0) : Type 0 where
  good : A → Checked A
  bad : TableError → Checked A

infixl 5 ◌>>=◌
abbrev pub ◌>>=◌ : {A B : Type 0} → Checked A → (A → Checked B) → Checked B
good a >>= k = k a
bad e >>= k = bad e

abbrev pub refuse_if : Bool → TableError → Checked Unit
refuse_if true e = bad e
refuse_if false e = good tt

abbrev pub checked : {A : Type 0} → (FormatError → TableError) → Result A → Checked A
checked wrap (ok a) = good a
checked wrap (err e) = bad (wrap e)

-- `readerSource`: `read_at off n` fills a buffer of n bytes from the offset whose bits are `off`.
pub record Source : Type 0 where
  pub size : ℕ
  pub read_at : ℕ → ℕ → Option (List Byte)

-- `fileSource` over a file of these bytes. A negative offset is an error; nothing is read for an empty
-- buffer; a file that ends within the buffer gives an error.
unfoldable pub read_file : List Byte → ℕ → ℕ → Option (List Byte)
read_file file off n =
    if leb (2 ^ 63) off
    then none
    else if n == 0
    then some []
    else if ltb (length file) (off + n)
    then none
    else some (slice off (off + n) file)

unfoldable pub file_source : List Byte → Source
unfolding read_file
file_source file = record { size = length file; read_at = read_file file }

abbrev pub from_read : Option (List Byte) → Checked (List Byte)
from_read none = bad read_failed
from_read (some b) = good b

abbrev pub read_checked : Source → ℕ → ℕ → Checked (List Byte)
read_checked s off n = from_read (s.read_at off n)

-- `int64(off)+int64(n) > size-int64(FooterSize)`
abbrev pub past_footer : Source → ℕ → ℕ → Bool
past_footer s off n = ltb_ℤ (pos (s.size - footer_size)) (from_u64 ((off + n) % 2 ^ 64))

abbrev pub not_above : Option DocId → DocId → Bool
not_above none k = false
not_above (some prev) k = leb k prev

-- The loop over the index entries: how many are left, the number of the one before, and the bytes.
unfoldable pub read_entries : ℕ → Option DocId → List Byte → Checked (List IndexEntry)
unfolding unmarshal_index_entry
read_entries zero prev body = good []
read_entries (suc n) prev body = do
  e ← checked bad_index_entry (unmarshal_index_entry body)
  _ ← refuse_if (not_above prev e.first_doc_id) index_not_increasing
  es ← read_entries n (some e.first_doc_id) (drop index_entry_size body)
  good (e ∷ es)

-- The index block, given the number of data blocks in the meta block.
unfoldable pub read_index : ℕ → List Byte → Checked (List IndexEntry)
unfolding read_entries
read_index block_count buf = do
  _ ← refuse_if (ltb (length buf) index_block_trailer_size) index_truncated
  let body = take (length buf - index_block_trailer_size) buf
  let trailer = drop (length buf - index_block_trailer_size) buf
  let count = get_le (slice 0 4 trailer)
  _ ← refuse_if (not (checksum body == get_le (slice 4 8 trailer))) index_bad_crc
  _ ←
      refuse_if
        (not (count == length body / index_entry_size) || not (length body % index_entry_size == 0))
        count_mismatch
  _ ← refuse_if (not (count == block_count)) counts_disagree
  read_entries count none body

-- The fields of Go's `Reader`, without the path.
pub record OpenTable : Type 0 where
  pub source : Source
  pub footer : Footer
  pub meta : MetaBlock
  pub index_entries : List IndexEntry

unfoldable pub read_footer : Source → Checked Footer
unfolding unmarshal_footer
read_footer s = do
  _ ← refuse_if (ltb s.size footer_size) too_small
  buf ← read_checked s (s.size - footer_size) footer_size
  checked bad_footer (unmarshal_footer buf)

-- The blocks that the footer names must end before it.
unfoldable pub check_bounds : Source → Footer → Checked Unit
check_bounds s f = do
  _ ← refuse_if (past_footer s f.index_block_offset f.index_block_size) index_past_footer
  refuse_if (past_footer s f.meta_block_offset f.meta_block_size) meta_past_footer

unfoldable pub read_meta : Source → Footer → Checked MetaBlock
unfolding unmarshal_meta_block
read_meta s f = do
  buf ← read_checked s f.meta_block_offset f.meta_block_size
  checked bad_meta (unmarshal_meta_block buf)

unfoldable pub read_index_block : Source → Footer → MetaBlock → Checked (List IndexEntry)
unfolding read_index
read_index_block s f m = do
  buf ← read_checked s f.index_block_offset f.index_block_size
  read_index m.data_block_count buf

unfoldable pub open_source : Source → Checked OpenTable
unfolding read_footer check_bounds read_meta read_index_block
open_source s = do
  f ← read_footer s
  _ ← check_bounds s f
  m ← read_meta s f
  es ← read_index_block s f m
  good (record { source = s; footer = f; meta = m; index_entries = es })

module _ (J : Json) where
  -- The payload as a record, with the timestamp of the header.
  unfoldable pub decode_payload : RecordHeader → List Byte → Checked Entry
  unfolding unmarshal
  decode_payload h payload = elim (unmarshal J payload) [
    | none ↦ bad decode_failed
    | some r ↦ good (h.doc_id, record r { timestamp = h.timestamp })
  ]

  -- The loop of `loadBlock` over the records that are left, in the bytes that are left.
  unfoldable pub decode_records : ℕ → List Byte → Checked (List Entry)
  unfolding decode_record_header decode_payload
  decode_records zero b = elim b [ [] ↦ good [] | x ∷ xs ↦ bad trailing_bytes ]
  decode_records (suc n) b = do
    _ ← refuse_if (ltb (length b) record_header_size) header_out_of_range
    h ← checked bad_header (decode_record_header (take record_header_size b))
    let rest = drop record_header_size b
    _ ← refuse_if (ltb (length rest) h.payload_len) payload_out_of_range
    e ← decode_payload h (take h.payload_len rest)
    es ← decode_records n (drop h.payload_len rest)
    good (e ∷ es)

  -- A data block from its bytes.
  unfoldable pub decode_block : List Byte → Checked (List Entry)
  unfolding decode_records
  decode_block buf = do
    _ ← refuse_if (ltb (length buf) data_block_trailer_size) block_truncated
    let body = take (length buf - data_block_trailer_size) buf
    let trailer = drop (length buf - data_block_trailer_size) buf
    _ ← refuse_if (not (checksum body == get_le (slice 4 8 trailer))) block_bad_crc
    decode_records (get_le (slice 0 4 trailer)) body

  unfoldable pub load_entry : Source → IndexEntry → Checked (List Entry)
  unfolding decode_block
  load_entry s e = do buf ← read_checked s e.block_offset e.block_size; decode_block buf

  -- `loadBlock`
  unfoldable pub load_block : OpenTable → ℕ → Checked (List Entry)
  unfolding load_entry
  load_block t i = elim (get_elem? t.index_entries i) [
    | none ↦ bad index_out_of_range
    | some e ↦ load_entry t.source e
  ]

  abbrev pub to_option : {A : Type 0} → Checked A → Option A
  to_option (good a) = some a
  to_option (bad e) = none

  -- One data block, as its index entry and its loading give it.
  unfoldable pub block_of : Source → IndexEntry → Block
  unfolding load_entry
  block_of s e = record { first_doc_id = e.first_doc_id; contents = to_option (load_entry s e) }

  -- What the lookups and the iterators see of an open table.
  unfoldable pub view : OpenTable → Reader
  unfolding block_of
  view t = record { meta = t.meta; blocks = map (block_of t.source) t.index_entries }
