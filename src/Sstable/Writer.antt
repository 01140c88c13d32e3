-- ===== src/Sstable/Writer.antt =====
-- internal/sstable/writer.go. The disk and the clock are arguments: whether each file operation fails,
-- and the time of the meta block.
pub mod Close
pub mod Built
pub mod Added
pub mod Failures
pub mod Atomic
pub mod Tail
use dist_log.Prelude.{
  ℕ, ◌+◌, ◌-◌, ◌*◌, ◌%◌, ◌^◌, List, [], ◌∷◌, ◌++◌, Option, none, some, Bool, true, false, ◌&&◌,
  ◌||◌, length, ltb, leb, ◌==◌, replicate, if◌then◌else◌,
}
use dist_log.Prelude.Int.{ltb_ℤ, pos}
use dist_log.Types.{DocId, LogRecord, Timestamp}
use dist_log.Types.Codec.{Json, marshal}
use dist_log.Bytes.{Byte, put_le}
use dist_log.Bytes.Crc.{checksum}
use dist_log.Sstable.Format.{
  IndexEntry, marshal_index_entry, MetaBlock, marshal_meta_block, Footer, marshal_footer,
  encode_record_header, format_version, footer_size, meta_block_size,
}

abbrev pub data_block_trailer_size : ℕ
data_block_trailer_size = 8

abbrev pub index_block_trailer_size : ℕ
index_block_trailer_size = 8

abbrev pub default_block_size : ℕ
default_block_size = 16 * 1024

pub data WriterError : Type 0 where
  writer_closed not_increasing marshal_failed payload_too_large write_failed : WriterError
  zero_records flush_failed sync_failed close_failed rename_failed sync_dir_failed : WriterError
  remove_failed : WriterError

-- `file` is what went into the buffered writer, and `broken` the error that bufio keeps. The last two
-- fields are the directory: whether the temporary file is there, and what is at the final path.
-- `offset` is the bit pattern of the int64.
pub record Writer : Type 0 where
  pub file : List Byte
  pub broken : Bool
  pub cur_block : List Byte
  pub cur_records : ℕ
  pub cur_first_doc_id : DocId
  pub index_entries : List IndexEntry
  pub min_doc_id : DocId
  pub max_doc_id : DocId
  pub min_ts : Timestamp
  pub max_ts : Timestamp
  pub record_count : ℕ
  pub data_block_count : ℕ
  pub last_doc_id : DocId
  pub has_record : Bool
  pub offset : ℕ
  pub closed : Bool
  pub aborted : Bool
  pub finished : Bool
  pub block_target_size : ℕ
  pub tmp : Bool
  pub final : Option (List Byte)

-- A value and the writer after it, or the error and the writer that it leaves.
pub data Run (A : Type 0) : Type 0 where
  done : A → Writer → Run A
  failed : WriterError → Writer → Run A

infixl 5 ◌>>=◌
abbrev pub ◌>>=◌ : {A B : Type 0} → Run A → (A → Writer → Run B) → Run B
done a w >>= k = k a w
failed e w >>= k = failed e w

-- `NewWriter`, when the temporary file can be opened; `old` is what the final path holds already.
unfoldable pub new_writer : Option (List Byte) → Writer
new_writer old = record {
  file = [];
  broken = false;
  cur_block = [];
  cur_records = 0;
  cur_first_doc_id = 0;
  index_entries = [];
  min_doc_id = 0;
  max_doc_id = 0;
  min_ts = pos 0;
  max_ts = pos 0;
  record_count = 0;
  data_block_count = 0;
  last_doc_id = 0;
  has_record = false;
  offset = 0;
  closed = false;
  aborted = false;
  finished = false;
  block_target_size = default_block_size;
  tmp = true;
  final = old;
}

-- `bufW.Write`: after an error nothing is accepted any more.
unfoldable pub write : Bool → List Byte → Writer → Run Unit
write fails bs w =
    if fails || w.broken
    then failed write_failed (record w { broken = true })
    else done tt (record w { file = w.file ++ bs })

-- Whether the two writes of a block fail.
pub record TwoWrites : Type 0 where
  pub body_fails : Bool
  pub trailer_fails : Bool

-- The trailer of a data block and of the index block: a count and the checksum of what is before it.
unfoldable pub trailer : ℕ → List Byte → List Byte
trailer n body = put_le 4 n ++ put_le 4 (checksum body)

-- The size of a block is cut to 32 bits.
abbrev pub block_size : List Byte → ℕ
block_size body = (length body + data_block_trailer_size) % 2 ^ 32

-- The end of `flushBlock`, when both writes went well.
unfoldable pub push_block : Writer → Writer
push_block w = record w {
  offset = (w.offset + block_size w.cur_block) % 2 ^ 64;
  index_entries =
      w.index_entries
      ++ (record {
        first_doc_id = w.cur_first_doc_id;
        block_offset = w.offset;
        block_size = block_size w.cur_block;
        reserved = 0;
      }
          ∷ []);
  data_block_count = (w.data_block_count + 1) % 2 ^ 32;
  cur_block = [];
  cur_records = 0;
  cur_first_doc_id = 0;
}

-- `flushBlock`
unfoldable pub flush_block : TwoWrites → Writer → Run Unit
unfolding write trailer push_block
flush_block f w =
    if w.cur_records == 0
    then done tt w
    else write f.body_fails w.cur_block w >>= λ _ w1.
        write f.trailer_fails (trailer w.cur_records w.cur_block) w1 >>= λ _ w2.
        done tt (push_block w2)

-- What `Add` notes of a record whose encoding is `payload`.
unfoldable pub note : DocId → LogRecord → List Byte → Writer → Writer
unfolding encode_record_header
note d r payload w = record w {
  cur_first_doc_id = if w.cur_records == 0 then d else w.cur_first_doc_id;
  cur_block =
      w.cur_block
      ++ (encode_record_header
            (record { doc_id = d; timestamp = r.timestamp; payload_len = length payload })
          ++ payload);
  cur_records = (w.cur_records + 1) % 2 ^ 32;
  min_doc_id = if w.has_record then w.min_doc_id else d;
  max_doc_id = d;
  min_ts =
      if w.has_record
      then if ltb_ℤ r.timestamp w.min_ts then r.timestamp else w.min_ts
      else r.timestamp;
  max_ts =
      if w.has_record
      then if ltb_ℤ w.max_ts r.timestamp then r.timestamp else w.max_ts
      else r.timestamp;
  has_record = true;
  last_doc_id = d;
  record_count = (w.record_count + 1) % 2 ^ 64;
}

-- The end of `Add`: a block that has reached its size is written out.
unfoldable pub flush_if_full : TwoWrites → Writer → Run Unit
unfolding flush_block
flush_if_full f w =
    if leb w.block_target_size (length w.cur_block) then flush_block f w else done tt w

-- `Add` of a record whose encoding is known.
unfoldable pub add_payload : TwoWrites → DocId → LogRecord → Option (List Byte) → Writer → Run Unit
unfolding note flush_if_full
add_payload f d r none w = failed marshal_failed w
add_payload f d r (some payload) w =
    if ltb (2 ^ 32 - 1) (length payload)
    then failed payload_too_large w
    else flush_if_full f (note d r payload w)

unfoldable pub add : Json → TwoWrites → DocId → LogRecord → Writer → Run Unit
unfolding add_payload marshal
add J f d r w =
    if w.closed
    then failed writer_closed w
    else if w.has_record && leb d w.last_doc_id
    then failed not_increasing w
    else add_payload f d r (marshal J r) w

unfoldable pub index_body : List IndexEntry → List Byte
unfolding marshal_index_entry
index_body [] = []
index_body (e ∷ es) = marshal_index_entry e ++ index_body es

-- `writeIndexBlock`, with the offset and the size of the block.
unfoldable pub write_index_block : TwoWrites → Writer → Run (ℕ × ℕ)
unfolding index_body trailer write
write_index_block f w =
    let body = index_body w.index_entries in
    let size = (length body + index_block_trailer_size) % 2 ^ 32 in
    write f.body_fails body w >>= λ _ w1.
    write f.trailer_fails (trailer (length w.index_entries % 2 ^ 32) body) w1 >>= λ _ w2.
    done (w.offset, size) (record w2 { offset = (w2.offset + size) % 2 ^ 64 })

-- The meta block of what was added, at a time in seconds.
unfoldable pub meta_of : Timestamp → Writer → MetaBlock
meta_of now w = record {
  min_doc_id = w.min_doc_id;
  max_doc_id = w.max_doc_id;
  min_timestamp = w.min_ts;
  max_timestamp = w.max_ts;
  record_count = w.record_count;
  data_block_count = w.data_block_count;
  created_at_unix = now;
  reserved = replicate 32 0;
}

-- `writeMetaBlock`
unfoldable pub write_meta_block : Bool → Timestamp → Writer → Run (ℕ × ℕ)
unfolding meta_of marshal_meta_block write
write_meta_block fails now w = write fails (marshal_meta_block (meta_of now w)) w >>= λ _ w1.
    done (w.offset, meta_block_size) (record w1 { offset = (w1.offset + meta_block_size) % 2 ^ 64 })

abbrev pub footer_of : ℕ × ℕ → ℕ × ℕ → Footer
footer_of (index_offset, index_size) (meta_offset, meta_size) = record {
  version = format_version;
  flags = 0;
  index_block_offset = index_offset;
  index_block_size = index_size;
  meta_block_offset = meta_offset;
  meta_block_size = meta_size;
}

-- `writeFooter`
unfoldable pub write_footer : Bool → ℕ × ℕ → ℕ × ℕ → Writer → Run Unit
unfolding marshal_footer write
write_footer fails index meta w = write fails (marshal_footer (footer_of index meta)) w >>= λ _ w1.
    done tt (record w1 { offset = (w1.offset + footer_size) % 2 ^ 64 })
