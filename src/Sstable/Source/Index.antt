-- ===== src/Sstable/Source/Index.antt =====
-- The index block of internal/sstable/reader.go, as the writer lays it out.
use dist_log.Prelude.{
  ◌+◌, ◌*◌, ◌/◌, ◌%◌, ◌^◌, ◌<◌, ◌≡◌, refl, List, [], ◌∷◌, ◌++◌, Option, none, some, true, false,
  length, length-append, drop, ltb, ◌==◌, arith,
}
use dist_log.Types.{DocId}
use dist_log.Bytes.{Byte}
use dist_log.Bytes.Crc.{checksum}
use dist_log.Bytes.Laws.{drop-length-append}
use dist_log.Sstable.Format.{IndexEntry, marshal_index_entry}
use dist_log.Sstable.Format.Laws.{
  IndexEntryFits, unmarshal-marshal_index_entry, length-marshal_index_entry, not_short, eq_self,
}
use dist_log.Sstable.Writer.{index_body, trailer}
use dist_log.Sstable.Source.{good, not_above, read_entries, read_index}
use dist_log.Sstable.Source.Blocks.{body_of, length-trailer, trailer_count, trailer-checksum}
use dist_log.Sstable.Layout.{index_bytes}

-- Entries whose fields have their widths and whose numbers ascend, above `prev` if there is one.
abbrev pub Ascending : Option DocId → List IndexEntry → Type 0
Ascending prev [] = Unit
Ascending prev (e ∷ es) =
    IndexEntryFits e × (not_above prev e.first_doc_id ≡ false) × Ascending (some e.first_doc_id) es

pub length-index_body : (es : List IndexEntry) → length (index_body es) ≡ 24 * length es
unfolding index_body
length-index_body [] = refl
length-index_body (e ∷ es) = omega (
  arith,
  length-index_body es,
  length-append (marshal_index_entry e) (index_body es),
  length-marshal_index_entry e,
)

pub length-index_bytes : (es : List IndexEntry) → length (index_bytes es) ≡ 24 * length es + 8
unfolding index_bytes
length-index_bytes es = omega (
  arith,
  length-index_body es,
  length-append (index_body es) (trailer (length es) (index_body es)),
  length-trailer (length es) (index_body es),
)

read_entries-index_body :
    (prev : Option DocId) (es : List IndexEntry)
    → Ascending prev es
    → read_entries (length es) prev (index_body es) ≡ good es
unfolding read_entries index_body
read_entries-index_body prev [] h = refl
read_entries-index_body prev (e ∷ es) (f, a, h) =
    let back : drop 24 (marshal_index_entry e ++ index_body es) ≡ index_body es =
      rw (← length-marshal_index_entry e)
        (drop-length-append (marshal_index_entry e) (index_body es)) in
    rw (unmarshal-marshal_index_entry e (index_body es) f, a, back)
      (rw (read_entries-index_body (some e.first_doc_id) es h) refl)

-- The index block is read back if the meta block counts as many data blocks as it has entries.
pub read_index-index_bytes :
    (es : List IndexEntry)
    → Ascending none es
    → length es < 2 ^ 32
    → read_index (length es) (index_bytes es) ≡ good es
unfolding read_index index_bytes
read_index-index_bytes es h n =
    let body : List Byte = index_body es in
    let t : List Byte = trailer (length es) body in
    let parts = body_of (length es) body in
    let long : ltb (length (body ++ t)) 8 ≡ false =
      not_short _ 8 (omega (arith, length-append body t, length-trailer (length es) body)) in
    let size = length-index_body es in
    let count : (length es == length body / 24) ≡ true = ground (arith, size) in
    let whole : (length body % 24 == 0) ≡ true = ground (arith, size) in
    rw (long, parts.0, parts.1)
      (rw
        (
          trailer-checksum (length es) body,
          eq_self (checksum body),
          trailer_count (length es) body n,
        )
        (rw (count, whole, eq_self (length es)) (read_entries-index_body none es h)))
