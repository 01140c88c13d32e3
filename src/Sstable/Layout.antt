-- ===== src/Sstable/Layout.antt =====
-- The layout of the data blocks of a table file (internal/sstable/format.go, writer.go): the bytes and
-- the index that a list of blocks has, written down without the writer.
pub mod Sizes
use mathlib.Core.List.{append-nil, append_assoc}
use dist_log.Prelude.{
  ℕ, zero, suc, ◌+◌, ◌^◌, ◌<◌, ◌≡◌, refl, sym, ap, ◌∙◌, List, [], ◌∷◌, ◌++◌, Option, none, some,
  length, length-append, arith,
}
use dist_log.Prelude.Decimal.{IsI64}
use dist_log.Types.{DocId, LogRecord}
use dist_log.Types.Entries.{Entry}
use dist_log.Types.Codec.{Json, ReadsBack}
use dist_log.Bytes.{Byte}
use dist_log.Sstable.Format.{
  IndexEntry, RecordHeader, encode_record_header, Footer, MetaBlock, marshal_meta_block,
  meta_block_size, marshal_footer,
}
use dist_log.Sstable.Format.Laws.{IsU64}
use dist_log.Sstable.Writer.{trailer, index_body, footer_of}

-- Everything in order in one list.
unfoldable pub concat : List (List Entry) → List Entry
concat [] = []
concat (b ∷ bs) = b ++ concat bs

pub concat-append : (bs cs : List (List Entry)) → concat (bs ++ cs) ≡ concat bs ++ concat cs
unfolding concat
concat-append [] cs = refl
concat-append (b ∷ bs) cs = rw (concat-append bs cs) (sym (append_assoc b (concat bs) (concat cs)))

-- The index block with its trailer.
unfoldable pub index_bytes : List IndexEntry → List Byte
unfolding index_body trailer
index_bytes es = index_body es ++ trailer (length es) (index_body es)

abbrev pub meta_offset : List Byte → List IndexEntry → ℕ
meta_offset front es = length front + length (index_bytes es)

-- The footer of a file with these data blocks, this index and a meta block.
unfoldable pub table_footer : List Byte → List IndexEntry → Footer
unfolding index_bytes
table_footer front es =
    footer_of (length front, length (index_bytes es)) (meta_offset front es, meta_block_size)

-- A whole table file.
unfoldable pub table_bytes : List Byte → List IndexEntry → MetaBlock → List Byte
unfolding index_bytes table_footer marshal_meta_block marshal_footer
table_bytes front es m =
    front ++ (index_bytes es ++ (marshal_meta_block m ++ marshal_footer (table_footer front es)))

module _ (J : Json) where
  abbrev pub payload : LogRecord → List Byte
  payload r = elim (J.marshal r) [ none ↦ [] | some b ↦ b ]

  abbrev pub header_of : Entry → RecordHeader
  header_of (d, r) = record {
    doc_id = d;
    timestamp = r.timestamp;
    payload_len = length (payload r);
  }

  unfoldable pub encode_records : List Entry → List Byte
  unfolding encode_record_header
  encode_records [] = []
  encode_records (e ∷ es) = (encode_record_header (header_of e) ++ payload e.1) ++ encode_records es

  unfoldable pub block_bytes : List Entry → List Byte
  unfolding encode_records trailer
  block_bytes es = encode_records es ++ trailer (length es) (encode_records es)

  unfoldable pub data_bytes : List (List Entry) → List Byte
  unfolding block_bytes
  data_bytes [] = []
  data_bytes (b ∷ bs) = block_bytes b ++ data_bytes bs

  abbrev pub first_of : List Entry → DocId
  first_of [] = 0
  first_of ((d, r) ∷ es) = d

  abbrev pub index_entry : ℕ → List Entry → IndexEntry
  index_entry off b = record {
    first_doc_id = first_of b;
    block_offset = off;
    block_size = length (block_bytes b);
    reserved = 0;
  }

  unfoldable pub index_of : ℕ → List (List Entry) → List IndexEntry
  unfolding block_bytes
  index_of off [] = []
  index_of off (b ∷ bs) = index_entry off b ∷ index_of (off + length (block_bytes b)) bs

  -- An entry whose numbers have their machine widths and whose record the encoding keeps.
  pub record EntryFits (e : Entry) : Type 0 where
    pub doc_id : IsU64 e.0
    pub timestamp : IsI64 e.1.timestamp
    pub reads_back : ReadsBack J e.1

  abbrev pub AllFit : List Entry → Type 0
  AllFit [] = Unit
  AllFit (e ∷ es) = EntryFits e × AllFit es

  pub AllFit-left : (xs ys : List Entry) → AllFit (xs ++ ys) → AllFit xs
  AllFit-left [] ys h = tt
  AllFit-left (x ∷ xs) ys h = (h.0, AllFit-left xs ys h.1)

  pub AllFit-right : (xs ys : List Entry) → AllFit (xs ++ ys) → AllFit ys
  AllFit-right [] ys h = h
  AllFit-right (x ∷ xs) ys h = AllFit-right xs ys h.1

  pub encode_records-append :
      (xs ys : List Entry) → encode_records (xs ++ ys) ≡ encode_records xs ++ encode_records ys
  unfolding encode_records
  encode_records-append [] ys = refl
  encode_records-append (x ∷ xs) ys = rw (encode_records-append xs ys) (
      sym (
        append_assoc (encode_record_header (header_of x) ++ payload x.1) (encode_records xs)
          (encode_records ys)))

  pub data_bytes-append :
      (bs cs : List (List Entry)) → data_bytes (bs ++ cs) ≡ data_bytes bs ++ data_bytes cs
  unfolding data_bytes
  data_bytes-append [] cs = refl
  data_bytes-append (b ∷ bs) cs =
      rw (data_bytes-append bs cs)
        (sym (append_assoc (block_bytes b) (data_bytes bs) (data_bytes cs)))

  pub index_of-append :
      (off : ℕ) (bs cs : List (List Entry))
      → index_of off (bs ++ cs) ≡ index_of off bs ++ index_of (off + length (data_bytes bs)) cs
  unfolding index_of data_bytes
  index_of-append off [] cs = ap (λ n. index_of n cs) (omega arith)
  index_of-append off (b ∷ bs) cs =
      let e : off + length (block_bytes b) + length (data_bytes bs)
          ≡ off + length (block_bytes b ++ data_bytes bs) =
        omega (arith, length-append (block_bytes b) (data_bytes bs)) in
      ap (λ l. index_entry off b ∷ l)
        (index_of-append (off + length (block_bytes b)) bs cs
          ∙ ap (λ n. index_of (off + length (block_bytes b)) bs ++ index_of n cs) e)
