-- ===== src/Sstable/Writer/Built.antt =====
-- The invariant of the writer (internal/sstable/writer.go): what is in the file, in the pending block
-- and in the index after some records have been added.
use mathlib.Core.List.{append-nil, append_assoc}
use dist_log.Prelude.{
  ℕ, suc, ◌+◌, ◌^◌, ◌<◌, ◌≤◌, ◌≡◌, refl, sym, subst, ap, ap₂, ◌∙◌, List, [], ◌∷◌, ◌++◌, Option,
  none, Bool, true, false, ◌≢◌, length, length-append, ◌==◌, if◌then◌else◌, if_both, arith,
}
use dist_log.Prelude.Int.{ltb_ℤ}
use dist_log.Prelude.Decimal.{IsI64}
use dist_log.Types.{DocId, LogRecord}
use dist_log.Types.Entries.{Entry, lookup, lookup-last}
use dist_log.Types.Codec.{Json}
use dist_log.Bytes.{Byte}
use dist_log.Sstable.Format.{IndexEntry, encode_record_header}
use dist_log.Sstable.Format.Laws.{IsU64}
use dist_log.Sstable.Reader.Get.{SortedIn}
use dist_log.Sstable.Source.Loaded.{AllFull}
use dist_log.Sstable.Layout.{
  concat, concat-append, payload, header_of, encode_records, encode_records-append, block_bytes,
  data_bytes, data_bytes-append, index_of, index_of-append, index_entry, first_of, EntryFits,
}
use dist_log.Sstable.Layout.Sizes.{
  Room, count-le-encode_records, length-block_bytes, length-encode_records, length-data_bytes,
  length-concat,
}
use dist_log.Sstable.Writer.{Writer, new_writer, note, push_block, trailer, block_size}

-- The least and the greatest number and timestamp of the records.
abbrev pub Spans : Writer → List Entry → Type 0
Spans w es =
    (w.has_record ≡ true)
    × SortedIn w.min_doc_id (suc w.max_doc_id) es
    × (w.last_doc_id ≡ w.max_doc_id)
    × IsU64 w.min_doc_id
    × IsU64 w.max_doc_id
    × IsI64 w.min_ts
    × IsI64 w.max_ts
    × (lookup w.max_doc_id es ≢ none)

abbrev pub Range : Writer → List Entry → Type 0
Range w [] = w.has_record ≡ false
Range w (e ∷ es) = Spans w (e ∷ es)

pub Range-Spans : (w : Writer) (es : List Entry) → es ≢ [] → Range w es → Spans w es
Range-Spans w [] q h = absurd (q refl)
Range-Spans w (e ∷ es) q h = h

-- What a number has to be above.
unfoldable pub next_from : Writer → ℕ
next_from w = if w.has_record then suc w.last_doc_id else 0

-- The writer after both writes of a block.
unfoldable pub flushed : Writer → Writer
unfolding push_block
flushed w =
    push_block (record w { file = (w.file ++ w.cur_block) ++ trailer w.cur_records w.cur_block })

abbrev indexed : ℕ → ℕ → ℕ → IndexEntry
indexed first off size = record {
  first_doc_id = first;
  block_offset = off;
  block_size = size;
  reserved = 0;
}

module _ (J : Json) where
  -- The records `es` have been added: those of `blocks` are written, those of `pending` are not.
  pub record Built (closed : Bool) (blocks : List (List Entry)) (pending : List Entry) (w : Writer)
      : Type 0 where
    pub file : w.file ≡ data_bytes J blocks
    pub sound : w.broken ≡ false
    pub is_closed : w.closed ≡ closed
    pub cur_block : w.cur_block ≡ encode_records J pending
    pub cur_records : w.cur_records ≡ length pending
    pub cur_first : w.cur_first_doc_id ≡ first_of J pending
    pub index : w.index_entries ≡ index_of J 0 blocks
    pub block_count : w.data_block_count ≡ length blocks
    pub offset : w.offset ≡ length (data_bytes J blocks)
    pub record_count : w.record_count ≡ length (concat blocks ++ pending)
    pub full : AllFull J blocks
    pub range : Range w (concat blocks ++ pending)

  pub new_writer-Built : (old : Option (List Byte)) → Built false [] [] (new_writer old)
  unfolding new_writer data_bytes encode_records index_of concat
  new_writer-Built old = record {
    file = refl;
    sound = refl;
    is_closed = refl;
    cur_block = refl;
    cur_records = refl;
    cur_first = refl;
    index = refl;
    block_count = refl;
    offset = refl;
    record_count = refl;
    full = tt;
    range = refl;
  }

  entry_eq : {a a' b b' c c' : ℕ} → a ≡ a' → b ≡ b' → c ≡ c' → indexed a b c ≡ indexed a' b' c'
  entry_eq p q r = λ i. indexed (p i) (q i) (r i)

  SortedIn-snoc :
      (lo hi d : ℕ) (r : LogRecord) (es : List Entry)
      → SortedIn lo hi es
      → hi ≤ d
      → SortedIn lo (suc d) (es ++ ((d, r) ∷ []))
  SortedIn-snoc lo hi d r [] s h = (omega (arith, s, h), omega arith)
  SortedIn-snoc lo hi d r ((i, q) ∷ es) s h = (s.0, SortedIn-snoc (suc i) hi d r es s.1 h)

  note-Range :
      (w : Writer) (es : List Entry) (d : DocId) (r : LogRecord) (p : List Byte)
      → IsU64 d
      → IsI64 r.timestamp
      → next_from w ≤ d
      → Range w es
      → Range (note d r p w) (es ++ ((d, r) ∷ []))
  unfolding note next_from
  note-Range w [] d r p u t h s =
      simp s (refl, (omega arith, omega arith), refl, u, u, t, t, lookup-last d r [])
  note-Range w (e ∷ es) d r p u t h (has, s, l, u0, u1, t0, t1, last) =
      let above : suc w.max_doc_id ≤ d = ground (arith, h, has, l) in
      let sorted = SortedIn-snoc w.min_doc_id (suc w.max_doc_id) d r (e ∷ es) s above in
      simp has (
        refl,
        sorted,
        refl,
        u0,
        u,
        if_both IsI64 (ltb_ℤ r.timestamp w.min_ts) r.timestamp w.min_ts t t0,
        if_both IsI64 (ltb_ℤ w.max_ts r.timestamp) r.timestamp w.max_ts t t1,
        lookup-last d r (e ∷ es),
      )

  -- The room of all records bounds their number and the pending block.
  room_lem :
      (bs : List (List Entry)) (p : List Entry)
      → Room J (concat bs ++ p)
      → (length (concat bs ++ p) < 2 ^ 30)
        × (length p < 2 ^ 30)
        × (length (encode_records J p) < 2 ^ 30)
  room_lem bs p h =
      let n = count-le-encode_records J (concat bs ++ p) in
      let e = length-encode_records J (concat bs) p in
      (omega (arith, h, n), omega (arith, h, n, length-append (concat bs) p), omega (arith, h, e))

  first-snoc :
      (p : List Entry) (d : DocId) (r : LogRecord)
      → (if length p == 0 then d else first_of J p) ≡ first_of J (p ++ ((d, r) ∷ []))
  first-snoc [] d r = refl
  first-snoc ((i, q) ∷ es) d r = ground arith

  -- `Add` puts the record behind the pending ones.
  pub note-Built :
      (bs : List (List Entry)) (p : List Entry) (d : DocId) (r : LogRecord) (w : Writer)
      → Built false bs p w
      → EntryFits J (d, r)
      → next_from w ≤ d
      → Room J (concat bs ++ (p ++ ((d, r) ∷ [])))
      → Built false bs (p ++ ((d, r) ∷ [])) (note d r (payload J r) w)
  unfolding note
  note-Built bs p d r w h f n room =
      let e : Entry = (d, r) in
      let (all_small, p_small, bytes_small) = room_lem bs (p ++ (e ∷ [])) room in
      let snoc : (concat bs ++ p) ++ (e ∷ []) ≡ concat bs ++ (p ++ (e ∷ [])) =
        append_assoc (concat bs) p (e ∷ []) in
      let one : encode_records J (e ∷ []) ≡ encode_record_header (header_of J e) ++ payload J r =
        unfold encode_records in append-nil (encode_record_header (header_of J e) ++ payload J r) in
      record {
        file = h.file;
        sound = h.sound;
        is_closed = h.is_closed;
        cur_block =
            ap₂ (λ a b. a ++ b) h.cur_block (sym one) ∙ sym (encode_records-append J p (e ∷ []));
        cur_records = omega (arith, h.cur_records, length-append p (e ∷ []), p_small);
        cur_first =
            ap₂ (λ k x. if k == 0 then d else x) h.cur_records h.cur_first ∙ first-snoc p d r;
        index = h.index;
        block_count = h.block_count;
        offset = h.offset;
        record_count = omega (
          arith,
          h.record_count,
          ap length snoc,
          length-append (concat bs ++ p) (e ∷ []),
          all_small,
        );
        full = h.full;
        range =
            subst (Range (note d r (payload J r) w)) snoc
              (note-Range w (concat bs ++ p) d r (payload J r) f.doc_id f.timestamp n h.range);
      }

  AllFull-snoc :
      (bs : List (List Entry)) (p : List Entry) → AllFull J bs → p ≢ [] → AllFull J (bs ++ (p ∷ []))
  AllFull-snoc [] p h q = (q, tt)
  AllFull-snoc (b ∷ bs) p h q = (h.0, AllFull-snoc bs p h.1 q)

  flushed-Range : (w : Writer) (es : List Entry) → Range w es → Range (flushed w) es
  unfolding flushed push_block
  flushed-Range w [] h = h
  flushed-Range w (e ∷ es) h = h

  -- The pending records become a block, and the index names it.
  pub flushed-Built :
      (c : Bool) (bs : List (List Entry)) (p : List Entry) (w : Writer)
      → Built c bs p w
      → p ≢ []
      → Room J (concat bs ++ p)
      → Built c (bs ++ (p ∷ [])) [] (flushed w)
  unfolding flushed push_block
  flushed-Built c bs p w h q room =
      let (all_small, p_small, bytes_small) = room_lem bs p room in
      let block : trailer w.cur_records w.cur_block ≡ trailer (length p) (encode_records J p) =
        ap₂ trailer h.cur_records h.cur_block in
      let last : data_bytes J (p ∷ []) ≡ block_bytes J p = unfold data_bytes in append-nil _ in
      let parts : block_bytes J p ≡ encode_records J p ++ trailer (length p) (encode_records J p) =
        unfold block_bytes in refl in
      let one_block : concat (p ∷ []) ≡ p = unfold concat in append-nil p in
      let off : ℕ = length (data_bytes J bs) in
      let start : 0 + off ≡ off = omega arith in
      let last_entry : index_of J 0 bs ++ index_of J (0 + off) (p ∷ [])
          ≡ index_of J 0 bs ++ (index_entry J off p ∷ []) =
        rw start (unfold index_of in refl) in
      let whole : data_bytes J bs ++ data_bytes J (p ∷ []) ≡ data_bytes J (bs ++ (p ∷ [])) =
        sym (data_bytes-append J bs (p ∷ [])) in
      let same : concat bs ++ p ≡ concat (bs ++ (p ∷ [])) ++ [] =
        ap (λ l. concat bs ++ l) (sym one_block)
        ∙ (sym (concat-append bs (p ∷ [])) ∙ sym (append-nil (concat (bs ++ (p ∷ []))))) in
      let size : block_size w.cur_block ≡ length (block_bytes J p) =
        omega (arith, ap length h.cur_block, length-block_bytes J p, bytes_small) in
      let count = length-concat J bs h.full in
      let total = length-append (concat bs) p in
      record {
        file =
            ap₂ (λ a t. a ++ t) (ap₂ (λ a b. a ++ b) h.file h.cur_block) block
            ∙ (append_assoc (data_bytes J bs) (encode_records J p)
                  (trailer (length p) (encode_records J p))
                ∙ (ap (λ l. data_bytes J bs ++ l) (sym (last ∙ parts)) ∙ whole));
        sound = h.sound;
        is_closed = h.is_closed;
        cur_block = unfold encode_records in refl;
        cur_records = refl;
        cur_first = refl;
        index =
            ap₂ (λ l e. l ++ (e ∷ [])) h.index (entry_eq h.cur_first h.offset size)
            ∙ sym (index_of-append J 0 bs (p ∷ []) ∙ last_entry);
        block_count =
            omega (arith, h.block_count, length-append bs (p ∷ []), count, total, all_small);
        offset = omega (
          arith,
          h.offset,
          size,
          ap length whole,
          length-append (data_bytes J bs) (data_bytes J (p ∷ [])),
          ap length last,
          length-data_bytes J bs,
          length-encode_records J (concat bs) p,
          room,
          count,
          total,
          all_small,
        );
        record_count = h.record_count ∙ ap length same;
        full = AllFull-snoc bs p h.full q;
        range = flushed-Range w (concat (bs ++ (p ∷ [])) ++ []) (subst (Range w) same h.range);
      }
