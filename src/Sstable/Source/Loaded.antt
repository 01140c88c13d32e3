-- ===== src/Sstable/Source/Loaded.antt =====
-- A file that begins with laid-out data blocks, as the index entries of those blocks find them
-- (internal/sstable/reader.go).
use mathlib.Core.List.{append_assoc}
use dist_log.Prelude.{
  ℕ, suc, ◌+◌, ◌-◌, ◌^◌, ◌<◌, ◌≡◌, refl, sym, ap, ap₂, ◌∙◌, List, [], ◌∷◌, ◌++◌, some, false,
  length, length-append, take, ltb, leb, ◌==◌, arith, map, ◌≢◌,
}
use dist_log.Types.Entries.{Entry}
use dist_log.Types.Codec.{Json}
use dist_log.Bytes.{Byte, slice}
use dist_log.Bytes.Laws.{take-length-append, drop-length-append}
use dist_log.Sstable.Format.{IndexEntry}
use dist_log.Sstable.Reader.{Block}
use dist_log.Sstable.Reader.Get.{SortedIn, WellFormed}
use dist_log.Sstable.Reader.Iterator.{readable}
use dist_log.Sstable.Source.{
  Source, good, ◌>>=◌, from_read, read_file, file_source, load_entry, block_of, decode_block,
  to_option,
}
use dist_log.Sstable.Source.Blocks.{decode_block-block_bytes}
use dist_log.Sstable.Layout.{
  concat, encode_records, block_bytes, data_bytes, index_entry, index_of, first_of, AllFit,
  AllFit-left, AllFit-right,
}

drop_further :
    (n : ℕ) (pre mid post : List Byte)
    → n ≡ length mid
    → slice (length pre) (length pre + n) (pre ++ (mid ++ post)) ≡ mid
drop_further n pre mid post e =
    let k : length pre + n - length pre ≡ length mid = omega (arith, e) in
    ap₂ take k (drop-length-append pre (mid ++ post)) ∙ take-length-append mid post

-- What lies between two parts of a file is read from its offset with its length.
pub read_file-middle :
    (pre mid post : List Byte)
    → length pre < 2 ^ 63
    → read_file (pre ++ (mid ++ post)) (length pre) (length mid) ≡ some mid
unfolding read_file
read_file-middle pre [] post h = ground arith
read_file-middle pre (x ∷ xs) post h =
    let mid : List Byte = x ∷ xs in
    let low : leb (2 ^ 63) (length pre) ≡ false = ground arith in
    let some_bytes : (length mid == 0) ≡ false = ground arith in
    let inside : ltb (length (pre ++ (mid ++ post))) (length pre + length mid) ≡ false =
      ground (arith, length-append pre (mid ++ post), length-append mid post) in
    rw (low, some_bytes, inside) (ap some (drop_further (length mid) pre mid post refl))

module _ (J : Json) where
  load_entry_read :
      (s : Source) (e : IndexEntry) (buf : List Byte)
      → s.read_at e.block_offset e.block_size ≡ some buf
      → load_entry J s e ≡ decode_block J buf
  unfolding load_entry
  load_entry_read s e buf h = ap (λ o. from_read o >>= decode_block J) h

  pub load_entry-block :
      (pre post : List Byte) (b : List Entry)
      → AllFit J b
      → length (encode_records J b) < 2 ^ 32
      → length b < 2 ^ 32
      → length pre < 2 ^ 63
      → load_entry J (file_source (pre ++ (block_bytes J b ++ post))) (index_entry J (length pre) b)
        ≡ good b
  load_entry-block pre post b h s n p =
      let file : List Byte = pre ++ (block_bytes J b ++ post) in
      let read : (file_source file).read_at (length pre) (length (block_bytes J b))
          ≡ some (block_bytes J b) =
        unfold file_source in read_file-middle pre (block_bytes J b) post p in
      load_entry_read (file_source (pre ++ (block_bytes J b ++ post)))
        (index_entry J (length pre) b) (block_bytes J b) read
      ∙ decode_block-block_bytes J b h s n

  -- The blocks that loading is to give.
  unfoldable pub loaded : List (List Entry) → List Block
  loaded [] = []
  loaded (b ∷ bs) = record { first_doc_id = first_of J b; contents = some b } ∷ loaded bs

  abbrev pub AllSmall : List (List Entry) → Type 0
  AllSmall [] = Unit
  AllSmall (b ∷ bs) = (length (encode_records J b) < 2 ^ 32) × (length b < 2 ^ 32) × AllSmall bs

  -- Where the data blocks stand in a file, between `pre` and `post`, every index entry finds its block.
  pub map-block_of :
      (pre post : List Byte) (bs : List (List Entry))
      → AllFit J (concat bs)
      → AllSmall bs
      → length pre + length (data_bytes J bs) < 2 ^ 63
      → map
          (block_of J (file_source (pre ++ (data_bytes J bs ++ post))))
          (index_of J (length pre) bs)
        ≡ loaded bs
  unfolding concat index_of data_bytes loaded block_of
  map-block_of pre post [] h s n = refl
  map-block_of pre post (b ∷ bs) h (sb, nb, sbs) n =
      let bb : List Byte = block_bytes J b in
      let rest : List Byte = data_bytes J bs in
      let sizes = length-append bb rest in
      let here : (pre ++ ((bb ++ rest) ++ post)) ≡ (pre ++ (bb ++ (rest ++ post))) =
        ap (λ l. pre ++ l) (append_assoc bb rest post) in
      let there : (pre ++ ((bb ++ rest) ++ post)) ≡ ((pre ++ bb) ++ (rest ++ post)) =
        here ∙ sym (append_assoc pre bb (rest ++ post)) in
      let first : load_entry J (file_source (pre ++ ((bb ++ rest) ++ post)))
            (index_entry J (length pre) b)
          ≡ good b =
        ap (λ f. load_entry J (file_source f) (index_entry J (length pre) b)) here
        ∙ load_entry-block pre (rest ++ post) b (AllFit-left J b (concat bs) h) sb nb
            (omega (arith, n, sizes)) in
      let others : map (block_of J (file_source (pre ++ ((bb ++ rest) ++ post))))
            (index_of J (length pre + length bb) bs)
          ≡ loaded bs =
        ap₂ (λ f k. map (block_of J (file_source f)) (index_of J k bs)) there
          (sym (length-append pre bb))
        ∙ map-block_of (pre ++ bb) post bs (AllFit-right J b (concat bs) h) sbs
            (omega (arith, n, sizes, length-append pre bb)) in
      ap₂ (λ c l. record { first_doc_id = first_of J b; contents = to_option J c } ∷ l) first others

  pub readable-loaded : (bs : List (List Entry)) → readable (loaded bs) ≡ concat bs
  unfolding readable loaded concat
  readable-loaded [] = refl
  readable-loaded (b ∷ bs) = ap (λ l. b ++ l) (readable-loaded bs)

  abbrev pub AllFull : List (List Entry) → Type 0
  AllFull [] = Unit
  AllFull (b ∷ bs) = (b ≢ []) × AllFull bs

  pub SortedIn-split :
      (lo hi : ℕ) (xs ys : List Entry)
      → SortedIn lo hi (xs ++ ys)
      → (mid : ℕ) × SortedIn lo mid xs × SortedIn mid hi ys
  SortedIn-split lo hi [] ys h = (lo, omega arith, h)
  SortedIn-split lo hi ((i, r) ∷ xs) ys (a, h) =
      let (mid, l, m) = SortedIn-split (suc i) hi xs ys h in (mid, (a, l), m)

  -- Ascending records cut into blocks that are not empty make a well-formed table.
  pub loaded-WellFormed :
      (lo hi : ℕ) (bs : List (List Entry))
      → AllFull bs
      → SortedIn lo hi (concat bs)
      → WellFormed lo hi (loaded bs)
  unfolding loaded concat
  loaded-WellFormed lo hi [] f h = h
  loaded-WellFormed lo hi ([] ∷ bs) f h = absurd (f.0 refl)
  loaded-WellFormed lo hi (((i, r) ∷ es) ∷ bs) f (a, h) =
      let (mid, l, m) = SortedIn-split (suc i) hi es (concat bs) h in
      (r, es, mid, refl, a, l, loaded-WellFormed mid hi bs f.1 m)
