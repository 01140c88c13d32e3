-- ===== src/Sstable/Reader/Get.antt =====
-- `Reader.Get` of internal/sstable/reader.go finds exactly the records of a well-formed table.
use dist_log.Prelude.{
  ℕ, zero, suc, ◌≤◌, ◌<◌, ◌≡◌, refl, sym, ap, ◌∙◌, List, [], ◌∷◌, ◌++◌, Option, none, some, true,
  ltb, arith, Bool-cases, inl, inr,
}
use dist_log.Types.{DocId, LogRecord}
use dist_log.Types.Entries.{Entry, lookup}
use dist_log.Sstable.Reader.{
  Block, Reader, find_block, load_block, scan_block, scan_loaded, get_in_block, find_block_end,
  GetResult, found, absent, get,
}
use dist_log.Sstable.Reader.Iterator.{readable}
use dist_log.Sstable.Reader.Search.{reach, Firsts, find_block_end-reach}

-- Ascending numbers from `lo` on, all below `hi`.
abbrev pub SortedIn : ℕ → ℕ → List Entry → Type 0
SortedIn lo hi [] = lo ≤ hi
SortedIn lo hi ((i, r) ∷ es) = (lo ≤ i) × SortedIn (suc i) hi es

-- Every block can be loaded, begins with the number that the index has for it, and the numbers ascend
-- within the blocks and from block to block, between `lo` and `top`.
abbrev pub WellFormed : ℕ → ℕ → List Block → Type 0
WellFormed lo top [] = lo ≤ top
WellFormed lo top (b ∷ bs) =
    (r : LogRecord) × (rest : List Entry) × (hi : ℕ) × (b.contents
      ≡ some ((b.first_doc_id, r) ∷ rest))
    × (lo ≤ b.first_doc_id)
    × SortedIn (suc b.first_doc_id) hi rest
    × WellFormed hi top bs

abbrev pub of_lookup : Option LogRecord → GetResult
of_lookup none = absent
of_lookup (some r) = found r

SortedIn-le : (lo hi : ℕ) (es : List Entry) → SortedIn lo hi es → lo ≤ hi
SortedIn-le lo hi [] h = h
SortedIn-le lo hi ((i, r) ∷ es) h = omega (arith, SortedIn-le (suc i) hi es h.1)

lookup_under : (k lo hi : ℕ) (es : List Entry) → k < lo → SortedIn lo hi es → lookup k es ≡ none
unfolding lookup
lookup_under k lo hi [] h s = refl
lookup_under k lo hi ((i, r) ∷ es) h s = ground (arith, lookup_under k (suc i) hi es)

pub lookup_over : (k lo hi : ℕ) (es : List Entry) → hi ≤ k → SortedIn lo hi es → lookup k es ≡ none
unfolding lookup
lookup_over k lo hi [] h s = refl
lookup_over k lo hi ((i, r) ∷ es) h s =
    ground (arith, lookup_over k (suc i) hi es, SortedIn-le (suc i) hi es s.1)

scan_block-lookup :
    (k lo hi : ℕ) (es : List Entry) → SortedIn lo hi es → scan_block k es ≡ of_lookup (lookup k es)
unfolding scan_block lookup
scan_block-lookup k lo hi [] s = refl
scan_block-lookup k lo hi ((i, r) ∷ es) s =
    ground (arith, scan_block-lookup k (suc i) hi es s.1, lookup_under k (suc i) hi es)

abbrev or_else : Option LogRecord → Option LogRecord → Option LogRecord
or_else none o = o
or_else (some r) o = some r

or_else-none : (o : Option LogRecord) → or_else o none ≡ o
or_else-none none = refl
or_else-none (some r) = refl

lookup-append :
    (k : ℕ) (xs ys : List Entry) → lookup k (xs ++ ys) ≡ or_else (lookup k xs) (lookup k ys)
unfolding lookup
lookup-append k [] ys = refl
lookup-append k ((i, r) ∷ xs) ys = ground (arith, lookup-append k xs ys)

lt_of : {k n : ℕ} → ltb k n ≡ true → k < n
lt_of q = ground (arith, q)

WellFormed-le : (lo top : ℕ) (bs : List Block) → WellFormed lo top bs → lo ≤ top
WellFormed-le lo top [] w = w
WellFormed-le lo top (b ∷ bs) (r, rest, hi, e, a, s, w) =
    omega (arith, SortedIn-le (suc b.first_doc_id) hi rest s, WellFormed-le hi top bs w)

Firsts-mono : (lo hi : ℕ) (bs : List Block) → lo ≤ hi → Firsts hi bs → Firsts lo bs
Firsts-mono lo hi [] h f = tt
Firsts-mono lo hi (b ∷ bs) h f = (omega arith, f.1)

WellFormed-Firsts : (lo top : ℕ) (bs : List Block) → WellFormed lo top bs → Firsts lo bs
WellFormed-Firsts lo top [] h = tt
WellFormed-Firsts lo top (b ∷ bs) (r, rest, hi, e, a, s, w) = (
  a,
  Firsts-mono (suc b.first_doc_id) hi bs (SortedIn-le (suc b.first_doc_id) hi rest s)
      (WellFormed-Firsts hi top bs w),
)

-- The answer of a search that starts before a list of blocks of which `n` begin at `k` or before it.
abbrev place : ℕ → Option ℕ
place zero = none
place (suc n) = some n

lookup_block :
    (k : ℕ) (b : Block) (es : List Entry) (bs : List Block)
    → b.contents ≡ some es
    → lookup k (readable (b ∷ bs)) ≡ or_else (lookup k es) (lookup k (readable bs))
unfolding readable
lookup_block k b es bs e = rw (e, readable) (lookup-append k es (readable bs))

-- Nothing is found below the first block.
lookup_beyond :
    (k lo top : ℕ) (bs : List Block) → k < lo → WellFormed lo top bs → lookup k (readable bs) ≡ none
unfolding lookup readable
lookup_beyond k lo top [] h w = refl
lookup_beyond k lo top (b ∷ bs) h (r, rest, hi, e, a, s, w) =
    let later : lookup k (readable bs) ≡ none =
      lookup_beyond k hi top bs (omega (arith, SortedIn-le (suc b.first_doc_id) hi rest s)) w in
    let here : lookup k ((b.first_doc_id, r) ∷ rest) ≡ none =
      lookup_under k lo hi ((b.first_doc_id, r) ∷ rest) h (a, s) in
    lookup_block k b ((b.first_doc_id, r) ∷ rest) bs e
    ∙ (ap (λ o. or_else o (lookup k (readable bs))) here ∙ later)

lookup_unreached :
    (k lo top : ℕ) (bs : List Block)
    → reach k bs ≡ 0
    → WellFormed lo top bs
    → lookup k (readable bs) ≡ none
unfolding reach lookup readable
lookup_unreached k lo top [] q w = refl
lookup_unreached k lo top (b ∷ bs) q (r, rest, hi, e, a, s, w) =
    lookup_beyond k b.first_doc_id top (b ∷ bs) (ground arith) (r, rest, hi, e, omega arith, s, w)

reached-le : (k lo top n : ℕ) (bs : List Block) → reach k bs ≡ suc n → WellFormed lo top bs → lo ≤ k
unfolding reach
reached-le k lo top n [] q w = absurd (omega arith)
reached-le k lo top n (b ∷ bs) q (r, rest, hi, e, a, s, w) = ground arith

-- The record is looked for in the last block that begins at `k` or before it.
search_reached :
    (k lo top n : ℕ) (b : Block) (bs : List Block)
    → WellFormed lo top (b ∷ bs)
    → b.first_doc_id ≤ k
    → reach k bs ≡ n
    → get_in_block bs k (place n) ≡ of_lookup (lookup k (readable bs))
    → get_in_block (b ∷ bs) k (some n) ≡ of_lookup (lookup k (readable (b ∷ bs)))
unfolding load_block
search_reached k lo top zero b bs (r, rest, hi, e, a, s, w) h q ih =
    let es : List Entry = (b.first_doc_id, r) ∷ rest in
    let later : lookup k (readable bs) ≡ none = lookup_unreached k hi top bs q w in
    let whole : lookup k (readable (b ∷ bs)) ≡ lookup k es =
      lookup_block k b es bs e ∙ (ap (or_else (lookup k es)) later ∙ or_else-none (lookup k es)) in
    ap (scan_loaded k) e ∙ (scan_block-lookup k lo hi es (a, s) ∙ ap of_lookup (sym whole))
search_reached k lo top (suc n) b bs (r, rest, hi, e, a, s, w) h q ih =
    let es : List Entry = (b.first_doc_id, r) ∷ rest in
    let here : lookup k es ≡ none = lookup_over k lo hi es (reached-le k hi top n bs q w) (a, s) in
    let whole : lookup k (readable (b ∷ bs)) ≡ lookup k (readable bs) =
      lookup_block k b es bs e ∙ ap (λ o. or_else o (lookup k (readable bs))) here in
    ih ∙ ap of_lookup (sym whole)

search_blocks :
    (k lo top : ℕ) (bs : List Block)
    → WellFormed lo top bs
    → get_in_block bs k (place (reach k bs)) ≡ of_lookup (lookup k (readable bs))
unfolding reach lookup readable
search_blocks k lo top [] w = refl
search_blocks k lo top (b ∷ bs) w = elim (Bool-cases (ltb k b.first_doc_id)) [
  | inl q ↦
      rw (q, reach) (sym (ap of_lookup (lookup_unreached k lo top (b ∷ bs) (ground (arith, q)) w)))
  | inr q ↦
      rw (q, reach)
        (search_reached k lo top (reach k bs) b bs w (ground (arith, q)) refl
          (search_blocks k w.2 top bs w.6))
]

lookup_outside :
    (k lo top : ℕ) (bs : List Block)
    → top ≤ k
    → WellFormed lo top bs
    → lookup k (readable bs) ≡ none
unfolding lookup readable
lookup_outside k lo top [] h w = refl
lookup_outside k lo top (b ∷ bs) h (r, rest, hi, e, a, s, w) =
    let es : List Entry = (b.first_doc_id, r) ∷ rest in
    let here : lookup k es ≡ none =
      lookup_over k lo hi es (omega (arith, WellFormed-le hi top bs w)) (a, s) in
    lookup_block k b es bs e
    ∙ (ap (λ o. or_else o (lookup k (readable bs))) here ∙ lookup_outside k hi top bs h w)

find_block-reach :
    (k lo : ℕ) (bs : List Block) → Firsts lo bs → find_block bs k ≡ place (reach k bs)
unfolding find_block
find_block-reach k lo bs f = rw (end, find_block) (place_elim (reach k bs))
  where
    end : find_block_end bs k ≡ reach k bs
    end = find_block_end-reach k lo bs f

    place_elim : (n : ℕ) → (elim n as (λ n. Option ℕ) [ zero ↦ none | suc i ↦ some i ]) ≡ place n
    place_elim zero = refl
    place_elim (suc n) = refl

-- In a table whose blocks load and ascend between the least and the greatest number of the meta block,
-- Get finds exactly the record that the iteration over all blocks meets under the number, and reports
-- its absence otherwise.
pub get-readable :
    (k : DocId) (r : Reader)
    → WellFormed r.meta.min_doc_id (suc r.meta.max_doc_id) r.blocks
    → get k r ≡ of_lookup (lookup k (readable r.blocks))
unfolding get find_block
get-readable k r w = elim (Bool-cases (ltb k r.meta.min_doc_id)) [
  | inl q ↦
      rw (q, get)
        (sym (
          ap of_lookup
            (lookup_beyond k r.meta.min_doc_id (suc r.meta.max_doc_id) r.blocks (lt_of q) w)))
  | inr q ↦ elim (Bool-cases (ltb r.meta.max_doc_id k)) [
    | inl p ↦
        rw (q, p, get)
          (sym (
            ap of_lookup
              (lookup_outside k r.meta.min_doc_id (suc r.meta.max_doc_id) r.blocks (lt_of p) w)))
    | inr p ↦
        rw (q, p, get)
          (ap (get_in_block r.blocks k) (
              find_block-reach k r.meta.min_doc_id r.blocks
                (WellFormed-Firsts r.meta.min_doc_id (suc r.meta.max_doc_id) r.blocks w))
            ∙ search_blocks k r.meta.min_doc_id (suc r.meta.max_doc_id) r.blocks w)
  ]
]
