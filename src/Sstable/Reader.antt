-- ===== src/Sstable/Reader.antt =====
-- internal/sstable/reader.go behind the byte level: an opened table is its meta block, its index and
-- what loading each data block gives. `none` is a block that cannot be read, fails its checksum or
-- does not decode.
pub mod Search
pub mod Get
pub mod Iterator
use dist_log.Prelude.{
  ℕ, zero, suc, ◌+◌, ◌-◌, ◌/◌, ◌≤◌, ◌<◌, List, [], ◌∷◌, ◌++◌, Option, none, some, Bool, true, false,
  ◌||◌, length, get_elem?, ltb, ◌==◌, if◌then◌else◌,
}
use dist_log.Types.{DocId, LogRecord, Timestamp}
use dist_log.Types.Entries.{Entry}
use dist_log.Sstable.Format.{MetaBlock}

-- The index keeps the first document number of each block; the block's place in the file is what
-- `contents` was loaded from.
pub record Block : Type 0 where
  pub first_doc_id : DocId
  pub contents : Option (List Entry)

pub record Reader : Type 0 where
  pub meta : MetaBlock
  pub blocks : List Block

-- `sort.Search`: the bisection of the standard library, for at most `fuel` rounds.
unfoldable pub sort_search : ℕ → ℕ → ℕ → (ℕ → Bool) → ℕ
sort_search zero lo hi p = lo
sort_search (suc fuel) lo hi p =
    let mid = (lo + hi) / 2 in
    elim (ltb lo hi) [
      | false ↦ lo
      | true ↦ elim (p mid) [
        | true ↦ sort_search fuel lo mid p
        | false ↦ sort_search fuel (mid + 1) hi p
      ]
    ]

abbrev starts_above : DocId → Option Block → Bool
starts_above k none = false
starts_above k (some b) = ltb k b.first_doc_id

-- The number of blocks that begin at `k` or before it: the place behind the block to look in.
unfoldable pub find_block_end : List Block → DocId → ℕ
unfolding sort_search
find_block_end bs k = sort_search (length bs) 0 (length bs) (λ i. starts_above k (get_elem? bs i))

-- `findBlock`; `none` is -1.
unfoldable pub find_block : List Block → DocId → Option ℕ
unfolding find_block_end
find_block bs k = elim (find_block_end bs k) [ zero ↦ none | suc i ↦ some i ]

abbrev pub block_contents : Option Block → Option (List Entry)
block_contents none = none
block_contents (some b) = b.contents

-- `loadBlock`
unfoldable pub load_block : List Block → ℕ → Option (List Entry)
load_block bs i = block_contents (get_elem? bs i)

pub data GetResult : Type 0 where
  found : LogRecord → GetResult
  absent : GetResult
  load_error : GetResult

-- The scan within a block ends at the first larger number.
unfoldable pub scan_block : DocId → List Entry → GetResult
scan_block k [] = absent
scan_block k ((i, r) ∷ es) =
    let rest = scan_block k es in if i == k then found r else if ltb k i then absent else rest

abbrev scan_loaded : DocId → Option (List Entry) → GetResult
scan_loaded k none = load_error
scan_loaded k (some es) = scan_block k es

abbrev pub get_in_block : List Block → DocId → Option ℕ → GetResult
get_in_block bs k none = absent
get_in_block bs k (some i) = scan_loaded k (load_block bs i)

unfoldable pub get : DocId → Reader → GetResult
unfolding find_block load_block scan_block
get k r =
    if ltb k r.meta.min_doc_id || ltb r.meta.max_doc_id k
    then absent
    else get_in_block r.blocks k (find_block r.blocks k)
