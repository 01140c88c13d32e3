-- ===== src/Sstable/Reader/Iterator.antt =====
-- `sstableIterator` of internal/sstable/reader.go.
use dist_log.Prelude.{
  ℕ, zero, suc, ◌+◌, ◌≡◌, ◌<◌, List, [], ◌∷◌, ◌++◌, none, some, Bool, true, false, length, ◌||◌,
  if◌then◌else◌,
}
use dist_log.Types.Entries.{Entry}
use dist_log.Sstable.Reader.{Block, Reader}

-- `current` holds the records of the loaded block from the position on; `blocks` are the blocks that
-- are still to be loaded.
pub record TableIterator : Type 0 where
  pub blocks : List Block
  pub current : List Entry
  pub err : Bool
  pub closed : Bool

abbrev pub iterator : Reader → TableIterator
iterator r = record { blocks = r.blocks; current = []; err = false; closed = false }

abbrev after : List Entry → List Entry
after [] = []
after (e ∷ es) = es

-- The loop over blocks: the first block with records, or an error, or the end.
unfoldable pub load_next : List Block → Bool × TableIterator
load_next [] = (false, record { blocks = []; current = []; err = false; closed = false })
load_next (b ∷ bs) = elim b.contents [
  | none ↦ (false, record { blocks = bs; current = []; err = true; closed = false })
  | some [] ↦ load_next bs
  | some (e ∷ es) ↦ (true, record { blocks = bs; current = e ∷ es; err = false; closed = false })
]

abbrev step : List Entry → TableIterator → Bool × TableIterator
step [] it = load_next it.blocks
step (e ∷ es) it = (true, record it { current = e ∷ es })

-- `Next`
unfoldable pub next : TableIterator → Bool × TableIterator
unfolding load_next
next it = if it.err || it.closed then (false, it) else step (after it.current) it

-- What the loop over an iterator meets, and whether it ends in an error: everything up to the first
-- block that cannot be loaded.
unfoldable pub readable : List Block → List Entry
readable [] = []
readable (b ∷ bs) = elim b.contents [ none ↦ [] | some es ↦ es ++ readable bs ]

unfoldable pub fails : List Block → Bool
fails [] = false
fails (b ∷ bs) = elim b.contents [ none ↦ true | some es ↦ fails bs ]

abbrev drain_step : Bool → TableIterator → List Entry × Bool → List Entry × Bool
drain_step false it rest = ([], it.err)
drain_step true it rest = elim it.current [ [] ↦ ([], false) | e ∷ es ↦ (e ∷ rest.0, rest.1) ]

-- `for it.Next() { … }` and then `it.Err()`, for at most `fuel` rounds.
unfoldable pub drain : ℕ → TableIterator → List Entry × Bool
unfolding next
drain zero it = ([], false)
drain (suc fuel) it = let (more, it') = next it in drain_step more it' (drain fuel it')

abbrev at : List Block → List Entry → TableIterator
at bs cur = record { blocks = bs; current = cur; err = false; closed = false }

abbrev next_and_rest : ℕ → Bool × TableIterator → List Entry × Bool
next_and_rest fuel m = drain_step m.0 m.1 (drain fuel m.1)

abbrev Drains : List Block → List Entry → ℕ → Type 0
Drains bs rest fuel =
    (cur : List Entry)
    → after cur ≡ rest
    → length rest + length (readable bs) < fuel
    → drain fuel (at bs cur) ≡ (rest ++ readable bs, fails bs)
