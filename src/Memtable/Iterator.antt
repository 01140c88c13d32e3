-- ===== src/Memtable/Iterator.antt =====
-- `skipIterator` of internal/memtable/skiplist.go. A list element is the entries from it on.
use dist_log.Prelude.{
  ℕ, zero, suc, ◌≡◌, refl, ap, List, [], ◌∷◌, Option, none, some, Bool, true, false, not, length,
  if◌then◌else◌, arith,
}
use dist_log.Types.Entries.{Entry}
use dist_log.Memtable.{SkipList, MemTable, entries}

-- `cur` and `next`; `[]` is the nil element.
pub record SkipIterator : Type 0 where
  pub cur : List Entry
  pub upcoming : List Entry
  pub started : Bool
  pub closed : Bool

abbrev after : List Entry → List Entry
after [] = []
after (e ∷ es) = es

abbrev is_some_element : List Entry → Bool
is_some_element [] = false
is_some_element (e ∷ es) = true

module _ (S : SkipList) where
  unfoldable pub iterator : MemTable S → SkipIterator
  unfolding entries
  iterator m = record { cur = []; upcoming = entries S m; started = false; closed = false }

-- `Next`: both branches of the source step the same way, and the first also sets `started`.
unfoldable pub next : SkipIterator → Bool × SkipIterator
next it =
    if it.closed
    then (false, it)
    else if not it.started
    then (
      is_some_element it.upcoming,
      record it { started = true; cur = it.upcoming; upcoming = after it.upcoming },
    )
    else (
      is_some_element it.upcoming,
      record it { cur = it.upcoming; upcoming = after it.upcoming },
    )

-- `DocID` and `Record` of the current element; the source panics on the nil one.
unfoldable pub current : SkipIterator → Option Entry
current it = elim it.cur [ [] ↦ none | e ∷ es ↦ some e ]

unfoldable pub close : SkipIterator → SkipIterator
close it = if it.closed then it else record it { closed = true; cur = []; upcoming = [] }

abbrev collect_step : Bool → Option Entry → List Entry → List Entry
collect_step true (some e) rest = e ∷ rest
collect_step _ _ rest = []

-- `for it.Next() { … it.DocID(), it.Record() … }` for at most `fuel` rounds.
unfoldable pub collect : ℕ → SkipIterator → List Entry
unfolding next current
collect zero it = []
collect (suc fuel) it =
    let (more, it') = next it in collect_step more (current it') (collect fuel it')

collect_from :
    (es cur : List Entry) (started : Bool)
    → collect
        (suc (length es))
        (record { cur = cur; upcoming = es; started = started; closed = false })
      ≡ es
unfolding collect
collect_from [] cur true = refl
collect_from [] cur false = refl
collect_from (e ∷ es) cur true = ap (λ l. e ∷ l) (collect_from es (e ∷ es) true)
collect_from (e ∷ es) cur false = ap (λ l. e ∷ l) (collect_from es (e ∷ es) true)

-- The loop over a fresh iterator meets exactly the table's entries, in their order, and then ends.
pub collect-iterator :
    (S : SkipList) (m : MemTable S)
    → collect (suc (length (entries S m))) (iterator S m) ≡ entries S m
unfolding iterator
collect-iterator S m = collect_from (entries S m) [] false

-- After `Close` the iterator yields nothing, and a second `Close` changes nothing.
pub next-close : (it : SkipIterator) → ((next (close it)).0 ≡ false) × (close (close it) ≡ close it)
unfolding next close
next-close it = ground arith
