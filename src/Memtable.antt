-- ===== src/Memtable.antt =====
-- internal/memtable: the in-memory table over a skip list. The skip list is a third-party package:
-- `OrderedMap` states what the table relies on.
pub mod Compared
pub mod Laws
pub mod Iterator
pub mod SortedList
use Prim.Native.String.{len}
use dist_log.Prelude.{
  ℕ, zero, suc, ◌+◌, String, ◌≡◌, List, [], ◌∷◌, Option, none, some, Bool, true, false, length,
  if◌then◌else◌, ltb,
}
use dist_log.Prelude.Int.{ℤ, pos, negsuc, ◌+ℤ◌, ◌-ℤ◌}
use dist_log.Types.{DocId, LogRecord}
use dist_log.Types.Entries.{Entry, lookup, put_entry, SortedFrom}

-- The comparator that `New` hands to the skip list.
unfoldable pub compare_doc_ids : DocId → DocId → ℤ
compare_doc_ids a b = if ltb a b then negsuc 0 else if ltb b a then pos 1 else pos 0

abbrev is_less : ℤ → Bool
is_less (pos n) = false
is_less (negsuc n) = true

abbrev is_equal : ℤ → Bool
is_equal (pos zero) = true
is_equal (pos (suc n)) = false
is_equal (negsuc n) = false

-- Insertion before the first key that is greater, in place of one that is equal.
unfoldable pub put_by : (DocId → DocId → ℤ) → DocId → LogRecord → List Entry → List Entry
put_by compare k v [] = (k, v) ∷ []
put_by compare k v ((i, r) ∷ es) =
    let rest = put_by compare k v es in
    if is_less (compare k i)
    then (k, v) ∷ (i, r) ∷ es
    else if is_equal (compare k i)
    then (k, v) ∷ es
    else (i, r) ∷ rest

unfoldable pub get_by : (DocId → DocId → ℤ) → DocId → List Entry → Option LogRecord
get_by compare k [] = none
get_by compare k ((i, r) ∷ es) = if is_equal (compare k i) then some r else get_by compare k es

-- The key is less than the first one of the list.
abbrev pub IsBelow : (DocId → DocId → ℤ) → DocId → List Entry → Type 0
IsBelow compare k [] = Unit
IsBelow compare k ((i, r) ∷ es) = is_less (compare k i) ≡ true

abbrev pub AscendingBy : (DocId → DocId → ℤ) → List Entry → Type 0
AscendingBy compare [] = Unit
AscendingBy compare ((i, r) ∷ es) = IsBelow compare i es × AscendingBy compare es

-- What the documentation of the skip list says of a list that was made with a comparator: it is walked
-- from `Front` by `Next` in ascending order of its keys, `Set` inserts or replaces, `Get` finds a key.
pub record OrderedMap (compare : DocId → DocId → ℤ) : Type 1 where
  pub Carrier : Type 0
  pub empty : Carrier
  pub get : DocId → Carrier → Option LogRecord
  pub set : DocId → LogRecord → Carrier → Carrier
  pub count : Carrier → ℕ
  pub walk : Carrier → List Entry
  pub walk_empty : walk empty ≡ []
  pub walk_set :
      (k : DocId) (v : LogRecord) (l : Carrier) → walk (set k v l) ≡ put_by compare k v (walk l)
  pub walk_ascending : (l : Carrier) → AscendingBy compare (walk l)
  pub get_walk : (k : DocId) (l : Carrier) → get k l ≡ get_by compare k (walk l)
  pub count_walk : (l : Carrier) → count l ≡ length (walk l)

-- The skip list of `New`.
abbrev pub SkipList : Type 1
SkipList = OrderedMap compare_doc_ids

abbrev fields_size : List (String × String) → ℕ
fields_size [] = 0
fields_size ((k, v) ∷ fs) = len k + len v + 16 + fields_size fs

-- `recordSizeBytes`
unfoldable pub record_size_bytes : LogRecord → ℕ
record_size_bytes r = 64 + (len r.tenant_id + len r.source + len r.message) + fields_size r.fields

pub data PutResult : Type 0 where
  stored frozen_error : PutResult

-- The two atomics and the list behind the lock.
pub record MemTable (S : SkipList) : Type 0 where
  pub list : S.Carrier
  pub size_bytes : ℤ
  pub frozen : Bool

abbrev without_old : Option LogRecord → ℤ → ℤ
without_old none n = n
without_old (some old) n = n -ℤ pos (record_size_bytes old)

module _ (S : SkipList) where
  unfoldable pub new_mem_table : MemTable S
  new_mem_table = record { list = S.empty; size_bytes = pos 0; frozen = false }

  -- `Put`: the size of a record that is overwritten is taken off.
  unfoldable pub put : DocId → LogRecord → MemTable S → PutResult × MemTable S
  put k r m = if m.frozen then (frozen_error, m) else (
    stored,
    record m {
      list = S.set k r m.list;
      size_bytes = without_old (S.get k m.list) m.size_bytes +ℤ pos (record_size_bytes r);
    },
  )

  unfoldable pub get : DocId → MemTable S → Option LogRecord
  get k m = S.get k m.list

  unfoldable pub count : MemTable S → ℕ
  count m = S.count m.list

  unfoldable pub freeze : MemTable S → MemTable S
  freeze m = record m { frozen = true }

  -- What the iterator of the table walks.
  unfoldable pub entries : MemTable S → List Entry
  entries m = S.walk m.list
