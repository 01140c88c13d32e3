-- ===== src/Memtable/Laws.antt =====
-- Reads after writes, the order of iteration and the size estimate of internal/memtable.
use dist_log.Prelude.{
  ℕ, suc, ◌+◌, ◌≡◌, refl, sym, ap, ◌∙◌, List, [], ◌∷◌, Option, none, some, false, arith, ◌==◌,
  if◌then◌else◌, Bool-cases, inl, inr,
}
use dist_log.Prelude.Int.{pos, ◌+ℤ◌, int_laws}
use dist_log.Types.{DocId, LogRecord}
use dist_log.Types.Entries.{Entry, lookup, put_entry, SortedFrom, lookup-put_entry, lookup_below}
use dist_log.Memtable.Compared.{walk-set, get-walk, walk-SortedFrom}
use dist_log.Memtable.{
  SkipList, record_size_bytes, MemTable, frozen_error, new_mem_table, without_old, put, get, freeze,
  entries,
}

-- The estimate for all entries of a list.
abbrev pub total_size : List Entry → ℕ
total_size [] = 0
total_size ((k, r) ∷ es) = record_size_bytes r + total_size es

abbrev old_size : Option LogRecord → ℕ
old_size none = 0
old_size (some r) = record_size_bytes r

total_size-put_entry :
    (k : DocId) (v : LogRecord) (es : List Entry) (lo : ℕ)
    → SortedFrom lo es
    → total_size (put_entry k v es) + old_size (lookup k es) ≡ total_size es + record_size_bytes v
unfolding put_entry lookup
total_size-put_entry k v [] lo s = omega arith
total_size-put_entry k v ((i, r) ∷ es) lo s =
    ground (arith, total_size-put_entry k v es (suc i) s.1, lookup_below k (suc i) es)

new_total :
    (o : Option LogRecord) (t t' new : ℕ)
    → t' + old_size o ≡ t + new
    → without_old o (pos t) +ℤ pos new ≡ pos t'
new_total none t t' new h = omega (int_laws, h)
new_total (some r) t t' new h = omega (int_laws, h)

module _ (S : SkipList) where
  -- The size counter is the sum of the estimates of the stored records.
  pub record IsAccounted (m : MemTable S) : Type 0 where
    pub accounted : m.size_bytes ≡ pos (total_size (entries S m))

  pub new_mem_table-IsAccounted : IsAccounted (new_mem_table S)
  unfolding new_mem_table entries
  new_mem_table-IsAccounted = record { accounted = rw S.walk_empty }

  -- A write, refused or not, leaves the size counter the sum of the estimates of the stored records, also
  -- where it replaces a record.
  pub put-IsAccounted :
      (k : DocId) (r : LogRecord) (m : MemTable S) → IsAccounted m → IsAccounted (put S k r m).1
  unfolding put entries
  put-IsAccounted k r m h = elim (Bool-cases m.frozen) [
    | inl f ↦ simp f (record { accounted = h.accounted })
    | inr f ↦ simp f (record {
      accounted = rw h.accounted (
          new_total (S.get k m.list) (total_size (S.walk m.list))
            (total_size (S.walk (S.set k r m.list))) (record_size_bytes r)
            (rw (walk-set S, get-walk S)
              (total_size-put_entry k r (S.walk m.list) 0 (walk-SortedFrom S m.list))));
    })
  ]

  -- A read after a write into a table that is not frozen: the written record for its number, and
  -- what was there before for every other number.
  pub get-put :
      (j k : DocId) (r : LogRecord) (m : MemTable S)
      → m.frozen ≡ false
      → get S j (put S k r m).1 ≡ (if k == j then some r else get S j m)
  unfolding put get
  get-put j k r m h = simp h (
      get-walk S j (S.set k r m.list)
      ∙ ap (lookup j) (walk-set S k r m.list)
      ∙ lookup-put_entry j k r (S.walk m.list) 0 (walk-SortedFrom S m.list)
      ∙ ap (λ o. if k == j then some r else o) (sym (get-walk S j m.list)))

  pub entries-SortedFrom : (m : MemTable S) → SortedFrom 0 (entries S m)
  unfolding entries
  entries-SortedFrom m = walk-SortedFrom S m.list

  pub get-entries : (k : DocId) (m : MemTable S) → get S k m ≡ lookup k (entries S m)
  unfolding entries get
  get-entries k m = get-walk S k m.list

  -- A frozen table refuses every write and stays as it is.
  pub put-freeze :
      (k : DocId) (r : LogRecord) (m : MemTable S)
      → put S k r (freeze S m) ≡ (frozen_error, freeze S m)
  unfolding put freeze
  put-freeze k r m = refl
