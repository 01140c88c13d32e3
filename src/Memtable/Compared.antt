-- ===== src/Memtable/Compared.antt =====
-- What the comparator of internal/memtable/skiplist.go makes of its skip list: ascending numbers.
use dist_log.Prelude.{ℕ, suc, ◌<◌, ◌≡◌, refl, sym, ◌∙◌, List, [], ◌∷◌, true, arith, ltb, ◌==◌}
use dist_log.Types.{DocId, LogRecord}
use dist_log.Types.Entries.{Entry, lookup, put_entry, SortedFrom, SortedFrom-mono}
use dist_log.Memtable.{compare_doc_ids, is_less, is_equal, put_by, get_by, AscendingBy, SkipList}

is_less_lem : (a b : ℕ) → is_less (compare_doc_ids a b) ≡ ltb a b
unfolding compare_doc_ids
is_less_lem a b = ground arith

is_equal_lem : (a b : ℕ) → is_equal (compare_doc_ids a b) ≡ (b == a)
unfolding compare_doc_ids
is_equal_lem a b = ground arith

pub put_by-compare_doc_ids :
    (k : DocId) (v : LogRecord) (es : List Entry) → put_by compare_doc_ids k v es ≡ put_entry k v es
unfolding put_by put_entry
put_by-compare_doc_ids k v [] = refl
put_by-compare_doc_ids k v ((i, r) ∷ es) =
    rw (is_less_lem k i, is_equal_lem k i, put_by-compare_doc_ids k v es) refl

pub get_by-compare_doc_ids :
    (k : DocId) (es : List Entry) → get_by compare_doc_ids k es ≡ lookup k es
unfolding get_by lookup
get_by-compare_doc_ids k [] = refl
get_by-compare_doc_ids k ((i, r) ∷ es) = rw (is_equal_lem k i, get_by-compare_doc_ids k es) refl

ascending-SortedFrom :
    (i : DocId) (r : LogRecord) (es : List Entry)
    → AscendingBy compare_doc_ids ((i, r) ∷ es)
    → SortedFrom i ((i, r) ∷ es)
ascending-SortedFrom i r [] a = (omega arith, tt)
ascending-SortedFrom i r ((j, q) ∷ es) a =
    let below : ltb i j ≡ true = sym (is_less_lem i j) ∙ a.0 in
    let i_first : i < j = ground (arith, below) in
    (omega arith, SortedFrom-mono (suc i) j ((j, q) ∷ es) i_first (ascending-SortedFrom j q es a.1))

pub AscendingBy-SortedFrom : (es : List Entry) → AscendingBy compare_doc_ids es → SortedFrom 0 es
AscendingBy-SortedFrom [] a = tt
AscendingBy-SortedFrom ((i, r) ∷ es) a =
    SortedFrom-mono 0 i ((i, r) ∷ es) (omega arith) (ascending-SortedFrom i r es a)

pub SortedFrom-AscendingBy :
    (lo : ℕ) (es : List Entry) → SortedFrom lo es → AscendingBy compare_doc_ids es
SortedFrom-AscendingBy lo [] s = tt
SortedFrom-AscendingBy lo ((i, r) ∷ []) s = (tt, tt)
SortedFrom-AscendingBy lo ((i, r) ∷ (j, q) ∷ es) s =
    let below : ltb i j ≡ true = ground (arith, s.1.0) in
    (is_less_lem i j ∙ below, SortedFrom-AscendingBy (suc i) ((j, q) ∷ es) s.1)

module _ (S : SkipList) where
  pub walk-set :
      (k : DocId) (v : LogRecord) (l : S.Carrier) → S.walk (S.set k v l) ≡ put_entry k v (S.walk l)
  walk-set k v l = S.walk_set k v l ∙ put_by-compare_doc_ids k v (S.walk l)

  pub get-walk : (k : DocId) (l : S.Carrier) → S.get k l ≡ lookup k (S.walk l)
  get-walk k l = S.get_walk k l ∙ get_by-compare_doc_ids k (S.walk l)

  pub walk-SortedFrom : (l : S.Carrier) → SortedFrom 0 (S.walk l)
  walk-SortedFrom l = AscendingBy-SortedFrom (S.walk l) (S.walk_ascending l)
