-- ===== src/Types/Entries.antt =====
-- Lists of (document number, record) pairs: what the ordered iterators of the storage layers walk.
use dist_log.Prelude.{
  ℕ, suc, ◌≤◌, ◌<◌, ◌≡◌, refl, List, [], ◌∷◌, ◌++◌, ◌≢◌, Option, none, some, arith, ◌==◌, ltb,
  if◌then◌else◌,
}
use dist_log.Types.{DocId, LogRecord}

abbrev pub Entry : Type 0
Entry = DocId × LogRecord

unfoldable pub lookup : DocId → List Entry → Option LogRecord
lookup k [] = none
lookup k ((i, r) ∷ es) = if i == k then some r else lookup k es

-- Strictly ascending numbers, the first at least `lo`.
abbrev pub SortedFrom : ℕ → List Entry → Type 0
SortedFrom lo [] = Unit
SortedFrom lo ((i, r) ∷ es) = (lo ≤ i) × SortedFrom (suc i) es

-- It is the greatest number of the records.
abbrev pub IsNewest : DocId → List Entry → Type 0
IsNewest n es = ((k : DocId) → n < k → lookup k es ≡ none) × (lookup n es ≢ none)

pub lookup-last :
    (d : DocId) (r : LogRecord) (es : List Entry) → lookup d (es ++ ((d, r) ∷ [])) ≢ none
unfolding lookup
lookup-last d r [] = λ h. ground (arith, h)
lookup-last d r ((i, q) ∷ es) = λ h. ground (arith, h, lookup-last d r es)

-- Insertion in order, with the old record of the same number replaced.
unfoldable pub put_entry : DocId → LogRecord → List Entry → List Entry
put_entry k v [] = (k, v) ∷ []
put_entry k v ((i, r) ∷ es) =
    let rest = put_entry k v es in
    if ltb k i then (k, v) ∷ (i, r) ∷ es else if i == k then (k, v) ∷ es else (i, r) ∷ rest

pub SortedFrom-mono : (lo hi : ℕ) (es : List Entry) → lo ≤ hi → SortedFrom hi es → SortedFrom lo es
SortedFrom-mono lo hi [] h s = tt
SortedFrom-mono lo hi ((i, r) ∷ es) h s = (omega arith, s.1)

pub lookup_below : (k lo : ℕ) (es : List Entry) → k < lo → SortedFrom lo es → lookup k es ≡ none
unfolding lookup
lookup_below k lo [] h s = refl
lookup_below k lo ((i, r) ∷ es) h s = ground (arith, lookup_below k (suc i) es)

pub lookup-put_entry :
    (j k : DocId) (v : LogRecord) (es : List Entry) (lo : ℕ)
    → SortedFrom lo es
    → lookup j (put_entry k v es) ≡ (if k == j then some v else lookup j es)
unfolding lookup put_entry
lookup-put_entry j k v [] lo s = refl
lookup-put_entry j k v ((i, r) ∷ es) lo s = ground (arith, lookup-put_entry j k v es (suc i) s.1)

pub put_entry-SortedFrom :
    (k : DocId) (v : LogRecord) (es : List Entry) (lo : ℕ)
    → lo ≤ k
    → SortedFrom lo es
    → SortedFrom lo (put_entry k v es)
unfolding put_entry
put_entry-SortedFrom k v [] lo h s = (h, tt)
put_entry-SortedFrom k v ((i, r) ∷ es) lo h s = ground (arith, put_entry-SortedFrom k v es (suc i))
