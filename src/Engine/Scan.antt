-- ===== src/Engine/Scan.antt =====
-- `ScanWithOptions` of internal/engine/engine.go: the merge of the sources in the order of their
-- priority. A source is what the iterator of one table meets, and whether it ends in an error.
pub mod Merge
use dist_log.Prelude.{
  ℕ, zero, suc, ◌+◌, List, [], ◌∷◌, ◌++◌, Option, none, some, Bool, true, false, ◌||◌, length, ltb,
  ◌==◌, if◌then◌else◌, map,
}
use dist_log.Types.{DocId, LogRecord}
use dist_log.Types.Entries.{Entry}
use dist_log.Query.Execute.{Visitor, Visited, go_on, stop, scan_failure, ctx_done, iterator_error}

pub record Source : Type 0 where
  pub entries : List Entry
  pub failed : Bool

-- A cursor's records, from the one it stands at.
abbrev pub Cursor : Type 0
Cursor = List Entry

-- The smaller number goes first, and of equal numbers the source of the higher priority.
abbrev pub earlier : Cursor → Option Entry → Option Entry
earlier [] o = o
earlier ((i, r) ∷ es) none = some (i, r)
earlier ((i, r) ∷ es) (some (j, q)) = if ltb j i then some (j, q) else some (i, r)

-- The top of the heap.
unfoldable pub top : List Cursor → Option Entry
top [] = none
top (c ∷ cs) = earlier c (top cs)

-- A cursor is advanced while it stands at the number.
unfoldable pub skip : DocId → Cursor → Cursor
skip k [] = []
skip k ((i, r) ∷ es) = let rest = skip k es in if i == k then rest else (i, r) ∷ es

-- Every cursor that stands at the number of the visited record is advanced.
unfoldable pub advance : DocId → List Cursor → List Cursor
unfolding skip
advance k [] = []
advance k (c ∷ cs) = skip k c ∷ advance k cs

-- `addCursor`: a cursor whose first step fails is left out, together with its error.
unfoldable pub add_cursors : List Source → List Source
add_cursors [] = []
add_cursors (s ∷ ss) = elim s.entries [ [] ↦ add_cursors ss | e ∷ es ↦ s ∷ add_cursors ss ]

abbrev pub any_failed : List Source → Bool
any_failed [] = false
any_failed (s ∷ ss) = s.failed || any_failed ss

abbrev pub cursors : List Source → List Cursor
cursors [] = []
cursors (s ∷ ss) = s.entries ∷ cursors ss

-- Whether the context is done at the n-th check.
abbrev pub Context : Type 0
Context = ℕ → Bool

-- The loop over the heap; `none` is an empty heap after `fuel` rounds.
unfoldable pub scan_loop : {S : Type 0} → ℕ → Context → ℕ → Visitor S → List Cursor → S → Visited S
unfolding top advance
scan_loop zero ctx i visit cs s = go_on s
scan_loop (suc fuel) ctx i visit cs s = elim (top cs) [
  | none ↦ go_on s
  | some (k, r) ↦ elim (ctx i) [
    | true ↦ stop (scan_failure ctx_done) s
    | false ↦ elim (visit k r s) [
      | stop e s' ↦ stop e s'
      | go_on s' ↦ scan_loop fuel ctx (suc i) visit (advance k cs) s'
    ]
  ]
]

abbrev pub total : List Cursor → ℕ
total [] = 0
total (c ∷ cs) = length c + total cs

-- The errors that the cursors met at the end of their streams.
abbrev pub surface : {S : Type 0} → Bool → Visited S → Visited S
surface failed (stop e s) = stop e s
surface true (go_on s) = stop (scan_failure iterator_error) s
surface false (go_on s) = go_on s

unfoldable pub scan_sources : {S : Type 0} → Context → Visitor S → List Source → S → Visited S
unfolding add_cursors scan_loop
scan_sources ctx visit ss s =
    let admitted = add_cursors ss in
    surface (any_failed admitted)
      (scan_loop (total (cursors admitted)) ctx 0 visit (cursors admitted) s)
