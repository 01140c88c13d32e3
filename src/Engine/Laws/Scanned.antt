-- ===== src/Engine/Laws/Scanned.antt =====
-- A scan of internal/engine/engine.go visits what Get finds.
use dist_log.Prelude.{
  ℕ, suc, ◌≡◌, refl, ap, ap₂, sym, ◌∙◌, List, [], ◌∷◌, ◌++◌, Option, none, some, false, ◌||◌, arith,
  ltb,
}
use dist_log.Types.{DocId, LogRecord}
use dist_log.Types.Entries.{Entry, lookup, SortedFrom, SortedFrom-mono}
use dist_log.Memtable as Memtable
use dist_log.Memtable.{SkipList, MemTable}
use dist_log.Memtable.Laws as MemtableLaws
use dist_log.Sstable.Reader.{
  Block, Reader, GetResult, found, absent, load_error, get_in_block, find_block,
}
use dist_log.Sstable.Reader as Table
use dist_log.Sstable.Reader.Iterator.{readable, fails}
use dist_log.Sstable.Reader.Get.{SortedIn, WellFormed, of_lookup, get-readable}
use dist_log.Query.Plan.{no_options}
use dist_log.Query.Execute.{Visitor, visit_all}
use dist_log.Engine.Scan.{Source, any_failed, cursors}
use dist_log.Engine.Scan.Merge.{first_hit, or_else, AllSorted, merged, scan_sources-merged}
use dist_log.Engine.State.{Engine}
use dist_log.Engine.Read.{
  get, or_search, get_from_frozen, get_from_sstables, table_sources, frozen_sources, sources,
  scan_with_options,
}
use dist_log.Engine.Laws.Moved.{front_lem}

SortedIn-append :
    (lo hi top : ℕ) (es fs : List Entry)
    → SortedIn lo hi es
    → SortedIn hi top fs
    → SortedIn lo top (es ++ fs)
SortedIn-append lo hi top [] [] s t = omega (arith, s, t)
SortedIn-append lo hi top [] ((i, r) ∷ fs) s t = (omega (arith, s), t.1)
SortedIn-append lo hi top ((i, r) ∷ es) fs s t = (s.0, SortedIn-append (suc i) hi top es fs s.1 t)

SortedIn-SortedFrom : (lo hi : ℕ) (es : List Entry) → SortedIn lo hi es → SortedFrom lo es
SortedIn-SortedFrom lo hi [] s = tt
SortedIn-SortedFrom lo hi ((i, r) ∷ es) s = (s.0, SortedIn-SortedFrom (suc i) hi es s.1)

WellFormed-readable :
    (lo top : ℕ) (bs : List Block)
    → WellFormed lo top bs
    → SortedIn lo top (readable bs) × (fails bs ≡ false)
unfolding readable fails
WellFormed-readable lo top [] w = (w, refl)
WellFormed-readable lo top (b ∷ bs) (r, rest, hi, e, a, s, w) =
    let (p, q) = WellFormed-readable hi top bs w in
    rw (e, readable, fails)
      (SortedIn-append lo hi top ((b.first_doc_id, r) ∷ rest) (readable bs) (a, s) p, q)

abbrev pub IsHealthy : Reader → Type 0
IsHealthy t = WellFormed t.meta.min_doc_id (suc t.meta.max_doc_id) t.blocks

abbrev pub AllHealthy : List Reader → Type 0
AllHealthy [] = Unit
AllHealthy (t ∷ ts) = IsHealthy t × AllHealthy ts

module _ (S : SkipList) where
  or_search-of_lookup :
      (o p : Option LogRecord) → or_search S o (of_lookup p) ≡ of_lookup (or_else o p)
  or_search-of_lookup none p = refl
  or_search-of_lookup (some r) p = refl

  get_from_sstables-first_hit :
      (k : DocId) (ts : List Reader)
      → AllHealthy ts
      → get_from_sstables k ts ≡ of_lookup (first_hit k (cursors (table_sources no_options ts)))
  unfolding get_from_sstables Table.get table_sources first_hit
  get_from_sstables-first_hit k [] h = refl
  get_from_sstables-first_hit k (t ∷ ts) h =
      front_lem S (ltb k t.meta.min_doc_id || ltb t.meta.max_doc_id k)
        (get_in_block t.blocks k (find_block t.blocks k)) (get_from_sstables k ts)
        (lookup k (readable t.blocks)) (get-readable k t h.0)
      ∙ ap (or_search S (lookup k (readable t.blocks))) (get_from_sstables-first_hit k ts h.1)
      ∙ or_search-of_lookup (lookup k (readable t.blocks))
          (first_hit k (cursors (table_sources no_options ts)))

  newest-first_hit :
      (k : DocId) (m : MemTable S) (older : List Source) (g : GetResult)
      → g ≡ of_lookup (first_hit k (cursors older))
      → or_search S (Memtable.get S k m) g
        ≡ of_lookup (first_hit k (Memtable.entries S m ∷ cursors older))
  unfolding first_hit
  newest-first_hit k m older g h =
      ap₂ (or_search S) (MemtableLaws.get-entries S k m) h
      ∙ or_search-of_lookup (lookup k (Memtable.entries S m)) (first_hit k (cursors older))

  get_from_frozen-first_hit :
      (k : DocId) (ms : List (MemTable S)) (older : List Source) (g : GetResult)
      → g ≡ of_lookup (first_hit k (cursors older))
      → get_from_frozen S k ms g ≡ of_lookup (first_hit k (cursors (frozen_sources S ms older)))
  unfolding get_from_frozen frozen_sources
  get_from_frozen-first_hit k [] older g h = h
  get_from_frozen-first_hit k (m ∷ ms) older g h =
      get_from_frozen-first_hit k ms
        (record { entries = Memtable.entries S m; failed = false } ∷ older)
        (or_search S (Memtable.get S k m) g) (newest-first_hit k m older g h)

  -- Get is the first hit among the sources of a scan.
  get-first_hit :
      (k : DocId) (e : Engine S)
      → AllHealthy e.sstables
      → get S k e ≡ of_lookup (first_hit k (cursors (sources S no_options e)))
  unfolding get sources
  get-first_hit k e h =
      newest-first_hit k e.active (frozen_sources S e.frozen (table_sources no_options e.sstables))
        (get_from_frozen S k e.frozen (get_from_sstables k e.sstables))
        (get_from_frozen-first_hit k e.frozen (table_sources no_options e.sstables)
          (get_from_sstables k e.sstables) (get_from_sstables-first_hit k e.sstables h))

  frozen_sources-AllSorted :
      (ms : List (MemTable S)) (older : List Source)
      → AllSorted 0 (cursors older)
      → any_failed older ≡ false
      → AllSorted 0 (cursors (frozen_sources S ms older))
        × (any_failed (frozen_sources S ms older) ≡ false)
  unfolding frozen_sources
  frozen_sources-AllSorted [] older a f = (a, f)
  frozen_sources-AllSorted (m ∷ ms) older a f =
      frozen_sources-AllSorted ms
        (record { entries = Memtable.entries S m; failed = false } ∷ older)
        (MemtableLaws.entries-SortedFrom S m, a) f

  table_sources-AllSorted :
      (ts : List Reader)
      → AllHealthy ts
      → AllSorted 0 (cursors (table_sources no_options ts))
        × (any_failed (table_sources no_options ts) ≡ false)
  unfolding table_sources
  table_sources-AllSorted [] h = (tt, refl)
  table_sources-AllSorted (t ∷ ts) h =
      let (p, q) = table_sources-AllSorted ts h.1 in
      let (a, b) = WellFormed-readable t.meta.min_doc_id (suc t.meta.max_doc_id) t.blocks h.0 in
      (
        (
          SortedFrom-mono 0 t.meta.min_doc_id (readable t.blocks) (omega arith)
              (SortedIn-SortedFrom t.meta.min_doc_id (suc t.meta.max_doc_id) (readable t.blocks) a),
          p,
        ),
        rw b q,
      )

  -- In an open engine whose table files are well-formed, a scan without bounds in a context that is never done
  -- runs the visitor over a list with strictly ascending numbers that has under every number exactly what
  -- Get returns for it.
  pub scan_with_options-get :
      {A : Type 0} (visit : Visitor A) (e : Engine S) (s : A)
      → e.closed ≡ false
      → AllHealthy e.sstables
      → (es : List Entry) × ((scan_with_options S no_options (λ n. false) visit e s).0
          ≡ visit_all visit es s)
        × SortedFrom 0 es
        × ((k : DocId) → get S k e ≡ of_lookup (lookup k es))
  unfolding scan_with_options sources
  scan_with_options-get visit e s c h =
      let ss = sources S no_options e in
      let (p, q) = table_sources-AllSorted e.sstables h in
      let (a, f) = frozen_sources-AllSorted e.frozen (table_sources no_options e.sstables) p q in
      let (x, y, z) =
        scan_sources-merged visit (sources S no_options e) s
          (MemtableLaws.entries-SortedFrom S e.active, a) f in
      (
        merged (sources S no_options e),
        simp c x,
        y,
        λ k. get-first_hit k e h ∙ ap of_lookup (sym (z k)),
      )
