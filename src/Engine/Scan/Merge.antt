-- ===== src/Engine/Scan/Merge.antt =====
-- What the merge of internal/engine/engine.go visits: each number once, ascending, with the record of the
-- first source that has it.
use dist_log.Prelude.{
  ℕ, zero, suc, ◌≤◌, ◌<◌, ◌≡◌, ◌||◌, refl, sym, ap, ap₂, ◌∙◌, List, [], ◌∷◌, Option, none, some,
  Bool, false, length, ltb, ◌==◌, if◌then◌else◌, arith, Bool-cases, Option-cases, ◌⊎◌, inl, inr,
  subst, ==_iff,
}
use dist_log.Types.{DocId, LogRecord}
use dist_log.Types.Entries.{Entry, lookup, SortedFrom, SortedFrom-mono, lookup_below}
use dist_log.Query.Execute.{Visitor, Visited, go_on, stop, visit_all, ScanError}
use dist_log.Engine.Scan.{
  Source, Cursor, earlier, top, skip, advance, scan_loop, total, cursors, add_cursors, any_failed,
  surface, scan_sources,
}

abbrev pub or_else : Option LogRecord → Option LogRecord → Option LogRecord
or_else none o = o
or_else (some r) o = some r

-- The record of the first cursor that has the number.
unfoldable pub first_hit : DocId → List Cursor → Option LogRecord
unfolding lookup
first_hit k [] = none
first_hit k (c ∷ cs) = or_else (lookup k c) (first_hit k cs)

abbrev pub AllSorted : ℕ → List Cursor → Type 0
AllSorted lo [] = Unit
AllSorted lo (c ∷ cs) = SortedFrom lo c × AllSorted lo cs

-- The visited records in their order.
pub merge : ℕ → List Cursor → List Entry
unfolding top advance
merge zero cs = []
merge (suc fuel) cs = elim (top cs) [ none ↦ [] | some (k, r) ↦ (k, r) ∷ merge fuel (advance k cs) ]

length-skip : (k : DocId) (c : Cursor) → length (skip k c) ≤ length c
unfolding skip
length-skip k [] = omega arith
length-skip k ((i, r) ∷ es) = ground (arith, length-skip k es)

total-advance : (k : DocId) (cs : List Cursor) → total (advance k cs) ≤ total cs
unfolding advance
total-advance k [] = omega arith
total-advance k (c ∷ cs) = omega (arith, length-skip k c, total-advance k cs)

skip-SortedFrom : (k : DocId) (c : Cursor) → SortedFrom k c → SortedFrom (suc k) (skip k c)
unfolding skip
skip-SortedFrom k [] s = tt
skip-SortedFrom k ((i, r) ∷ es) s =
    ground (arith, skip-SortedFrom k es (SortedFrom-mono k (suc i) es (omega arith) s.1))

advance-AllSorted :
    (k : DocId) (cs : List Cursor) → AllSorted k cs → AllSorted (suc k) (advance k cs)
unfolding advance
advance-AllSorted k [] s = tt
advance-AllSorted k (c ∷ cs) s = (skip-SortedFrom k c s.0, advance-AllSorted k cs s.1)

lookup-skip : (j k : DocId) (c : Cursor) → (k == j) ≡ false → lookup j (skip k c) ≡ lookup j c
unfolding lookup skip
lookup-skip j k [] h = refl
lookup-skip j k ((i, r) ∷ es) h = ground (arith, lookup-skip j k es h)

first_hit-advance :
    (j k : DocId) (cs : List Cursor)
    → (k == j) ≡ false
    → first_hit j (advance k cs) ≡ first_hit j cs
unfolding first_hit advance
first_hit-advance j k [] h = refl
first_hit-advance j k (c ∷ cs) h = ap₂ or_else (lookup-skip j k c h) (first_hit-advance j k cs h)

first_hit_below : (j k : DocId) (cs : List Cursor) → j < k → AllSorted k cs → first_hit j cs ≡ none
unfolding first_hit
first_hit_below j k [] h s = refl
first_hit_below j k (c ∷ cs) h s =
    ap₂ or_else (lookup_below j k c h s.0) (first_hit_below j k cs h s.1)

-- What the top of the heap says of the cursors: no top, no records; a top is the least number, with the
-- record of its first cursor, and to advance past it is progress.
abbrev TopOf : ℕ → Option Entry → List Cursor → Type 0
TopOf lo none cs = ((k : ℕ) → AllSorted k cs) × ((j : DocId) → first_hit j cs ≡ none)
TopOf lo (some (k, r)) cs =
    (lo ≤ k) × AllSorted k cs × (first_hit k cs ≡ some r) × (total (advance k cs) < total cs)

AllSorted-mono : (lo hi : ℕ) (cs : List Cursor) → lo ≤ hi → AllSorted hi cs → AllSorted lo cs
AllSorted-mono lo hi [] h s = tt
AllSorted-mono lo hi (c ∷ cs) h s = (SortedFrom-mono lo hi c h s.0, AllSorted-mono lo hi cs h s.1)

earlier-TopOf :
    (lo : ℕ) (c : Cursor) (cs : List Cursor) (o : Option Entry)
    → SortedFrom lo c
    → AllSorted lo cs
    → TopOf lo o cs
    → TopOf lo (earlier c o) (c ∷ cs)
unfolding first_hit lookup advance skip
earlier-TopOf lo [] cs none s t (a, h) = (λ k. (tt, a k), h)
earlier-TopOf lo [] cs (some (k, r)) s t (a, b, d, e) = (a, (tt, b), d, omega (arith, e))
earlier-TopOf lo ((i, q) ∷ es) cs none s t (a, h) = (
  s.0,
  ((omega arith, s.1), a i),
  ground arith,
  ground (arith, length-skip i es, total-advance i cs),
)
earlier-TopOf lo ((i, q) ∷ es) cs (some (k, r)) s t (a, b, d, e) = elim (Bool-cases (ltb k i)) [
  | inl p ↦ rw p (
    a,
    ((ground (arith, p), s.1), b),
    ap₂ or_else (lookup_below k i ((i, q) ∷ es) (ground (arith, p)) (omega arith, s.1)) d,
    omega (arith, e, length-skip k ((i, q) ∷ es)),
  )
  | inr p ↦ rw p (
    s.0,
    ((omega arith, s.1), AllSorted-mono i k cs (ground (arith, p)) b),
    ground arith,
    ground (arith, length-skip i es, total-advance i cs),
  )
]

top-TopOf : (lo : ℕ) (cs : List Cursor) → AllSorted lo cs → TopOf lo (top cs) cs
unfolding top first_hit
top-TopOf lo [] s = (λ k. tt, λ j. refl)
top-TopOf lo (c ∷ cs) s = earlier-TopOf lo c cs (top cs) s.0 s.1 (top-TopOf lo cs s.1)

total-none : (j : DocId) (cs : List Cursor) → total cs ≤ 0 → first_hit j cs ≡ none
unfolding first_hit lookup
total-none j [] h = refl
total-none j ([] ∷ cs) h = total-none j cs (omega arith)
total-none j ((e ∷ es) ∷ cs) h = absurd (omega arith)

first_hit-top :
    (j k : DocId) (r : LogRecord) (cs : List Cursor)
    → first_hit k cs ≡ some r
    → (if k == j then some r else first_hit j (advance k cs)) ≡ first_hit j cs
first_hit-top j k r cs d = elim (Bool-cases (k == j)) [
  | inl e ↦ rw e (sym d ∙ ap (λ x. first_hit x cs) ((==_iff k j).0 e))
  | inr e ↦ rw e (first_hit-advance j k cs e)
]

merge_lem :
    (fuel lo : ℕ) (cs : List Cursor)
    → AllSorted lo cs
    → total cs ≤ fuel
    → SortedFrom lo (merge fuel cs) × ((j : DocId) → lookup j (merge fuel cs) ≡ first_hit j cs)
unfolding merge lookup
merge_lem zero lo cs s h = (tt, λ j. sym (total-none j cs h))
merge_lem (suc fuel) lo cs s h = elim (Option-cases (top cs)) [
  | inl e ↦
      let t : TopOf lo none cs = subst (λ o. TopOf lo o cs) e (top-TopOf lo cs s) in
      rw (e, merge) (tt, λ j. sym (t.1 j))
  | inr ((k, r), e) ↦
      let t : TopOf lo (some (k, r)) cs = subst (λ o. TopOf lo o cs) e (top-TopOf lo cs s) in
      let ih =
        merge_lem fuel (suc k) (advance k cs) (advance-AllSorted k cs t.1) (omega (arith, t.3)) in
      rw (e, merge)
        (
          (t.0, ih.0),
          λ j. ap (λ o. if k == j then some r else o) (ih.1 j) ∙ first_hit-top j k r cs t.2,
        )
]

visited-cases :
    {S : Type 0} (v : Visited S)
    → ((s : S) × (v ≡ go_on s)) ⊎ ((e : ScanError) × (s : S) × (v ≡ stop e s))
visited-cases (go_on s) = inl (s, refl)
visited-cases (stop e s) = inr (e, s, refl)

surface-false : {S : Type 0} (v : Visited S) → surface false v ≡ v
surface-false (go_on s) = refl
surface-false (stop e s) = refl

cursor-cases : (c : Cursor) → (c ≡ []) ⊎ ((e : Entry) × (es : Cursor) × (c ≡ e ∷ es))
cursor-cases [] = inl refl
cursor-cases (e ∷ es) = inr (e, es, refl)

or_false : (a b : Bool) → (a || b) ≡ false → (a ≡ false) × (b ≡ false)
or_false a b h = ground (arith, h)

-- The loop over the heap hands the visitor the merged records one by one.
scan_loop-merge :
    {S : Type 0} (fuel i : ℕ) (visit : Visitor S) (cs : List Cursor) (s : S)
    → scan_loop fuel (λ n. false) i visit cs s ≡ visit_all visit (merge fuel cs) s
unfolding scan_loop merge visit_all
scan_loop-merge zero i visit cs s = refl
scan_loop-merge (suc fuel) i visit cs s = elim (Option-cases (top cs)) [
  | inl e ↦ rw (e, scan_loop, merge) refl
  | inr ((k, r), e) ↦
      rw (e, scan_loop, merge)
        (elim (visited-cases (visit k r s)) [
          | inl (s', q) ↦ rw (q, visit_all) (scan_loop-merge fuel (suc i) visit (advance k cs) s')
          | inr (x, s', q) ↦ rw (q, visit_all) refl
        ])
]

add_cursors_none :
    (c : Source) (ss : List Source) → c.entries ≡ [] → add_cursors (c ∷ ss) ≡ add_cursors ss
unfolding add_cursors
add_cursors_none c ss e = rw (e, add_cursors) refl

add_cursors_some :
    (c : Source) (ss : List Source) (x : Entry) (es : Cursor)
    → c.entries ≡ x ∷ es
    → add_cursors (c ∷ ss) ≡ c ∷ add_cursors ss
unfolding add_cursors
add_cursors_some c ss x es e = simp e refl

first_hit_none :
    (j : DocId) (c : Cursor) (cs : List Cursor) → c ≡ [] → first_hit j (c ∷ cs) ≡ first_hit j cs
unfolding first_hit lookup
first_hit_none j c cs e = rw e refl

first_hit_tail :
    (j : DocId) (c : Cursor) (cs ds : List Cursor)
    → first_hit j cs ≡ first_hit j ds
    → first_hit j (c ∷ cs) ≡ first_hit j (c ∷ ds)
unfolding first_hit
first_hit_tail j c cs ds e = ap (or_else (lookup j c)) e

add_cursors-cursors :
    (lo : ℕ) (ss : List Source)
    → AllSorted lo (cursors ss)
    → any_failed ss ≡ false
    → AllSorted lo (cursors (add_cursors ss))
      × (any_failed (add_cursors ss) ≡ false)
      × ((j : DocId) → first_hit j (cursors (add_cursors ss)) ≡ first_hit j (cursors ss))
unfolding add_cursors
add_cursors-cursors lo [] s f = (tt, refl, λ j. refl)
add_cursors-cursors lo (c ∷ ss) s f =
    let (f1, f2) = or_false c.failed (any_failed ss) f in
    let (a, b, h) = add_cursors-cursors lo ss s.1 f2 in
    elim (cursor-cases c.entries) [
      | inl e ↦
          rw (add_cursors_none c ss e)
            (a, b, λ j. h j ∙ sym (first_hit_none j c.entries (cursors ss) e))
      | inr (x, es, e) ↦ rw (add_cursors_some c ss x es e) (
        (s.0, a),
        rw f1 b,
        λ j. first_hit_tail j c.entries (cursors (add_cursors ss)) (cursors ss) (h j),
      )
    ]

abbrev pub merged : List Source → List Entry
merged ss = merge (total (cursors (add_cursors ss))) (cursors (add_cursors ss))

-- A scan over sources in ascending order, none of which ends in an error, in a context that is never done,
-- runs the visitor over a list that is strictly ascending and has under every number what the first
-- source with that number has, and over no other number.
pub scan_sources-merged :
    {S : Type 0} (visit : Visitor S) (ss : List Source) (s : S)
    → AllSorted 0 (cursors ss)
    → any_failed ss ≡ false
    → (scan_sources (λ n. false) visit ss s ≡ visit_all visit (merged ss) s)
      × SortedFrom 0 (merged ss)
      × ((j : DocId) → lookup j (merged ss) ≡ first_hit j (cursors ss))
unfolding scan_sources
scan_sources-merged visit ss s a f =
    let (b, g, h) = add_cursors-cursors 0 ss a f in
    let m =
      merge_lem (total (cursors (add_cursors ss))) 0 (cursors (add_cursors ss)) b (omega arith) in
    (
      rw g (
          surface-false (
            scan_loop (total (cursors (add_cursors ss))) (λ n. false) 0 visit
              (cursors (add_cursors ss)) s)
          ∙ scan_loop-merge (total (cursors (add_cursors ss))) 0 visit (cursors (add_cursors ss))
              s),
      m.0,
      λ j. m.1 j ∙ h j,
    )
