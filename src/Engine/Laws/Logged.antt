-- ===== src/Engine/Laws/Logged.antt =====
-- How the tables of internal/engine/engine.go and the segments of its log belong together.
use dist_log.Prelude.{
  ℕ, suc, ◌≤◌, ◌<◌, ◌≡◌, refl, List, [], ◌∷◌, ◌++◌, Option, none, some, true, if◌then◌else◌, ◌==◌,
  arith, Bool-cases, ◌⊎◌, inl, inr,
}
use dist_log.Types.{DocId, LogRecord}
use dist_log.Types.Entries.{Entry}
use dist_log.Memtable as Memtable
use dist_log.Memtable.{SkipList, MemTable}
use dist_log.Engine.State.{Segment, delete_sealed}

-- The record that replaying the records in their order leaves under a number, over `o`.
unfoldable pub replayed : DocId → Option LogRecord → List Entry → Option LogRecord
replayed k o [] = o
replayed k o ((i, r) ∷ es) = replayed k (if i == k then some r else o) es

pub replayed-append :
    (k : DocId) (o : Option LogRecord) (es : List Entry) (i : DocId) (r : LogRecord)
    → replayed k o (es ++ ((i, r) ∷ [])) ≡ (if i == k then some r else replayed k o es)
unfolding replayed
replayed-append k o [] i r = refl
replayed-append k o ((j, q) ∷ es) i r = replayed-append k (if j == k then some q else o) es i r

pub replayed_nothing : (k : DocId) → replayed k none [] ≡ none
unfolding replayed
replayed_nothing k = refl

-- Numbers that ascend from `lo` on and stay below `hi`.
abbrev pub AscendingIn : ℕ → ℕ → List ℕ → Type 0
AscendingIn lo hi [] = lo ≤ hi
AscendingIn lo hi (i ∷ is) = (lo ≤ i) × AscendingIn (suc i) hi is

AscendingIn-le : (lo hi : ℕ) (is : List ℕ) → AscendingIn lo hi is → lo ≤ hi
AscendingIn-le lo hi [] h = h
AscendingIn-le lo hi (i ∷ is) h = omega (arith, AscendingIn-le (suc i) hi is h.1)

pub AscendingIn-mono :
    (lo lo' hi : ℕ) (is : List ℕ) → lo' ≤ lo → AscendingIn lo hi is → AscendingIn lo' hi is
AscendingIn-mono lo lo' hi [] p h = omega arith
AscendingIn-mono lo lo' hi (i ∷ is) p h = (omega arith, h.1)

pub AscendingIn-append :
    (lo hi hi' : ℕ) (is : List ℕ)
    → AscendingIn lo hi is
    → hi < hi'
    → AscendingIn lo hi' (is ++ (hi ∷ []))
AscendingIn-append lo hi hi' [] h p = (h, p)
AscendingIn-append lo hi hi' (i ∷ is) h p = (h.0, AscendingIn-append (suc i) hi hi' is h.1 p)

module _ (S : SkipList) where
  -- Replaying the records gives what the table gives, under every number.
  unfoldable pub Covers : MemTable S → List Entry → Type 0
  Covers m es = (k : DocId) → Memtable.get S k m ≡ replayed k none es

  -- One of the segments has the number, and its records give the table back.
  unfoldable pub HasSegment : MemTable S → ℕ → List Segment → Type 0
  unfolding Covers
  HasSegment m id [] = ⊥
  HasSegment m id (s ∷ ss) = ((s.id ≡ id) × Covers m s.records) ⊎ HasSegment m id ss

  -- Each frozen table has its segment, at the same place.
  unfoldable pub Paired : List (MemTable S) → List ℕ → List Segment → Type 0
  unfolding HasSegment
  Paired [] [] ss = Unit
  Paired [] (id ∷ ids) ss = ⊥
  Paired (m ∷ ms) [] ss = ⊥
  Paired (m ∷ ms) (id ∷ ids) ss = (m.frozen ≡ true) × HasSegment m id ss × Paired ms ids ss

  HasSegment-append :
      (m : MemTable S) (id : ℕ) (ss : List Segment) (s : Segment)
      → HasSegment m id ss
      → HasSegment m id (ss ++ (s ∷ []))
  unfolding HasSegment
  HasSegment-append m id [] s h = absurd h
  HasSegment-append m id (t ∷ ss) s (inl h) = inl h
  HasSegment-append m id (t ∷ ss) s (inr h) = inr (HasSegment-append m id ss s h)

  HasSegment-last :
      (m : MemTable S) (ss : List Segment) (s : Segment)
      → Covers m s.records
      → HasSegment m s.id (ss ++ (s ∷ []))
  unfolding HasSegment
  HasSegment-last m [] s h = inl (refl, h)
  HasSegment-last m (t ∷ ss) s h = inr (HasSegment-last m ss s h)

  -- The sealed segment of a rotation goes with the table that the rotation froze.
  pub Paired-append :
      (ms : List (MemTable S)) (ids : List ℕ) (ss : List Segment) (m : MemTable S) (s : Segment)
      → Paired ms ids ss
      → m.frozen ≡ true
      → Covers m s.records
      → Paired (ms ++ (m ∷ [])) (ids ++ (s.id ∷ [])) (ss ++ (s ∷ []))
  unfolding Paired
  Paired-append [] [] ss m s h f c = (f, HasSegment-last m ss s c, tt)
  Paired-append [] (id ∷ ids) ss m s h f c = absurd h
  Paired-append (n ∷ ms) [] ss m s h f c = absurd h
  Paired-append (n ∷ ms) (id ∷ ids) ss m s (a, b, h) f c =
      (a, HasSegment-append n id ss s b, Paired-append ms ids ss m s h f c)

  HasSegment-delete_sealed :
      (m : MemTable S) (id d : ℕ) (ss : List Segment)
      → d < id
      → HasSegment m id ss
      → HasSegment m id (delete_sealed d ss)
  unfolding HasSegment delete_sealed
  HasSegment-delete_sealed m id d [] p h = absurd h
  HasSegment-delete_sealed m id d (s ∷ ss) p (inl (e, c)) = elim (Bool-cases (s.id == d)) [
    | inl q ↦ absurd (ground (arith, q))
    | inr q ↦ rw (q, delete_sealed) (inl (e, c))
  ]
  HasSegment-delete_sealed m id d (s ∷ ss) p (inr h) = elim (Bool-cases (s.id == d)) [
    | inl q ↦ rw (q, delete_sealed) (HasSegment-delete_sealed m id d ss p h)
    | inr q ↦ rw (q, delete_sealed) (inr (HasSegment-delete_sealed m id d ss p h))
  ]

  -- Deleting a segment leaves those of higher numbers in their place.
  pub Paired-delete_sealed :
      (ms : List (MemTable S)) (ids : List ℕ) (d lo hi : ℕ) (ss : List Segment)
      → d < lo
      → AscendingIn lo hi ids
      → Paired ms ids ss
      → Paired ms ids (delete_sealed d ss)
  unfolding Paired
  Paired-delete_sealed [] [] d lo hi ss p a h = tt
  Paired-delete_sealed [] (id ∷ ids) d lo hi ss p a h = absurd h
  Paired-delete_sealed (m ∷ ms) [] d lo hi ss p a h = absurd h
  Paired-delete_sealed (m ∷ ms) (id ∷ ids) d lo hi ss p a (f, b, h) = (
    f,
    HasSegment-delete_sealed m id d ss (omega arith) b,
    Paired-delete_sealed ms ids d (suc id) hi ss (omega arith) a.1 h,
  )
