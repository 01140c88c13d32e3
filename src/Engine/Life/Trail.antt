-- ===== src/Engine/Life/Trail.antt =====
-- The sealed segments of internal/engine/engine.go in their order: those that the table files cover and
-- that could not be deleted, and behind them those of the frozen tables.
use dist_log.Prelude.{
  ℕ, suc, ◌≤◌, ◌<◌, ◌≡◌, refl, ap, ◌∙◌, List, [], ◌∷◌, ◌++◌, none, true, map, ◌==◌, arith,
  Bool-cases, inl, inr,
}
use dist_log.Memtable as Memtable
use dist_log.Memtable.{SkipList, MemTable}
use dist_log.Engine.State.{Segment, delete_sealed}
use dist_log.Engine.Laws.Logged.{AscendingIn, Covers}
use dist_log.Engine.Recovery.Kept.{AllBelow}
use dist_log.Engine.Recovery.Crash.{Aligned, NothingBelow}
use dist_log.Engine.Life.Records.{AllIn, AllIn-mono, AllBelow-mono, replayed-AllIn}

abbrev pub AllFlushed : ℕ → List Segment → Type 0
AllFlushed cutoff [] = Unit
AllFlushed cutoff (s ∷ ss) = AllBelow cutoff s.records × AllFlushed cutoff ss

pub AllFlushed-mono : (n n' : ℕ) (ss : List Segment) → n ≤ n' → AllFlushed n ss → AllFlushed n' ss
AllFlushed-mono n n' [] p h = tt
AllFlushed-mono n n' (s ∷ ss) p h =
    (AllBelow-mono n n' s.records p h.0, AllFlushed-mono n n' ss p h.1)

pub AllFlushed-append :
    (n : ℕ) (ss : List Segment) (s : Segment)
    → AllFlushed n ss
    → AllBelow n s.records
    → AllFlushed n (ss ++ (s ∷ []))
AllFlushed-append n [] s h a = (a, tt)
AllFlushed-append n (t ∷ ss) s h a = (h.0, AllFlushed-append n ss s h.1 a)

pub AllFlushed-delete_sealed :
    (n id : ℕ) (ss : List Segment) → AllFlushed n ss → AllFlushed n (delete_sealed id ss)
unfolding delete_sealed
AllFlushed-delete_sealed n id [] h = tt
AllFlushed-delete_sealed n id (s ∷ ss) h = elim (Bool-cases (s.id == id)) [
  | inl e ↦ rw (e, delete_sealed) (AllFlushed-delete_sealed n id ss h.1)
  | inr e ↦ rw (e, delete_sealed) (h.0, AllFlushed-delete_sealed n id ss h.1)
]

delete_sealed-append :
    (id : ℕ) (ss ts : List Segment)
    → delete_sealed id (ss ++ ts) ≡ delete_sealed id ss ++ delete_sealed id ts
unfolding delete_sealed
delete_sealed-append id [] ts = refl
delete_sealed-append id (s ∷ ss) ts = elim (Bool-cases (s.id == id)) [
  | inl e ↦ rw (e, delete_sealed) (delete_sealed-append id ss ts)
  | inr e ↦ rw (e, delete_sealed) (ap (λ l. s ∷ l) (delete_sealed-append id ss ts))
]

delete_below :
    (id lo hi : ℕ) (ss : List Segment)
    → id < lo
    → AscendingIn lo hi (map (λ s. s.id) ss)
    → delete_sealed id ss ≡ ss
unfolding delete_sealed
delete_below id lo hi [] p a = refl
delete_below id lo hi (s ∷ ss) p a = elim (Bool-cases (s.id == id)) [
  | inl e ↦ absurd (ground (arith, e, a))
  | inr e ↦
      rw (e, delete_sealed)
        (ap (λ l. s ∷ l) (delete_below id (suc s.id) hi ss (omega (arith, a.0)) a.1))
]

delete_itself :
    (s : Segment) (ss : List Segment) → delete_sealed s.id (s ∷ ss) ≡ delete_sealed s.id ss
unfolding delete_sealed
delete_itself s ss = let e : (s.id == s.id) ≡ true = ground arith in rw (e, delete_sealed) refl

-- Deleting the segment of the oldest frozen table leaves those of the others.
pub delete_sealed-front :
    (flushed : List Segment) (s : Segment) (ss : List Segment) (lo hi : ℕ)
    → AscendingIn lo hi (map (λ s. s.id) (s ∷ ss))
    → delete_sealed s.id (flushed ++ (s ∷ ss)) ≡ delete_sealed s.id flushed ++ ss
delete_sealed-front flushed s ss lo hi a =
    delete_sealed-append s.id flushed (s ∷ ss)
    ∙ ap (λ l. delete_sealed s.id flushed ++ l)
        (delete_itself s ss ∙ delete_below s.id (suc s.id) hi ss (omega arith) a.1)

module _ (S : SkipList) where
  -- The frozen tables with their segments, whose numbers ascend from `lo` to `hi`.
  unfoldable pub Live : ℕ → ℕ → List (MemTable S × Segment) → Type 0
  unfolding Covers
  Live lo hi [] = lo ≤ hi
  Live lo hi ((m, s) ∷ fs) =
      (mid : ℕ) × (lo ≤ mid) × Covers S m s.records × AllIn lo mid s.records × Live mid hi fs

  abbrev pub tables : List (MemTable S × Segment) → List (MemTable S)
  tables fs = map (λ f. f.0) fs

  abbrev pub segments : List (MemTable S × Segment) → List Segment
  segments fs = map (λ f. f.1) fs

  pub Live-le : (lo hi : ℕ) (fs : List (MemTable S × Segment)) → Live lo hi fs → lo ≤ hi
  unfolding Live
  Live-le lo hi [] h = h
  Live-le lo hi ((m, s) ∷ fs) (mid, p, c, a, h) = omega (arith, p, Live-le mid hi fs h)

  pub Live-lower :
      (lo lo' hi : ℕ) (fs : List (MemTable S × Segment)) → lo' ≤ lo → Live lo hi fs → Live lo' hi fs
  unfolding Live
  Live-lower lo lo' hi [] q h = omega (arith, q, h)
  Live-lower lo lo' hi ((m, s) ∷ fs) q (mid, p, c, a, h) =
      (mid, omega arith, c, AllIn-mono lo lo' mid mid s.records q (omega arith) a, h)

  pub Live-append :
      (lo mid hi : ℕ) (fs : List (MemTable S × Segment)) (m : MemTable S) (s : Segment)
      → mid ≤ hi
      → Covers S m s.records
      → AllIn mid hi s.records
      → Live lo mid fs
      → Live lo hi (fs ++ ((m, s) ∷ []))
  unfolding Live
  Live-append lo mid hi [] m s q c a h =
      (hi, omega (arith, q, h), c, AllIn-mono mid lo hi hi s.records h (omega arith) a, omega arith)
  Live-append lo mid hi ((n, t) ∷ fs) m s q c a (x, p, d, b, h) =
      (x, p, d, b, Live-append x mid hi fs m s q c a h)

  pub Live-Aligned :
      (cutoff lo hi : ℕ) (flushed : List Segment) (fs : List (MemTable S × Segment))
      → AllFlushed cutoff flushed
      → Live lo hi fs
      → Aligned S cutoff (tables fs) (flushed ++ segments fs)
  unfolding Aligned Live
  Live-Aligned cutoff lo hi [] [] f h = tt
  Live-Aligned cutoff lo hi [] ((m, s) ∷ fs) f (mid, p, c, a, h) =
      inr (c, Live-Aligned cutoff mid hi [] fs tt h)
  Live-Aligned cutoff lo hi (t ∷ ts) [] f h = (f.0, Live-Aligned cutoff lo hi ts [] f.1 h)
  Live-Aligned cutoff lo hi (t ∷ ts) ((m, s) ∷ fs) f h =
      inl (f.0, Live-Aligned cutoff lo hi ts ((m, s) ∷ fs) f.1 h)

  pub Covers-above :
      (lo hi k : ℕ) (m : MemTable S) (s : Segment)
      → Covers S m s.records
      → AllIn lo hi s.records
      → k ≤ lo
      → Memtable.get S k m ≡ none
  unfolding Covers
  Covers-above lo hi k m s c a p = c k ∙ replayed-AllIn k lo hi none s.records p a

  pub Live-NothingBelow :
      (cutoff lo hi : ℕ) (fs : List (MemTable S × Segment))
      → cutoff ≤ lo
      → Live lo hi fs
      → NothingBelow S cutoff (tables fs)
  unfolding NothingBelow Live
  Live-NothingBelow cutoff lo hi [] q h = tt
  Live-NothingBelow cutoff lo hi ((m, s) ∷ fs) q (mid, p, c, a, h) = (
    λ k l. Covers-above lo mid k m s c a (omega (arith, l, q)),
    Live-NothingBelow cutoff mid hi fs (omega arith) h,
  )
