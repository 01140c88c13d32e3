-- ===== src/Engine/Recovery/Crash.antt =====
-- An engine of internal/engine/engine.go that crashes and is opened again.
use dist_log.Prelude.{
  ℕ, ◌≤◌, ◌<◌, ◌≡◌, refl, ap, ap₂, sym, ◌∙◌, List, [], ◌∷◌, ◌++◌, Option, none, some, Bool, leb,
  ◌==◌, if◌then◌else◌, arith, Bool-cases, ◌⊎◌, inl, inr,
}
use dist_log.Types.{DocId, LogRecord}
use dist_log.Types.Entries.{Entry}
use dist_log.Memtable as Memtable
use dist_log.Memtable.{SkipList, MemTable}
use dist_log.Sstable.Reader.{Reader, GetResult}
use dist_log.Engine.Startup.{sort_sstables_newest_first}
use dist_log.Engine.State.{Config, Engine, Segment}
use dist_log.Engine.Read.{get, or_search, get_from_frozen, get_from_sstables}
use dist_log.Engine.Laws.Logged.{replayed, Covers}
use dist_log.Engine.Scan.Merge.{or_else}
use dist_log.Engine.Recovery.{max_doc_id_from, records_of, open_engine}
use dist_log.Engine.Recovery.Greatest.{max_doc_id_from-sort}
use dist_log.Engine.Recovery.Kept.{
  AllBelow, replayed-append_list, replayed-AllBelow, get-open_engine,
}

replayed_over :
    (k : DocId) (p o : Option LogRecord) (es : List Entry)
    → replayed k (or_else p o) es ≡ or_else (replayed k p es) o
unfolding replayed
replayed_over k p o [] = refl
replayed_over k p o ((i, r) ∷ es) = elim (Bool-cases (i == k)) [
  | inl e ↦ rw e (replayed_over k (some r) o es)
  | inr e ↦ rw e (replayed_over k p o es)
]

module _ (S : SkipList) where
  -- The sealed segments that a crash leaves: those of the frozen tables in their order, and among them any
  -- number of segments whose records are all at or below the cutoff.
  unfoldable pub Aligned : ℕ → List (MemTable S) → List Segment → Type 0
  Aligned cutoff [] [] = Unit
  Aligned cutoff (m ∷ ms) [] = ⊥
  Aligned cutoff [] (s ∷ ss) = AllBelow cutoff s.records × Aligned cutoff [] ss
  Aligned cutoff (m ∷ ms) (s ∷ ss) =
      (AllBelow cutoff s.records × Aligned cutoff (m ∷ ms) ss)
      ⊎ (Covers S m s.records × Aligned cutoff ms ss)

  unfoldable pub NothingBelow : ℕ → List (MemTable S) → Type 0
  NothingBelow cutoff [] = Unit
  NothingBelow cutoff (m ∷ ms) =
      ((k : DocId) → k ≤ cutoff → Memtable.get S k m ≡ none) × NothingBelow cutoff ms

  or_search_twice :
      (p o : Option LogRecord) (rest : GetResult)
      → or_search S p (or_search S o rest) ≡ or_search S (or_else p o) rest
  or_search_twice none o rest = refl
  or_search_twice (some r) o rest = refl

  covered_search :
      (k : DocId) (m : MemTable S) (es : List Entry) (o : Option LogRecord) (rest : GetResult)
      → Covers S m es
      → or_search S (Memtable.get S k m) (or_search S o rest) ≡ or_search S (replayed k o es) rest
  unfolding Covers
  covered_search k m es o rest h =
      or_search_twice (Memtable.get S k m) o rest
      ∙ ap (λ p. or_search S p rest) (ap (λ p. or_else p o) (h k) ∙ sym (replayed_over k none o es))

  flushed_segment :
      (k cutoff : ℕ) (s : Segment) (ss : List Segment) (o : Option LogRecord) (rest : GetResult)
      → cutoff < k
      → AllBelow cutoff s.records
      → or_search S (replayed k o (records_of ss)) rest
        ≡ or_search S (replayed k o (records_of (s ∷ ss))) rest
  unfolding records_of
  flushed_segment k cutoff s ss o rest h a =
      ap (λ p. or_search S p rest)
        (sym (
          replayed-append_list k o s.records (records_of ss)
          ∙ ap (λ x. replayed k x (records_of ss)) (replayed-AllBelow k cutoff o s.records h a)))

  frozen_search :
      (k cutoff : ℕ) (ms : List (MemTable S)) (ss : List Segment) (o : Option LogRecord)
      (rest : GetResult)
      → cutoff < k
      → Aligned cutoff ms ss
      → get_from_frozen S k ms (or_search S o rest)
        ≡ or_search S (replayed k o (records_of ss)) rest
  unfolding get_from_frozen Aligned records_of replayed
  frozen_search k cutoff [] [] o rest h a = refl
  frozen_search k cutoff (m ∷ ms) [] o rest h a = absurd a
  frozen_search k cutoff [] (s ∷ ss) o rest h a =
      frozen_search k cutoff [] ss o rest h a.1 ∙ flushed_segment k cutoff s ss o rest h a.0
  frozen_search k cutoff (m ∷ ms) (s ∷ ss) o rest h (inl a) =
      frozen_search k cutoff (m ∷ ms) ss o rest h a.1 ∙ flushed_segment k cutoff s ss o rest h a.0
  frozen_search k cutoff (m ∷ ms) (s ∷ ss) o rest h (inr a) =
      ap (get_from_frozen S k ms) (covered_search k m s.records o rest a.0)
      ∙ (frozen_search k cutoff ms ss (replayed k o s.records) rest h a.1
          ∙ ap (λ p. or_search S p rest) (sym (replayed-append_list k o s.records (records_of ss))))

  nothing_frozen :
      (k cutoff : ℕ) (ms : List (MemTable S)) (rest : GetResult)
      → k ≤ cutoff
      → NothingBelow cutoff ms
      → get_from_frozen S k ms rest ≡ rest
  unfolding get_from_frozen NothingBelow
  nothing_frozen k cutoff [] rest h n = refl
  nothing_frozen k cutoff (m ∷ ms) rest h n =
      ap (λ o. get_from_frozen S k ms (or_search S o rest)) (n.0 k h)
      ∙ nothing_frozen k cutoff ms rest h n.1

  -- What the recovered table has under a number.
  abbrev recovered_answer : DocId → Engine S → Option LogRecord
  recovered_answer k e =
      if leb k (max_doc_id_from 0 e.sstables)
      then none
      else replayed k none (records_of e.log.sealed ++ e.log.active.records)

  below_cutoff :
      (k : DocId) (e : Engine S)
      → k ≤ max_doc_id_from 0 e.sstables
      → NothingBelow (max_doc_id_from 0 e.sstables) (e.active ∷ e.frozen)
      → get S k e ≡ get_from_sstables k e.sstables
  unfolding get NothingBelow
  below_cutoff k e h b =
      ap (λ o. or_search S o (get_from_frozen S k e.frozen (get_from_sstables k e.sstables)))
        (b.0 k h)
      ∙ nothing_frozen k (max_doc_id_from 0 e.sstables) e.frozen (get_from_sstables k e.sstables) h
          b.1

  above_cutoff :
      (k : DocId) (e : Engine S)
      → max_doc_id_from 0 e.sstables < k
      → Covers S e.active e.log.active.records
      → Aligned (max_doc_id_from 0 e.sstables) e.frozen e.log.sealed
      → get S k e
        ≡ or_search S
            (replayed k none (records_of e.log.sealed ++ e.log.active.records))
            (get_from_sstables k e.sstables)
  unfolding get
  above_cutoff k e h a f =
      ap (or_search S (Memtable.get S k e.active)) (
        frozen_search k (max_doc_id_from 0 e.sstables) e.frozen e.log.sealed none
          (get_from_sstables k e.sstables) h f)
      ∙ (covered_search k e.active e.log.active.records (replayed k none (records_of e.log.sealed))
            (get_from_sstables k e.sstables) a
          ∙ ap (λ p. or_search S p (get_from_sstables k e.sstables))
              (sym (replayed-append_list k none (records_of e.log.sealed) e.log.active.records)))

  -- A crash loses nothing that was read: where the log's active segment replays to the active table, its
  -- sealed segments are those of the frozen tables in their order among segments that are flushed, no table
  -- in memory has a number up to the greatest of the table files, and these are in the order in which a
  -- start sorts the files of the directory, the engine that is opened over the table files and the log answers every Get as the
  -- engine before the crash did, whichever covered segments the opening can delete.
  pub get-crash :
      (k : DocId) (e : Engine S) (c : Config) (n q : ℕ) (deletable : ℕ → Bool) (rs : List Reader)
      → Covers S e.active e.log.active.records
      → Aligned (max_doc_id_from 0 e.sstables) e.frozen e.log.sealed
      → NothingBelow (max_doc_id_from 0 e.sstables) (e.active ∷ e.frozen)
      → sort_sstables_newest_first rs ≡ e.sstables
      → get S k (open_engine S c n (record { readers = rs; quarantined_count = q }) deletable e.log)
        ≡ get S k e
  get-crash k e c n q deletable rs a f b s =
      let cut : max_doc_id_from 0 rs ≡ max_doc_id_from 0 e.sstables =
        sym (max_doc_id_from-sort 0 rs) ∙ ap (max_doc_id_from 0) s in
      let rest = replayed k none (records_of e.log.sealed ++ e.log.active.records) in
      get-open_engine S k c n (record { readers = rs; quarantined_count = q }) deletable e.log
      ∙ (ap₂ (λ m ts. or_search S (if leb k m then none else rest) (get_from_sstables k ts)) cut s
          ∙ elim (Bool-cases (leb k (max_doc_id_from 0 e.sstables))) [
            | inl h ↦ rw h (sym (below_cutoff k e (ground (arith, h)) b))
            | inr h ↦ rw h (sym (above_cutoff k e (ground (arith, h)) a f))
          ])
