-- ===== src/Engine/Recovery/Kept.antt =====
-- What `Open` of internal/engine/engine.go recovers from the tables and the log.
use dist_log.Prelude.{
  ℕ, ◌≤◌, ◌<◌, ◌≡◌, refl, ap, sym, ◌∙◌, List, [], ◌∷◌, ◌++◌, Option, none, some, Bool, true, false,
  ◌&&◌, ◌||◌, ltb, leb, ◌==◌, if◌then◌else◌, arith, Bool-cases, inl, inr,
}
use dist_log.Types.{DocId, LogRecord}
use dist_log.Types.Entries.{Entry}
use dist_log.Memtable as Memtable
use dist_log.Memtable.{SkipList, MemTable}
use dist_log.Memtable.Laws as MemtableLaws
use dist_log.Engine.Startup.{Loaded, sort_sstables_newest_first}
use dist_log.Engine.State.{Config, Log, Segment}
use dist_log.Engine.Read.{get, or_search, get_from_frozen, get_from_sstables}
use dist_log.Engine.Laws.Logged.{replayed}
use dist_log.Engine.Laws.Sound.Write.{put-frozen}
use dist_log.Engine.Laws.Moved.{get-new_mem_table}
use dist_log.Engine.Recovery.{
  max_doc_id_from, max_entry_from, is_empty, is_covered, keep_uncovered, records_of, replay_records,
  open_engine,
}

-- A record at or below the cutoff leaves the replay of greater numbers alone.
replayed_above :
    (k cutoff id : ℕ) (o : Option LogRecord) (r : LogRecord)
    → cutoff < k
    → id ≤ cutoff
    → (if id == k then some r else o) ≡ o
replayed_above k cutoff id o r h l = ground arith

pub replayed-append_list :
    (k : DocId) (o : Option LogRecord) (es fs : List Entry)
    → replayed k o (es ++ fs) ≡ replayed k (replayed k o es) fs
unfolding replayed
replayed-append_list k o [] fs = refl
replayed-append_list k o ((i, r) ∷ es) fs =
    replayed-append_list k (if i == k then some r else o) es fs

-- Records that are all at or below the cutoff.
abbrev pub AllBelow : ℕ → List Entry → Type 0
AllBelow cutoff [] = Unit
AllBelow cutoff ((id, r) ∷ es) = (id ≤ cutoff) × AllBelow cutoff es

le-max_entry_from : (n : ℕ) (es : List Entry) → n ≤ max_entry_from n es
unfolding max_entry_from
le-max_entry_from n [] = omega arith
le-max_entry_from n ((id, r) ∷ es) =
    ground (arith, le-max_entry_from (if ltb n id then id else n) es)

max_entry_from-AllBelow :
    (n cutoff : ℕ) (es : List Entry) → max_entry_from n es ≤ cutoff → AllBelow cutoff es
unfolding max_entry_from
max_entry_from-AllBelow n cutoff [] h = tt
max_entry_from-AllBelow n cutoff ((id, r) ∷ es) h = (
  ground (arith, le-max_entry_from (if ltb n id then id else n) es),
  max_entry_from-AllBelow (if ltb n id then id else n) cutoff es h,
)

covered_records :
    (cutoff : ℕ) (es : List Entry)
    → (is_empty es || leb (max_entry_from 0 es) cutoff) ≡ true
    → AllBelow cutoff es
covered_records cutoff [] h = tt
covered_records cutoff (e ∷ es) h = max_entry_from-AllBelow 0 cutoff (e ∷ es) (ground (arith, h))

covered-AllBelow :
    (cutoff : ℕ) (s : Segment) → is_covered cutoff s ≡ true → AllBelow cutoff s.records
unfolding is_covered
covered-AllBelow cutoff s h = covered_records cutoff s.records h

pub replayed-AllBelow :
    (k cutoff : ℕ) (o : Option LogRecord) (es : List Entry)
    → cutoff < k
    → AllBelow cutoff es
    → replayed k o es ≡ o
unfolding replayed
replayed-AllBelow k cutoff o [] h a = refl
replayed-AllBelow k cutoff o ((id, r) ∷ es) h a =
    ap (λ x. replayed k x es) (replayed_above k cutoff id o r h a.0)
    ∙ replayed-AllBelow k cutoff o es h a.1

first_of : (a b : Bool) → (a && b) ≡ true → a ≡ true
first_of a b h = ground (arith, h)

-- Deleting covered segments changes no record above the cutoff.
replayed-keep_uncovered :
    (deletable : ℕ → Bool) (k cutoff : ℕ) (o : Option LogRecord) (ss : List Segment)
    → cutoff < k
    → replayed k o (records_of (keep_uncovered deletable cutoff ss)) ≡ replayed k o (records_of ss)
unfolding keep_uncovered records_of
replayed-keep_uncovered deletable k cutoff o [] h = refl
replayed-keep_uncovered deletable k cutoff o (s ∷ ss) h =
    elim (Bool-cases (is_covered cutoff s && deletable s.id)) [
      | inl q ↦
          let gone : replayed k o s.records ≡ o =
            replayed-AllBelow k cutoff o s.records h
              (covered-AllBelow cutoff s (first_of (is_covered cutoff s) (deletable s.id) q)) in
          rw (q, keep_uncovered)
            (replayed-keep_uncovered deletable k cutoff o ss h
              ∙ sym (
                  replayed-append_list k o s.records (records_of ss)
                  ∙ ap (λ x. replayed k x (records_of ss)) gone))
      | inr q ↦
          rw (q, keep_uncovered)
            (replayed-append_list k o s.records (records_of (keep_uncovered deletable cutoff ss))
              ∙ (replayed-keep_uncovered deletable k cutoff (replayed k o s.records) ss h
                  ∙ sym (replayed-append_list k o s.records (records_of ss))))
    ]

skipped :
    (k cutoff id : ℕ) (r : LogRecord) (o : Option LogRecord) (es : List Entry)
    → id ≤ cutoff
    → (if leb k cutoff then o else replayed k o es)
      ≡ (if leb k cutoff then o else replayed k (if id == k then some r else o) es)
skipped k cutoff id r o es h = elim (Bool-cases (leb k cutoff)) [
  | inl e ↦ rw e refl
  | inr e ↦
      rw e (ap (λ x. replayed k x es) (sym (replayed_above k cutoff id o r (ground (arith, e)) h)))
]

applied :
    (k cutoff id : ℕ) (r : LogRecord) (o : Option LogRecord) (es : List Entry)
    → cutoff < id
    → (if leb k cutoff
        then (if id == k then some r else o)
        else replayed k (if id == k then some r else o) es)
      ≡ (if leb k cutoff then o else replayed k (if id == k then some r else o) es)
applied k cutoff id r o es h = elim (Bool-cases (leb k cutoff)) [
  | inl e ↦ rw e (ground (arith, e))
  | inr e ↦ rw e refl
]

-- What the log still holds above the cutoff after covered segments were deleted.
kept_above :
    (deletable : ℕ → Bool) (k cutoff : ℕ) (ss : List Segment) (es : List Entry)
    → (if leb k cutoff
        then none
        else replayed k none (records_of (keep_uncovered deletable cutoff ss) ++ es))
      ≡ (if leb k cutoff then none else replayed k none (records_of ss ++ es))
kept_above deletable k cutoff ss es = elim (Bool-cases (leb k cutoff)) [
  | inl e ↦ rw e refl
  | inr e ↦ rw e (
      replayed-append_list k none (records_of (keep_uncovered deletable cutoff ss)) es
      ∙ (ap (λ o. replayed k o es)
            (replayed-keep_uncovered deletable k cutoff none ss (ground (arith, e)))
          ∙ sym (replayed-append_list k none (records_of ss) es)))
]

module _ (S : SkipList) where
  get-replay_records :
      (k cutoff : ℕ) (es : List Entry) (m : MemTable S)
      → m.frozen ≡ false
      → Memtable.get S k (replay_records S cutoff es m)
        ≡ (if leb k cutoff then Memtable.get S k m else replayed k (Memtable.get S k m) es)
  unfolding replay_records replayed
  get-replay_records k cutoff [] m f = elim (Bool-cases (leb k cutoff)) [
    | inl e ↦ rw e refl
    | inr e ↦ rw e refl
  ]
  get-replay_records k cutoff ((id, r) ∷ es) m f = elim (Bool-cases (leb id cutoff)) [
    | inl e ↦ rw e (
        get-replay_records k cutoff es m f
        ∙ skipped k cutoff id r (Memtable.get S k m) es (ground (arith, e)))
    | inr e ↦ rw e (
        get-replay_records k cutoff es (Memtable.put S id r m).1 (put-frozen S id r m ∙ f)
        ∙ (ap (λ o. if leb k cutoff then o else replayed k o es) (MemtableLaws.get-put S k id r m f)
            ∙ applied k cutoff id r (Memtable.get S k m) es (ground (arith, e))))
  ]

  -- An engine opened over loaded tables and a log: Get finds first what replaying the log's records leaves
  -- under a number above every number in the tables, and then what the tables have, newest first.
  pub get-open_engine :
      (k : DocId) (c : Config) (n : ℕ) (loaded : Loaded) (deletable : ℕ → Bool) (l : Log)
      → get S k (open_engine S c n loaded deletable l)
        ≡ or_search S
            (if leb k (max_doc_id_from 0 loaded.readers)
              then none
              else replayed k none (records_of l.sealed ++ l.active.records))
            (get_from_sstables k (sort_sstables_newest_first loaded.readers))
  unfolding open_engine get get_from_frozen
  get-open_engine k c n loaded deletable l =
      let cutoff = max_doc_id_from 0 loaded.readers in
      let es = records_of l.sealed ++ l.active.records in
      ap (λ o. or_search S o (get_from_sstables k (sort_sstables_newest_first loaded.readers)))
        (get-replay_records k cutoff es (Memtable.new_mem_table S)
            (unfold Memtable.new_mem_table in refl)
          ∙ ap (λ o. if leb k cutoff then o else replayed k o es) (get-new_mem_table S k))

  -- Recovery can be repeated: to open again over the same tables, with the log that the first opening left
  -- after it deleted any of the covered segments, gives an engine with the same answer to every Get.
  pub get_again-open_engine :
      (k : DocId) (c : Config) (n : ℕ) (loaded : Loaded) (deletable again : ℕ → Bool) (l : Log)
      → get S k (open_engine S c n loaded again (open_engine S c n loaded deletable l).log)
        ≡ get S k (open_engine S c n loaded deletable l)
  unfolding open_engine
  get_again-open_engine k c n loaded deletable again l =
      get-open_engine k c n loaded again (open_engine S c n loaded deletable l).log
      ∙ (ap (λ o. or_search S o (get_from_sstables k (sort_sstables_newest_first loaded.readers)))
            (kept_above deletable k (max_doc_id_from 0 loaded.readers) l.sealed l.active.records)
          ∙ sym (get-open_engine k c n loaded deletable l))
