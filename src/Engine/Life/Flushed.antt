-- ===== src/Engine/Life/Flushed.antt =====
-- A flush of internal/engine/engine.go keeps the log what a start needs.
use mathlib.Core.List.{append_assoc}
use dist_log.Prelude.{
  ℕ, ◌≤◌, ◌<◌, ◌≡◌, ◌≢◌, refl, sym, ap, subst, ◌∙◌, List, [], ◌∷◌, ◌++◌, none, Bool, true, false,
  map, arith, Bool-cases, inl, inr, leb,
}
use dist_log.Types.{DocId}
use dist_log.Types.Entries.{Entry}
use dist_log.Memtable.{SkipList, MemTable}
use dist_log.Memtable.Laws as MemtableLaws
use dist_log.Sstable.Reader.{Reader}
use dist_log.Engine.State.{Segment, Log, delete_sealed}
use dist_log.Engine.Flush.{tail, drop_segment}
use dist_log.Engine.Laws.Logged.{replayed, AscendingIn, Covers}
use dist_log.Engine.Laws.Moved.{Represents}
use dist_log.Engine.Recovery.{max_doc_id_from}
use dist_log.Engine.Recovery.Kept.{AllBelow}
use dist_log.Engine.Life.Records.{AllIn, replayed_in, found-AllBelow}
use dist_log.Engine.Life.Trail.{
  AllFlushed, AllFlushed-mono, AllFlushed-append, AllFlushed-delete_sealed, delete_sealed-front,
  Live, tables, segments, Live-lower,
}
use dist_log.Engine.Life.Newest.{Descending, max_doc_id_from-front}
use dist_log.Engine.Life.Kept.{TrailAt}

module _ (S : SkipList) where
  replayed-newest :
      (k : DocId) (m : MemTable S) (es : List Entry) (t : Reader)
      → Covers S m es
      → Represents S m t
      → t.meta.max_doc_id < k
      → replayed k none es ≡ none
  unfolding Covers
  replayed-newest k m es t c h p = sym (c k) ∙ (MemtableLaws.get-entries S k m ∙ h.newest.0 k p)

  newest_found :
      (m : MemTable S) (es : List Entry) (t : Reader)
      → Covers S m es
      → Represents S m t
      → replayed t.meta.max_doc_id none es ≢ none
  unfolding Covers
  newest_found m es t c h = λ e.
      h.newest.1 (sym (MemtableLaws.get-entries S t.meta.max_doc_id m) ∙ (c t.meta.max_doc_id ∙ e))

  -- The greatest number of the new table file is that of the segment.
  newest_in :
      (lo hi : ℕ) (m : MemTable S) (es : List Entry) (t : Reader)
      → Covers S m es
      → AllIn lo hi es
      → Represents S m t
      → (lo < t.meta.max_doc_id) × (t.meta.max_doc_id ≤ hi) × AllBelow t.meta.max_doc_id es
  newest_in lo hi m es t c a h =
      let (p, q) = replayed_in t.meta.max_doc_id lo hi es a (newest_found m es t c h) in
      (
        p,
        q,
        found-AllBelow t.meta.max_doc_id es (λ k n. elim (Bool-cases (leb k t.meta.max_doc_id)) [
          | inl e ↦ ground (arith, e)
          | inr e ↦ absurd (n (replayed-newest k m es t c h (ground (arith, e))))
        ]),
      )

  -- The sealed segments that the flush leaves.
  left : Bool → Segment → List Segment → List Segment
  left true s flushed = delete_sealed s.id flushed
  left false s flushed = flushed ++ (s ∷ [])

  left-AllFlushed :
      (deleted : Bool) (n n' : ℕ) (s : Segment) (flushed : List Segment)
      → n ≤ n'
      → AllFlushed n flushed
      → AllBelow n' s.records
      → AllFlushed n' (left deleted s flushed)
  unfolding left
  left-AllFlushed true n n' s flushed p h a =
      AllFlushed-delete_sealed n' s.id flushed (AllFlushed-mono n n' flushed p h)
  left-AllFlushed false n n' s flushed p h a =
      AllFlushed-append n' flushed s (AllFlushed-mono n n' flushed p h) a

  sealed-left :
      (deleted : Bool) (l : Log) (s : Segment) (flushed ss : List Segment) (lo hi : ℕ)
      → AscendingIn lo hi (map (λ s. s.id) (s ∷ ss))
      → (drop_segment S deleted
          (map (λ s. s.id) (s ∷ ss))
          (record l { sealed = flushed ++ (s ∷ ss) })).sealed
        ≡ left deleted s flushed ++ ss
  unfolding left drop_segment
  sealed-left true l s flushed ss lo hi a = delete_sealed-front flushed s ss lo hi a
  sealed-left false l s flushed ss lo hi a = sym (append_assoc flushed (s ∷ []) ss)

  active-drop_segment :
      (deleted : Bool) (ids : List ℕ) (l : Log) → (drop_segment S deleted ids l).active ≡ l.active
  unfolding drop_segment
  active-drop_segment deleted [] l = refl
  active-drop_segment true (id ∷ ids) l = refl
  active-drop_segment false (id ∷ ids) l = refl

  abbrev first : MemTable S → List (MemTable S) → MemTable S
  first d [] = d
  first d (y ∷ ys) = y

  -- The oldest frozen table is now a table file.
  pub published :
      (deleted : Bool) (t : Reader) (ts : List Reader) (m : MemTable S) (ms : List (MemTable S))
      (ids : List ℕ) (l : Log) (n mark lo hi : ℕ)
      → AscendingIn lo hi ids
      → Represents S m t
      → TrailAt S ts (m ∷ ms) ids l n mark
      → TrailAt S (t ∷ ts) ms (tail S ids) (drop_segment S deleted ids l) n mark
  unfolding Live Descending
  published deleted t ts m ms ids l n mark lo hi a r h =
      go h.live h.same_frozen h.same_wals h.same_sealed h.all_live
    where
      go :
          (live : List (MemTable S × Segment))
          → m ∷ ms ≡ tables S live
          → ids ≡ map (λ s. s.id) (segments S live)
          → l.sealed ≡ h.flushed ++ segments S live
          → Live S (max_doc_id_from 0 ts) mark live
          → TrailAt S (t ∷ ts) ms (tail S ids) (drop_segment S deleted ids l) n mark
      go [] f w s v = cc
      go ((m', x) ∷ fs) f w s (mid, p, c, b, v) =
          let same : m ≡ m' = ap (first m) f in
          let (above, below, all) =
            newest_in (max_doc_id_from 0 ts) mid m' x.records t c b
              (subst (λ y. Represents S y t) same r) in
          let cut = max_doc_id_from-front t ts above in
          let asc = subst (AscendingIn lo hi) w a in
          record {
            flushed = left deleted x h.flushed;
            live = fs;
            same_frozen = ap (tail S) f;
            same_wals = ap (tail S) w;
            same_sealed =
                (λ i. (drop_segment S deleted (w i) (record l { sealed = s i })).sealed)
                ∙ sealed-left deleted l x h.flushed (segments S fs) lo hi asc;
            all_flushed =
                subst (λ k. AllFlushed k (left deleted x h.flushed)) (sym cut)
                  (left-AllFlushed deleted (max_doc_id_from 0 ts) t.meta.max_doc_id x h.flushed
                    (omega arith) h.all_flushed all);
            all_live =
                subst (λ k. Live S k mark fs) (sym cut)
                  (Live-lower S mid t.meta.max_doc_id mark fs below v);
            active_in =
                subst (λ y. AllIn mark n y.records) (sym (active-drop_segment deleted ids l))
                  h.active_in;
            in_range = h.in_range;
            descending = (above, h.descending);
          }
