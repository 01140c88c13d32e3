-- ===== src/Engine/Life/Kept.antt =====
-- The steps of internal/engine/engine.go keep the log what a start needs.
use mathlib.Core.List.{append_assoc}
use dist_log.Prelude.{
  false, subst, ◌<◌, ℕ, ◌≤◌, ◌≡◌, refl, sym, ap, ◌∙◌, List, [], ◌∷◌, ◌++◌, map, arith,
}
use dist_log.Types.{DocId, LogRecord}
use dist_log.Memtable.{SkipList, MemTable}
use dist_log.Sstable.Reader.{Reader}
use dist_log.Engine.State.{Engine, Segment, Log, append_record, tear, seal_log}
use dist_log.Engine.Laws.Logged.{Covers}
use dist_log.Engine.Laws.Sound.Write.{append_record-whole}
use dist_log.Engine.Recovery.{max_doc_id_from}
use dist_log.Engine.Life.Records.{AllIn, AllIn-mono, AllIn-append}
use dist_log.Engine.Life.Trail.{AllFlushed, Live, tables, segments, Live-append}
use dist_log.Engine.Life.Newest.{Descending}

module _ (S : SkipList) where
  pub record TrailAt (sstables : List Reader) (frozen : List (MemTable S)) (frozen_wals : List ℕ)
      (log : Log) (counter mark : ℕ) : Type 0 where
    pub flushed : List Segment
    pub live : List (MemTable S × Segment)
    pub same_frozen : frozen ≡ tables S live
    pub same_wals : frozen_wals ≡ map (λ s. s.id) (segments S live)
    pub same_sealed : log.sealed ≡ flushed ++ segments S live
    pub all_flushed : AllFlushed (max_doc_id_from 0 sstables) flushed
    pub all_live : Live S (max_doc_id_from 0 sstables) mark live
    pub active_in : AllIn mark counter log.active.records
    pub in_range : mark ≤ counter
    pub descending : Descending sstables

  -- The sealed segments are those that the table files cover and those of the frozen tables, in this
  -- order, the numbers in the log ascend from table to table above those of the table files up to the
  -- last one that was given out, and newer table files have greater numbers.
  abbrev pub HasTrail : ℕ → Engine S → Type 0
  HasTrail mark e = TrailAt e.sstables e.frozen e.frozen_wals e.log e.alloc.counter mark

  -- A number is used up.
  pub counted :
      (ts : List Reader) (ms : List (MemTable S)) (ids : List ℕ) (l : Log) (n n' mark : ℕ)
      → n ≤ n'
      → TrailAt ts ms ids l n mark
      → TrailAt ts ms ids l n' mark
  counted ts ms ids l n n' mark p h = record {
    flushed = h.flushed;
    live = h.live;
    same_frozen = h.same_frozen;
    same_wals = h.same_wals;
    same_sealed = h.same_sealed;
    all_flushed = h.all_flushed;
    all_live = h.all_live;
    active_in = AllIn-mono mark mark n n' l.active.records (omega arith) p h.active_in;
    in_range = omega (arith, p, h.in_range);
    descending = h.descending;
  }

  -- A record is appended whose number was given out since the last rotation.
  pub appended :
      (ts : List Reader) (ms : List (MemTable S)) (ids : List ℕ) (l : Log) (n mark : ℕ) (id : DocId)
      (r : LogRecord)
      → l.active.torn ≡ false
      → mark < id
      → id ≤ n
      → TrailAt ts ms ids l n mark
      → TrailAt ts ms ids (append_record (id, r) l) n mark
  unfolding append_record
  appended ts ms ids l n mark id r w p q h = record {
    flushed = h.flushed;
    live = h.live;
    same_frozen = h.same_frozen;
    same_wals = h.same_wals;
    same_sealed = h.same_sealed;
    all_flushed = h.all_flushed;
    all_live = h.all_live;
    active_in =
        subst (λ x. AllIn mark n x.records) (sym (append_record-whole S (id, r) l w))
          (AllIn-append mark n l.active.records id r p q h.active_in);
    in_range = h.in_range;
    descending = h.descending;
  }

  -- A write is cut short.
  pub torn :
      (ts : List Reader) (ms : List (MemTable S)) (ids : List ℕ) (l : Log) (n mark : ℕ)
      → TrailAt ts ms ids l n mark
      → TrailAt ts ms ids (tear l) n mark
  unfolding tear
  torn ts ms ids l n mark h = record {
    flushed = h.flushed;
    live = h.live;
    same_frozen = h.same_frozen;
    same_wals = h.same_wals;
    same_sealed = h.same_sealed;
    all_flushed = h.all_flushed;
    all_live = h.all_live;
    active_in = h.active_in;
    in_range = h.in_range;
    descending = h.descending;
  }

  tables-append :
      (fs : List (MemTable S × Segment)) (m : MemTable S) (s : Segment)
      → tables S (fs ++ ((m, s) ∷ [])) ≡ tables S fs ++ (m ∷ [])
  tables-append [] m s = refl
  tables-append (f ∷ fs) m s = ap (λ l. f.0 ∷ l) (tables-append fs m s)

  segments-append :
      (fs : List (MemTable S × Segment)) (m : MemTable S) (s : Segment)
      → segments S (fs ++ ((m, s) ∷ [])) ≡ segments S fs ++ (s ∷ [])
  segments-append [] m s = refl
  segments-append (f ∷ fs) m s = ap (λ l. f.1 ∷ l) (segments-append fs m s)

  ids-append :
      (ss : List Segment) (s : Segment)
      → map (λ s. s.id) (ss ++ (s ∷ [])) ≡ map (λ (s : Segment). s.id) ss ++ (s.id ∷ [])
  ids-append [] s = refl
  ids-append (t ∷ ss) s = ap (λ l. t.id ∷ l) (ids-append ss s)

  -- The active table is frozen and its segment sealed.
  pub rotated :
      (ts : List Reader) (ms : List (MemTable S)) (ids : List ℕ) (l : Log) (n mark : ℕ)
      (m : MemTable S)
      → Covers S m l.active.records
      → TrailAt ts ms ids l n mark
      → TrailAt ts (ms ++ (m ∷ [])) (ids ++ (l.active.id ∷ [])) (seal_log l) n n
  unfolding seal_log
  rotated ts ms ids l n mark m c h = record {
    flushed = h.flushed;
    live = h.live ++ ((m, l.active) ∷ []);
    same_frozen = ap (λ x. x ++ (m ∷ [])) h.same_frozen ∙ sym (tables-append h.live m l.active);
    same_wals =
        ap (λ x. x ++ (l.active.id ∷ [])) h.same_wals
        ∙ sym (
            ap (map (λ s. s.id)) (segments-append h.live m l.active)
            ∙ ids-append (segments S h.live) l.active);
    same_sealed =
        ap (λ x. x ++ (l.active ∷ [])) h.same_sealed
        ∙ (append_assoc h.flushed (segments S h.live) (l.active ∷ [])
            ∙ ap (λ x. h.flushed ++ x) (sym (segments-append h.live m l.active)));
    all_flushed = h.all_flushed;
    all_live =
        Live-append S (max_doc_id_from 0 ts) mark n h.live m l.active h.in_range c h.active_in
          h.all_live;
    active_in = tt;
    in_range = omega arith;
    descending = h.descending;
  }
