-- ===== src/Engine/Laws/Sound/Write.antt =====
-- The attempts of a write of internal/engine/engine.go keep the invariants.
use dist_log.Prelude.{
  ◌≡◌, refl, ap, sym, subst, ◌∙◌, ◌<◌, List, [], ◌∷◌, ◌++◌, none, some, true, false, if◌then◌else◌,
  ◌==◌, Bool-cases, inl, inr,
}
use dist_log.Prelude.Int.{ltb_ℤ}
use dist_log.Types.{DocId, LogRecord}
use dist_log.Memtable as Memtable
use dist_log.Memtable.{SkipList, MemTable}
use dist_log.Memtable.Laws as MemtableLaws
use dist_log.Engine.State.{Engine, Log, append_record, append_to, tear}
use dist_log.Types.Entries.{Entry}
use dist_log.Engine.Write.{
  AppendOutcome, appended, nothing_written, cut_short, not_synced, maybe_trigger_freeze,
  write_attempts,
}
use dist_log.Engine.Laws.Written.{after_attempt, attempt_lem}
use dist_log.Engine.Laws.Logged.{replayed-append, AscendingIn, Covers}
use dist_log.Engine.Laws.Sound.{IsSound, KeepsReplay}
use dist_log.Engine.Laws.Sound.Rotate.{if_engine}

module _ (S : SkipList) where
  maybe_trigger_freeze-IsSound : (e : Engine S) → IsSound S e → IsSound S (maybe_trigger_freeze S e)
  unfolding maybe_trigger_freeze
  maybe_trigger_freeze-IsSound e s =
      if_engine S (ltb_ℤ e.active.size_bytes e.config.mem_table_size_limit) e
        (record e { freeze_signal = true }) s s

  pub put-frozen :
      (id : DocId) (r : LogRecord) (m : MemTable S) → (Memtable.put S id r m).1.frozen ≡ m.frozen
  unfolding Memtable.put
  put-frozen id r m = elim (Bool-cases m.frozen) [ inl h ↦ simp h refl | inr h ↦ simp h refl ]

  pub append_record-whole :
      (e : Entry) (l : Log)
      → l.active.torn ≡ false
      → (append_record e l).active ≡ record l.active { records = l.active.records ++ (e ∷ []) }
  unfolding append_record append_to
  append_record-whole e l h = simp h refl

  Covers-put :
      (id : DocId) (r : LogRecord) (m : MemTable S) (es : List Entry)
      → m.frozen ≡ false
      → Covers S m es
      → Covers S (Memtable.put S id r m).1 (es ++ ((id, r) ∷ []))
  unfolding Covers
  Covers-put id r m es f c = λ k.
      MemtableLaws.get-put S k id r m f
      ∙ ap (λ o. if id == k then some r else o) (c k)
      ∙ sym (replayed-append k none es id r)

  after_attempt-IsSound :
      (id : DocId) (r : LogRecord) (e : Engine S)
      → e.active.frozen ≡ false
      → e.log.active.torn ≡ false
      → IsSound S e
      → IsSound S (after_attempt S id r e)
  unfolding after_attempt
  after_attempt-IsSound id r e f w s =
      let same = append_record-whole (id, r) e.log w in
      maybe_trigger_freeze-IsSound
        (record e { log = append_record (id, r) e.log; active = (Memtable.put S id r e.active).1 })
        (record {
          active_covered =
              subst (λ x. Covers S (Memtable.put S id r e.active).1 x.records) (sym same)
                (Covers-put id r e.active e.log.active.records f s.active_covered);
          paired = unfold append_record in s.paired;
          ascending = subst (λ x. AscendingIn 0 x.id e.frozen_wals) (sym same) s.ascending;
          next_above =
              unfold append_record in subst (λ x. x.id < e.log.next_id) (sym same) s.next_above;
          bounded = s.bounded;
          takes_writes = λ h. put-frozen id r e.active ∙ f;
        })

  torn-IsSound : (e : Engine S) → IsSound S e → IsSound S (record e { log = tear e.log })
  unfolding tear
  torn-IsSound e s = record {
    active_covered = s.active_covered;
    paired = s.paired;
    ascending = s.ascending;
    next_above = s.next_above;
    bounded = s.bounded;
    takes_writes = s.takes_writes;
  }

  -- An attempt that leaves the log readable.
  pub attempt-IsSound :
      (outcome : AppendOutcome) (id : DocId) (r : LogRecord) (e : Engine S)
      → KeepsReplay S outcome e.active.frozen e.log.active.torn
      → IsSound S e
      → IsSound S (write_attempts S 1 outcome id r e).1
  attempt-IsSound appended id r e (f, w) s =
      subst (λ x. IsSound S x.1) (sym (attempt_lem S 0 id r e f))
        (after_attempt-IsSound id r e f w s)
  attempt-IsSound nothing_written id r e f s = unfold write_attempts in s
  attempt-IsSound cut_short id r e f s = unfold write_attempts in torn-IsSound e s
  attempt-IsSound not_synced id r e f s = absurd f
