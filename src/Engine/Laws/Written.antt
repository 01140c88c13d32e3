-- ===== src/Engine/Laws/Written.antt =====
-- A write of internal/engine/engine.go that is let through.
use dist_log.Prelude.{
  ℕ, suc, ◌≡◌, refl, ap, ◌∙◌, List, Option, some, Bool, true, false, if◌then◌else◌, ◌==◌,
  Bool-cases, inl, inr,
}
use dist_log.Prelude.Int.{ltb_ℤ}
use dist_log.Types.{DocId, LogRecord}
use dist_log.Types.Allocator as Allocator
use dist_log.Memtable as Memtable
use dist_log.Memtable.{SkipList, MemTable, PutResult, stored, frozen_error}
use dist_log.Memtable.Laws as MemtableLaws
use dist_log.Sstable.Reader.{GetResult, found}
use dist_log.Engine.State.{Engine, append_record}
use dist_log.Engine.Write.{
  Round, clear, appended, written, no_faults, maybe_trigger_freeze, write_attempts, commit, write,
  wait_for_stall_clear, stall_predicate,
}
use dist_log.Engine.Read.{get, or_search, get_from_frozen, get_from_sstables}

module _ (S : SkipList) where
  get-maybe_trigger_freeze :
      (j : DocId) (e : Engine S) → get S j (maybe_trigger_freeze S e) ≡ get S j e
  unfolding maybe_trigger_freeze get
  get-maybe_trigger_freeze j e =
      elim (Bool-cases (ltb_ℤ e.active.size_bytes e.config.mem_table_size_limit)) [
        | inl h ↦ simp h refl
        | inr h ↦ simp h refl
      ]

  log-maybe_trigger_freeze : (e : Engine S) → (maybe_trigger_freeze S e).log ≡ e.log
  unfolding maybe_trigger_freeze
  log-maybe_trigger_freeze e =
      elim (Bool-cases (ltb_ℤ e.active.size_bytes e.config.mem_table_size_limit)) [
        | inl h ↦ simp h refl
        | inr h ↦ simp h refl
      ]

  or_search_if :
      (b : Bool) (r : LogRecord) (o : Option LogRecord) (rest : GetResult)
      → or_search S (if b then some r else o) rest ≡ (if b then found r else or_search S o rest)
  or_search_if true r o rest = refl
  or_search_if false r o rest = refl

  -- The engine that an attempt leaves behind whose append succeeds.
  unfoldable pub after_attempt : DocId → LogRecord → Engine S → Engine S
  unfolding maybe_trigger_freeze append_record Memtable.put
  after_attempt id r e =
      maybe_trigger_freeze S
        (record e { log = append_record (id, r) e.log; active = (Memtable.put S id r e.active).1 })

  -- The engine that a write leaves behind.
  unfoldable pub after_write : LogRecord → Engine S → Engine S
  unfolding after_attempt Allocator.next
  after_write r e =
      let (id, alloc') = Allocator.next e.alloc in after_attempt id r (record e { alloc = alloc' })

  when_stored :
      {A : Type 0} (x : PutResult) (a b : A)
      → x ≡ stored
      → (elim x as (λ x. A) [ stored ↦ a | frozen_error ↦ b ]) ≡ a
  when_stored stored a b h = refl
  when_stored frozen_error a b h = cc

  put-stored :
      (id : DocId) (r : LogRecord) (m : MemTable S)
      → m.frozen ≡ false
      → (Memtable.put S id r m).0 ≡ stored
  unfolding Memtable.put
  put-stored id r m h = simp h refl

  pub attempt_lem :
      (n : ℕ) (id : DocId) (r : LogRecord) (e : Engine S)
      → e.active.frozen ≡ false
      → write_attempts S (suc n) appended id r e ≡ (written id, after_attempt id r e)
  unfolding write_attempts after_attempt
  attempt_lem n id r e h =
      when_stored (Memtable.put S id r e.active).0 _ _ (put-stored id r e.active h)

  pub commit_lem :
      (r : LogRecord) (e : Engine S)
      → e.active.frozen ≡ false
      → commit S no_faults r e ≡ (written (Allocator.next e.alloc).0, after_write r e)
  unfolding commit after_write
  commit_lem r e h =
      let (id, alloc') = Allocator.next e.alloc in
      attempt_lem 2 id r (record e { alloc = alloc' }) h

  get-after_write :
      (j : DocId) (r : LogRecord) (e : Engine S)
      → e.active.frozen ≡ false
      → get S j (after_write r e) ≡ (if (Allocator.next e.alloc).0 == j then found r else get S j e)
  unfolding get after_write after_attempt maybe_trigger_freeze
  get-after_write j r e h =
      let (id, alloc') = Allocator.next e.alloc in
      let rest = get_from_frozen S j e.frozen (get_from_sstables j e.sstables) in
      get-maybe_trigger_freeze j (record e {
        alloc = alloc';
        log = append_record (id, r) e.log;
        active = (Memtable.put S id r e.active).1;
      })
      ∙ ap (λ o. or_search S o rest) (MemtableLaws.get-put S j id r e.active h)
      ∙ or_search_if (id == j) r (Memtable.get S j e.active) rest

  write_open :
      (rounds : List Round) (r : LogRecord) (e : Engine S)
      → e.closed ≡ false
      → e.fatal ≡ false
      → wait_for_stall_clear (stall_predicate S e) rounds ≡ clear
      → write S rounds no_faults r e ≡ commit S no_faults r e
  unfolding write
  write_open rounds r e c f g = simp (c, f, g) refl

  -- A write into an open and healthy engine whose active table takes writes, that the gate lets through and
  -- that meets no fault, returns the allocator's next number, appends exactly that number with the record
  -- to the log's active segment, and is read back: under that number the record, and under every other
  -- number what was read before.
  pub write_lem :
      (rounds : List Round) (r : LogRecord) (e : Engine S)
      → e.closed ≡ false
      → e.fatal ≡ false
      → e.active.frozen ≡ false
      → wait_for_stall_clear (stall_predicate S e) rounds ≡ clear
      → let id = (Allocator.next e.alloc).0 in
        let (result, e') = write S rounds no_faults r e in
        (result ≡ written id)
        × (e'.log ≡ append_record (id, r) e.log)
        × ((j : DocId) → get S j e' ≡ (if id == j then found r else get S j e))
  unfolding after_write after_attempt maybe_trigger_freeze
  write_lem rounds r e c f a g =
      let (id, alloc') = Allocator.next e.alloc in
      let same : write S rounds no_faults r e ≡ (written id, after_write r e) =
        write_open rounds r e c f g ∙ commit_lem r e a in
      rw same (
        refl,
        log-maybe_trigger_freeze (record e {
          alloc = alloc';
          log = append_record (id, r) e.log;
          active = (Memtable.put S id r e.active).1;
        }),
        λ j. get-after_write j r e a,
      )
