-- ===== src/Engine/Life/Steps.antt =====
-- Every step of internal/engine/engine.go before its closing keeps the log what a start needs.
use dist_log.Prelude.{
  ◌≤◌, ap, ◌==◌, ℕ, suc, ◌+◌, ◌%◌, ◌^◌, ◌<◌, ◌≡◌, refl, sym, subst, ◌∙◌, List, [], ◌∷◌, Bool, true,
  false, arith, if◌then◌else◌, if_both, inl, inr,
}
use dist_log.Prelude.Int.{ltb_ℤ}
use dist_log.Types.{DocId, LogRecord}
use dist_log.Types.Allocator as Allocator
use dist_log.Types.Codec.{Json}
use dist_log.Memtable as Memtable
use dist_log.Memtable.{SkipList, MemTable}
use dist_log.Engine.State.{tear, Config, Engine, Log, append_record, seal_log}
use dist_log.Engine.Write.{
  AppendOutcome, nothing_written, cut_short, not_synced, maybe_trigger_freeze, write_attempts,
}
use dist_log.Engine.Flush.{
  tail, drop_segment, FlushOutcome, table, write_fails, open_fails, FlushResult, nothing_to_flush,
  signal_shutdown, on_fatal_error, rotate, do_freeze, freeze_round, flush_front, flush_one_if_any,
}
use dist_log.Engine.Table.Safe.{write_table-safe}
use dist_log.Engine.Laws.Logged.{Covers}
use dist_log.Engine.Laws.Moved.{do_freeze-cases}
use dist_log.Engine.Laws.Written.{after_attempt, attempt_lem}
use dist_log.Engine.Laws.Sound.{
  IsSound, KeepsReplay, KeepsLog, fresh, Step, number_step, attempt_step, freeze_step, flush_step,
  fatal_step, close_step,
}
use dist_log.Engine.Recovery.{max_doc_id_from}
use dist_log.Engine.Life.{FromFile, InLife, mark_after, Life, begin, live_on}
use dist_log.Engine.Laws.Steps.{Step-IsSound}
use dist_log.Engine.Life.Trail.{Live}
use dist_log.Engine.Life.Newest.{Descending}
use dist_log.Engine.Life.Kept.{TrailAt, HasTrail, counted, appended, rotated, torn}
use dist_log.Engine.Life.Flushed.{published}

module _ (S : SkipList) where
  pub fresh-HasTrail : (c : Config) → HasTrail S 0 (fresh S c)
  unfolding fresh Live Descending max_doc_id_from
  fresh-HasTrail c = record {
    flushed = [];
    live = [];
    same_frozen = refl;
    same_wals = refl;
    same_sealed = refl;
    all_flushed = tt;
    all_live = omega arith;
    active_in = tt;
    in_range = omega arith;
    descending = tt;
  }

  number-HasTrail :
      (mark : ℕ) (e : Engine S)
      → suc e.alloc.counter < 2 ^ 64
      → HasTrail S mark e
      → HasTrail S mark (record e { alloc = (Allocator.next e.alloc).1 })
  unfolding Allocator.next
  number-HasTrail mark e p h =
      let next : (e.alloc.counter + 1) % 2 ^ 64 ≡ suc e.alloc.counter = omega (arith, p) in
      subst (λ n. TrailAt S e.sstables e.frozen e.frozen_wals e.log n mark) (sym next)
        (counted S e.sstables e.frozen e.frozen_wals e.log e.alloc.counter (suc e.alloc.counter)
          mark (omega arith) h)

  after_attempt-HasTrail :
      (mark : ℕ) (id : DocId) (r : LogRecord) (e : Engine S)
      → e.log.active.torn ≡ false
      → mark < id
      → id ≤ e.alloc.counter
      → HasTrail S mark e
      → HasTrail S mark (after_attempt S id r e)
  unfolding after_attempt maybe_trigger_freeze
  after_attempt-HasTrail mark id r e w p q h =
      let k =
        appended S e.sstables e.frozen e.frozen_wals e.log e.alloc.counter mark id r w p q h in
      if_both (HasTrail S mark)
        (ltb_ℤ (Memtable.put S id r e.active).1.size_bytes e.config.mem_table_size_limit) _ _ k k

  attempt-HasTrail :
      (mark : ℕ) (outcome : AppendOutcome) (id : DocId) (r : LogRecord) (e : Engine S)
      → KeepsReplay S outcome e.active.frozen e.log.active.torn
      → mark < id
      → id ≤ e.alloc.counter
      → IsSound S e
      → HasTrail S mark e
      → HasTrail S mark (write_attempts S 1 outcome id r e).1
  attempt-HasTrail mark AppendOutcome.appended id r e (f, w) p q s h =
      subst (λ x. HasTrail S mark x.1) (sym (attempt_lem S 0 id r e f))
        (after_attempt-HasTrail mark id r e w p q h)
  attempt-HasTrail mark nothing_written id r e f p q s h = unfold write_attempts in h
  attempt-HasTrail mark cut_short id r e f p q s h =
      unfold write_attempts in torn S e.sstables e.frozen e.frozen_wals e.log e.alloc.counter mark h
  attempt-HasTrail mark not_synced id r e f p q s h = absurd f

  fatal-HasTrail :
      (mark : ℕ) (e : Engine S) → HasTrail S mark e → HasTrail S mark (on_fatal_error S e)
  unfolding on_fatal_error signal_shutdown
  fatal-HasTrail mark e h =
      if_both (HasTrail S mark) e.fatal e (signal_shutdown S (record e { fatal = true })) h h

  log-on_fatal_error : (e : Engine S) → (on_fatal_error S e).log ≡ e.log
  unfolding on_fatal_error signal_shutdown
  log-on_fatal_error e =
      if_both (λ (x : Engine S). x.log ≡ e.log) e.fatal e
        (signal_shutdown S (record e { fatal = true })) refl refl

  -- The trail of an engine after a freeze round of `e`, with its mark.
  abbrev Marked : ℕ → Engine S → Engine S → Type 0
  Marked mark e f = HasTrail S (if f.log.next_id == e.log.next_id then mark else e.alloc.counter) f

  -- A step that seals no segment leaves the mark.
  pub unmarked :
      (mark : ℕ) (e f : Engine S)
      → f.log.next_id ≡ e.log.next_id
      → HasTrail S mark f
      → Marked mark e f
  unmarked mark e f q h =
      let same : (f.log.next_id == e.log.next_id) ≡ true = ground (arith, q) in rw same h

  rotate-HasTrail :
      (mark : ℕ) (seal_fails : Bool) (e : Engine S)
      → suc e.log.next_id < 2 ^ 64
      → IsSound S e
      → HasTrail S mark e
      → Marked mark e (rotate S seal_fails e)
  unfolding rotate seal_log Covers Memtable.freeze Memtable.get
  rotate-HasTrail mark true e w s h =
      let stuck : Engine S = record e { active = Memtable.freeze S e.active } in
      unmarked mark e (on_fatal_error S stuck) (ap (λ l. l.next_id) (log-on_fatal_error stuck))
        (fatal-HasTrail mark stuck h)
  rotate-HasTrail mark false e w s h =
      let moved : ((e.log.next_id + 1) % 2 ^ 64 == e.log.next_id) ≡ false = ground (arith, w) in
      rw moved (
        rotated S e.sstables e.frozen e.frozen_wals e.log e.alloc.counter mark
          (Memtable.freeze S e.active) s.active_covered h)

  do_freeze-HasTrail :
      (mark : ℕ) (seal_fails : Bool) (e : Engine S)
      → suc e.log.next_id < 2 ^ 64
      → IsSound S e
      → HasTrail S mark e
      → Marked mark e (do_freeze S seal_fails e)
  do_freeze-HasTrail mark seal_fails e w s h = elim (do_freeze-cases S seal_fails e) [
    | inl q ↦ subst (Marked mark e) (sym q) (unmarked mark e e refl h)
    | inr (a, b, c, q) ↦ subst (Marked mark e) (sym q) (rotate-HasTrail mark seal_fails e w s h)
  ]

  freeze_round-HasTrail :
      (mark : ℕ) (seal_fails : Bool) (e : Engine S)
      → suc e.log.next_id < 2 ^ 64
      → IsSound S e
      → HasTrail S mark e
      → Marked mark e (freeze_round S seal_fails e)
  unfolding freeze_round
  freeze_round-HasTrail mark seal_fails e w s h =
      if_both (Marked mark e) e.freeze_signal
        (do_freeze S seal_fails (record e { freeze_signal = false })) e
        (do_freeze-HasTrail mark seal_fails (record e { freeze_signal = false }) w s h)
        (unmarked mark e e refl h)

module _ (S : SkipList) (J : Json) where
  flush_front-HasTrail :
      (o : FlushOutcome) (m : MemTable S) (ms : List (MemTable S)) (e : Engine S) (mark : ℕ)
      → e.frozen ≡ m ∷ ms
      → FromFile S J o (m ∷ ms)
      → IsSound S e
      → HasTrail S mark e
      → HasTrail S mark (flush_front S o e).1
  unfolding flush_front FromFile
  flush_front-HasTrail write_fails m ms e mark q x s h = h
  flush_front-HasTrail open_fails m ms e mark q x s h = h
  flush_front-HasTrail (table deleted t) m ms e mark q (run, old, p, reads, now, fit, room) s h =
      subst
        (λ l.
          TrailAt S (t ∷ e.sstables) (tail S l) (tail S e.frozen_wals)
            (drop_segment S deleted e.frozen_wals e.log) e.alloc.counter mark)
        (sym q)
        (published S deleted t e.sstables m ms e.frozen_wals e.log e.alloc.counter mark 0
          e.log.active.id s.ascending
          (write_table-safe S J run old m deleted t reads now fit room p)
          (subst (λ l. TrailAt S e.sstables l e.frozen_wals e.log e.alloc.counter mark) q h))

  pick-HasTrail :
      (mark : ℕ) (fatal : Bool) (ms : List (MemTable S)) (x y : FlushResult × Engine S)
      → HasTrail S mark x.1
      → ((m : MemTable S) (ns : List (MemTable S)) → ms ≡ m ∷ ns → HasTrail S mark y.1)
      → HasTrail S mark
          (if fatal then x else elim ms as (λ z. FlushResult × Engine S) [ [] ↦ x | n ∷ ns ↦ y ]).1
  pick-HasTrail mark true ms x y p q = p
  pick-HasTrail mark false [] x y p q = p
  pick-HasTrail mark false (m ∷ ms) x y p q = q m ms refl

  flush_one_if_any-HasTrail :
      (mark : ℕ) (o : FlushOutcome) (e : Engine S)
      → FromFile S J o e.frozen
      → IsSound S e
      → HasTrail S mark e
      → HasTrail S mark (flush_one_if_any S o e).1
  unfolding flush_one_if_any
  flush_one_if_any-HasTrail mark o e x s h =
      pick-HasTrail mark e.fatal e.frozen (nothing_to_flush, e) (flush_front S o e) h
        (λ m ms q. flush_front-HasTrail o m ms e mark q (subst (FromFile S J o) q x) s h)

  log-flush_one_if_any :
      (o : FlushOutcome) (e : Engine S) → (flush_one_if_any S o e).1.log.next_id ≡ e.log.next_id
  unfolding flush_one_if_any flush_front
  log-flush_one_if_any o e = pick e.fatal e.frozen (flush_front S o e) (front o)
    where
      dropped :
          (deleted : Bool) (ids : List ℕ) (l : Log)
          → (drop_segment S deleted ids l).next_id ≡ l.next_id
      dropped deleted [] l = refl
      dropped true (id ∷ ids) l = refl
      dropped false (id ∷ ids) l = refl

      front : (o : FlushOutcome) → (flush_front S o e).1.log.next_id ≡ e.log.next_id
      front write_fails = refl
      front open_fails = refl
      front (table deleted t) = dropped deleted e.frozen_wals e.log

      pick :
          (fatal : Bool) (ms : List (MemTable S)) (y : FlushResult × Engine S)
          → y.1.log.next_id ≡ e.log.next_id
          → (if fatal then (nothing_to_flush, e) else elim ms as (λ z. FlushResult × Engine S) [
            | [] ↦ (nothing_to_flush, e)
            | n ∷ ns ↦ y
          ]).1.log.next_id
            ≡ e.log.next_id
      pick true ms y q = refl
      pick false [] y q = refl
      pick false (m ∷ ms) y q = q

  next_id-attempt :
      (outcome : AppendOutcome) (id : DocId) (r : LogRecord) (e : Engine S)
      → KeepsReplay S outcome e.active.frozen e.log.active.torn
      → (write_attempts S 1 outcome id r e).1.log.next_id ≡ e.log.next_id
  unfolding after_attempt maybe_trigger_freeze append_record
  next_id-attempt AppendOutcome.appended id r e (f, w) =
      ap (λ x. x.1.log.next_id) (attempt_lem S 0 id r e f)
      ∙ if_both (λ (x : Engine S). x.log.next_id ≡ e.log.next_id)
          (ltb_ℤ (Memtable.put S id r e.active).1.size_bytes e.config.mem_table_size_limit) _ _ refl
          refl
  next_id-attempt nothing_written id r e f = unfold write_attempts in refl
  next_id-attempt cut_short id r e f = unfold write_attempts tear in refl
  next_id-attempt not_synced id r e f = absurd f

  Step-HasTrail :
      (mark : ℕ) {e f : Engine S} (k : Step S e f)
      → InLife S J mark k
      → IsSound S e
      → HasTrail S mark e
      → HasTrail S (mark_after S J k mark) f
  unfolding InLife mark_after
  Step-HasTrail mark (number_step e) x s h =
      unmarked S mark e (record e { alloc = (Allocator.next e.alloc).1 }) refl
        (number-HasTrail S mark e x h)
  Step-HasTrail mark (attempt_step outcome id r e) (f, p, q) s h =
      unmarked S mark e (write_attempts S 1 outcome id r e).1 (next_id-attempt outcome id r e f)
        (attempt-HasTrail S mark outcome id r e f p q s h)
  Step-HasTrail mark (freeze_step seal_fails e) x s h =
      freeze_round-HasTrail S mark seal_fails e x s h
  Step-HasTrail mark (flush_step outcome e) x s h =
      unmarked S mark e (flush_one_if_any S outcome e).1 (log-flush_one_if_any outcome e)
        (flush_one_if_any-HasTrail mark outcome e x s h)
  Step-HasTrail mark (fatal_step e) x s h =
      unmarked S mark e (on_fatal_error S e) (ap (λ l. l.next_id) (log-on_fatal_error S e))
        (fatal-HasTrail S mark e h)
  Step-HasTrail mark (close_step e) x s h = absurd x

  InLife-KeepsLog : (mark : ℕ) {e f : Engine S} (k : Step S e f) → InLife S J mark k → KeepsLog S k
  unfolding InLife KeepsLog
  InLife-KeepsLog mark (number_step e) x = tt
  InLife-KeepsLog mark (attempt_step outcome id r e) (f, p, q) = f
  InLife-KeepsLog mark (freeze_step seal_fails e) x = x
  InLife-KeepsLog mark (flush_step outcome e) x = tt
  InLife-KeepsLog mark (fatal_step e) x = tt
  InLife-KeepsLog mark (close_step e) x = absurd x

  pub Life-HasTrail :
      (start e : Engine S) (mark : ℕ)
      → Life S J start e mark
      → IsSound S start
      → HasTrail S 0 start
      → IsSound S e × HasTrail S mark e
  Life-HasTrail start e mark l s h = go l
    where
      go : {e : Engine S} {mark : ℕ} → Life S J start e mark → IsSound S e × HasTrail S mark e
      go begin = (s, h)
      go (live_on {mark = mark} l k x) =
          let (s', h') = go l in
          (Step-IsSound S k (InLife-KeepsLog mark k x) s', Step-HasTrail mark k x s' h')
