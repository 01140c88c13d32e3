-- ===== src/Engine/Laws/Steps.antt =====
-- The steps of internal/engine/engine.go in any order keep the invariants.
use dist_log.Prelude.{
  ℕ, suc, ◌≡◌, refl, sym, ◌∙◌, List, [], ◌∷◌, Bool, true, false, if◌then◌else◌, arith, ◌⊎◌, inl,
  inr, length,
}
use dist_log.Prelude.Int.{ℤ, pos, negsuc, ◌≤ℤ◌}
use dist_log.Memtable.{SkipList, MemTable}
use dist_log.Engine.State.{Config, Engine, Log}
use dist_log.Engine.Flush.{
  FlushOutcome, table, write_fails, open_fails, FlushResult, nothing_to_flush, tail, drop_segment,
  flush_front, flush_one_if_any,
}
use dist_log.Engine.Laws.Moved.{get-new_mem_table}
use dist_log.Engine.Laws.Logged.{
  replayed_nothing, AscendingIn-mono, Covers, Paired, Paired-delete_sealed,
}
use dist_log.Engine.Laws.Sound.{
  IsSoundAt, IsSound, fresh, Step, KeepsLog, number_step, attempt_step, freeze_step, flush_step,
  fatal_step, close_step, Steps, stay, step,
}
use dist_log.Engine.Laws.Sound.Rotate.{on_fatal_error-IsSound, freeze_round-IsSound, close-IsSound}
use dist_log.Engine.Laws.Sound.Write.{attempt-IsSound}

fewer : (n : ℕ) (most : ℤ) → (suc n ≡ 0) ⊎ (pos (suc n) ≤ℤ most) → (n ≡ 0) ⊎ (pos n ≤ℤ most)
fewer n most (inl h) = absurd (omega (arith, h))
fewer n (pos m) (inr h) = inr (omega (arith, h))
fewer n (negsuc m) (inr h) = inr (omega (arith, h))

module _ (S : SkipList) where
  pub fresh-IsSound : (c : Config) → IsSound S (fresh S c)
  unfolding fresh Covers Paired
  fresh-IsSound c = record {
    active_covered = λ k. get-new_mem_table S k ∙ sym (replayed_nothing k);
    paired = tt;
    ascending = omega arith;
    next_above = omega arith;
    bounded = inl refl;
    takes_writes = λ h. refl;
  }

  popped-IsSound :
      (deleted : Bool) (active : MemTable S) (ms : List (MemTable S)) (ids : List ℕ) (l : Log)
      (c : Config) (fatal : Bool)
      → IsSoundAt S active ms ids l c fatal
      → IsSoundAt S active (tail S ms) (tail S ids) (drop_segment S deleted ids l) c fatal
  unfolding Paired drop_segment
  popped-IsSound deleted active [] [] l c fatal s = s
  popped-IsSound deleted active [] (id ∷ ids) l c fatal s = absurd s.paired
  popped-IsSound deleted active (m ∷ ms) [] l c fatal s = absurd s.paired
  popped-IsSound true active (m ∷ ms) (id ∷ ids) l c fatal s = record {
    active_covered = s.active_covered;
    paired =
        Paired-delete_sealed S ms ids id (suc id) l.active.id l.sealed (omega arith) s.ascending.1
          s.paired.2;
    ascending = AscendingIn-mono (suc id) 0 l.active.id ids (omega arith) s.ascending.1;
    next_above = s.next_above;
    bounded = fewer (length ms) c.max_frozen_mem_tables s.bounded;
    takes_writes = s.takes_writes;
  }
  popped-IsSound false active (m ∷ ms) (id ∷ ids) l c fatal s = record {
    active_covered = s.active_covered;
    paired = s.paired.2;
    ascending = AscendingIn-mono (suc id) 0 l.active.id ids (omega arith) s.ascending.1;
    next_above = s.next_above;
    bounded = fewer (length ms) c.max_frozen_mem_tables s.bounded;
    takes_writes = s.takes_writes;
  }

  flush_front-IsSound :
      (outcome : FlushOutcome) (e : Engine S) → IsSound S e → IsSound S (flush_front S outcome e).1
  unfolding flush_front
  flush_front-IsSound write_fails e s = s
  flush_front-IsSound open_fails e s = s
  flush_front-IsSound (table deleted t) e s =
      popped-IsSound deleted e.active e.frozen e.frozen_wals e.log e.config e.fatal s

  pick-IsSound :
      (fatal : Bool) (ms : List (MemTable S)) (x y : FlushResult × Engine S)
      → IsSound S x.1
      → IsSound S y.1
      → IsSound S
          (if fatal then x else elim ms as (λ z. FlushResult × Engine S) [ [] ↦ x | n ∷ ns ↦ y ]).1
  pick-IsSound true ms x y p q = p
  pick-IsSound false [] x y p q = p
  pick-IsSound false (m ∷ ms) x y p q = q

  flush_one_if_any-IsSound :
      (outcome : FlushOutcome) (e : Engine S)
      → IsSound S e
      → IsSound S (flush_one_if_any S outcome e).1
  unfolding flush_one_if_any
  flush_one_if_any-IsSound outcome e s =
      pick-IsSound e.fatal e.frozen (nothing_to_flush, e) (flush_front S outcome e) s
        (flush_front-IsSound outcome e s)

  pub Step-IsSound : {e f : Engine S} (k : Step S e f) → KeepsLog S k → IsSound S e → IsSound S f
  unfolding KeepsLog
  Step-IsSound (number_step e) w s = s
  Step-IsSound (attempt_step outcome id r e) w s = attempt-IsSound S outcome id r e w s
  Step-IsSound (freeze_step seal_fails e) w s = freeze_round-IsSound S seal_fails e w s
  Step-IsSound (flush_step outcome e) w s = flush_one_if_any-IsSound outcome e s
  Step-IsSound (fatal_step e) w s = on_fatal_error-IsSound S e s
  Step-IsSound (close_step e) w s = close-IsSound S e s

  -- From the engine over an empty directory, take any sequence of steps: takings of numbers, attempts of
  -- writes, freeze rounds, flushes, fatal errors and closings, whatever fails in them, as long as no append
  -- succeeds on a segment with a write that was cut short or after a seal that failed, none writes its record
  -- without the sync, and the segment numbers have 64 bits. It ends in an engine whose active table and frozen tables are what their log segments replay to, with the frozen tables and
  -- their segments one to one in order, every one of them frozen, no more of them than the limit where
  -- there are any, and the active table open for writes unless the engine is in its fatal state.
  pub steps-IsSound : (c : Config) (e : Engine S) → Steps S (fresh S c) e → IsSound S e
  steps-IsSound c e h = go h (fresh-IsSound c)
    where
      go : {a b : Engine S} → Steps S a b → IsSound S a → IsSound S b
      go (stay a) s = s
      go (step h k w) s = Step-IsSound k w (go h s)
