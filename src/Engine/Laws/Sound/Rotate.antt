-- ===== src/Engine/Laws/Sound/Rotate.antt =====
-- The rotation and the shutdown of internal/engine/engine.go keep the invariants.
use dist_log.Prelude.{
  ℕ, suc, ◌+◌, ◌<◌, ◌^◌, ◌≡◌, refl, sym, subst, ◌∙◌, [], ◌∷◌, Bool, true, false, if◌then◌else◌,
  arith, Bool-cases, inl, inr, length, length-append,
}
use dist_log.Prelude.Int.{ℤ, pos, negsuc, ◌≤ℤ◌}
use dist_log.Memtable as Memtable
use dist_log.Memtable.{SkipList, MemTable}
use dist_log.Engine.State.{Engine, seal_log}
use dist_log.Engine.Write.{at_least}
use dist_log.Engine.Flush.{signal_shutdown, on_fatal_error, rotate, do_freeze, freeze_round, close}
use dist_log.Engine.Laws.Moved.{do_freeze-cases, get-new_mem_table}
use dist_log.Engine.Laws.Logged.{replayed_nothing, AscendingIn-append, Covers, Paired-append}
use dist_log.Engine.Laws.Sound.{IsSound}

room : (n : ℕ) (most : ℤ) → at_least (pos n) most ≡ false → pos (n + 1) ≤ℤ most
room n (pos m) h = ground (arith, h)
room n (negsuc m) h = ground (arith, h)

module _ (S : SkipList) where
  already_fatal : (e : Engine S) → e.fatal ≡ true → on_fatal_error S e ≡ e
  unfolding on_fatal_error
  already_fatal e f = simp f refl

  pub on_fatal_error-IsSound : (e : Engine S) → IsSound S e → IsSound S (on_fatal_error S e)
  unfolding on_fatal_error
  on_fatal_error-IsSound e s = elim (Bool-cases e.fatal) [
    | inl f ↦ subst (λ e. IsSound S e) (sym (already_fatal e f)) s
    | inr f ↦ simp f (record {
      active_covered = s.active_covered;
      paired = s.paired;
      ascending = s.ascending;
      next_above = s.next_above;
      bounded = s.bounded;
      takes_writes = λ h. s.takes_writes f;
    })
  ]

  -- A table that was frozen for a rotation that failed.
  stuck-IsSound :
      (e : Engine S)
      → IsSound S e
      → IsSound S (on_fatal_error S (record e { active = Memtable.freeze S e.active }))
  unfolding on_fatal_error Memtable.freeze Covers Memtable.get
  stuck-IsSound e s = elim (Bool-cases e.fatal) [
    | inl f ↦ simp f (record {
      active_covered = s.active_covered;
      paired = s.paired;
      ascending = s.ascending;
      next_above = s.next_above;
      bounded = s.bounded;
      takes_writes = λ h. h;
    })
    | inr f ↦ simp f (record {
      active_covered = s.active_covered;
      paired = s.paired;
      ascending = s.ascending;
      next_above = s.next_above;
      bounded = s.bounded;
      takes_writes = λ h. h;
    })
  ]

  rotate-IsSound :
      (seal_fails : Bool) (e : Engine S)
      → suc e.log.next_id < 2 ^ 64
      → at_least (pos (length e.frozen)) e.config.max_frozen_mem_tables ≡ false
      → IsSound S e
      → IsSound S (rotate S seal_fails e)
  unfolding rotate seal_log Covers Memtable.freeze Memtable.get
  rotate-IsSound true e w h s = stuck-IsSound e s
  rotate-IsSound false e w h s = record {
    active_covered = λ k. get-new_mem_table S k ∙ sym (replayed_nothing k);
    paired =
        Paired-append S e.frozen e.frozen_wals e.log.sealed (Memtable.freeze S e.active)
          e.log.active s.paired refl s.active_covered;
    ascending =
        AscendingIn-append 0 e.log.active.id e.log.next_id e.frozen_wals s.ascending s.next_above;
    next_above = omega arith;
    bounded = inr (
        subst (λ n. pos n ≤ℤ e.config.max_frozen_mem_tables)
          (sym (length-append e.frozen (Memtable.freeze S e.active ∷ [])))
          (room (length e.frozen) e.config.max_frozen_mem_tables h));
    takes_writes = λ h. refl;
  }

  pub do_freeze-IsSound :
      (seal_fails : Bool) (e : Engine S)
      → suc e.log.next_id < 2 ^ 64
      → IsSound S e
      → IsSound S (do_freeze S seal_fails e)
  do_freeze-IsSound seal_fails e w s = elim (do_freeze-cases S seal_fails e) [
    | inl h ↦ subst (λ e. IsSound S e) (sym h) s
    | inr (a, b, c, h) ↦ subst (λ e. IsSound S e) (sym h) (rotate-IsSound seal_fails e w c s)
  ]

  pub if_engine :
      (b : Bool) (x y : Engine S) → IsSound S x → IsSound S y → IsSound S (if b then x else y)
  if_engine true x y p q = p
  if_engine false x y p q = q

  pub freeze_round-IsSound :
      (seal_fails : Bool) (e : Engine S)
      → suc e.log.next_id < 2 ^ 64
      → IsSound S e
      → IsSound S (freeze_round S seal_fails e)
  unfolding freeze_round
  freeze_round-IsSound seal_fails e w s =
      if_engine e.freeze_signal (do_freeze S seal_fails (record e { freeze_signal = false })) e
        (do_freeze-IsSound seal_fails (record e { freeze_signal = false }) w s) s

  pub close-IsSound : (e : Engine S) → IsSound S e → IsSound S (close S e)
  unfolding close signal_shutdown
  close-IsSound e s =
      if_engine e.closed e
        (record (signal_shutdown S (record e { closed = true })) { sstables = [] }) s s
