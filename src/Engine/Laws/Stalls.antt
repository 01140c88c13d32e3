-- ===== src/Engine/Laws/Stalls.antt =====
-- The retries of the flush worker in internal/engine/engine.go.
use dist_log.Prelude.{
  map, length, ℕ, suc, ◌+◌, ◌%◌, ◌^◌, ◌≡◌, refl, ap, ◌∙◌, List, [], ◌∷◌, some, Bool, true, false,
  ◌||◌, not, if◌then◌else◌, arith,
}
use dist_log.Prelude.Int.{ℤ, pos, negsuc, ltb_ℤ, ◌≤ℤ◌}
use dist_log.Memtable.{SkipList, MemTable}
use dist_log.Engine.State.{Config, Engine, backoff}
use dist_log.Engine.Write.{at_least}
use dist_log.Engine.Flush.{
  FlushOutcome, table, write_fails, open_fails, signal_shutdown, flush_error, flush_front,
  flush_one_if_any, on_fatal_error, gave_up, drain,
}

capped :
    (d m : ℤ)
    → pos 1 ≤ℤ m
    → let x = if ltb_ℤ m d || not (ltb_ℤ (pos 0) d) then m else d in (pos 1 ≤ℤ x) × (x ≤ℤ m)
capped (pos a) (pos b) h = ground arith
capped (negsuc a) (pos b) h = ground arith
capped d (negsuc b) h = absurd (omega (arith, h))

-- The delay before a retry is positive and no longer than the longest delay, for every positive longest
-- delay, also where the shift overflows.
pub backoff-bounds :
    (c : Config) (failures : ℕ)
    → pos 1 ≤ℤ c.flush_retry_max_delay
    → (pos 1 ≤ℤ backoff c failures) × (backoff c failures ≤ℤ c.flush_retry_max_delay)
unfolding backoff
backoff-bounds c failures h = capped _ c.flush_retry_max_delay h

module _ (S : SkipList) where
  -- The engine after a flush that failed: the number of the file is used up.
  abbrev after_failure : Engine S → Engine S
  after_failure e = record e { next_sst_seq = (e.next_sst_seq + 1) % 2 ^ 64 }

  -- The flush fails, while the table is written or when its file is opened.
  abbrev pub IsFailure : FlushOutcome → Type 0
  IsFailure write_fails = Unit
  IsFailure open_fails = Unit
  IsFailure (table deleted t) = ⊥

  abbrev pub AllFailures : List FlushOutcome → Type 0
  AllFailures [] = Unit
  AllFailures (o ∷ os) = IsFailure o × AllFailures os

  -- No shutdown comes during the delays.
  abbrev pub undisturbed : List FlushOutcome → List (FlushOutcome × Bool)
  undisturbed os = map (λ o. (o, false)) os

  flush_front_fails :
      (o : FlushOutcome) (e : Engine S)
      → IsFailure o
      → flush_front S o e ≡ (flush_error, after_failure e)
  unfolding flush_front
  flush_front_fails write_fails e x = refl
  flush_front_fails open_fails e x = refl
  flush_front_fails (table deleted t) e x = absurd x

  -- A worker that is not in its fatal state and has a frozen table goes on to flush it.
  goes_on {ℓ} :
      {A : Type ℓ} (dead : Bool) (m : MemTable S) (ms ts : List (MemTable S)) (x y : A)
      → ts ≡ m ∷ ms
      → dead ≡ false
      → (if dead then x else elim ts [ [] ↦ x | n ∷ ns ↦ y ]) ≡ y
  goes_on true m ms ts x y h q = cc
  goes_on false m ms [] x y h q = cc
  goes_on false m ms (t ∷ ts) x y h q = refl

  flush_fails :
      (o : FlushOutcome) (m : MemTable S) (ms : List (MemTable S)) (e : Engine S)
      → IsFailure o
      → e.frozen ≡ m ∷ ms
      → e.fatal ≡ false
      → flush_one_if_any S o e ≡ (flush_error, after_failure e)
  unfolding flush_one_if_any
  flush_fails o m ms e x h f = goes_on e.fatal m ms e.frozen _ _ h f ∙ flush_front_fails o e x

  drain_last :
      (o : FlushOutcome) (os : List (FlushOutcome × Bool)) (failures : ℕ) (m : MemTable S)
      (ms : List (MemTable S)) (e : Engine S)
      → IsFailure o
      → e.frozen ≡ m ∷ ms
      → e.fatal ≡ false
      → at_least (pos (suc failures)) e.config.max_flush_retries ≡ true
      → drain S ((o, false) ∷ os) failures e
        ≡ (some (gave_up, suc failures), on_fatal_error S (after_failure e))
  unfolding drain
  drain_last o os failures m ms e x h f q =
      rw (flush_fails o m ms e x h f, drain, q)
        (ap (λ x. (some (gave_up, suc failures), on_fatal_error S x.1))
          (flush_fails o m ms e x h f))

  drain_more :
      (o : FlushOutcome) (os : List (FlushOutcome × Bool)) (failures : ℕ) (m : MemTable S)
      (ms : List (MemTable S)) (e : Engine S)
      → IsFailure o
      → e.frozen ≡ m ∷ ms
      → e.fatal ≡ false
      → at_least (pos (suc failures)) e.config.max_flush_retries ≡ false
      → drain S ((o, false) ∷ os) failures e ≡ drain S os (suc failures) (after_failure e)
  unfolding drain
  drain_more o os failures m ms e x h f q =
      rw (flush_fails o m ms e x h f, drain, q)
        (ap (λ x. drain S os (suc failures) x.1) (flush_fails o m ms e x h f))

  fatal_lem :
      (m : MemTable S) (ms : List (MemTable S)) (e : Engine S)
      → e.frozen ≡ m ∷ ms
      → e.fatal ≡ false
      → ((on_fatal_error S e).fatal ≡ true)
        × ((on_fatal_error S e).shutdown ≡ true)
        × ((on_fatal_error S e).frozen ≡ m ∷ ms)
  unfolding on_fatal_error signal_shutdown
  fatal_lem m ms e h f = simp f (refl, refl, h)

  -- When the flush of the oldest frozen table fails as often in a row as is tolerated, counted from the
  -- failures so far, each time while the file is written or when it is opened, and no shutdown comes
  -- between, the worker gives up: the engine is in its fatal state and shut down, and no frozen table is
  -- lost.
  pub drain_gives_up :
      (o : FlushOutcome) (os : List FlushOutcome) (failures : ℕ) (m : MemTable S)
      (ms : List (MemTable S)) (e : Engine S)
      → AllFailures (o ∷ os)
      → e.frozen ≡ m ∷ ms
      → e.fatal ≡ false
      → e.config.max_flush_retries ≡ pos (failures + length (o ∷ os))
      → let (end, e') = drain S (undisturbed (o ∷ os)) failures e in
        (end ≡ some (gave_up, failures + length (o ∷ os)))
        × (e'.fatal ≡ true)
        × (e'.shutdown ≡ true)
        × (e'.frozen ≡ m ∷ ms)
  drain_gives_up o [] failures m ms e (x, xs) h f q =
      let reached : at_least (pos (suc failures)) e.config.max_flush_retries ≡ true =
        rw q (ground arith) in
      let (a, b, c) = fatal_lem m ms (after_failure e) h f in
      rw (drain_last o [] failures m ms e x h f reached)
        (ap some (ap (λ n. (gave_up, n)) (omega arith)), a, b, c)
  drain_gives_up o (p ∷ os) failures m ms e (x, xs) h f q =
      let not_yet : at_least (pos (suc failures)) e.config.max_flush_retries ≡ false =
        rw q (ground arith) in
      let (a, b, c, d) =
        drain_gives_up p os (suc failures) m ms (after_failure e) xs h f
          (q ∙ ap pos (omega arith)) in
      rw (drain_more o (undisturbed (p ∷ os)) failures m ms e x h f not_yet)
        (a ∙ ap some (ap (λ n. (gave_up, n)) (omega arith)), b, c, d)
