-- ===== src/Engine/Life/Crash.antt =====
-- An engine of internal/engine/engine.go from its first start to a crash and the next start.
use dist_log.Prelude.{ℕ, String, ◌≡◌, sym, subst, ◌∙◌, none, some, false, str_eq, arith}
use dist_log.Types.{DocId}
use dist_log.Types.Codec.{Json}
use dist_log.Memtable.{SkipList}
use dist_log.Engine.State.{Config, Engine}
use dist_log.Engine.Read.{get}
use dist_log.Engine.Startup.{load_all_sstables, remove_orphan_sstable_tmp}
use dist_log.Engine.Recovery.{max_doc_id_from}
use dist_log.Engine.Recovery.Crash.{Aligned, NothingBelow}
use dist_log.Engine.Laws.Logged.{Covers}
use dist_log.Engine.Laws.Sound.{IsSound, fresh}
use dist_log.Engine.Laws.Steps.{fresh-IsSound}
use dist_log.Engine.Open.{Directory, load_table, opened, open_dir}
use dist_log.Engine.Open.Refines.{HoldsLog, DirWorks}
use dist_log.Engine.Open.Crash.{LeftByCrash, get-open_dir}
use dist_log.Engine.Life.{Life}
use dist_log.Engine.Life.Records.{replayed-AllIn}
use dist_log.Engine.Life.Trail.{Live-le, Live-Aligned, Live-NothingBelow}
use dist_log.Engine.Life.Newest.{oldest_first, sort-oldest_first}
use dist_log.Engine.Life.Kept.{HasTrail}
use dist_log.Engine.Life.Steps.{fresh-HasTrail, Life-HasTrail}

module _ (S : SkipList) (J : Json) where
  left_by_crash : (mark : ℕ) (e : Engine S) → IsSound S e → HasTrail S mark e → LeftByCrash S J e
  unfolding Covers NothingBelow
  left_by_crash mark e s h =
      let cutoff : ℕ = max_doc_id_from 0 e.sstables in
      let low = Live-le S cutoff mark h.live h.all_live in
      record {
        active = s.active_covered;
        frozen =
            subst (λ ms. Aligned S cutoff ms e.log.sealed) (sym h.same_frozen)
              (subst (Aligned S cutoff _) (sym h.same_sealed)
                (Live-Aligned S cutoff cutoff mark h.flushed h.live h.all_flushed h.all_live));
        above = (
          λ k p.
              s.active_covered k
              ∙ replayed-AllIn k mark e.alloc.counter none e.log.active.records
                  (omega (arith, p, low)) h.active_in,
          subst (NothingBelow S cutoff) (sym h.same_frozen)
              (Live-NothingBelow S cutoff cutoff mark h.live (omega arith) h.all_live),
        );
      }

  -- From its first start over an empty directory, an engine takes any sequence of steps: takings of numbers,
  -- attempts of writes, freeze rounds, flushes and fatal errors, whatever fails in them, as long as
  -- no append succeeds on a segment with a write that was cut short or after a seal that failed, none writes
  -- its record without the sync, no rotation comes between the taking of a number and its attempt, document and segment numbers have 64 bits, committed table
  -- files are read as they were written, and the encoding gives back the records that are flushed, less than
  -- 1 GiB at a time. Wherever it crashes before it is closed, let the directory list the table files of the
  -- engine in the order in which they were written and hold, in the segment files, the records of its log
  -- with any undecodable bytes behind them. Then the next start, where no call on the directory fails, gives an engine that answers every Get
  -- as the crashed one did.
  pub get-open_dir-Life :
      (c c' : Config) (e : Engine S) (mark : ℕ) (name : String) (d : Directory) (q : ℕ)
      → Life S J (fresh S c) e mark
      → str_eq name "" ≡ false
      → DirWorks d
      → load_all_sstables (load_table J d) (remove_orphan_sstable_tmp d.entries)
        ≡ some (record { readers = oldest_first e.sstables; quarantined_count = q })
      → HoldsLog S J (max_doc_id_from 0 e.sstables) d e.log
      → (e' : Engine S) × (open_dir S J c' name d e.log ≡ opened e')
        × ((k : DocId) → get S k e' ≡ get S k e)
  get-open_dir-Life c c' e mark name d q life n w load h =
      let (s, t) =
        Life-HasTrail S J (fresh S c) e mark life (fresh-IsSound S c) (fresh-HasTrail S c) in
      get-open_dir S J e c' name d (oldest_first e.sstables) q n w load
        (sort-oldest_first e.sstables t.descending) h (left_by_crash mark e s t)
