-- ===== src/Engine/Open/Refines.antt =====
-- `Open` of internal/engine/engine.go from the files of the data directory is the opening over the loaded
-- tables and the records of the log.
use dist_log.Prelude.{
  ℕ, String, ◌≡◌, refl, sym, ap, ◌∙◌, List, [], ◌∷◌, some, Bool, false, ◌&&◌, ◌==◌, map, str_eq,
  if◌then◌else◌,
}
use dist_log.Types.Codec.{Json}
use dist_log.Memtable.{SkipList}
use dist_log.Wal.Record as WalRecord
use dist_log.Engine.State.{Config, Engine, Log, Segment}
use dist_log.Engine.Startup.{
  Loaded, load_all_sstables, load_sstable_max_id, remove_orphan_sstable_tmp,
}
use dist_log.Engine.Recovery.{
  max_doc_id_from, open_engine, keep_uncovered, is_covered, rebuild_allocator,
}
use dist_log.Engine.Replay.{Tally, replay_log}
use dist_log.Engine.Replay.Same.{OnDisk}
use dist_log.Engine.Replay.Log.{AllOnDisk, info_of, deletes-info_of, open_engine-replay_log}
use dist_log.Engine.Open.{
  Directory, load_table, keep_by, opened, engine_of, after_replay, after_load, open_dir,
}

keep_by-info_of :
    (deletable : ℕ → Bool) (cutoff : ℕ) (ss : List Segment)
    → keep_by deletable cutoff (map info_of ss) ss ≡ keep_uncovered deletable cutoff ss
unfolding keep_by keep_uncovered
keep_by-info_of deletable cutoff [] = refl
keep_by-info_of deletable cutoff (s ∷ ss) =
    ap
      (λ b.
        if b && deletable s.id
        then keep_by deletable cutoff (map info_of ss) ss
        else s ∷ keep_by deletable cutoff (map info_of ss) ss)
      (deletes-info_of cutoff s)
    ∙ ap (λ l. if is_covered cutoff s && deletable s.id then l else s ∷ l)
        (keep_by-info_of deletable cutoff ss)

-- The files of a directory hold the log.
pub record HoldsLog (S : SkipList) (J : Json) (cutoff : ℕ) (d : Directory) (l : Log) : Type 0 where
  pub disk : Segment → WalRecord.Reader
  pub sealed : d.sealed ≡ map (λ (s : Segment). (s.id, disk s)) l.sealed
  pub active_id : d.active_id ≡ l.active.id
  pub active : d.active ≡ disk l.active
  pub sealed_files : AllOnDisk S J cutoff disk l.sealed
  pub active_file : OnDisk S J l.active (disk l.active)
  pub numbered : (l.active.id == 0) ≡ false

-- No operation on the directory fails.
pub record DirWorks (d : Directory) : Type 0 where
  pub scan : d.scan_fails ≡ false
  pub clean : d.clean_fails ≡ false
  pub list : d.list_fails ≡ false
  pub wal : d.wal_fails ≡ false

module _ (S : SkipList) (J : Json) (c : Config) (d : Directory) (l : Log) (loaded : Loaded) where
  abbrev cutoff : ℕ
  cutoff = max_doc_id_from 0 loaded.readers

  abbrev the_engine : Engine S
  the_engine = open_engine S c (load_sstable_max_id d.entries) loaded d.deletable l

  engine_of-open_engine :
      (t : Tally S)
      → the_engine.active ≡ t.table
      → engine_of S c d loaded l (map info_of l.sealed) t ≡ the_engine
  unfolding engine_of open_engine
  engine_of-open_engine t h =
      let kept = keep_by-info_of d.deletable cutoff l.sealed in
      λ i. record the_engine {
        active = sym h i;
        log = record l { sealed = kept i };
        alloc = rebuild_allocator S cutoff (sym h i);
      }

  pub opens :
      (name : String)
      → str_eq name "" ≡ false
      → DirWorks d
      → load_all_sstables (load_table J d) (remove_orphan_sstable_tmp d.entries) ≡ some loaded
      → open_dir S J c name d l
        ≡ after_replay S c d loaded l (replay_log S J cutoff d.sealed d.active_id d.active)
  unfolding open_dir
  opens name n k load =
      rw (n, k.scan, k.clean, k.list) (ap (after_load S J c d l) load ∙ (rw k.wal refl))

  -- Where nothing fails, the table files load, and the segment files hold the log, Open gives the engine
  -- over the loaded tables and the records of the log, whatever a crash left behind the records.
  pub open_dir-open_engine :
      (name : String)
      → str_eq name "" ≡ false
      → DirWorks d
      → load_all_sstables (load_table J d) (remove_orphan_sstable_tmp d.entries) ≡ some loaded
      → HoldsLog S J cutoff d l
      → open_dir S J c name d l ≡ opened the_engine
  open_dir-open_engine name n k load h =
      let (t, run, active, skipped, replayed) =
        open_engine-replay_log S J c (load_sstable_max_id d.entries) loaded d.deletable l h.disk
          h.sealed_files h.active_file h.numbered in
      opens name n k load
      ∙ (ap (after_replay S c d loaded l)
            ((λ i. replay_log S J cutoff (h.sealed i) (h.active_id i) (h.active i)) ∙ run)
          ∙ ap opened (engine_of-open_engine t active))
