-- ===== src/Engine/Open/Crash.antt =====
-- `Open` of internal/engine/engine.go on the directory that a crashed engine left.
use dist_log.Prelude.{sym, ap, subst, ◌∙◌, List, ℕ, String, ◌≡◌, some, ◌∷◌, false, str_eq}
use dist_log.Types.{DocId}
use dist_log.Types.Codec.{Json}
use dist_log.Memtable.{SkipList}
use dist_log.Engine.State.{Config, Engine}
use dist_log.Engine.Read.{get}
use dist_log.Engine.Laws.Logged.{Covers}
use dist_log.Engine.Startup.{
  Loaded, load_all_sstables, load_sstable_max_id, remove_orphan_sstable_tmp,
  sort_sstables_newest_first,
}
use dist_log.Engine.Recovery.{max_doc_id_from, open_engine}
use dist_log.Sstable.Reader.{Reader}
use dist_log.Engine.Recovery.Greatest.{max_doc_id_from-sort}
use dist_log.Engine.Recovery.Crash.{Aligned, NothingBelow, get-crash}
use dist_log.Engine.Open.{Directory, load_table, opened, open_dir}
use dist_log.Engine.Open.Refines.{HoldsLog, DirWorks, open_dir-open_engine}

module _ (S : SkipList) (J : Json) (e : Engine S) where
  -- The log segments hold what the tables in memory have, and the table files have only lower numbers.
  pub record LeftByCrash : Type 0 where
    pub active : Covers S e.active e.log.active.records
    pub frozen : Aligned S (max_doc_id_from 0 e.sstables) e.frozen e.log.sealed
    pub above : NothingBelow S (max_doc_id_from 0 e.sstables) (e.active ∷ e.frozen)

  -- A crash loses nothing that was read. The directory has a name, and no call on it fails. It lists, in any order that the sort of a start brings
  -- back into that of the engine, the table files that the engine had and, in its segment files, it has the
  -- records of the engine's log with any undecodable bytes behind them; these records are those of the
  -- tables in memory, which have higher numbers than the table files. Then Open, with whatever files it puts
  -- into quarantine and whatever covered segments it can delete, gives an engine that answers every Get as
  -- the crashed one did.
  pub get-open_dir :
      (c : Config) (name : String) (d : Directory) (rs : List Reader) (q : ℕ)
      → str_eq name "" ≡ false
      → DirWorks d
      → load_all_sstables (load_table J d) (remove_orphan_sstable_tmp d.entries)
        ≡ some (record { readers = rs; quarantined_count = q })
      → sort_sstables_newest_first rs ≡ e.sstables
      → HoldsLog S J (max_doc_id_from 0 e.sstables) d e.log
      → LeftByCrash
      → (e' : Engine S) × (open_dir S J c name d e.log ≡ opened e')
        × ((k : DocId) → get S k e' ≡ get S k e)
  get-open_dir c name d rs q n w load s h l =
      let loaded : Loaded = record { readers = rs; quarantined_count = q } in
      let id = load_sstable_max_id d.entries in
      let cut : max_doc_id_from 0 rs ≡ max_doc_id_from 0 e.sstables =
        sym (max_doc_id_from-sort 0 rs) ∙ ap (max_doc_id_from 0) s in
      let holds : HoldsLog S J (max_doc_id_from 0 rs) d e.log =
        subst (λ m. HoldsLog S J m d e.log) (sym cut) h in
      (
        open_engine S c id loaded d.deletable e.log,
        open_dir-open_engine S J c d e.log loaded name n w load holds,
        λ k. get-crash S k e c id q d.deletable rs l.active l.frozen l.above s,
      )
