-- ===== src/Engine/Replay/Log.antt =====
-- The whole log in `Open` of internal/engine/engine.go: the bytes of the segment files give the recovered
-- table, the segments to delete and the counts that the records give.
use dist_log.Prelude.{
  ℕ, ◌+◌, ◌≡◌, refl, sym, ap, ◌∙◌, List, [], ◌∷◌, ◌++◌, Bool, true, false, ◌||◌, not, map, leb,
  ◌==◌, if◌then◌else◌, arith, if_both,
}
use dist_log.Types.Entries.{Entry}
use dist_log.Types.Codec.{Json}
use dist_log.Memtable as Memtable
use dist_log.Memtable.{SkipList, MemTable}
use dist_log.Wal.Record as WalRecord
use dist_log.Engine.State.{Config, Segment, Log}
use dist_log.Engine.Startup.{Loaded}
use dist_log.Engine.Recovery.{
  replay_records, max_entry_from, is_empty, is_covered, records_of, count_skipped, count_replayed,
  max_doc_id_from, open_engine, recovery_report,
}
use dist_log.Engine.Replay.{
  Tally, SealedInfo, recovered, deletes, replay_sealed, replay_log, no_records, add_info,
  then_active, after_active,
}
use dist_log.Engine.Replay.Same.{OnDisk, at_start, tally_after, replay_segment-OnDisk, put_lem}

-- What is kept of a segment with these records.
abbrev pub info_of : Segment → SealedInfo
info_of s = record {
  id = s.id;
  max_doc_id = max_entry_from 0 s.records;
  has_any = not (is_empty s.records);
}

pub replay_records-append :
    (S : SkipList) (cutoff : ℕ) (xs ys : List Entry) (m : MemTable S)
    → replay_records S cutoff (xs ++ ys) m
      ≡ replay_records S cutoff ys (replay_records S cutoff xs m)
unfolding replay_records
replay_records-append S cutoff [] ys m = refl
replay_records-append S cutoff ((id, r) ∷ xs) ys m =
    replay_records-append S cutoff xs ys (if leb id cutoff then m else (Memtable.put S id r m).1)

count_skipped-append :
    (cutoff : ℕ) (xs ys : List Entry)
    → count_skipped cutoff (xs ++ ys) ≡ count_skipped cutoff xs + count_skipped cutoff ys
unfolding count_skipped
count_skipped-append cutoff [] ys = omega arith
count_skipped-append cutoff ((id, r) ∷ xs) ys = ground (arith, count_skipped-append cutoff xs ys)

count_replayed-append :
    (cutoff : ℕ) (xs ys : List Entry)
    → count_replayed cutoff (xs ++ ys) ≡ count_replayed cutoff xs + count_replayed cutoff ys
unfolding count_replayed
count_replayed-append cutoff [] ys = omega arith
count_replayed-append cutoff ((id, r) ∷ xs) ys = ground (arith, count_replayed-append cutoff xs ys)

module _ (S : SkipList) (J : Json) (cutoff : ℕ) (disk : Segment → WalRecord.Reader) where
  abbrev pub AllOnDisk : List Segment → Type 0
  AllOnDisk [] = Unit
  AllOnDisk (s ∷ ss) = OnDisk S J s (disk s) × AllOnDisk ss

  -- The tally agrees with the records up to the variables of the last segment.
  pub record Agrees (es : List Entry) (t t' : Tally S) : Type 0 where
    pub table : t'.table ≡ replay_records S cutoff es t.table
    pub skipped : t'.skipped ≡ t.skipped + count_skipped cutoff es
    pub replayed : t'.replayed ≡ t.replayed + count_replayed cutoff es
    pub frozen : t'.table.frozen ≡ false

  replay_records-frozen :
      (es : List Entry) (m : MemTable S)
      → m.frozen ≡ false
      → (replay_records S cutoff es m).frozen ≡ false
  unfolding replay_records
  replay_records-frozen [] m h = h
  replay_records-frozen ((id, r) ∷ es) m h =
      replay_records-frozen es (if leb id cutoff then m else (Memtable.put S id r m).1) (
        if_both (λ (x : MemTable S). x.frozen ≡ false) (leb id cutoff) m (Memtable.put S id r m).1 h
          (put_lem S id r m h).1)

  pub segment-Agrees :
      (es : List Entry) (t : Tally S)
      → t.table.frozen ≡ false
      → Agrees es t (tally_after S cutoff es (at_start S J t))
  unfolding tally_after
  segment-Agrees es t h = record {
    table = refl;
    skipped = refl;
    replayed = refl;
    frozen = replay_records-frozen es t.table h;
  }

  then-Agrees :
      (xs ys : List Entry) (t t' t'' : Tally S)
      → Agrees xs t t'
      → Agrees ys t' t''
      → Agrees (xs ++ ys) t t''
  then-Agrees xs ys t t' t'' a b = record {
    table =
        b.table
        ∙ (ap (replay_records S cutoff ys) a.table
            ∙ sym (replay_records-append S cutoff xs ys t.table));
    skipped = omega (arith, a.skipped, b.skipped, count_skipped-append cutoff xs ys);
    replayed = omega (arith, a.replayed, b.replayed, count_replayed-append cutoff xs ys);
    frozen = b.frozen;
  }

  replay_sealed-Agrees :
      (ss : List Segment) (t : Tally S)
      → AllOnDisk ss
      → t.table.frozen ≡ false
      → (t' : Tally S) × (replay_sealed S J cutoff (map (λ (s : Segment). (s.id, disk s)) ss) t
          ≡ recovered (map info_of ss) t')
        × Agrees (records_of ss) t t'
  unfolding replay_sealed records_of tally_after
  replay_sealed-Agrees [] t h f = (
    t,
    refl,
    unfold replay_records count_skipped count_replayed in
        record { table = refl; skipped = omega arith; replayed = omega arith; frozen = f },
  )
  replay_sealed-Agrees (s ∷ ss) t (d, h) f =
      let t1 : Tally S = tally_after S cutoff s.records (at_start S J t) in
      let first = segment-Agrees s.records t f in
      let (t2, run, rest) = replay_sealed-Agrees ss t1 h first.frozen in
      (
        t2,
        rw (replay_segment-OnDisk S J cutoff s (disk s) t d f, replay_sealed)
            (ap (add_info S J (info_of s)) run),
        then-Agrees s.records (records_of ss) t t1 t2 first rest,
      )

  after_active-Agrees :
      (a : Segment) (is : List SealedInfo) (t : Tally S)
      → OnDisk S J a (disk a)
      → t.table.frozen ≡ false
      → (a.id == 0) ≡ false
      → (t' : Tally S) × (then_active S J cutoff a.id (disk a) (recovered is t) ≡ recovered is t')
        × Agrees a.records t t'
  after_active-Agrees a is t d f z = (
    tally_after S cutoff a.records (at_start S J t),
    rw z (ap (after_active S J a.id is) (replay_segment-OnDisk S J cutoff a (disk a) t d f)),
    segment-Agrees a.records t f,
  )

  -- Replaying the segment files of a log gives the table that replaying its records gives, counts the
  -- records that are skipped and replayed, and finds for each sealed segment whether it has a record and
  -- its greatest number, whatever undecodable bytes a crash left behind the records of a segment.
  pub replay_log-Agrees :
      (l : Log)
      → AllOnDisk l.sealed
      → OnDisk S J l.active (disk l.active)
      → (l.active.id == 0) ≡ false
      → (t : Tally S) × (replay_log S J cutoff
            (map (λ (s : Segment). (s.id, disk s)) l.sealed)
            l.active.id
            (disk l.active)
          ≡ recovered (map info_of l.sealed) t)
        × Agrees (records_of l.sealed ++ l.active.records) (no_records S J) t
  unfolding replay_log Memtable.new_mem_table
  replay_log-Agrees l h d z =
      let (t1, run, first) = replay_sealed-Agrees l.sealed (no_records S J) h refl in
      let (t2, last, second) =
        after_active-Agrees l.active (map info_of l.sealed) t1 d first.frozen z in
      (
        t2,
        ap (then_active S J cutoff l.active.id (disk l.active)) run ∙ last,
        then-Agrees (records_of l.sealed) l.active.records (no_records S J) t1 t2 first second,
      )

-- The segments that step 6 deletes are those whose records the tables cover.
pub deletes-info_of : (cutoff : ℕ) (s : Segment) → deletes cutoff (info_of s) ≡ is_covered cutoff s
unfolding deletes is_covered
deletes-info_of cutoff s =
    ap (λ b. b || leb (max_entry_from 0 s.records) cutoff) (not_not (is_empty s.records))
  where
    not_not : (b : Bool) → not (not b) ≡ b
    not_not true = refl
    not_not false = refl

-- Where the segment files hold the records of the log, the engine that Open makes of the log as records has
-- the table that the replay of the files gives, and its report counts what that replay skips and applies.
pub open_engine-replay_log :
    (S : SkipList) (J : Json) (c : Config) (n : ℕ) (loaded : Loaded) (deletable : ℕ → Bool)
    (l : Log) (disk : Segment → WalRecord.Reader)
    → let cutoff = max_doc_id_from 0 loaded.readers in
      AllOnDisk S J cutoff disk l.sealed
      → OnDisk S J l.active (disk l.active)
      → (l.active.id == 0) ≡ false
      → (t : Tally S) × (replay_log S J
            (max_doc_id_from 0 loaded.readers)
            (map (λ (s : Segment). (s.id, disk s)) l.sealed)
            l.active.id
            (disk l.active)
          ≡ recovered (map info_of l.sealed) t)
        × ((open_engine S c n loaded deletable l).active ≡ t.table)
        × ((recovery_report S n loaded deletable l).wal_records_skipped ≡ t.skipped)
        × ((recovery_report S n loaded deletable l).wal_records_replayed ≡ t.replayed)
unfolding open_engine recovery_report
open_engine-replay_log S J c n loaded deletable l disk h d z =
    let (t, run, a) = replay_log-Agrees S J (max_doc_id_from 0 loaded.readers) disk l h d z in
    (t, run, sym a.table, omega (arith, a.skipped), omega (arith, a.replayed))
