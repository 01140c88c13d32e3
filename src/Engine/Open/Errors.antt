-- ===== src/Engine/Open/Errors.antt =====
-- `Open` of internal/engine/engine.go on a log with a record that cannot be read.
use dist_log.Prelude.{
  ℕ, ◌+◌, ◌≡◌, refl, ap, ◌∙◌, String, List, [], ◌∷◌, ◌++◌, none, some, false, leb, map, length,
  str_eq, ◌⊎◌, inl, inr,
}
use dist_log.Bytes.{Byte}
use dist_log.Types.{DocId}
use dist_log.Types.Entries.{Entry}
use dist_log.Types.Codec.{Json, unmarshal}
use dist_log.Memtable as Memtable
use dist_log.Memtable.{SkipList}
use dist_log.Wal.Record.{RecordType, decode_record, header_size, record_put}
use dist_log.Wal.Record as WalRecord
use dist_log.Wal.Replay.{Record, refuse, refused, replay}
use dist_log.Wal.Replay.Laws.{
  Appended, AllFit, segment_bytes, feed, feed_ok, EndsLog, replay-segment_bytes,
}
use dist_log.Engine.Codec.{decode_wal_payload, encode_wal_payload}
use dist_log.Engine.Replay.{
  Tally, ReplayError, short_payload, unmarshal_failed, replay_callback, on_payload, put_record,
  replay_segment, seen, replay_sealed, add_info, failed, replay_log, then_active, no_records,
}
use dist_log.Engine.Replay.Same.{
  AllLogged, appended, callback_lem, one_more, one_more_frozen, at_start, tally_after,
  replay_segment-OnDisk,
}
use dist_log.Engine.Replay.Log.{AllOnDisk, info_of, segment-Agrees}
use dist_log.Engine.State.{Config, Segment, Log}
use dist_log.Engine.Startup.{Loaded, load_all_sstables, remove_orphan_sstable_tmp}
use dist_log.Engine.Recovery.{max_doc_id_from, max_entry_from}
use dist_log.Engine.Open.{Directory, load_table, OpenResult, replay_failed, after_replay, open_dir}
use dist_log.Engine.Open as Open
use dist_log.Engine.Open.Refines.{DirWorks, opens}

-- A payload that is too short, or that has a number above the cutoff and a record that does not decode.
abbrev pub IsUnreadable : Json → ℕ → List Byte → Type 0
IsUnreadable J cutoff payload =
    (decode_wal_payload payload ≡ none)
    ⊎ ((id : DocId) × (bytes : List Byte) × (decode_wal_payload payload ≡ some (id, bytes))
        × (leb id cutoff ≡ false)
        × (J.unmarshal bytes ≡ none))

module _ (S : SkipList) (J : Json) (cutoff : ℕ) where
  unreadable_refused :
      (r : Record) (t : Tally S)
      → IsUnreadable J cutoff r.payload
      → (e : ReplayError) × (replay_callback S J cutoff r t ≡ refuse e)
  unfolding replay_callback unmarshal
  unreadable_refused r t (inl h) = (short_payload, ap (λ o. on_payload S J cutoff o t) h)
  unreadable_refused r t (inr (id, bytes, d, above, u)) = (
    unmarshal_failed,
    ap (λ o. on_payload S J cutoff o t) d
        ∙ rw above (ap (λ o. put_record S J id o (seen S id t)) u),
  )

  feed_stops :
      (segment offset : ℕ) (typ : RecordType) (payload : List Byte) (rs : List Appended)
      (t : Tally S) (e : ReplayError)
      → replay_callback S J cutoff
          (record { segment_id = segment; lsn = offset; typ = typ; payload = payload })
          t
        ≡ refuse e
      → feed segment (replay_callback S J cutoff) offset ((typ, payload) ∷ rs) t ≡ refused e
  unfolding feed
  feed_stops segment offset typ payload rs t e h = rw (h, feed) refl

  feed-IsUnreadable :
      (segment : ℕ) (es : List Entry) (h : AllLogged J es) (typ : RecordType) (payload : List Byte)
      (rs : List Appended) (offset : ℕ) (t : Tally S)
      → IsUnreadable J cutoff payload
      → t.table.frozen ≡ false
      → (e : ReplayError) × (feed segment
            (replay_callback S J cutoff)
            offset
            (appended J es h ++ ((typ, payload) ∷ rs))
            t
          ≡ refused e)
  unfolding appended
  feed-IsUnreadable segment [] h typ payload rs offset t u f =
      let r : Record = record {
        segment_id = segment;
        lsn = offset;
        typ = typ;
        payload = payload;
      } in
      let (e, run) = unreadable_refused r t u in
      (e, feed_stops segment offset typ payload rs t e run)
  feed-IsUnreadable segment ((id, r) ∷ es) (l, h) typ payload rs offset t u f =
      let (e, run) =
        feed-IsUnreadable segment es h typ payload rs
          (offset + (header_size + length (encode_wal_payload id l.bytes)))
          (one_more S cutoff (id, r) t) u (one_more_frozen S cutoff (id, r) t f) in
      (
        e,
        feed_ok segment (replay_callback S J cutoff) offset record_put
              (encode_wal_payload id l.bytes) (appended J es h ++ ((typ, payload) ∷ rs)) t
              (one_more S cutoff (id, r) t) (callback_lem S J cutoff segment offset (id, r) l t f)
            ∙ run,
      )

  -- A segment file with an unreadable record behind readable ones.
  pub record HasUnreadable (file : WalRecord.Reader) : Type 0 where
    pub before : List Entry
    pub logged : AllLogged J before
    pub typ : RecordType
    pub payload : List Byte
    pub unreadable : IsUnreadable J cutoff payload
    pub behind : List Appended
    pub fit : AllFit (appended J before logged ++ ((typ, payload) ∷ behind))
    pub tail : List Byte
    pub contents :
        file.rest ≡ segment_bytes (appended J before logged ++ ((typ, payload) ∷ behind)) ++ tail
    pub ends : EndsLog (decode_record (record { rest = tail; fault = file.fault }))

  replay_segment-HasUnreadable :
      (id : ℕ) (file : WalRecord.Reader) (t : Tally S)
      → HasUnreadable file
      → t.table.frozen ≡ false
      → (e : ReplayError) × (replay_segment S J cutoff id file t ≡ refused e)
  unfolding replay_segment
  replay_segment-HasUnreadable id file t h f =
      let rs : List Appended = appended J h.before h.logged ++ ((h.typ, h.payload) ∷ h.behind) in
      let (e, run) =
        feed-IsUnreadable id h.before h.logged h.typ h.payload h.behind 0 (at_start S J t)
          h.unreadable f in
      (
        e,
        ap
              (λ l.
                replay id (record { rest = l; fault = file.fault }) (replay_callback S J cutoff)
                  (at_start S J t))
              h.contents
            ∙ (replay-segment_bytes id (replay_callback S J cutoff) rs h.tail file.fault
                  (at_start S J t) h.fit h.ends
                ∙ run),
      )

  -- Segment files that hold the records of segments, and then one with an unreadable record.
  replay_sealed-HasUnreadable :
      (disk : Segment → WalRecord.Reader) (ss : List Segment) (id : ℕ) (file : WalRecord.Reader)
      (rest : List (ℕ × WalRecord.Reader)) (t : Tally S)
      → AllOnDisk S J cutoff disk ss
      → HasUnreadable file
      → t.table.frozen ≡ false
      → replay_sealed S J cutoff (map (λ (s : Segment). (s.id, disk s)) ss ++ ((id, file) ∷ rest)) t
        ≡ failed id
  unfolding replay_sealed tally_after max_entry_from
  replay_sealed-HasUnreadable disk [] id file rest t d h f =
      let (e, run) = replay_segment-HasUnreadable id file t h f in rw (run, replay_sealed) refl
  replay_sealed-HasUnreadable disk (s ∷ ss) id file rest t (d, ds) h f =
      rw (replay_segment-OnDisk S J cutoff s (disk s) t d f, replay_sealed)
        (ap (add_info S J (info_of s)) (
          replay_sealed-HasUnreadable disk ss id file rest
            (tally_after S cutoff s.records (at_start S J t)) ds h
            (segment-Agrees S J cutoff disk s.records t f).frozen))

-- Open does not pass over a record that it cannot read. Where nothing else fails, the table files load,
-- and behind segment files that hold the records of segments there is one with a whole log record
-- whose payload is too short, or whose number is above those of the table files and whose record
-- does not decode, Open returns the replay error of that segment.
pub open_dir-HasUnreadable :
    (S : SkipList) (J : Json) (c : Config) (d : Directory) (l : Log) (loaded : Loaded)
    (name : String) (disk : Segment → WalRecord.Reader) (ss : List Segment) (id : ℕ)
    (file : WalRecord.Reader) (rest : List (ℕ × WalRecord.Reader))
    → str_eq name "" ≡ false
    → DirWorks d
    → load_all_sstables (load_table J d) (remove_orphan_sstable_tmp d.entries) ≡ some loaded
    → d.sealed ≡ map (λ (s : Segment). (s.id, disk s)) ss ++ ((id, file) ∷ rest)
    → AllOnDisk S J (max_doc_id_from 0 loaded.readers) disk ss
    → HasUnreadable S J (max_doc_id_from 0 loaded.readers) file
    → open_dir S J c name d l ≡ Open.refused (replay_failed id)
unfolding replay_log Memtable.new_mem_table
open_dir-HasUnreadable S J c d l loaded name disk ss id file rest n w load e h u =
    let cutoff : ℕ = max_doc_id_from 0 loaded.readers in
    opens S J c d l loaded name n w load
    ∙ ap (λ r. after_replay S c d loaded l (then_active S J cutoff d.active_id d.active r))
        (ap (λ x. replay_sealed S J cutoff x (no_records S J)) e
          ∙ replay_sealed-HasUnreadable S J cutoff disk ss id file rest (no_records S J) h u refl)
