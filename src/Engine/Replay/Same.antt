-- ===== src/Engine/Replay/Same.antt =====
-- The replay of the bytes of the log in `Open` of internal/engine/engine.go is the replay of the records
-- that were appended.
use dist_log.Prelude.{
  ℕ, suc, ◌+◌, ◌^◌, ◌≤◌, ◌<◌, ◌≡◌, refl, ap, ◌∙◌, List, [], ◌∷◌, ◌++◌, Option, some, Bool, true,
  false, ◌||◌, not, length, ltb, leb, if◌then◌else◌, arith, if_both,
}
use dist_log.Bytes.{Byte}
use dist_log.Types.{DocId, LogRecord}
use dist_log.Types.Entries.{Entry}
use dist_log.Types.Codec.{Json, unmarshal}
use dist_log.Memtable as Memtable
use dist_log.Memtable.{SkipList, MemTable, stored}
use dist_log.Wal.Record.{record_put, header_size, max_payload, decode_record}
use dist_log.Wal.Record as WalRecord
use dist_log.Wal.Replay.{carry_on, finished, replay}
use dist_log.Wal.Replay.Laws.{
  Appended, AllFit, segment_bytes, feed, feed_ok, EndsLog, replay-segment_bytes,
}
use dist_log.Engine.Codec.{encode_wal_payload, decode-encode_wal_payload}
use dist_log.Engine.State.{Segment}
use dist_log.Engine.Recovery.{
  replay_records, max_entry_from, is_empty, count_skipped, count_replayed,
}
use dist_log.Engine.Replay.{
  Tally, seen, on_payload, put_result, put_record, replay_callback, replay_segment,
}

-- A record that the log keeps: its encoding decodes to it, its number has 64 bits, and its payload fits
-- a log record.
pub record Logged (J : Json) (e : Entry) : Type 0 where
  pub bytes : List Byte
  pub encoded : J.marshal e.1 ≡ some bytes
  pub decoded : J.unmarshal bytes ≡ some e.1
  pub doc_id : e.0 < 2 ^ 64
  pub fits : length (encode_wal_payload e.0 bytes) ≤ max_payload

abbrev pub AllLogged : Json → List Entry → Type 0
AllLogged J [] = Unit
AllLogged J (e ∷ es) = Logged J e × AllLogged J es

-- What was appended for the records.
unfoldable pub appended : (J : Json) (es : List Entry) → AllLogged J es → List Appended
appended J [] h = []
appended J (e ∷ es) (l, h) = (record_put, encode_wal_payload e.0 l.bytes) ∷ appended J es h

appended-AllFit : (J : Json) (es : List Entry) (h : AllLogged J es) → AllFit (appended J es h)
unfolding appended
appended-AllFit J [] h = tt
appended-AllFit J (e ∷ es) (l, h) = (l.fits, appended-AllFit J es h)

module _ (S : SkipList) where
  abbrev made : MemTable S → ℕ → Bool → ℕ → ℕ → Tally S
  made m a b c d = record { table = m; local_max = a; local_has = b; skipped = c; replayed = d }

  -- The tally after some records.
  unfoldable pub tally_after : ℕ → List Entry → Tally S → Tally S
  tally_after cutoff es t = record {
    table = replay_records S cutoff es t.table;
    local_max = max_entry_from t.local_max es;
    local_has = t.local_has || not (is_empty es);
    skipped = t.skipped + count_skipped cutoff es;
    replayed = t.replayed + count_replayed cutoff es;
  }

  -- The tally after one record.
  abbrev pub low_tally : DocId → Tally S → Tally S
  low_tally id t = record (seen S id t) { skipped = t.skipped + 1 }

  abbrev pub high_tally : DocId → LogRecord → Tally S → Tally S
  high_tally id r t = record (seen S id t) {
    table = (Memtable.put S id r t.table).1;
    replayed = t.replayed + 1;
  }

  abbrev pub one_more : ℕ → Entry → Tally S → Tally S
  one_more cutoff (id, r) t = if leb id cutoff then low_tally id t else high_tally id r t

  tally_eq :
      {m m' : MemTable S} {a a' : ℕ} {b b' : Bool} {c c' d d' : ℕ}
      → m ≡ m'
      → a ≡ a'
      → b ≡ b'
      → c ≡ c'
      → d ≡ d'
      → made m a b c d ≡ made m' a' b' c' d'
  tally_eq p q r s t = λ i. made (p i) (q i) (r i) (s i) (t i)

  or_true : (a : Bool) → true ≡ (a || true)
  or_true true = refl
  or_true false = refl

  by_test :
      (b : Bool) (cutoff : ℕ) (id : DocId) (r : LogRecord) (es : List Entry) (t : Tally S)
      → tally_after cutoff es (if b then low_tally id t else high_tally id r t)
        ≡ made
            (replay_records S cutoff es (if b then t.table else (Memtable.put S id r t.table).1))
            (max_entry_from (if ltb t.local_max id then id else t.local_max) es)
            (t.local_has || true)
            (t.skipped + (if b then suc (count_skipped cutoff es) else count_skipped cutoff es))
            (t.replayed + (if b then count_replayed cutoff es else suc (count_replayed cutoff es)))
  unfolding tally_after seen
  by_test true cutoff id r es t = tally_eq refl refl (or_true t.local_has) (omega arith) refl
  by_test false cutoff id r es t = tally_eq refl refl (or_true t.local_has) refl (omega arith)

  tally_step :
      (cutoff : ℕ) (id : DocId) (r : LogRecord) (es : List Entry) (t : Tally S)
      → tally_after cutoff es (one_more cutoff (id, r) t) ≡ tally_after cutoff ((id, r) ∷ es) t
  unfolding tally_after replay_records max_entry_from count_skipped count_replayed
  tally_step cutoff id r es t = by_test (leb id cutoff) cutoff id r es t

  tally_nil : (cutoff : ℕ) (t : Tally S) → t ≡ tally_after cutoff [] t
  unfolding tally_after replay_records max_entry_from count_skipped count_replayed
  tally_nil cutoff t = tally_eq refl refl (or_false t.local_has) (omega arith) (omega arith)
    where
      or_false : (a : Bool) → a ≡ (a || false)
      or_false true = refl
      or_false false = refl

  open_put :
      (b : Bool) (m n : MemTable S)
      → b ≡ false
      → n.frozen ≡ false
      → let x : Memtable.PutResult × MemTable S =
          if b then (Memtable.frozen_error, m) else (stored, n) in
        (x ≡ (stored, x.1)) × (x.1.frozen ≡ false)
  open_put true m n h k = cc
  open_put false m n h k = (refl, k)

  pub put_lem :
      (id : DocId) (r : LogRecord) (m : MemTable S)
      → m.frozen ≡ false
      → let x = Memtable.put S id r m in (x ≡ (stored, x.1)) × (x.1.frozen ≡ false)
  unfolding Memtable.put
  put_lem id r m h = open_put m.frozen m _ h h

  pub one_more_frozen :
      (cutoff : ℕ) (e : Entry) (t : Tally S)
      → t.table.frozen ≡ false
      → (one_more cutoff e t).table.frozen ≡ false
  unfolding seen
  one_more_frozen cutoff (id, r) t h =
      if_both (λ (x : Tally S). x.table.frozen ≡ false) (leb id cutoff) (low_tally id t)
        (high_tally id r t) h (put_lem id r t.table h).1

  module _ (J : Json) where
    put_stored :
        (id : DocId) (r : LogRecord) (t : Tally S)
        → t.table.frozen ≡ false
        → put_result S t (Memtable.put S id r t.table)
          ≡ carry_on
              (record t { table = (Memtable.put S id r t.table).1; replayed = t.replayed + 1 })
    put_stored id r t h = ap (put_result S t) (put_lem id r t.table h).0

    by_cutoff :
        (b : Bool) (id : DocId) (r : LogRecord) (t : Tally S) (o : Option LogRecord)
        → o ≡ some r
        → t.table.frozen ≡ false
        → (if b then carry_on (low_tally id t) else put_record S J id o (seen S id t))
          ≡ carry_on (if b then low_tally id t else high_tally id r t)
    unfolding seen
    by_cutoff true id r t o e h = refl
    by_cutoff false id r t o e h =
        ap (λ x. put_record S J id x (seen S id t)) e ∙ put_stored id r (seen S id t) h

    pub callback_lem :
        (cutoff segment lsn : ℕ) (e : Entry) (l : Logged J e) (t : Tally S)
        → t.table.frozen ≡ false
        → replay_callback S J cutoff
            (record {
              segment_id = segment;
              lsn = lsn;
              typ = record_put;
              payload = encode_wal_payload e.0 l.bytes;
            })
            t
          ≡ carry_on (one_more cutoff e t)
    unfolding replay_callback unmarshal
    callback_lem cutoff segment lsn (id, r) l t h =
        ap (λ o. on_payload S J cutoff o t) (decode-encode_wal_payload id l.bytes l.doc_id)
        ∙ by_cutoff (leb id cutoff) id r t (J.unmarshal l.bytes) l.decoded h

    feed_lem :
        (cutoff segment : ℕ) (es : List Entry) (h : AllLogged J es) (offset : ℕ) (t : Tally S)
        → t.table.frozen ≡ false
        → feed segment (replay_callback S J cutoff) offset (appended J es h) t
          ≡ finished (tally_after cutoff es t)
    unfolding feed appended
    feed_lem cutoff segment [] h offset t f = ap finished (tally_nil cutoff t)
    feed_lem cutoff segment ((id, r) ∷ es) (l, h) offset t f =
        feed_ok segment (replay_callback S J cutoff) offset record_put
          (encode_wal_payload id l.bytes) (appended J es h) t (one_more cutoff (id, r) t)
          (callback_lem cutoff segment offset (id, r) l t f)
        ∙ (feed_lem cutoff segment es h
              (offset + (header_size + length (encode_wal_payload id l.bytes)))
              (one_more cutoff (id, r) t) (one_more_frozen cutoff (id, r) t f)
            ∙ ap finished (tally_step cutoff id r es t))

    -- The file of a segment: what was appended for its records, and behind it something that does not
    -- decode, such as a torn record.
    pub record OnDisk (s : Segment) (file : WalRecord.Reader) : Type 0 where
      pub logged : AllLogged J s.records
      pub tail : List Byte
      pub contents : file.rest ≡ segment_bytes (appended J s.records logged) ++ tail
      pub ends : EndsLog (decode_record (record { rest = tail; fault = file.fault }))

    -- The tally with the variables of a new segment.
    abbrev pub at_start : Tally S → Tally S
    at_start t = record t { local_max = 0; local_has = false }

    pub replay_segment-OnDisk :
        (cutoff : ℕ) (s : Segment) (file : WalRecord.Reader) (t : Tally S)
        → OnDisk s file
        → t.table.frozen ≡ false
        → replay_segment S J cutoff s.id file t
          ≡ finished (tally_after cutoff s.records (at_start t))
    unfolding replay_segment
    replay_segment-OnDisk cutoff s file t d f =
        ap
          (λ l.
            replay s.id (record { rest = l; fault = file.fault }) (replay_callback S J cutoff)
              (at_start t))
          d.contents
        ∙ (replay-segment_bytes s.id (replay_callback S J cutoff) (appended J s.records d.logged)
              d.tail file.fault (at_start t) (appended-AllFit J s.records d.logged) d.ends
            ∙ feed_lem cutoff s.id s.records d.logged 0 (at_start t) f)
