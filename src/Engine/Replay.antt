-- ===== src/Engine/Replay.antt =====
-- The replay of the log in `Open` of internal/engine/engine.go, from the bytes of the segment files.
pub mod Same
pub mod Log
use dist_log.Prelude.{
  ℕ, zero, suc, ◌+◌, List, [], ◌∷◌, Option, none, some, Bool, true, false, ◌||◌, not, ltb, leb,
  ◌==◌, if◌then◌else◌,
}
use dist_log.Bytes.{Byte}
use dist_log.Types.{DocId, LogRecord}
use dist_log.Types.Codec.{Json, unmarshal}
use dist_log.Memtable as Memtable
use dist_log.Memtable.{SkipList, MemTable, PutResult, stored, frozen_error}
use dist_log.Wal.Record as WalRecord
use dist_log.Wal.Replay.{
  Record, Answer, carry_on, refuse, Replayed, finished, refused, read_failed, out_of_fuel, replay,
}
use dist_log.Engine.Codec.{decode_wal_payload}

pub data ReplayError : Type 0 where
  short_payload unmarshal_failed put_failed : ReplayError

-- The variables that the callback changes: the recovered table, the greatest number of the segment and
-- whether it has any, and the counts of the report.
pub record Tally (S : SkipList) : Type 0 where
  pub table : MemTable S
  pub local_max : DocId
  pub local_has : Bool
  pub skipped : ℕ
  pub replayed : ℕ

-- What is kept of a sealed segment.
pub record SealedInfo : Type 0 where
  pub id : ℕ
  pub max_doc_id : DocId
  pub has_any : Bool

-- Step 6 deletes such a segment.
unfoldable pub deletes : ℕ → SealedInfo → Bool
deletes cutoff i = not i.has_any || leb i.max_doc_id cutoff

module _ (S : SkipList) where
  -- `failed` names the segment.
  pub data Recovered : Type 0 where
    recovered : List SealedInfo → Tally S → Recovered
    failed : ℕ → Recovered

  unfoldable pub seen : DocId → Tally S → Tally S
  seen id t = record t {
    local_has = true;
    local_max = if ltb t.local_max id then id else t.local_max;
  }

  abbrev pub put_result : Tally S → PutResult × MemTable S → Answer (Tally S) ReplayError
  put_result t (frozen_error, m) = refuse put_failed
  put_result t (stored, m) = carry_on (record t { table = m; replayed = t.replayed + 1 })

  module _ (J : Json) where
    abbrev pub put_record : DocId → Option LogRecord → Tally S → Answer (Tally S) ReplayError
    put_record id none t = refuse unmarshal_failed
    put_record id (some r) t = put_result t (Memtable.put S id r t.table)

    abbrev pub on_payload : ℕ → Option (DocId × List Byte) → Tally S → Answer (Tally S) ReplayError
    on_payload cutoff none t = refuse short_payload
    on_payload cutoff (some (id, bytes)) t =
        if leb id cutoff
        then carry_on (record (seen id t) { skipped = t.skipped + 1 })
        else put_record id (unmarshal J bytes) (seen id t)

    -- `replayCallback`
    unfoldable pub replay_callback : ℕ → Record → Tally S → Answer (Tally S) ReplayError
    unfolding seen decode_wal_payload unmarshal Memtable.put
    replay_callback cutoff rec t = on_payload cutoff (decode_wal_payload rec.payload) t

    unfoldable pub replay_segment :
        ℕ → ℕ → WalRecord.Reader → Tally S → Replayed (Tally S) ReplayError
    unfolding replay_callback replay
    replay_segment cutoff id file t =
        replay id file (replay_callback cutoff) (record t { local_max = 0; local_has = false })

    abbrev pub add_info : SealedInfo → Recovered → Recovered
    add_info i (recovered is t) = recovered (i ∷ is) t
    add_info i (failed id) = failed id

    -- The loop over the sealed segments.
    unfoldable pub replay_sealed : ℕ → List (ℕ × WalRecord.Reader) → Tally S → Recovered
    unfolding replay_segment
    replay_sealed cutoff [] t = recovered [] t
    replay_sealed cutoff ((id, file) ∷ ss) t = elim (replay_segment cutoff id file t) [
      | finished t' ↦
          add_info (record { id = id; max_doc_id = t'.local_max; has_any = t'.local_has })
            (replay_sealed cutoff ss t')
      | refused e ↦ failed id
      | read_failed n ↦ failed id
      | out_of_fuel ↦ failed id
    ]

    abbrev pub after_active : ℕ → List SealedInfo → Replayed (Tally S) ReplayError → Recovered
    after_active id is (finished t) = recovered is t
    after_active id is (refused e) = failed id
    after_active id is (read_failed n) = failed id
    after_active id is out_of_fuel = failed id

    abbrev pub then_active : ℕ → ℕ → WalRecord.Reader → Recovered → Recovered
    then_active cutoff id file (failed n) = failed n
    then_active cutoff id file (recovered is t) =
        if id == 0 then recovered is t else after_active id is (replay_segment cutoff id file t)

    abbrev pub no_records : Tally S
    no_records = record {
      table = Memtable.new_mem_table S;
      local_max = 0;
      local_has = false;
      skipped = 0;
      replayed = 0;
    }

    -- All of step 5: the sealed segments, and then the active one, which has a number.
    unfoldable pub replay_log : ℕ → List (ℕ × WalRecord.Reader) → ℕ → WalRecord.Reader → Recovered
    unfolding replay_sealed Memtable.new_mem_table
    replay_log cutoff sealed id file =
        then_active cutoff id file (replay_sealed cutoff sealed no_records)
