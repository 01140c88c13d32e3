-- ===== src/Wal/Replay.antt =====
-- `replayPath` of internal/wal/wal.go: the records of one segment file, in order, to a callback.
pub mod Laws
use dist_log.Prelude.{ℕ, zero, suc, ◌+◌, List, [], ◌∷◌, length}
use dist_log.Bytes.{Byte}
use dist_log.Wal.Record.{
  RecordType, Reader, header_size, Decoded, decoded, end_of_log, torn, corrupt, io_error,
  decode_record,
}

pub record Record : Type 0 where
  pub segment_id : ℕ
  pub lsn : ℕ
  pub typ : RecordType
  pub payload : List Byte

-- What the callback answers: it goes on with its variables changed, or returns an error.
pub data Answer (S E : Type 0) : Type 0 where
  carry_on : S → Answer S E
  refuse : E → Answer S E

-- `out_of_fuel` is no result of the source.
pub data Replayed (S E : Type 0) : Type 0 where
  finished : S → Replayed S E
  refused : E → Replayed S E
  read_failed : ℕ → Replayed S E
  out_of_fuel : Replayed S E

abbrev pub Callback : Type 0 → Type 0 → Type 0
Callback S E = Record → S → Answer S E

module _ {S E : Type 0} where
  unfoldable pub replay_loop : ℕ → ℕ → ℕ → Reader → Callback S E → S → Replayed S E
  replay_loop zero id offset r fn s = out_of_fuel
  replay_loop (suc fuel) id offset r fn s = elim (decode_record r) [
    | end_of_log ↦ finished s
    | torn ↦ finished s
    | corrupt ↦ finished s
    | io_error ↦ read_failed offset
    | decoded typ payload r' ↦
        elim (fn (record { segment_id = id; lsn = offset; typ = typ; payload = payload }) s) [
          | refuse e ↦ refused e
          | carry_on s' ↦ replay_loop fuel id (offset + (header_size + length payload)) r' fn s'
        ]
  ]

  -- Each record takes bytes, so one round more than there are bytes is enough.
  unfoldable pub replay : ℕ → Reader → Callback S E → S → Replayed S E
  unfolding replay_loop
  replay id r fn s = replay_loop (suc (length r.rest)) id 0 r fn s
