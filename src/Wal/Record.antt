-- ===== src/Wal/Record.antt =====
-- internal/wal/record.go: one record in bytes. A reader is the bytes that it has left, and whether it
-- ends in an I/O error instead of the end of the file.
pub mod Laws
use dist_log.Prelude.{
  ℕ, zero, suc, ◌+◌, ◌-◌, ◌*◌, ◌%◌, ◌^◌, ◌<◌, List, [], ◌∷◌, ◌++◌, Bool, true, false, take, drop,
  length, ltb, leb, ◌==◌, if◌then◌else◌,
}
use dist_log.Bytes.{Byte, put_le, get_le, slice}
use dist_log.Bytes.Crc.{checksum, update}

abbrev pub header_size : ℕ
header_size = 9

abbrev pub max_payload : ℕ
max_payload = 64 * 2 ^ 20

-- A `RecordType` is a uint8.
abbrev pub RecordType : Type 0
RecordType = ℕ

abbrev pub record_put : RecordType
record_put = 1

pub data Encoded : Type 0 where
  encoded : List Byte → Encoded
  payload_too_big short_buffer : Encoded

-- The bytes from 4 on, which the checksum covers.
unfoldable pub record_body : RecordType → List Byte → List Byte
record_body typ payload = put_le 4 (length payload % 2 ^ 32) ++ (typ ∷ payload)

unfoldable pub record_bytes : RecordType → List Byte → List Byte
unfolding record_body
record_bytes typ payload = put_le 4 (checksum (record_body typ payload)) ++ record_body typ payload

-- `room` is the length of the buffer; the bytes written are its front.
unfoldable pub encode_record : ℕ → RecordType → List Byte → Encoded
unfolding record_bytes
encode_record room typ payload =
    if ltb max_payload (length payload)
    then payload_too_big
    else if ltb room (header_size + length payload)
    then short_buffer
    else encoded (record_bytes typ payload)

pub record Reader : Type 0 where
  pub rest : List Byte
  pub fault : Bool

-- `io.ReadFull` of `k` bytes: all of them, or an error with the number of bytes got.
pub data ReadFull : Type 0 where
  full : List Byte → Reader → ReadFull
  eof : ReadFull
  unexpected_eof : ReadFull
  failed : ℕ → ReadFull

abbrev read_full_at : Bool → Bool → Reader → ℕ → ReadFull
read_full_at true f r k = full (take k r.rest) (record r { rest = drop k r.rest })
read_full_at false true r k = failed (length r.rest)
read_full_at false false r k = if length r.rest == 0 then eof else unexpected_eof

unfoldable pub read_full : ℕ → Reader → ReadFull
read_full k r = read_full_at (leb k (length r.rest)) r.fault r k

pub data Decoded : Type 0 where
  decoded : RecordType → List Byte → Reader → Decoded
  end_of_log torn corrupt io_error : Decoded

-- The header's fields.
abbrev pub want_crc : List Byte → ℕ
want_crc hdr = get_le (slice 0 4 hdr)

abbrev pub length_field : List Byte → ℕ
length_field hdr = get_le (slice 4 8 hdr)

abbrev pub type_field : List Byte → RecordType
type_field hdr = get_le (slice 8 9 hdr)

unfoldable pub check_crc : List Byte → List Byte → Reader → Decoded
check_crc hdr payload r =
    if update (update 0 (drop 4 hdr)) payload == want_crc hdr
    then decoded (type_field hdr) payload r
    else corrupt

unfoldable pub decode_payload : List Byte → Reader → Decoded
unfolding check_crc read_full
decode_payload hdr r = elim (read_full (length_field hdr) r) [
  | full payload r' ↦ check_crc hdr payload r'
  | eof ↦ torn
  | unexpected_eof ↦ torn
  | failed n ↦ io_error
]

unfoldable pub decode_record : Reader → Decoded
unfolding decode_payload read_full
decode_record r = elim (read_full header_size r) [
  | full hdr r' ↦ if ltb max_payload (length_field hdr) then corrupt else decode_payload hdr r'
  | eof ↦ end_of_log
  | unexpected_eof ↦ torn
  | failed n ↦ if ltb 0 n then torn else io_error
]
