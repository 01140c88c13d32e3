-- ===== src/Engine/Codec.antt =====
-- internal/engine/codec.go: the document number in front of the record in a log payload.
use dist_log.Prelude.{
  ◌^◌, ◌<◌, ◌≡◌, ap, ap₂, ◌∙◌, List, ◌++◌, Option, none, some, false, length, take, drop, ltb,
  if◌then◌else◌, arith, length-append,
}
use dist_log.Bytes.{Byte, put_le, get_le}
use dist_log.Bytes.Laws.{length-put_le, get_le-put_le, take-length-append, drop-length-append}
use dist_log.Types.{DocId}

unfoldable pub encode_wal_payload : DocId → List Byte → List Byte
unfolding put_le
encode_wal_payload id bytes = put_le 8 id ++ bytes

-- `none` is errShortWALPayload.
unfoldable pub decode_wal_payload : List Byte → Option (DocId × List Byte)
unfolding get_le
decode_wal_payload bs = if ltb (length bs) 8 then none else some (get_le (take 8 bs), drop 8 bs)

-- Decoding undoes encoding, for every 64-bit number.
pub decode-encode_wal_payload :
    (id : DocId) (bytes : List Byte)
    → id < 2 ^ 64
    → decode_wal_payload (encode_wal_payload id bytes) ≡ some (id, bytes)
unfolding encode_wal_payload decode_wal_payload
decode-encode_wal_payload id bytes h =
    let n : ltb (length (put_le 8 id ++ bytes)) 8 ≡ false =
      ground (arith, length-append (put_le 8 id) bytes, length-put_le 8 id) in
    let a : take 8 (put_le 8 id ++ bytes) ≡ put_le 8 id = take-length-append (put_le 8 id) bytes in
    let b : drop 8 (put_le 8 id ++ bytes) ≡ bytes = drop-length-append (put_le 8 id) bytes in
    rw n (ap some (ap₂ (λ x y. (x, y)) (ap get_le a ∙ get_le-put_le 8 id (omega arith)) b))
