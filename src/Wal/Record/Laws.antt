-- ===== src/Wal/Record/Laws.antt =====
-- The record format of internal/wal/record.go read back.
pub mod Cut
pub mod Inverse
use mathlib.Core.List.{append_assoc}
use mathlib.Core.Logic.{◌≢◌}
use dist_log.Prelude.{
  ℕ, zero, suc, ◌+◌, ◌-◌, ◌*◌, ◌%◌, ◌^◌, ◌≤◌, ◌<◌, ◌≡◌, refl, sym, ap, ◌∙◌, subst, List, [], ◌∷◌,
  ◌++◌, Bool, true, false, take, drop, length, length-append, length-take, length-drop,
  take-append-drop, ltb, leb, leb→le, ◌==◌, ==_iff, if◌then◌else◌, arith, Bool-cases, inl, inr,
}
use dist_log.Bytes.{Byte, put_le, get_le, slice, AllBytes}
use dist_log.Bytes.Crc.{checksum, update, update-update, checksum-lt}
use dist_log.Bytes.Laws.{
  get_le-lt, get_le-put_le, put_le-get_le, length-put_le, take-length-append, drop-length-append,
}
use dist_log.Wal.Record.{
  RecordType, header_size, max_payload, record_body, record_bytes, encode_record, encoded, Reader,
  ReadFull, full, eof, unexpected_eof, failed, read_full, read_full_at, Decoded, decoded,
  end_of_log, torn, corrupt, io_error, want_crc, length_field, type_field, check_crc,
  decode_payload, decode_record,
}

abbrev pub header : RecordType → List Byte → List Byte
header typ payload =
    put_le 4 (checksum (record_body typ payload))
    ++ (put_le 4 (length payload % 2 ^ 32) ++ (typ ∷ []))

abbrev pub reader : List Byte → Bool → Reader
reader bs f = record { rest = bs; fault = f }

record_bytes-header :
    (typ : RecordType) (payload : List Byte)
    → record_bytes typ payload ≡ header typ payload ++ payload
unfolding record_bytes record_body put_le
record_bytes-header typ payload = refl

length-header : (typ : RecordType) (payload : List Byte) → length (header typ payload) ≡ 9
unfolding put_le
length-header typ payload = refl

pub length-record_bytes :
    (typ : RecordType) (payload : List Byte)
    → length (record_bytes typ payload) ≡ header_size + length payload
length-record_bytes typ payload =
    rw record_bytes-header
      (length-append (header typ payload) payload ∙ omega (arith, length-header typ payload))

read_full-append :
    (k : ℕ) (xs ys : List Byte) (f : Bool)
    → length xs ≡ k
    → read_full k (reader (xs ++ ys) f) ≡ full xs (reader ys f)
unfolding read_full
read_full-append k xs ys f e =
    let fits : leb k (length (xs ++ ys)) ≡ true = ground (arith, length-append xs ys) in
    rw fits (rw (← e) (rw (take-length-append, drop-length-append)))

module _ (typ : RecordType) (payload : List Byte) (small : length payload ≤ max_payload) where
  header_crc : want_crc (header typ payload) ≡ checksum (record_body typ payload)
  header_crc =
      let e : want_crc (header typ payload)
          ≡ get_le (put_le 4 (checksum (record_body typ payload))) =
        unfold put_le in refl in
      e
      ∙ get_le-put_le 4 (checksum (record_body typ payload))
          (omega (arith, checksum-lt (record_body typ payload)))

  header-length : length_field (header typ payload) ≡ length payload
  header-length =
      let e : length_field (header typ payload) ≡ get_le (put_le 4 (length payload % 2 ^ 32)) =
        unfold put_le in refl in
      e ∙ get_le-put_le 4 (length payload % 2 ^ 32) (omega arith) ∙ omega arith

  header_type : type_field (header typ payload) ≡ typ
  unfolding put_le get_le
  header_type = omega arith

  header_body : drop 4 (header typ payload) ++ payload ≡ record_body typ payload
  unfolding put_le record_body
  header_body = refl

  check_crc-header : (r : Reader) → check_crc (header typ payload) payload r ≡ decoded typ payload r
  unfolding check_crc
  check_crc-header r =
      let same : update (update 0 (drop 4 (header typ payload))) payload
          ≡ want_crc (header typ payload) =
        update-update (drop 4 (header typ payload)) payload
        ∙ ap checksum header_body
        ∙ sym header_crc in
      ground (arith, same, header_type)

  decode_payload-header :
      (rest : List Byte) (f : Bool)
      → decode_payload (header typ payload) (reader (payload ++ rest) f)
        ≡ decoded typ payload (reader rest f)
  unfolding decode_payload
  decode_payload-header rest f =
      rw (header-length, decode_payload)
        (rw (read_full-append (length payload) payload rest f refl, decode_payload)
          (check_crc-header (reader rest f)))

  pub decode-record_bytes :
      (rest : List Byte) (f : Bool)
      → decode_record (reader (record_bytes typ payload ++ rest) f)
        ≡ decoded typ payload (reader rest f)
  unfolding decode_record
  decode-record_bytes rest f =
      let split : record_bytes typ payload ++ rest ≡ header typ payload ++ (payload ++ rest) =
        ap (λ l. l ++ rest) (record_bytes-header typ payload)
        ∙ append_assoc (header typ payload) payload rest in
      let fits : ltb max_payload (length_field (header typ payload)) ≡ false =
        rw header-length (ground arith) in
      rw split (
        rw
          (
            read_full-append 9 (header typ payload) (payload ++ rest) f (length-header typ payload),
            decode_record,
          )
          (rw fits (decode_payload-header rest f)))

-- A record that `encode_record` writes is read back, and the reader goes on behind it.
pub decode-encode :
    (room : ℕ) (typ : RecordType) (payload bytes rest : List Byte) (f : Bool)
    → encode_record room typ payload ≡ encoded bytes
    → decode_record (record { rest = bytes ++ rest; fault = f })
      ≡ decoded typ payload (record { rest = rest; fault = f })
unfolding encode_record
decode-encode room typ payload bytes rest f h =
    let small : length payload ≤ max_payload = ground arith in
    let e : record_bytes typ payload ≡ bytes = ground arith in
    subst (λ b. decode_record (reader (b ++ rest) f) ≡ decoded typ payload (reader rest f)) e
      (decode-record_bytes typ payload small rest f)
