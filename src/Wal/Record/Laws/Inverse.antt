-- ===== src/Wal/Record/Laws/Inverse.antt =====
-- What internal/wal/record.go decodes from any bytes.
use mathlib.Core.List.{append_assoc}
use dist_log.Prelude.{
  ℕ, ◌+◌, ◌%◌, ◌^◌, ◌≤◌, ◌≡◌, refl, sym, ap, ◌∙◌, subst, List, [], ◌∷◌, ◌++◌, false, take, drop,
  length, length-append, length-take, take-append-drop, ltb, leb, leb→le, ◌==◌, ==_iff,
  if◌then◌else◌, arith, Bool-cases, inl, inr,
}
use dist_log.Bytes.{Byte, put_le, get_le, AllBytes}
use dist_log.Bytes.Crc.{checksum, update, update-update}
use dist_log.Bytes.Laws.{get_le-lt, put_le-get_le}
use dist_log.Wal.Record.{
  RecordType, header_size, max_payload, record_body, record_bytes, Reader, ReadFull, full, eof,
  unexpected_eof, failed, read_full, decoded, end_of_log, torn, corrupt, io_error, want_crc,
  length_field, type_field, check_crc, decode_payload, decode_record,
}
use dist_log.Wal.Record.Laws.{reader}

read_full_inv :
    (k : ℕ) (r r' : Reader) (xs : List Byte)
    → read_full k r ≡ full xs r'
    → (r.rest ≡ xs ++ r'.rest) × (length xs ≡ k)
unfolding read_full
read_full_inv k r r' xs h = elim (Bool-cases (leb k (length r.rest))) [
  | inl e ↦
      let h' : full (take k r.rest) (reader (drop k r.rest) r.fault) ≡ full xs r' =
        rw (e, read_full) at h in
      let t : take k r.rest ≡ xs = cc h' in
      let d : drop k r.rest ≡ r'.rest = cc h' in
      (
        sym (take-append-drop k r.rest) ∙ (rw (t, d)),
        omega (arith, length-take k r.rest, ap length t, leb→le k (length r.rest) e),
      )
  | inr e ↦ absurd (ground (arith, e))
]

record DecodedBy (r r' : Reader) (typ : RecordType) (payload : List Byte) : Type 0 where
  hdr : List Byte
  middle : Reader
  got_header : read_full 9 r ≡ full hdr middle
  bounded : ltb max_payload (length_field hdr) ≡ false
  got_payload : read_full (length_field hdr) middle ≡ full payload r'
  crc_matches : update (update 0 (drop 4 hdr)) payload ≡ want_crc hdr
  type_matches : type_field hdr ≡ typ

check_crc_inv :
    (hdr p payload : List Byte) (r r' : Reader) (typ : RecordType)
    → check_crc hdr p r ≡ decoded typ payload r'
    → (update (update 0 (drop 4 hdr)) p ≡ want_crc hdr)
      × (type_field hdr ≡ typ)
      × (p ≡ payload)
      × (r ≡ r')
unfolding check_crc
check_crc_inv hdr p payload r r' typ h =
    elim (Bool-cases (update (update 0 (drop 4 hdr)) p == want_crc hdr)) [
      | inl w ↦
          let h' : decoded (type_field hdr) p r ≡ decoded typ payload r' = rw (w, check_crc) at h in
          ((==_iff _ _).0 w, cc h', cc h', cc h')
      | inr w ↦ absurd (let h' : corrupt ≡ decoded typ payload r' = rw (w, check_crc) at h in cc h')
    ]

module _ (typ : RecordType) (payload : List Byte) (r' : Reader) where
  decode_payload_inv :
      (hdr : List Byte) (m : Reader) (f : ReadFull)
      → read_full (length_field hdr) m ≡ f
      → decode_payload hdr m ≡ decoded typ payload r'
      → (read_full (length_field hdr) m ≡ full payload r')
        × (update (update 0 (drop 4 hdr)) payload ≡ want_crc hdr)
        × (type_field hdr ≡ typ)
  unfolding decode_payload
  decode_payload_inv hdr m eof e h =
      absurd (let h' : torn ≡ decoded typ payload r' = rw (e, decode_payload) at h in cc h')
  decode_payload_inv hdr m unexpected_eof e h =
      absurd (let h' : torn ≡ decoded typ payload r' = rw (e, decode_payload) at h in cc h')
  decode_payload_inv hdr m (failed n) e h =
      absurd (let h' : io_error ≡ decoded typ payload r' = rw (e, decode_payload) at h in cc h')
  decode_payload_inv hdr m (full p r2) e h =
      let h' : check_crc hdr p r2 ≡ decoded typ payload r' = rw (e, decode_payload) at h in
      let (w, t, q, s) = check_crc_inv hdr p payload r2 r' typ h' in (cc (e, q, s), rw (← q) w, t)

  decoded_inv :
      (r : Reader) (f : ReadFull)
      → read_full 9 r ≡ f
      → decode_record r ≡ decoded typ payload r'
      → DecodedBy r r' typ payload
  unfolding decode_record
  decoded_inv r eof e h =
      absurd (let h' : end_of_log ≡ decoded typ payload r' = rw (e, decode_record) at h in cc h')
  decoded_inv r unexpected_eof e h =
      absurd (let h' : torn ≡ decoded typ payload r' = rw (e, decode_record) at h in cc h')
  decoded_inv r (failed n) e h =
      let h' : (if ltb 0 n then torn else io_error) ≡ decoded typ payload r' =
        rw (e, decode_record) at h in
      absurd (ground (arith, h'))
  decoded_inv r (full hdr m) e h = elim (Bool-cases (ltb max_payload (length_field hdr))) [
    | inl b ↦
        absurd (let h' : corrupt ≡ decoded typ payload r' = rw (e, decode_record, b) at h in cc h')
    | inr b ↦
        let h' : decode_payload hdr m ≡ decoded typ payload r' = rw (e, decode_record, b) at h in
        let (q, w, t) = decode_payload_inv hdr m (read_full (length_field hdr) m) refl h' in
        record {
          hdr = hdr;
          middle = m;
          got_header = e;
          bounded = b;
          got_payload = q;
          crc_matches = w;
          type_matches = t;
        }
  ]

-- A decoded record takes its header and its payload from the reader.
pub decoded_shorter :
    (r r' : Reader) (typ : RecordType) (payload : List Byte)
    → decode_record r ≡ decoded typ payload r'
    → length r.rest ≡ header_size + length payload + length r'.rest
decoded_shorter r r' typ payload h =
    let d = decoded_inv typ payload r' r (read_full 9 r) refl h in
    let (front, nine) = read_full_inv 9 r d.middle d.hdr d.got_header in
    let (next, len) = read_full_inv (length_field d.hdr) d.middle r' payload d.got_payload in
    omega (
      arith,
      nine,
      ap length front,
      ap length next,
      length-append d.hdr d.middle.rest,
      length-append payload r'.rest,
    )

AllBytes-append_left : (xs ys : List Byte) → AllBytes (xs ++ ys) → AllBytes xs
AllBytes-append_left [] ys h = tt
AllBytes-append_left (x ∷ xs) ys h = (h.0, AllBytes-append_left xs ys h.1)

-- Nine header bytes are the ones that `record_bytes` would write for the fields that they hold.
header_of_fields :
    (hdr payload : List Byte) (typ : RecordType)
    → length hdr ≡ 9
    → AllBytes hdr
    → length payload ≡ length_field hdr
    → checksum (drop 4 hdr ++ payload) ≡ want_crc hdr
    → type_field hdr ≡ typ
    → hdr ++ payload ≡ record_bytes typ payload
header_of_fields (b0 ∷ b1 ∷ b2 ∷ b3 ∷ b4 ∷ b5 ∷ b6 ∷ b7 ∷ b8 ∷ []) payload typ e h l c t =
    let tail_bytes = h.1.1.1.1 in
    let crc_field : List Byte = b0 ∷ b1 ∷ b2 ∷ b3 ∷ [] in
    let len_field : List Byte = b4 ∷ b5 ∷ b6 ∷ b7 ∷ [] in
    let len_bytes : AllBytes len_field =
      (tail_bytes.0, (tail_bytes.1.0, (tail_bytes.1.1.0, (tail_bytes.1.1.1.0, tt)))) in
    let crc_bytes : AllBytes crc_field = (h.0, (h.1.0, (h.1.1.0, (h.1.1.1.0, tt)))) in
    let in_range : length payload % 2 ^ 32 ≡ length payload =
      omega (arith, l, get_le-lt len_field len_bytes) in
    let lens : put_le 4 (length payload % 2 ^ 32) ≡ len_field =
      ap (put_le 4) (in_range ∙ l) ∙ put_le-get_le len_field len_bytes in
    let low : b8 ≡ get_le (b8 ∷ []) = unfold get_le in omega arith in
    let ty : b8 ≡ typ = low ∙ t in
    let body : record_body typ payload ≡ len_field ++ (b8 ∷ payload) =
      unfold record_body in rw (lens, ty) refl in
    let crcs : put_le 4 (checksum (record_body typ payload)) ≡ crc_field =
      ap (put_le 4) (ap checksum body ∙ c) ∙ put_le-get_le crc_field crc_bytes in
    unfold record_bytes in rw (crcs, body) refl
header_of_fields hdr payload typ e h l c t = absurd (omega (arith, e))

-- Whatever bytes decode to a record begin with exactly what `encode_record` writes for that record,
-- within the bound on the payload, and the reader goes on behind them.
pub decode_only_encoded :
    (r r' : Reader) (typ : RecordType) (payload : List Byte)
    → AllBytes r.rest
    → decode_record r ≡ decoded typ payload r'
    → (r.rest ≡ record_bytes typ payload ++ r'.rest) × (length payload ≤ max_payload)
decode_only_encoded r r' typ payload bytes h =
    let d = decoded_inv typ payload r' r (read_full 9 r) refl h in
    let (front, nine) = read_full_inv 9 r d.middle d.hdr d.got_header in
    let (next, len) = read_full_inv (length_field d.hdr) d.middle r' payload d.got_payload in
    let whole =
      header_of_fields d.hdr payload typ nine
        (AllBytes-append_left d.hdr d.middle.rest (subst AllBytes front bytes)) len
        (sym (update-update (drop 4 d.hdr) payload) ∙ d.crc_matches) d.type_matches in
    (
      front
          ∙ ap (λ l. d.hdr ++ l) next
          ∙ sym (append_assoc d.hdr payload r'.rest)
          ∙ ap (λ l. l ++ r'.rest) whole,
      ground (arith, len, d.bounded),
    )
