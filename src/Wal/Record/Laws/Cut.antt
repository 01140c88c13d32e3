-- ===== src/Wal/Record/Laws/Cut.antt =====
-- A record of internal/wal/record.go that a crash cut short.
use mathlib.Core.Logic.{◌≢◌}
use dist_log.Prelude.{
  ℕ, zero, suc, ◌≤◌, ◌<◌, ◌≡◌, refl, sym, ap, ◌∙◌, subst, List, [], ◌∷◌, ◌++◌, false, take, drop,
  length, length-append, take-append-drop, ltb, leb, leb→le, ◌==◌, arith, Bool-cases, inl, inr,
}
use dist_log.Bytes.{Byte}
use dist_log.Bytes.Laws.{take-length-append, drop-length-append}
use dist_log.Wal.Record.{
  RecordType, max_payload, record_bytes, unexpected_eof, read_full, torn, length_field,
  decode_payload, decode_record,
}
use dist_log.Wal.Record.Laws.{
  header, header-length, reader, record_bytes-header, length-header, read_full-append,
}

read_full_short :
    (k : ℕ) (bs : List Byte)
    → length bs < k
    → bs ≢ []
    → read_full k (reader bs false) ≡ unexpected_eof
unfolding read_full
read_full_short k [] h ne = absurd (ne refl)
read_full_short k (b ∷ bs) h ne =
    let short : leb k (length (b ∷ bs)) ≡ false = ground arith in rw short (ground arith)

take-append_left : (k : ℕ) (xs ys : List Byte) → k ≤ length xs → take k (xs ++ ys) ≡ take k xs
take-append_left zero xs ys h = refl
take-append_left (suc k) [] ys h = elim h [ ]
take-append_left (suc k) (x ∷ xs) ys h = ap (λ l. x ∷ l) (take-append_left k xs ys (omega arith))

drop-append_left : (k : ℕ) (xs ys : List Byte) → k ≤ length xs → drop k (xs ++ ys) ≡ drop k xs ++ ys
drop-append_left zero xs ys h = refl
drop-append_left (suc k) [] ys h = elim h [ ]
drop-append_left (suc k) (x ∷ xs) ys h = drop-append_left k xs ys (omega arith)

-- Reading past the end of a payload that was cut short.
decode_payload_short :
    (hdr part : List Byte)
    → length part < length_field hdr
    → decode_payload hdr (reader part false) ≡ torn
unfolding decode_payload read_full
decode_payload_short hdr part h =
    let short : leb (length_field hdr) (length part) ≡ false = ground arith in
    elim (Bool-cases (length part == 0)) [
      | inl z ↦ rw (short, decode_payload) (rw z)
      | inr z ↦ rw (short, decode_payload) (rw z)
    ]

header_then_short :
    (typ : RecordType) (payload : List Byte)
    → length payload ≤ max_payload
    → (part : List Byte) → length part < length payload
    → decode_record (reader (header typ payload ++ part) false) ≡ torn
unfolding decode_record
header_then_short typ payload small part h =
    let fits : ltb max_payload (length_field (header typ payload)) ≡ false =
      rw (header-length typ payload small) (ground arith) in
    let short : length part < length_field (header typ payload) =
      rw (header-length typ payload small) h in
    rw
      (
        read_full-append 9 (header typ payload) part false (length-header typ payload),
        decode_record,
      )
      (rw fits (decode_payload_short (header typ payload) part short))

-- A record that a crash cut short, with one byte at least and not the last one, reads as torn.
pub decode_cut_record :
    (typ : RecordType) (payload front back : List Byte) (x : Byte)
    → length payload ≤ max_payload
    → record_bytes typ payload ≡ front ++ (x ∷ back)
    → front ≢ []
    → decode_record (record { rest = front; fault = false }) ≡ torn
decode_cut_record typ payload front back x small e ne = elim (Bool-cases (leb 9 (length front))) [
  | inr short ↦
      unfold decode_record in rw (read_full_short 9 front (ground arith) ne, decode_record) refl
  | inl long ↦
      let enough : 9 ≤ length front = leb→le 9 (length front) long in
      let whole : header typ payload ++ payload ≡ front ++ (x ∷ back) =
        sym (record_bytes-header typ payload) ∙ e in
      let hd : take 9 front ≡ header typ payload =
        sym (take-append_left 9 front (x ∷ back) enough)
        ∙ ap (take 9) (sym whole)
        ∙ (let t = take-length-append (header typ payload) payload in rw length-header at t) in
      let tl : drop 9 front ++ (x ∷ back) ≡ payload =
        sym (drop-append_left 9 front (x ∷ back) enough)
        ∙ ap (drop 9) (sym whole)
        ∙ (let t = drop-length-append (header typ payload) payload in rw length-header at t) in
      let joined : front ≡ header typ payload ++ drop 9 front =
        sym (take-append-drop 9 front) ∙ ap (λ l. l ++ drop 9 front) hd in
      subst (λ l. decode_record (reader l false) ≡ torn) (sym joined)
        (header_then_short typ payload small (drop 9 front)
          (omega (arith, length-append (drop 9 front) (x ∷ back), ap length tl)))
]
