-- ===== src/Wal/Manager/Append.antt =====
-- What an append leaves in the segment file.
use mathlib.Core.List.{append_assoc, append-nil}
use dist_log.Prelude.{
  ℕ, ◌+◌, ◌≤◌, ◌≡◌, refl, sym, ap, ◌∙◌, List, [], ◌∷◌, ◌++◌, false, length, length-append, arith,
  ◌==◌, if◌then◌else◌, ltb,
}
use dist_log.Bytes.{Byte}
use dist_log.Wal.Record.{RecordType, header_size, max_payload, record_bytes}
use dist_log.Wal.Replay.Laws.{Appended, segment_bytes}
use dist_log.Wal.Manager.{SegmentWriter, Files, file_of, set_file, all_synced, at_lsn, append}

pub file_of-set_file :
    (j id : ℕ) (bytes : List Byte) (fs : Files)
    → file_of j (set_file id bytes fs) ≡ (if id == j then bytes else file_of j fs)
unfolding file_of set_file
file_of-set_file j id bytes [] = refl
file_of-set_file j id bytes ((i, old) ∷ fs) = ground (arith, file_of-set_file j id bytes fs)

pub segment_bytes-append :
    (rs : List Appended) (typ : RecordType) (payload : List Byte)
    → segment_bytes (rs ++ ((typ, payload) ∷ [])) ≡ segment_bytes rs ++ record_bytes typ payload
unfolding segment_bytes
segment_bytes-append [] typ payload = append-nil (record_bytes typ payload)
segment_bytes-append ((t, p) ∷ rs) typ payload =
    ap (λ l. record_bytes t p ++ l) (segment_bytes-append rs typ payload)
    ∙ sym (append_assoc (record_bytes t p) (segment_bytes rs) (record_bytes typ payload))

-- A writer whose file holds exactly the records `rs`, with its offset at the end.
pub record Holds (w : SegmentWriter) (fs : Files) (rs : List Appended) : Type 0 where
  pub contents : file_of w.id fs ≡ segment_bytes rs
  pub at_end : w.offset ≡ length (segment_bytes rs)

append_fits :
    (typ : RecordType) (payload : List Byte) (w : SegmentWriter) (fs : Files)
    → w.closed ≡ false
    → length payload ≤ max_payload
    → append false all_synced typ payload w fs ≡ (
      at_lsn w.offset,
      record w { offset = w.offset + length (record_bytes typ payload) },
      set_file w.id (file_of w.id fs ++ record_bytes typ payload) fs,
    )
append_fits typ payload w fs opened small =
    let small' : ltb max_payload (length payload) ≡ false = ground arith in
    let room : ltb (header_size + length payload) (header_size + length payload) ≡ false =
      ground arith in
    unfold append in rw (opened, small', room) refl

-- Where the file of an open writer holds whole records only and the offset of the writer is its end, which
-- a failed append undoes, a successful append of a payload that is not too long adds its record there and
-- changes no other file. The number that it returns is the offset at which the record begins.
pub append-Holds :
    (typ : RecordType) (payload : List Byte) (w : SegmentWriter) (fs : Files) (rs : List Appended)
    → w.closed ≡ false
    → length payload ≤ max_payload
    → Holds w fs rs
    → ((append false all_synced typ payload w fs).0 ≡ at_lsn (length (segment_bytes rs)))
      × Holds
          (append false all_synced typ payload w fs).1
          (append false all_synced typ payload w fs).2
          (rs ++ ((typ, payload) ∷ []))
      × ((j : ℕ)
          → (w.id == j) ≡ false
          → file_of j (append false all_synced typ payload w fs).2 ≡ file_of j fs)
append-Holds typ payload w fs rs opened small h = rw (append_fits typ payload w fs opened small) (
  ap at_lsn h.at_end,
  record {
    contents =
        file_of-set_file w.id w.id _ fs
        ∙ (ground arith)
        ∙ ap (λ l. l ++ record_bytes typ payload) h.contents
        ∙ sym (segment_bytes-append rs typ payload);
    at_end = omega (
      arith,
      h.at_end,
      length-append (segment_bytes rs) (record_bytes typ payload),
      ap length (segment_bytes-append rs typ payload),
    );
  },
  λ j ne. file_of-set_file j w.id _ fs ∙ rw ne refl,
)
