-- ===== src/Wal/Manager/Reread.antt =====
-- What the replay of a segment of internal/wal/wal.go meets after an append, also after one that failed.
use mathlib.Core.List.{append-nil}
use dist_log.Prelude.{
  ℕ, ◌+◌, ◌≤◌, ◌≡◌, refl, sym, ap, ◌∙◌, List, [], ◌∷◌, ◌++◌, false, length, ltb, arith, take, drop,
  take-append-drop,
}
use dist_log.Bytes.{Byte}
use dist_log.Wal.Record.{RecordType, header_size, max_payload, record_bytes, decode_record}
use dist_log.Wal.Replay.{Callback, replay}
use dist_log.Wal.Replay.Laws.{
  Appended, AllFit, segment_bytes, feed, EndsLog, replay-segment_bytes, replay_cut_segment,
}
use dist_log.Wal.Manager.{
  SegmentWriter, Files, file_of, set_file, WriteOutcome, all_synced, short_write, sync_failed,
  append, append_bytes,
}
use dist_log.Wal.Manager.Append.{file_of-set_file, segment_bytes-append}

-- The bytes that do not reach the file.
abbrev pub missing : WriteOutcome → List Byte → List Byte
missing all_synced bytes = []
missing (short_write k) bytes = drop k bytes
missing sync_failed bytes = []

abbrev reached : WriteOutcome → List Byte → List Byte
reached all_synced bytes = bytes
reached (short_write k) bytes = take k bytes
reached sync_failed bytes = bytes

-- The records that a segment has after an append, of which these bytes are missing.
abbrev pub kept : List Byte → List Appended → Appended → List Appended
kept [] rs r = rs ++ (r ∷ [])
kept (x ∷ xs) rs r = rs

reached-missing :
    (o : WriteOutcome) (bytes : List Byte) → reached o bytes ++ missing o bytes ≡ bytes
reached-missing all_synced bytes = append-nil bytes
reached-missing (short_write k) bytes = take-append-drop k bytes
reached-missing sync_failed bytes = append-nil bytes

append-append_bytes :
    (o : WriteOutcome) (typ : RecordType) (payload : List Byte) (w : SegmentWriter) (fs : Files)
    → w.closed ≡ false
    → length payload ≤ max_payload
    → append false o typ payload w fs ≡ append_bytes o w fs (record_bytes typ payload)
append-append_bytes o typ payload w fs opened small =
    let small' : ltb max_payload (length payload) ≡ false = ground arith in
    let room : ltb (header_size + length payload) (header_size + length payload) ≡ false =
      ground arith in
    unfold append in rw (opened, small', room) refl

file_of-set_file-same :
    (id : ℕ) (bytes : List Byte) (fs : Files) → file_of id (set_file id bytes fs) ≡ bytes
file_of-set_file-same id bytes fs = file_of-set_file id id bytes fs ∙ (ground arith)

file_of-append_bytes :
    (o : WriteOutcome) (w : SegmentWriter) (fs : Files) (bytes : List Byte)
    → file_of w.id (append_bytes o w fs bytes).2 ≡ file_of w.id fs ++ reached o bytes
file_of-append_bytes all_synced w fs bytes = file_of-set_file-same w.id _ fs
file_of-append_bytes (short_write k) w fs bytes = file_of-set_file-same w.id _ fs
file_of-append_bytes sync_failed w fs bytes = file_of-set_file-same w.id _ fs

AllFit-append :
    (rs : List Appended) (r : Appended)
    → AllFit rs
    → length r.1 ≤ max_payload
    → AllFit (rs ++ (r ∷ []))
AllFit-append [] r fit small = (small, tt)
AllFit-append (q ∷ rs) r fit small = (fit.0, AllFit-append rs r fit.1 small)

module _ {S E : Type 0} (id : ℕ) (fn : Callback S E) where
  ends_clean : EndsLog (decode_record (record { rest = []; fault = false }))
  unfolding decode_record
  ends_clean = tt

  replay-reached :
      (rs : List Appended) (typ : RecordType) (payload front back : List Byte) (s : S)
      → AllFit rs
      → length payload ≤ max_payload
      → front ++ back ≡ record_bytes typ payload
      → replay id (record { rest = segment_bytes rs ++ front; fault = false }) fn s
        ≡ feed id fn 0 (kept back rs (typ, payload)) s
  replay-reached rs typ payload [] (x ∷ back) s fit small e =
      replay-segment_bytes id fn rs [] false s fit ends_clean
  replay-reached rs typ payload (b ∷ front) (x ∷ back) s fit small e =
      replay_cut_segment id fn rs typ payload (b ∷ front) back x s fit small (sym e) (λ q. cc)
  replay-reached rs typ payload front [] s fit small e =
      let bytes : segment_bytes rs ++ front ≡ segment_bytes (rs ++ ((typ, payload) ∷ [])) ++ [] =
        ap (λ l. segment_bytes rs ++ l) (sym (append-nil front) ∙ e)
        ∙ sym (segment_bytes-append rs typ payload)
        ∙ sym (append-nil _) in
      ap (λ l. replay id (record { rest = l; fault = false }) fn s) bytes
      ∙ replay-segment_bytes id fn (rs ++ ((typ, payload) ∷ [])) [] false s
          (AllFit-append rs (typ, payload) fit small) ends_clean

-- Whatever becomes of the write and of the sync of an append to a segment of whole records, the replay of
-- the segment ends without an error of its own and hands over the records that were there, and the new one
-- exactly if none of its bytes is missing: a short write leaves a torn record, a failed sync a whole one.
pub replay-append :
    {S E : Type 0} (o : WriteOutcome) (typ : RecordType) (payload : List Byte) (w : SegmentWriter)
    (fs : Files) (rs : List Appended) (fn : Callback S E) (s : S)
    → w.closed ≡ false
    → length payload ≤ max_payload
    → AllFit rs
    → file_of w.id fs ≡ segment_bytes rs
    → let (result, w', fs') = append false o typ payload w fs in
      replay w.id (record { rest = file_of w.id fs'; fault = false }) fn s
      ≡ feed w.id fn 0 (kept (missing o (record_bytes typ payload)) rs (typ, payload)) s
replay-append o typ payload w fs rs fn s opened small fit whole =
    let file : file_of w.id (append false o typ payload w fs).2
        ≡ segment_bytes rs ++ reached o (record_bytes typ payload) =
      ap (λ x. file_of w.id x.2) (append-append_bytes o typ payload w fs opened small)
      ∙ file_of-append_bytes o w fs (record_bytes typ payload)
      ∙ ap (λ l. l ++ reached o (record_bytes typ payload)) whole in
    ap (λ l. replay w.id (record { rest = l; fault = false }) fn s) file
    ∙ replay-reached w.id fn rs typ payload (reached o (record_bytes typ payload))
        (missing o (record_bytes typ payload)) s fit small
        (reached-missing o (record_bytes typ payload))
