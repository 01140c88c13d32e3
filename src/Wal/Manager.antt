-- ===== src/Wal/Manager.antt =====
-- internal/wal/wal.go: the segment writer and the manager of a WAL directory. The directory is the
-- bytes of each segment file, by segment number; what the operating system may refuse is an argument.
pub mod Append
pub mod Order
pub mod Reread
use dist_log.Prelude.{
  ℕ, zero, suc, ◌+◌, ◌%◌, ◌^◌, str_eq, String, List, [], ◌∷◌, ◌++◌, Bool, true, false, Option, none,
  some, length, leb, ◌==◌, if◌then◌else◌, take,
}
use dist_log.Bytes.{Byte}
use dist_log.Wal.Record.{RecordType, header_size, Encoded, encoded, encode_record}
use dist_log.Wal.Names.{parse_segment_name}

pub record SegmentWriter : Type 0 where
  pub id : ℕ
  pub offset : ℕ
  pub closed : Bool

-- The files by segment number. A number that is not listed has no file.
abbrev pub Files : Type 0
Files = List (ℕ × List Byte)

unfoldable pub file_of : ℕ → Files → List Byte
file_of id [] = []
file_of id ((j, bytes) ∷ fs) = if j == id then bytes else file_of id fs

unfoldable pub set_file : ℕ → List Byte → Files → Files
set_file id bytes [] = (id, bytes) ∷ []
set_file id bytes ((j, old) ∷ fs) =
    if j == id then (id, bytes) ∷ fs else (j, old) ∷ set_file id bytes fs

unfoldable pub remove_file : ℕ → Files → Files
remove_file id [] = []
remove_file id ((j, bytes) ∷ fs) =
    let rest = remove_file id fs in if j == id then rest else (j, bytes) ∷ rest

-- `openSegmentWriter`: the file is made if it is not there, and the offset is its end.
unfoldable pub open_segment_writer : ℕ → Files → SegmentWriter × Files
unfolding file_of set_file
open_segment_writer id fs = (
  record { id = id; offset = length (file_of id fs); closed = false },
  set_file id (file_of id fs) fs,
)

-- What happens to one `Write` and the `Sync` behind it.
pub data WriteOutcome : Type 0 where
  all_synced : WriteOutcome
  short_write : ℕ → WriteOutcome
  sync_failed : WriteOutcome

pub data AppendResult : Type 0 where
  at_lsn : ℕ → AppendResult
  ctx_error writer_closed refused_record write_error sync_error : AppendResult

-- The buffer is grown to what the record needs before it is encoded.
abbrev append_bytes :
    WriteOutcome → SegmentWriter → Files → List Byte → AppendResult × SegmentWriter × Files
append_bytes all_synced w fs bytes = (
  at_lsn w.offset,
  record w { offset = w.offset + length bytes },
  set_file w.id (file_of w.id fs ++ bytes) fs,
)
append_bytes (short_write k) w fs bytes =
    (write_error, w, set_file w.id (file_of w.id fs ++ take k bytes) fs)
append_bytes sync_failed w fs bytes = (sync_error, w, set_file w.id (file_of w.id fs ++ bytes) fs)

abbrev append_encoded :
    WriteOutcome → SegmentWriter → Files → Encoded → AppendResult × SegmentWriter × Files
append_encoded outcome w fs (encoded bytes) = append_bytes outcome w fs bytes
append_encoded outcome w fs _ = (refused_record, w, fs)

-- `Append`, given whether the context is done.
unfoldable pub append :
    Bool
    → WriteOutcome
    → RecordType
    → List Byte
    → SegmentWriter
    → Files
    → AppendResult × SegmentWriter × Files
unfolding file_of set_file encode_record
append ctx_done outcome typ payload w fs =
    if ctx_done
    then (ctx_error, w, fs)
    else if w.closed
    then (writer_closed, w, fs)
    else append_encoded outcome w fs (encode_record (header_size + length payload) typ payload)

unfoldable pub close_writer : SegmentWriter → SegmentWriter
close_writer w = record w { closed = true }

pub record Manager : Type 0 where
  pub active : Option SegmentWriter
  pub sealed : List ℕ
  pub next_id : ℕ
  pub closed : Bool

pub record DirEntry : Type 0 where
  pub name : String
  pub is_dir : Bool

abbrev insert_sorted : ℕ → List ℕ → List ℕ
insert_sorted n [] = n ∷ []
insert_sorted n (m ∷ ms) = if leb n m then n ∷ m ∷ ms else m ∷ insert_sorted n ms

abbrev insert_if : Option ℕ → List ℕ → List ℕ
insert_if none ids = ids
insert_if (some id) ids = insert_sorted id ids

-- The numbers of the segment files in ascending order, as `sort.Slice` leaves them.
unfoldable pub list_segment_ids : List DirEntry → List ℕ
unfolding parse_segment_name
list_segment_ids [] = []
list_segment_ids (e ∷ es) =
    let ids = list_segment_ids es in
    if e.is_dir then ids else insert_if (parse_segment_name e.name) ids

-- All numbers but the last are sealed; the last one's file is opened again for writing.
abbrev adopt : List ℕ → ℕ → List ℕ → Files → Manager × Files
adopt before last [] fs =
    let (w, fs') = open_segment_writer last fs in
    (
      record { active = some w; sealed = before; next_id = (last + 1) % 2 ^ 64; closed = false },
      fs',
    )
adopt before last (id ∷ ids) fs = adopt (before ++ (last ∷ [])) id ids fs

-- The manager over the segments that were found.
unfoldable pub take_over : List ℕ → Files → Manager × Files
unfolding open_segment_writer
take_over [] fs =
    let (w, fs') = open_segment_writer 1 fs in
    (record { active = some w; sealed = []; next_id = 2; closed = false }, fs')
take_over (id ∷ ids) fs = adopt [] id ids fs

pub data OpenError : Type 0 where
  dir_required mkdir_failed read_dir_failed open_failed : OpenError

pub data ManagerResult : Type 0 where
  refused : OpenError → ManagerResult
  opened : Manager → Files → ManagerResult

-- Which calls of `OpenManager` fail: `MkdirAll`, `ReadDir` and the open of the active segment.
pub record OpenFaults : Type 0 where
  pub mkdir_fails : Bool
  pub read_dir_fails : Bool
  pub open_fails : Bool

abbrev pub no_open_faults : OpenFaults
no_open_faults = record { mkdir_fails = false; read_dir_fails = false; open_fails = false }

-- `OpenManager`
unfoldable pub open_manager : String → OpenFaults → List DirEntry → Files → ManagerResult
unfolding take_over list_segment_ids
open_manager dir faults es fs =
    if str_eq dir ""
    then refused dir_required
    else if faults.mkdir_fails
    then refused mkdir_failed
    else if faults.read_dir_fails
    then refused read_dir_failed
    else if faults.open_fails
    then refused open_failed
    else let (m, fs') = take_over (list_segment_ids es) fs in opened m fs'

pub data SealResult : Type 0 where
  sealed_segment : ℕ → SealResult
  manager_closed : SealResult
  close_error : SealResult
  open_error : ℕ → SealResult
  nil_writer : SealResult

-- What the operating system answers to the `Close` of the old file and the open of the new one.
pub data SealOutcome : Type 0 where
  both_fine close_fails open_fails : SealOutcome

abbrev seal_writer : SealOutcome → SegmentWriter → Manager → Files → SealResult × Manager × Files
seal_writer close_fails prev m fs =
    (close_error, record m { active = some (close_writer prev) }, fs)
seal_writer open_fails prev m fs =
    (open_error prev.id, record m { active = none; sealed = m.sealed ++ (prev.id ∷ []) }, fs)
seal_writer both_fine prev m fs =
    let (w, fs') = open_segment_writer m.next_id fs in
    (
      sealed_segment prev.id,
      record m {
        active = some w;
        sealed = m.sealed ++ (prev.id ∷ []);
        next_id = (m.next_id + 1) % 2 ^ 64;
      },
      fs',
    )

abbrev seal_active :
    SealOutcome → Option SegmentWriter → Manager → Files → SealResult × Manager × Files
seal_active outcome none m fs = (nil_writer, m, fs)
seal_active outcome (some prev) m fs = seal_writer outcome prev m fs

-- `Seal`. A nil active writer makes the source panic: `nil_writer`.
unfoldable pub seal : SealOutcome → Manager → Files → SealResult × Manager × Files
unfolding close_writer open_segment_writer
seal outcome m fs = if m.closed then (manager_closed, m, fs) else seal_active outcome m.active m fs

-- `Close` of the manager; the second call does nothing.
unfoldable pub close_manager : Manager → Manager
close_manager m = if m.closed then m else record m { closed = true; active = none }

-- `SealedSegment.Delete`: a missing file is no error.
unfoldable pub delete_segment : ℕ → Files → Files
unfolding remove_file
delete_segment id fs = remove_file id fs
