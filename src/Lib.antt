-- ===== src/Lib.antt =====
-- DistLog, a log store: a write goes to a write-ahead log and to a table in memory; full tables are frozen and
-- flushed to sorted table files; queries filter a merged scan of all of them.
--
-- The parts, and the files that model them:
--   Types: internal/types (LogRecord, DocID), Types.Allocator: allocator.go, with the 64-bit wrap of the
--     counter. Types.Entries: the sorted lists of records that iterators walk.
--   Wal.Record: internal/wal/record.go in bytes; Wal.Replay: replayPath of wal.go; Wal.Names: the segment
--     file names; Wal.Manager: segmentWriter and Manager of wal.go over a map of files. What the operating
--     system answers to a write, sync, close or open is an argument.
--   Memtable: internal/memtable. The third-party skip list is the record OrderedMap with its documented laws
--     for a comparator (iteration in its order, insertion replaces); SkipList is the one of New, with
--     `compare_doc_ids`, and Memtable.Compared what that order is. Memtable.SortedList meets the laws.
--   Sstable.Format: internal/sstable/format.go in bytes; Sstable.Writer: writer.go (Add, flushBlock, the
--     index, the meta block, the footer), Sstable.Writer.Close: Close and Abort; Sstable.Source: openSource
--     and loadBlock of reader.go over a source of bytes; Sstable.Reader: Get and the iterator of reader.go
--     over the blocks as loadBlock gives them, `none` where it fails. Sstable.Layout is the layout of a
--     file written down without the writer; Types.Codec: internal/types/codec.go, over encoding/json.
--   Query: the syntax tree of internal/query/parser.go; Query.Eval: evaluator.go; Query.Scope: scope.go;
--     Query.Parse: Parse; Query.Plan: planner.go and ScanOptions of internal/engine/engine.go;
--     Query.Execute: executor.go over any Scanner. `time.Parse` and the formatting of times are arguments.
--   Engine: internal/engine. State: Config and Engine; Write: Write, waitForStallClear; Read: Get,
--     ScanWithOptions, Stats; Scan: the merge of ScanWithOptions; Flush: doFreeze, flushOneIfAny, flushLoop,
--     onFatalError, Close; Table: the part of flushOneIfAny that writes and opens the file;
--     Startup: the directory scans and the table order of Open;
--     Recovery: the rest of Open, on the records of the log that a crash left; Replay: the replay in Open, from
--     the bytes of the log; Open: Open as a whole, from the files of the directory, with its error exits;
--     Codec: codec.go.
--   Server: authMiddleware, tenantFromCtx and handleGet of internal/server/server.go; Server.Queries:
--     handleQuery; Server.Ingest: handleIngest, handleHealth and the reading of timestamps.
--   Config: internal/config/config.go, and what cmd/distlog/main.go makes of it.
--   Bytes, Prelude: little-endian numbers, CRC-32, decimal numbers, text and lists as the source uses them.
--   Tests: the theorems at concrete inputs.
--
-- How they interact: the engine holds an active and several frozen memory tables, the readers of the table
-- files, and the log. It sees the log as records by segment; Wal shows that a segment's bytes give the appended
-- records back. A step of the engine is what one goroutine does under the lock; the steps in any order are
-- the type Steps of Engine.Laws.Sound, and Life of Engine.Life before the closing. A write takes its number
-- outside the lock, so the taking of a number and each attempt to append and store the record are steps of
-- their own. Each step takes the outcome of its file operations as an argument. A write to the log that is cut
-- short leaves a segment with torn bytes; what is appended behind them is kept apart in `behind`, since no
-- replay reaches it, and a record whose sync failed is in the segment, but not in the table. Open is given
-- the segment files that OpenManager found, which Wal.Manager models over segment numbers.
-- The outcome of a flush is computed by Engine.Table from the writer and the reader, whose files are bytes.
-- The server acts on the engine: a route is a function of the request and of the engine's state.
--
-- Bounds and fuel: replays run on as much fuel as there are bytes, merges on as much as there are records,
-- bisections on as much as there are blocks, each shown to be enough. Document, segment and sequence numbers and
-- the delays of retries wrap at 64 bits as in the source; sizes of memory tables are integers without bound.
-- In a table file the counts and the sizes of blocks wrap at 32 bits and the offsets at 64; the theorems on
-- whole files bound the encodings of the records by 1 GiB, which keeps them from wrapping.
--
-- Not modelled: the transport, the headers and the shutdown of the HTTP server; what a
-- failed write leaves of its bytes in a temporary file; third-party parsers and encoding/json; locks and the
-- scheduler below the level of steps; the console and the rest of the entry point, which hold no logic of the store.
pub mod Prelude
pub mod Bytes
pub mod Types
pub mod Wal
pub mod Sstable
pub mod Memtable
pub mod Query
pub mod Engine
pub mod Server
pub mod Config
pub mod Tests
