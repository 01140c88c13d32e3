-- ===== src/Sstable.antt =====
-- internal/sstable: the file format, the data blocks, the writer and the reader.
pub mod Format
pub mod Reader
pub mod Writer
pub mod Source
pub mod Layout
pub mod RoundTrip
