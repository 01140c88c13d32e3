-- ===== src/Bytes.antt =====
-- Byte slices as lists of numbers: `encoding/binary.LittleEndian`, slicing, and the CRC-32 (IEEE) of
-- hash/crc32 that internal/wal and internal/sstable use.
pub mod Crc
pub mod Laws
use dist_log.Prelude.{
  ℕ, zero, suc, ◌+◌, ◌-◌, ◌*◌, ◌/◌, ◌%◌, ◌^◌, ◌<◌, List, [], ◌∷◌, ◌++◌, take, drop, ltb,
  if◌then◌else◌,
}
use dist_log.Prelude.Int.{ℤ, pos, negsuc}

abbrev pub Byte : Type 0
Byte = ℕ

-- `PutUint32` is `put_le 4` and `PutUint64` is `put_le 8`.
unfoldable pub put_le : ℕ → ℕ → List Byte
put_le zero n = []
put_le (suc k) n = (n % 256) ∷ put_le k (n / 256)

-- `Uint32` and `Uint64` of a slice of that length.
unfoldable pub get_le : List Byte → ℕ
get_le [] = 0
get_le (b ∷ bs) = b + 256 * get_le bs

-- `b[lo:hi]`
abbrev pub slice : ℕ → ℕ → List Byte → List Byte
slice lo hi b = take (hi - lo) (drop lo b)

-- `uint64(t)` and `int64(n)` of a two's complement machine.
unfoldable pub to_u64 : ℤ → ℕ
to_u64 (pos n) = n
to_u64 (negsuc n) = 2 ^ 64 - 1 - n

unfoldable pub from_u64 : ℕ → ℤ
from_u64 m = if ltb m (2 ^ 63) then pos m else negsuc (2 ^ 64 - 1 - m)

abbrev pub AllBytes : List Byte → Type 0
AllBytes [] = Unit
AllBytes (b ∷ bs) = (b < 256) × AllBytes bs
