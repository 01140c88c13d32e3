-- ===== src/Bytes/Crc.antt =====
-- hash/crc32 with the IEEE polynomial, one bit at a time.
use Prim.Native.Nat.{bit_xor}
use dist_log.Prelude.{
  ℕ, zero, suc, ◌-◌, ◌/◌, ◌%◌, ◌^◌, ◌<◌, List, [], ◌∷◌, ◌++◌, ◌≡◌, refl, ap, arith, ◌==◌,
  if◌then◌else◌,
}

crc_bits : ℕ → ℕ → ℕ
crc_bits zero c = c
crc_bits (suc k) c = crc_bits k (if c % 2 == 0 then c / 2 else bit_xor (c / 2) 0xedb88320)

crc_loop : List ℕ → ℕ → ℕ
unfolding crc_bits
crc_loop [] c = c
crc_loop (b ∷ bs) c = crc_loop bs (crc_bits 8 (bit_xor c b) % 2 ^ 32)

-- `^c` on a uint32.
abbrev complement : ℕ → ℕ
complement c = 2 ^ 32 - 1 - c

-- `crc32.Update(crc, table, b)`
unfoldable pub update : ℕ → List ℕ → ℕ
unfolding crc_loop
update crc b = complement (crc_loop b (complement crc))

-- `crc32.Checksum(b, table)`
unfoldable pub checksum : List ℕ → ℕ
unfolding update
checksum b = update 0 b

crc_loop-lt : (b : List ℕ) (c : ℕ) → c < 2 ^ 32 → crc_loop b c < 2 ^ 32
unfolding crc_loop
crc_loop-lt [] c h = h
crc_loop-lt (x ∷ xs) c h = crc_loop-lt xs _ (omega arith)

crc_loop-append : (a b : List ℕ) (c : ℕ) → crc_loop (a ++ b) c ≡ crc_loop b (crc_loop a c)
unfolding crc_loop
crc_loop-append [] b c = refl
crc_loop-append (x ∷ xs) b c = crc_loop-append xs b _

pub checksum-lt : (b : List ℕ) → checksum b < 2 ^ 32
unfolding checksum update
checksum-lt b = omega arith

-- A checksum can be taken in two updates.
pub update-update : (a b : List ℕ) → update (update 0 a) b ≡ checksum (a ++ b)
unfolding checksum update
update-update a b =
    let h = crc_loop-lt a (complement 0) (omega arith) in
    let e : complement (complement (crc_loop a (complement 0))) ≡ crc_loop a (complement 0) =
      omega (arith, h) in
    rw crc_loop-append (ap (λ c. complement (crc_loop b c)) e)

-- The check value that the CRC-32 catalogues give for "123456789".
check_value :
    checksum (b'1' ∷ b'2' ∷ b'3' ∷ b'4' ∷ b'5' ∷ b'6' ∷ b'7' ∷ b'8' ∷ b'9' ∷ []) ≡ 0xcbf43926
unfolding checksum
check_value = refl
