-- ===== src/Bytes/Laws.antt =====
-- What is written by `put_le` is read back by `get_le`.
use native.Mathlib.Nat.{pow-suc}
use dist_log.Prelude.{
  ℕ, zero, suc, ◌/◌, ◌^◌, ◌<◌, ◌≡◌, refl, ap, ap₂, ◌∙◌, List, [], ◌∷◌, ◌++◌, take, drop, length,
  arith,
}
use dist_log.Prelude.Int.{ℤ, pos, negsuc}
use dist_log.Prelude.Decimal.{IsI64}
use dist_log.Bytes.{Byte, put_le, get_le, to_u64, from_u64, AllBytes}

pub length-put_le : (k n : ℕ) → length (put_le k n) ≡ k
unfolding put_le
length-put_le zero n = refl
length-put_le (suc k) n = omega (arith, length-put_le k (n / 256))

pub put_le-AllBytes : (k n : ℕ) → AllBytes (put_le k n)
unfolding put_le
put_le-AllBytes zero n = tt
put_le-AllBytes (suc k) n = (omega arith, put_le-AllBytes k (n / 256))

pub get_le-put_le : (k n : ℕ) → n < 256 ^ k → get_le (put_le k n) ≡ n
unfolding put_le get_le
get_le-put_le zero n h = omega arith
get_le-put_le (suc k) n h = omega (arith, get_le-put_le k (n / 256) (omega arith))

pub get_le-lt : (bs : List Byte) → AllBytes bs → get_le bs < 256 ^ length bs
unfolding get_le
get_le-lt [] h = omega arith
get_le-lt (b ∷ bs) h = omega (arith, h.0, get_le-lt bs h.1, pow-suc 256 (length bs))

pub put_le-get_le : (bs : List Byte) → AllBytes bs → put_le (length bs) (get_le bs) ≡ bs
unfolding put_le get_le
put_le-get_le [] h = refl
put_le-get_le (b ∷ bs) h =
    ap₂ (λ c l. c ∷ l) (omega arith) (ap (put_le (length bs)) (omega arith) ∙ put_le-get_le bs h.1)

pub take-length-append {ℓ} : {A : Type ℓ} (xs ys : List A) → take (length xs) (xs ++ ys) ≡ xs
take-length-append [] ys = refl
take-length-append (x ∷ xs) ys = ap (λ l. x ∷ l) (take-length-append xs ys)

pub drop-length-append {ℓ} : {A : Type ℓ} (xs ys : List A) → drop (length xs) (xs ++ ys) ≡ ys
drop-length-append [] ys = refl
drop-length-append (x ∷ xs) ys = drop-length-append xs ys

pub from_u64-to_u64 : (z : ℤ) → IsI64 z → from_u64 (to_u64 z) ≡ z
unfolding from_u64 to_u64
from_u64-to_u64 (pos n) h = ground arith
from_u64-to_u64 (negsuc n) h = ground arith

pub to_u64-lt : (z : ℤ) → IsI64 z → to_u64 z < 2 ^ 64
unfolding to_u64
to_u64-lt (pos n) h = omega arith
to_u64-lt (negsuc n) h = omega arith
