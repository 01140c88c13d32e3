-- ===== src/Prelude/Decimal.antt =====
-- Base-10 text of integers: Go's `fmt.Sprintf("%d", n)`, `strconv.ParseUint` and `strconv.ParseInt`
-- with base 10 and 64 bits, over native strings.
use Prim.Native.Char.{Char, code}
use dist_log.Prelude.{
  ℕ, zero, suc, ◌+◌, ◌-◌, ◌*◌, ◌/◌, ◌%◌, ◌^◌, ◌≤◌, ◌<◌, String, ◌≡◌, refl, ◌∙◌, ap, Bool, true,
  false, ◌&&◌, Option, none, some, arith, ltb, leb, ◌==◌, if◌then◌else◌, Bool-cases, inl, inr,
  subst, ltb→lt,
}
use dist_log.Prelude.Int.{ℤ, pos, negsuc}

unfoldable pub digit_char : ℕ → Char
digit_char d =
    if d == 0
    then "0"
    else if d == 1
    then "1"
    else if d == 2
    then "2"
    else if d == 3
    then "3"
    else if d == 4
    then "4"
    else if d == 5
    then "5"
    else if d == 6
    then "6"
    else if d == 7
    then "7"
    else if d == 8
    then "8"
    else "9"

pub code-digit_char : (d : ℕ) → d < 10 → code (digit_char d) ≡ d + 48
unfolding digit_char
code-digit_char zero h = refl
code-digit_char (suc zero) h = refl
code-digit_char (suc (suc zero)) h = refl
code-digit_char (suc (suc (suc zero))) h = refl
code-digit_char (suc (suc (suc (suc zero)))) h = refl
code-digit_char (suc (suc (suc (suc (suc zero))))) h = refl
code-digit_char (suc (suc (suc (suc (suc (suc zero)))))) h = refl
code-digit_char (suc (suc (suc (suc (suc (suc (suc zero))))))) h = refl
code-digit_char (suc (suc (suc (suc (suc (suc (suc (suc zero)))))))) h = refl
code-digit_char (suc (suc (suc (suc (suc (suc (suc (suc (suc zero))))))))) h = refl
code-digit_char (suc (suc (suc (suc (suc (suc (suc (suc (suc (suc n)))))))))) h =
    absurd (omega arith)

-- The digits of `n`, most significant first, in front of `rest`. One digit is written a round, so
-- `suc n` rounds are enough.
unfoldable pub digits_before : ℕ → ℕ → String → String
digits_before zero n rest = rest
digits_before (suc f) n rest =
    let more = digits_before f (n / 10) (String.◌∷◌ (digit_char (n % 10)) rest) in
    if ltb n 10 then String.◌∷◌ (digit_char n) rest else more

unfoldable pub format_nat : ℕ → String
unfolding digits_before digit_char
format_nat n = digits_before (suc n) n ""

unfoldable pub format_int : ℤ → String
unfolding format_nat
format_int (pos n) = format_nat n
format_int (negsuc n) = String.◌∷◌ "-" (format_nat (suc n))

-- The number of a text of digits, read from the left onto `acc`.
unfoldable pub read_digits : String → ℕ → Option ℕ
read_digits String.[] acc = some acc
read_digits (String.◌∷◌ c s) acc =
    if leb 48 (code c) && leb (code c) 57 then read_digits s (acc * 10 + (code c - 48)) else none

abbrev at_most : ℕ → Option ℕ → Option ℕ
at_most top none = none
at_most top (some n) = if leb n top then some n else none

-- An empty text is refused, and a value out of range is an error.
unfoldable pub parse_uint : String → Option ℕ
unfolding read_digits
parse_uint String.[] = none
parse_uint (String.◌∷◌ c s) = at_most (2 ^ 64 - 1) (read_digits (String.◌∷◌ c s) 0)

abbrev signed : Bool → Option ℕ → Option ℤ
signed neg none = none
signed true (some zero) = some (pos 0)
signed true (some (suc n)) = if leb (suc n) (2 ^ 63) then some (negsuc n) else none
signed false (some n) = if leb n (2 ^ 63 - 1) then some (pos n) else none

abbrev parse_magnitude : String → Option ℕ
parse_magnitude String.[] = none
parse_magnitude (String.◌∷◌ c s) = read_digits (String.◌∷◌ c s) 0

unfoldable pub parse_int : String → Option ℤ
unfolding read_digits
parse_int String.[] = none
parse_int (String.◌∷◌ c s) =
    if code c == b'-'
    then signed true (parse_magnitude s)
    else if code c == b'+'
    then signed false (parse_magnitude s)
    else signed false (parse_magnitude (String.◌∷◌ c s))

read_digits-digit :
    (d acc : ℕ) (s : String)
    → d < 10
    → read_digits (String.◌∷◌ (digit_char d) s) acc ≡ read_digits s (acc * 10 + d)
unfolding read_digits
read_digits-digit d acc s h = ground (arith, code-digit_char d h)

-- Reading what `digits_before` wrote goes on with `n` as the number read so far.
pub read_digits-digits_before :
    (f n : ℕ) (rest : String) → n < f → read_digits (digits_before f n rest) 0 ≡ read_digits rest n
unfolding digits_before
read_digits-digits_before zero n rest h = absurd (omega arith)
read_digits-digits_before (suc f) n rest h = elim (Bool-cases (ltb n 10)) [
  | inl e ↦ rw e (read_digits-digit n 0 rest (ground arith) ∙ ap (read_digits rest) (omega arith))
  | inr e ↦ rw e (
      read_digits-digits_before f (n / 10) (String.◌∷◌ (digit_char (n % 10)) rest) (ground arith)
      ∙ read_digits-digit (n % 10) (n / 10) rest (omega arith)
      ∙ ap (read_digits rest) (omega arith))
]

pub read_digits-format_nat : (n : ℕ) → read_digits (format_nat n) 0 ≡ some n
unfolding format_nat
read_digits-format_nat n =
    read_digits-digits_before (suc n) n "" (omega arith) ∙ (unfold read_digits in refl)

-- Leading zeros do not change the number that is read.
pub read_digits_zero : (s : String) → read_digits (String.◌∷◌ "0" s) 0 ≡ read_digits s 0
unfolding read_digits
read_digits_zero s = refl

first_digit :
    (f n : ℕ) (rest : String)
    → n < f
    → (c : Char) × (t : String) × (digits_before f n rest ≡ String.◌∷◌ c t)
      × (48 ≤ code c)
      × (code c ≤ 57)
unfolding digits_before
first_digit zero n rest h = absurd (omega arith)
first_digit (suc f) n rest h = elim (Bool-cases (ltb n 10)) [
  | inl e ↦ rw e (
    digit_char n,
    rest,
    refl,
    omega (arith, ltb→lt n 10 e, code-digit_char n (ltb→lt n 10 e)),
    omega (arith, ltb→lt n 10 e, code-digit_char n (ltb→lt n 10 e)),
  )
  | inr e ↦ rw e (first_digit f (n / 10) (String.◌∷◌ (digit_char (n % 10)) rest) (ground arith))
]

-- A formatted number is no empty text, and begins with a digit.
pub format_nat_shape :
    (n : ℕ)
    → (c : Char) × (t : String) × (format_nat n ≡ String.◌∷◌ c t) × (48 ≤ code c) × (code c ≤ 57)
unfolding format_nat
format_nat_shape n = first_digit (suc n) n "" (omega arith)

pub parse_uint-format_nat : (n : ℕ) → n < 2 ^ 64 → parse_uint (format_nat n) ≡ some n
parse_uint-format_nat n h =
    let (c, t, e, lo, hi) = format_nat_shape n in
    let r : read_digits (String.◌∷◌ c t) 0 ≡ some n =
      subst (λ s. read_digits s 0 ≡ some n) e (read_digits-format_nat n) in
    rw e (unfold parse_uint in ground (arith, r))

pub parse_int-format_int_pos : (n : ℕ) → n < 2 ^ 63 → parse_int (format_int (pos n)) ≡ some (pos n)
parse_int-format_int_pos n h =
    let (c, t, e, lo, hi) = format_nat_shape n in
    let r : read_digits (String.◌∷◌ c t) 0 ≡ some n =
      subst (λ s. read_digits s 0 ≡ some n) e (read_digits-format_nat n) in
    unfold format_int in rw e (unfold parse_int in ground (arith, r))

pub parse_int-format_int_neg :
    (n : ℕ) → n < 2 ^ 63 → parse_int (format_int (negsuc n)) ≡ some (negsuc n)
parse_int-format_int_neg n h =
    let (c, t, e, lo, hi) = format_nat_shape (suc n) in
    let r : read_digits (String.◌∷◌ c t) 0 ≡ some (suc n) =
      subst (λ s. read_digits s 0 ≡ some (suc n)) e (read_digits-format_nat (suc n)) in
    unfold format_int in rw e (unfold parse_int in ground (arith, r))

-- An `int64` is read back from its text.
abbrev pub IsI64 : ℤ → Type 0
IsI64 (pos n) = n < 2 ^ 63
IsI64 (negsuc n) = n < 2 ^ 63

pub parse_int-format_int : (z : ℤ) → IsI64 z → parse_int (format_int z) ≡ some z
parse_int-format_int (pos n) h = parse_int-format_int_pos n h
parse_int-format_int (negsuc n) h = parse_int-format_int_neg n h

-- Above the range of `int64` the text of a number is refused.
pub parse_int_too_big : (n : ℕ) → 2 ^ 63 ≤ n → parse_int (format_int (pos n)) ≡ none
parse_int_too_big n h =
    let (c, t, e, lo, hi) = format_nat_shape n in
    let r : read_digits (String.◌∷◌ c t) 0 ≡ some n =
      subst (λ s. read_digits s 0 ≡ some n) e (read_digits-format_nat n) in
    unfold format_int in rw e (unfold parse_int in ground (arith, r))

pub parse_int_too_small : (n : ℕ) → 2 ^ 63 ≤ n → parse_int (format_int (negsuc n)) ≡ none
parse_int_too_small n h =
    let (c, t, e, lo, hi) = format_nat_shape (suc n) in
    let r : read_digits (String.◌∷◌ c t) 0 ≡ some (suc n) =
      subst (λ s. read_digits s 0 ≡ some (suc n)) e (read_digits-format_nat (suc n)) in
    unfold format_int in rw e (unfold parse_int in ground (arith, r))

-- Whatever number `parse_int` reads from the text of `z` is `z`.
pub parse_int-format_int_only : (z r : ℤ) → parse_int (format_int z) ≡ some r → z ≡ r
parse_int-format_int_only (pos n) r h = elim (Bool-cases (ltb n (2 ^ 63))) [
  | inl e ↦ cc (h, parse_int-format_int_pos n (ltb→lt n (2 ^ 63) e))
  | inr e ↦ cc (h, parse_int_too_big n (ground arith))
]
parse_int-format_int_only (negsuc n) r h = elim (Bool-cases (ltb n (2 ^ 63))) [
  | inl e ↦ cc (h, parse_int-format_int_neg n (ltb→lt n (2 ^ 63) e))
  | inr e ↦ cc (h, parse_int_too_small n (ground arith))
]

-- The text without a sign check: `none` on an empty text.
signed_text : String → Option ℕ × Option ℕ
signed_text String.[] = (none, none)
signed_text (String.◌∷◌ c s) =
    if code c == b'-' then (none, read_digits s 0) else (read_digits (String.◌∷◌ c s) 0, none)

signed_text_pos : (n : ℕ) → signed_text (format_int (pos n)) ≡ (some n, none)
unfolding signed_text
signed_text_pos n =
    let (c, t, e, lo, hi) = format_nat_shape n in
    let r : read_digits (String.◌∷◌ c t) 0 ≡ some n =
      subst (λ s. read_digits s 0 ≡ some n) e (read_digits-format_nat n) in
    unfold format_int in rw e (ground (arith, r))

signed_text_neg : (n : ℕ) → signed_text (format_int (negsuc n)) ≡ (none, some (suc n))
unfolding signed_text
signed_text_neg n = unfold format_int in ground (arith, read_digits-format_nat (suc n))

-- Two integers with the same text are the same.
pub format_int-injective : (a b : ℤ) → format_int a ≡ format_int b → a ≡ b
format_int-injective (pos m) (pos n) h = cc (signed_text_pos m, signed_text_pos n, ap signed_text h)
format_int-injective (pos m) (negsuc n) h =
    cc (signed_text_pos m, signed_text_neg n, ap signed_text h)
format_int-injective (negsuc m) (pos n) h =
    cc (signed_text_neg m, signed_text_pos n, ap signed_text h)
format_int-injective (negsuc m) (negsuc n) h =
    cc (signed_text_neg m, signed_text_neg n, ap signed_text h)
