-- ===== src/Prelude/Text.antt =====
-- Prefixes, suffixes and padding of texts: `strings.HasPrefix`, `strings.HasSuffix`, the slice behind
-- or before them, and the `%0*d` of package fmt.
use Prim.Native.Char.{Char, code}
use text.Mathlib.TextPositions.{eq_refl}
use dist_log.Prelude.{
  ℕ, zero, suc, ◌+◌, ◌-◌, ◌<◌, ◌^◌, String, ◌≡◌, refl, ap, ◌∙◌, Bool, true, false, ◌&&◌, ◌||◌, leb,
  ◌==◌, Option, none, some, arith, str_eq, eq_iff, if◌then◌else◌, Bool-cases, inl, inr, subst,
}
use dist_log.Prelude.Decimal.{
  format_nat, parse_uint, read_digits, read_digits-format_nat, read_digits_zero, format_nat_shape,
}

pub chars : String → ℕ
chars String.[] = 0
chars (String.◌∷◌ c s) = suc (chars s)

unfoldable pub concat : String → String → String
concat String.[] t = t
concat (String.◌∷◌ c s) t = String.◌∷◌ c (concat s t)

pub chars-concat : (s t : String) → chars (concat s t) ≡ chars s + chars t
unfolding chars concat
chars-concat String.[] t = omega arith
chars-concat (String.◌∷◌ c s) t = omega (arith, chars-concat s t)

-- `unicode.IsSpace` of a character code.
abbrev pub is_space : ℕ → Bool
is_space n =
    (leb 9 n && leb n 13)
    || n == 32
    || n == 0x85
    || n == 0xa0
    || n == 0x1680
    || (leb 0x2000 n && leb n 0x200a)
    || n == 0x2028
    || n == 0x2029
    || n == 0x202f
    || n == 0x205f
    || n == 0x3000

unfoldable pub trim_left : String → String
trim_left String.[] = String.[]
trim_left (String.◌∷◌ c s) = if is_space (code c) then trim_left s else String.◌∷◌ c s

-- A space at the end goes.
abbrev keep_before : Char → String → String
keep_before c String.[] = if is_space (code c) then String.[] else String.◌∷◌ c String.[]
keep_before c (String.◌∷◌ d s) = String.◌∷◌ c (String.◌∷◌ d s)

unfoldable pub trim_right : String → String
trim_right String.[] = String.[]
trim_right (String.◌∷◌ c s) = keep_before c (trim_right s)

-- `strings.TrimSpace`
unfoldable pub trim_space : String → String
unfolding trim_left trim_right
trim_space s = trim_right (trim_left s)

-- The code that `strings.EqualFold` compares, where the other text is ASCII: the two letters outside
-- ASCII that fold to one inside are the long s and the Kelvin sign.
abbrev fold_code : ℕ → ℕ
fold_code n =
    if leb 65 n && leb n 90
    then n + 32
    else if n == 0x17f
    then 115
    else if n == 0x212a
    then 107
    else n

-- `strings.EqualFold(s, t)` for an ASCII text t.
unfoldable pub equal_fold : String → String → Bool
equal_fold String.[] String.[] = true
equal_fold String.[] (String.◌∷◌ d t) = false
equal_fold (String.◌∷◌ c s) String.[] = false
equal_fold (String.◌∷◌ c s) (String.◌∷◌ d t) =
    fold_code (code c) == fold_code (code d) && equal_fold s t

-- The text behind a prefix.
unfoldable pub strip_prefix : String → String → Option String
strip_prefix String.[] s = some s
strip_prefix (String.◌∷◌ c p) String.[] = none
strip_prefix (String.◌∷◌ c p) (String.◌∷◌ d s) =
    if str_eq (String.◌∷◌ c String.[]) (String.◌∷◌ d String.[]) then strip_prefix p s else none

abbrev behind : Char → Option String → Option String
behind c none = none
behind c (some s) = some (String.◌∷◌ c s)

-- The text before a suffix.
unfoldable pub strip_suffix : String → String → Option String
strip_suffix suf String.[] = if str_eq String.[] suf then some String.[] else none
strip_suffix suf (String.◌∷◌ c s) =
    if str_eq (String.◌∷◌ c s) suf then some String.[] else behind c (strip_suffix suf s)

pub strip_prefix-concat : (p s : String) → strip_prefix p (concat p s) ≡ some s
unfolding strip_prefix concat
strip_prefix-concat String.[] s = refl
strip_prefix-concat (String.◌∷◌ c p) s = rw eq_refl (strip_prefix-concat p s)

longer_not_eq : (s t : String) → chars t < chars s → str_eq s t ≡ false
longer_not_eq s t h = elim (Bool-cases (str_eq s t)) [
  | inl e ↦ absurd (omega (arith, ap chars ((eq_iff s t).0 e)))
  | inr e ↦ e
]

pub strip_suffix-concat : (t suf : String) → strip_suffix suf (concat t suf) ≡ some t
unfolding strip_suffix concat
strip_suffix-concat String.[] String.[] = refl
strip_suffix-concat String.[] (String.◌∷◌ c s) = rw eq_refl
strip_suffix-concat (String.◌∷◌ c t) suf =
    let ne =
      longer_not_eq (String.◌∷◌ c (concat t suf)) suf
        (unfold chars in omega (arith, chars-concat t suf)) in
    rw ne (ap (behind c) (strip_suffix-concat t suf))

-- `k` zeros in front of a text.
unfoldable pub zeros : ℕ → String → String
zeros zero s = s
zeros (suc k) s = String.◌∷◌ "0" (zeros k s)

-- `%0*d` with a width, for a number that is not negative.
unfoldable pub padded : ℕ → ℕ → String
unfolding zeros format_nat chars
padded width n = zeros (width - chars (format_nat n)) (format_nat n)

read_digits-zeros : (k : ℕ) (s : String) → read_digits (zeros k s) 0 ≡ read_digits s 0
unfolding zeros
read_digits-zeros zero s = refl
read_digits-zeros (suc k) s = read_digits_zero (zeros k s) ∙ read_digits-zeros k s

parse_uint_of :
    (c : Char) (s : String) (n : ℕ)
    → read_digits (String.◌∷◌ c s) 0 ≡ some n
    → n < 2 ^ 64
    → parse_uint (String.◌∷◌ c s) ≡ some n
unfolding parse_uint
parse_uint_of c s n e h = ground (arith, e)

parse_uint-zeros : (k n : ℕ) → n < 2 ^ 64 → parse_uint (zeros k (format_nat n)) ≡ some n
parse_uint-zeros zero n h =
    let (c, t, e, lo, hi) = format_nat_shape n in
    unfold zeros in
    rw e
      (parse_uint_of c t n (subst (λ s. read_digits s 0 ≡ some n) e (read_digits-format_nat n)) h)
parse_uint-zeros (suc k) n h =
    unfold zeros in
    parse_uint_of "0" (zeros k (format_nat n)) n
      (read_digits_zero (zeros k (format_nat n))
        ∙ read_digits-zeros k (format_nat n)
        ∙ read_digits-format_nat n)
      h

pub parse_uint-padded : (width n : ℕ) → n < 2 ^ 64 → parse_uint (padded width n) ≡ some n
parse_uint-padded width n h = unfold padded in parse_uint-zeros (width - chars (format_nat n)) n h
