-- ===== src/Wal/Names.antt =====
-- The segment file names of internal/wal/wal.go: "wal-000001.log".
use dist_log.Prelude.{ℕ, ◌<◌, ◌^◌, String, ◌≡◌, ap, ◌∙◌, refl, Option, none, some}
use dist_log.Prelude.Decimal.{parse_uint}
use dist_log.Prelude.Text.{
  concat, padded, strip_prefix, strip_suffix, strip_prefix-concat, strip_suffix-concat,
  parse_uint-padded,
}

abbrev segment_prefix : String
segment_prefix = "wal-"

abbrev segment_suffix : String
segment_suffix = ".log"

abbrev segment_number_width : ℕ
segment_number_width = 6

unfoldable pub segment_name : ℕ → String
unfolding concat padded
segment_name id = concat segment_prefix (concat (padded segment_number_width id) segment_suffix)

abbrev parse_mid : Option String → Option ℕ
parse_mid none = none
parse_mid (some mid) = parse_uint mid

abbrev parse_behind_prefix : Option String → Option ℕ
parse_behind_prefix none = none
parse_behind_prefix (some rest) = parse_mid (strip_suffix segment_suffix rest)

-- The prefix and the suffix cannot overlap: the one begins with "w", the other with ".".
unfoldable pub parse_segment_name : String → Option ℕ
unfolding strip_prefix strip_suffix parse_uint
parse_segment_name name = parse_behind_prefix (strip_prefix segment_prefix name)

-- A file of another name is passed over.
parse_other_name : parse_segment_name "sst-0000000000000001.sst" ≡ none
unfolding parse_segment_name
parse_other_name = refl

segment_name_one : segment_name 1 ≡ "wal-000001.log"
unfolding segment_name
segment_name_one = refl

-- The name of a segment gives its number back, also where it has more than six digits.
pub parse-segment_name : (id : ℕ) → id < 2 ^ 64 → parse_segment_name (segment_name id) ≡ some id
parse-segment_name id h =
    let mid = padded segment_number_width id in
    unfold parse_segment_name segment_name in
    ap parse_behind_prefix (strip_prefix-concat segment_prefix (concat mid segment_suffix))
    ∙ ap parse_mid (strip_suffix-concat mid segment_suffix)
    ∙ parse_uint-padded segment_number_width id h
