-- ===== src/Engine/Startup.antt =====
-- The file names of the tables and what `Open` of internal/engine/engine.go does with the data directory
-- before the log is read.
pub mod Order
use dist_log.Prelude.{
  ℕ, zero, suc, ◌+◌, ◌<◌, ◌^◌, String, ◌≡◌, refl, sym, arith, ap, ◌∙◌, List, [], ◌∷◌, ◌++◌, Option,
  none, some, Bool, true, false, ◌&&◌, ◌||◌, not, length, str_eq, eq_iff, Bool-cases, inl, inr, ltb,
  ◌==◌, if◌then◌else◌,
}
use dist_log.Prelude.Decimal.{parse_uint}
use dist_log.Prelude.Text.{
  concat, padded, strip_prefix, strip_suffix, strip_prefix-concat, strip_suffix-concat,
  parse_uint-padded,
}
use dist_log.Types.{DocId}
use dist_log.Sstable.Reader.{Reader}
use dist_log.Wal.Manager.{DirEntry}

abbrev sstable_prefix : String
sstable_prefix = "sst-"

abbrev sstable_suffix : String
sstable_suffix = ".sst"

abbrev sstable_tmp_suffix : String
sstable_tmp_suffix = ".sst.tmp"

unfoldable pub sstable_filename : ℕ → String
unfolding concat padded
sstable_filename seq = concat sstable_prefix (concat (padded 16 seq) sstable_suffix)

abbrev parse_digits : Option String → Option ℕ
parse_digits none = none
parse_digits (some digits) = parse_uint digits

abbrev parse_behind : Option String → Option String → Option ℕ
parse_behind (some digits) other = parse_uint digits
parse_behind none other = parse_digits other

abbrev parse_rest : Option String → Option ℕ
parse_rest none = none
parse_rest (some rest) =
    parse_behind (strip_suffix sstable_tmp_suffix rest) (strip_suffix sstable_suffix rest)

unfoldable pub parse_sstable_id : String → Option ℕ
unfolding strip_prefix strip_suffix parse_uint
parse_sstable_id name = parse_rest (strip_prefix sstable_prefix name)

abbrev larger : Option ℕ → ℕ → ℕ
larger none n = n
larger (some id) n = if ltb n id then id else n

-- `loadSSTableMaxID`, over the entries that `os.ReadDir` gives.
unfoldable pub max_id_from : List DirEntry → ℕ → ℕ
unfolding parse_sstable_id
max_id_from [] n = n
max_id_from (e ∷ es) n = max_id_from es (if e.is_dir then n else larger (parse_sstable_id e.name) n)

unfoldable pub load_sstable_max_id : List DirEntry → ℕ
unfolding max_id_from
load_sstable_max_id es = max_id_from es 0

abbrev has : Option String → Bool
has none = false
has (some s) = true

abbrev is_table_name : String → Bool
is_table_name name =
    has (strip_prefix sstable_prefix name)
    && has (strip_suffix sstable_suffix name)
    && not (has (strip_suffix sstable_tmp_suffix name))

-- `removeOrphanSSTableTmp`, as the entries that stay.
unfoldable pub remove_orphan_sstable_tmp : List DirEntry → List DirEntry
unfolding strip_prefix strip_suffix
remove_orphan_sstable_tmp [] = []
remove_orphan_sstable_tmp (e ∷ es) =
    let rest = remove_orphan_sstable_tmp es in
    if not e.is_dir
      && (has (strip_prefix sstable_prefix e.name) && has (strip_suffix sstable_tmp_suffix e.name))
    then rest
    else e ∷ rest

-- What opening a table file, and moving a broken one away, comes to.
pub data Opened : Type 0 where
  readable : Reader → Opened
  quarantined quarantine_failed : Opened

pub record Loaded : Type 0 where
  pub readers : List Reader
  pub quarantined_count : ℕ

abbrev load_next : Opened → Loaded → Option Loaded
load_next (readable r) l = some (record l { readers = l.readers ++ (r ∷ []) })
load_next quarantined l = some (record l { quarantined_count = l.quarantined_count + 1 })
load_next quarantine_failed l = none

-- `loadAllSSTables`; `none` is a quarantine that failed. `open` answers for a file name.
unfoldable pub load_from : (String → Opened) → List DirEntry → Loaded → Option Loaded
unfolding strip_prefix strip_suffix
load_from open_table [] l = some l
load_from open_table (e ∷ es) l = elim (not e.is_dir && is_table_name e.name) [
  | false ↦ load_from open_table es l
  | true ↦ elim (load_next (open_table e.name) l) [
    | none ↦ none
    | some l' ↦ load_from open_table es l'
  ]
]

unfoldable pub load_all_sstables : (String → Opened) → List DirEntry → Option Loaded
unfolding load_from
load_all_sstables open_table es =
    load_from open_table es (record { readers = []; quarantined_count = 0 })

-- A table goes before another with a smaller greatest number, or with the same one and a smaller least.
abbrev pub newer : Reader → Reader → Bool
newer a b =
    ltb b.meta.max_doc_id a.meta.max_doc_id
    || (a.meta.max_doc_id == b.meta.max_doc_id && ltb b.meta.min_doc_id a.meta.min_doc_id)

-- The inner loop: every newer table is swapped into the place of `r`.
unfoldable pub select_newest : Reader → List Reader → Reader × List Reader
select_newest r [] = (r, [])
select_newest r (x ∷ xs) = elim (newer x r) [
  | true ↦ let (best, rest) = select_newest x xs in (best, r ∷ rest)
  | false ↦ let (best, rest) = select_newest r xs in (best, x ∷ rest)
]

-- The outer loop, for `fuel` places.
unfoldable pub sort_from : ℕ → List Reader → List Reader
unfolding select_newest
sort_from zero rs = rs
sort_from (suc fuel) [] = []
sort_from (suc fuel) (r ∷ rs) = let (best, rest) = select_newest r rs in best ∷ sort_from fuel rest

unfoldable pub sort_sstables_newest_first : List Reader → List Reader
unfolding sort_from
sort_sstables_newest_first rs = sort_from (length rs) rs

last_char : String → String
last_char String.[] = String.[]
last_char (String.◌∷◌ c s) = elim s [
  | String.[] ↦ String.◌∷◌ c String.[]
  | String.◌∷◌ d t ↦ last_char s
]

last_char-concat : (s : String) → last_char (concat s sstable_suffix) ≡ "t"
unfolding last_char concat
last_char-concat String.[] = refl
last_char-concat (String.◌∷◌ c String.[]) = refl
last_char-concat (String.◌∷◌ c (String.◌∷◌ d s)) = last_char-concat (String.◌∷◌ d s)

not_tmp : (s : String) → str_eq (concat s sstable_suffix) sstable_tmp_suffix ≡ false
unfolding last_char
not_tmp s = elim (Bool-cases (str_eq (concat s sstable_suffix) sstable_tmp_suffix)) [
  | inr e ↦ e
  | inl e ↦
      let t : "t" ≡ "p" =
        sym (last_char-concat s)
        ∙ ap last_char ((eq_iff (concat s sstable_suffix) sstable_tmp_suffix).0 e) in
      let b : true ≡ false = ap (λ c. str_eq c "t") t in ground (arith, b)
]

strip_suffix_tmp : (s : String) → strip_suffix sstable_tmp_suffix (concat s sstable_suffix) ≡ none
unfolding strip_suffix concat
strip_suffix_tmp String.[] = refl
strip_suffix_tmp (String.◌∷◌ c s) = rw (not_tmp (String.◌∷◌ c s), strip_suffix_tmp s) refl

-- The name of a table gives its number back.
pub parse-sstable_filename :
    (seq : ℕ) → seq < 2 ^ 64 → parse_sstable_id (sstable_filename seq) ≡ some seq
parse-sstable_filename seq h =
    let digits = padded 16 seq in
    unfold parse_sstable_id sstable_filename in
    ap parse_rest (strip_prefix-concat sstable_prefix (concat digits sstable_suffix))
    ∙ ap (λ o. parse_behind o (strip_suffix sstable_suffix (concat digits sstable_suffix)))
        (strip_suffix_tmp digits)
    ∙ ap parse_digits (strip_suffix-concat digits sstable_suffix)
    ∙ parse_uint-padded 16 seq h
