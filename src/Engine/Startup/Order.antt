-- ===== src/Engine/Startup/Order.antt =====
-- The order of the tables after `sortSSTablesNewestFirst` of internal/engine/engine.go.
use dist_log.Prelude.{
  ℕ, zero, suc, ◌+◌, ◌≤◌, ◌≡◌, refl, ap, List, [], ◌∷◌, Bool, true, false, length, if◌then◌else◌,
  arith, Bool-cases, inl, inr,
}
use dist_log.Sstable.Reader.{Reader}
use dist_log.Engine.Startup.{newer, select_newest, sort_from, sort_sstables_newest_first}

-- No table of the list is newer than `a`.
abbrev pub NoneNewer : Reader → List Reader → Type 0
NoneNewer a [] = Unit
NoneNewer a (r ∷ rs) = (newer r a ≡ false) × NoneNewer a rs

abbrev pub NewestFirst : List Reader → Type 0
NewestFirst [] = Unit
NewestFirst (r ∷ rs) = NoneNewer r rs × NewestFirst rs

-- How many tables of the list pass a test.
pub count : (Reader → Bool) → List Reader → ℕ
count p [] = 0
count p (r ∷ rs) = (if p r then 1 else 0) + count p rs

count-select_newest :
    (p : Reader → Bool) (r : Reader) (rs : List Reader)
    → let (best, rest) = select_newest r rs in count p (best ∷ rest) ≡ count p (r ∷ rs)
unfolding count select_newest
count-select_newest p r [] = refl
count-select_newest p r (x ∷ xs) = elim (Bool-cases (newer x r)) [
  | inl e ↦ rw (e, select_newest) (omega (arith, count-select_newest p x xs))
  | inr e ↦ rw (e, select_newest) (omega (arith, count-select_newest p r xs))
]

newer_trans : (a b r : Reader) → newer b a ≡ false → newer r b ≡ false → newer r a ≡ false
newer_trans a b r p q = ground (arith, p, q)

newer_asym : (x r : Reader) → newer x r ≡ true → newer r x ≡ false
newer_asym x r p = ground (arith, p)

newer_irrefl : (r : Reader) → newer r r ≡ false
newer_irrefl r = ground arith

select_newest-NoneNewer :
    (r : Reader) (rs : List Reader)
    → let (best, rest) = select_newest r rs in (newer r best ≡ false) × NoneNewer best rest
unfolding select_newest
select_newest-NoneNewer r [] = (newer_irrefl r, tt)
select_newest-NoneNewer r (x ∷ xs) = elim (Bool-cases (newer x r)) [
  | inl e ↦
      let (p, n) = select_newest-NoneNewer x xs in
      let q = newer_trans (select_newest x xs).0 x r p (newer_asym x r e) in
      rw (e, select_newest) (q, (q, n))
  | inr e ↦
      let (p, n) = select_newest-NoneNewer r xs in
      rw (e, select_newest) (p, (newer_trans (select_newest r xs).0 r x p e, n))
]

NoneNewer-select_newest :
    (a r : Reader) (rs : List Reader)
    → NoneNewer a (r ∷ rs)
    → let (best, rest) = select_newest r rs in NoneNewer a (best ∷ rest)
unfolding select_newest
NoneNewer-select_newest a r [] n = n
NoneNewer-select_newest a r (x ∷ xs) (n, (m, l)) = elim (Bool-cases (newer x r)) [
  | inl e ↦ let (p, q) = NoneNewer-select_newest a x xs (m, l) in rw (e, select_newest) (p, (n, q))
  | inr e ↦ let (p, q) = NoneNewer-select_newest a r xs (n, l) in rw (e, select_newest) (p, (m, q))
]

NoneNewer-sort_from :
    (fuel : ℕ) (a : Reader) (rs : List Reader) → NoneNewer a rs → NoneNewer a (sort_from fuel rs)
unfolding sort_from
NoneNewer-sort_from zero a rs n = n
NoneNewer-sort_from (suc fuel) a [] n = tt
NoneNewer-sort_from (suc fuel) a (r ∷ rs) n =
    let (p, q) = NoneNewer-select_newest a r rs n in
    (p, NoneNewer-sort_from fuel a (select_newest r rs).1 q)

pub length-select_newest :
    (r : Reader) (rs : List Reader) → length (select_newest r rs).1 ≡ length rs
unfolding select_newest
length-select_newest r [] = refl
length-select_newest r (x ∷ xs) = elim (Bool-cases (newer x r)) [
  | inl e ↦ rw (e, select_newest) (ap suc (length-select_newest x xs))
  | inr e ↦ rw (e, select_newest) (ap suc (length-select_newest r xs))
]

sort_from_lem :
    (fuel : ℕ) (rs : List Reader)
    → length rs ≤ fuel
    → NewestFirst (sort_from fuel rs)
      × ((p : Reader → Bool) → count p (sort_from fuel rs) ≡ count p rs)
unfolding sort_from count
sort_from_lem zero [] h = (tt, λ p. refl)
sort_from_lem zero (r ∷ rs) h = absurd (omega arith)
sort_from_lem (suc fuel) [] h = (tt, λ p. refl)
sort_from_lem (suc fuel) (r ∷ rs) h =
    let (best, rest) = select_newest r rs in
    let ih = sort_from_lem fuel (select_newest r rs).1 (omega (arith, length-select_newest r rs)) in
    (
      (
        NoneNewer-sort_from fuel (select_newest r rs).0 (select_newest r rs).1
            (select_newest-NoneNewer r rs).1,
        ih.0,
      ),
      λ p. omega (arith, ih.1 p, count-select_newest p r rs),
    )

-- The sort puts no table before one that is newer, neither loses nor doubles a table, whatever test the
-- tables are counted by.
pub sort_sstables_newest_first-NewestFirst :
    (rs : List Reader)
    → NewestFirst (sort_sstables_newest_first rs)
      × ((p : Reader → Bool) → count p (sort_sstables_newest_first rs) ≡ count p rs)
unfolding sort_sstables_newest_first
sort_sstables_newest_first-NewestFirst rs = sort_from_lem (length rs) rs (omega arith)
