-- ===== src/Engine/Recovery/Greatest.antt =====
-- The greatest number of the table files in `Open` of internal/engine/engine.go does not hang on their order.
use dist_log.Prelude.{
  ℕ, zero, suc, ◌≤◌, ◌≡◌, refl, ap, ◌∙◌, List, [], ◌∷◌, length, ltb, if◌then◌else◌, arith,
  Bool-cases, inl, inr,
}
use dist_log.Sstable.Reader.{Reader}
use dist_log.Engine.Startup.{newer, select_newest, sort_from, sort_sstables_newest_first}
use dist_log.Engine.Startup.Order.{length-select_newest}
use dist_log.Engine.Recovery.{max_doc_id_from}

abbrev greater : ℕ → Reader → ℕ
greater n t = if ltb n t.meta.max_doc_id then t.meta.max_doc_id else n

three_numbers :
    (n a b : ℕ)
    → let x = if ltb n a then a else n in
      let y = if ltb n b then b else n in (if ltb x b then b else x) ≡ (if ltb y a then a else y)
three_numbers n a b = ground arith

swap_lem :
    (n : ℕ) (a b : Reader) (ts : List Reader)
    → max_doc_id_from n (a ∷ b ∷ ts) ≡ max_doc_id_from n (b ∷ a ∷ ts)
unfolding max_doc_id_from
swap_lem n a b ts =
    ap (λ x. max_doc_id_from x ts) (three_numbers n a.meta.max_doc_id b.meta.max_doc_id)

select_newest_lem :
    (n : ℕ) (r : Reader) (rs : List Reader)
    → let (best, rest) = select_newest r rs in
      max_doc_id_from n (best ∷ rest) ≡ max_doc_id_from n (r ∷ rs)
unfolding select_newest max_doc_id_from
select_newest_lem n r [] = refl
select_newest_lem n r (x ∷ xs) = elim (Bool-cases (newer x r)) [
  | inl e ↦
      rw (e, select_newest)
        (swap_lem n (select_newest x xs).0 r (select_newest x xs).1
          ∙ select_newest_lem (greater n r) x xs)
  | inr e ↦
      rw (e, select_newest)
        (swap_lem n (select_newest r xs).0 x (select_newest r xs).1
          ∙ (select_newest_lem (greater n x) r xs ∙ swap_lem n x r xs))
]

sort_from_lem :
    (fuel n : ℕ) (rs : List Reader)
    → length rs ≤ fuel
    → max_doc_id_from n (sort_from fuel rs) ≡ max_doc_id_from n rs
unfolding sort_from max_doc_id_from
sort_from_lem zero n [] h = refl
sort_from_lem zero n (r ∷ rs) h = absurd (omega arith)
sort_from_lem (suc fuel) n [] h = refl
sort_from_lem (suc fuel) n (r ∷ rs) h =
    sort_from_lem fuel (greater n (select_newest r rs).0) (select_newest r rs).1
      (omega (arith, h, length-select_newest r rs))
    ∙ select_newest_lem n r rs

pub max_doc_id_from-sort :
    (n : ℕ) (rs : List Reader)
    → max_doc_id_from n (sort_sstables_newest_first rs) ≡ max_doc_id_from n rs
unfolding sort_sstables_newest_first
max_doc_id_from-sort n rs = sort_from_lem (length rs) n rs (omega arith)
