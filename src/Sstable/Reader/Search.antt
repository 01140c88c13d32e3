-- ===== src/Sstable/Reader/Search.antt =====
-- The bisection that internal/sstable/reader.go uses finds the boundary of a monotone test.
use dist_log.Prelude.{
  ℕ, zero, suc, ◌+◌, ◌/◌, ◌≤◌, ◌<◌, ◌≡◌, List, [], ◌∷◌, Bool, true, false, length, get_elem?, ltb,
  if◌then◌else◌, arith, Bool-cases, inl, inr,
}
use dist_log.Types.{DocId}
use dist_log.Sstable.Reader.{Block, sort_search, starts_above, find_block_end}

-- For a test that is false below `t` and true from `t` on, the result is `t`.
pub sort_search_lem :
    (fuel lo hi t : ℕ) (p : ℕ → Bool)
    → ((i : ℕ) → i < t → p i ≡ false)
    → ((i : ℕ) → t ≤ i → i < hi → p i ≡ true)
    → lo ≤ t
    → t ≤ hi
    → hi ≤ lo + fuel
    → sort_search fuel lo hi p ≡ t
unfolding sort_search
sort_search_lem zero lo hi t p below above a b c = omega arith
sort_search_lem (suc fuel) lo hi t p below above a b c = elim (Bool-cases (ltb lo hi)) [
  | inr e ↦ rw (e, sort_search) (ground arith)
  | inl e ↦ elim (Bool-cases (p ((lo + hi) / 2))) [
    | inl q ↦
        let le : t ≤ (lo + hi) / 2 = ground (arith, q, below ((lo + hi) / 2)) in
        rw (e, sort_search, q)
          (sort_search_lem fuel lo ((lo + hi) / 2) t p below (λ i x y. above i x (ground arith)) a
            le (ground arith))
    | inr q ↦
        let lt : (lo + hi) / 2 < t = ground (arith, q, above ((lo + hi) / 2)) in
        rw (e, sort_search, q)
          (sort_search_lem fuel ((lo + hi) / 2 + 1) hi t p below above (omega arith) b
            (ground arith))
  ]
]

-- How many blocks from the front begin at `k` or before it.
unfoldable pub reach : DocId → List Block → ℕ
reach k [] = 0
reach k (b ∷ bs) = let rest = reach k bs in if ltb k b.first_doc_id then 0 else suc rest

-- The first numbers of the blocks ascend, from `lo` on.
abbrev pub Firsts : ℕ → List Block → Type 0
Firsts lo [] = Unit
Firsts lo (b ∷ bs) = (lo ≤ b.first_doc_id) × Firsts (suc b.first_doc_id) bs

reach-le : (k : DocId) (bs : List Block) → reach k bs ≤ length bs
unfolding reach
reach-le k [] = omega arith
reach-le k (b ∷ bs) = ground (arith, reach-le k bs)

below_reach :
    (k : DocId) (bs : List Block) (i : ℕ) → i < reach k bs → starts_above k (get_elem? bs i) ≡ false
unfolding reach
below_reach k [] i h = absurd (omega arith)
below_reach k (b ∷ bs) zero h = ground arith
below_reach k (b ∷ bs) (suc i) h = below_reach k bs i (ground arith)

all_above :
    (k lo : DocId) (bs : List Block) (i : ℕ)
    → k < lo
    → Firsts lo bs
    → i < length bs
    → starts_above k (get_elem? bs i) ≡ true
all_above k lo [] i h f lt = absurd (omega arith)
all_above k lo (b ∷ bs) zero h f lt = ground arith
all_above k lo (b ∷ bs) (suc i) h f lt =
    all_above k (suc b.first_doc_id) bs i (omega arith) f.1 (omega arith)

above_reach :
    (k lo : DocId) (bs : List Block) (i : ℕ)
    → Firsts lo bs
    → reach k bs ≤ i
    → i < length bs
    → starts_above k (get_elem? bs i) ≡ true
unfolding reach
above_reach k lo [] i f h lt = absurd (omega arith)
above_reach k lo (b ∷ bs) zero f h lt = ground arith
above_reach k lo (b ∷ bs) (suc i) f h lt = elim (Bool-cases (ltb k b.first_doc_id)) [
  | inl e ↦ all_above k (suc b.first_doc_id) bs i (ground arith) f.1 (omega arith)
  | inr e ↦ above_reach k (suc b.first_doc_id) bs i f.1 (ground arith) (omega arith)
]

pub find_block_end-reach :
    (k lo : DocId) (bs : List Block) → Firsts lo bs → find_block_end bs k ≡ reach k bs
unfolding find_block_end
find_block_end-reach k lo bs f =
    sort_search_lem (length bs) 0 (length bs) (reach k bs) (λ i. starts_above k (get_elem? bs i))
      (λ i h. below_reach k bs i h) (λ i h lt. above_reach k lo bs i f h lt) (omega arith)
      (reach-le k bs) (omega arith)
