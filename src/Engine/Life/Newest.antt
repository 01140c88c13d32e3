-- ===== src/Engine/Life/Newest.antt =====
-- The table files of internal/engine/engine.go in the order in which the flushes publish them.
use dist_log.Prelude.{
  ◌++◌, true, suc, ℕ, zero, ◌≤◌, ◌<◌, ◌≡◌, refl, ap, ◌∙◌, List, [], ◌∷◌, length, ltb, if◌then◌else◌,
  arith,
}
use dist_log.Sstable.Reader.{Reader}
use dist_log.Engine.Startup.{newer, select_newest, sort_from, sort_sstables_newest_first}
use dist_log.Engine.Recovery.{max_doc_id_from}

-- Each table has greater numbers than those behind it.
unfoldable pub Descending : List Reader → Type 0
unfolding max_doc_id_from
Descending [] = Unit
Descending (t ∷ ts) = (max_doc_id_from 0 ts < t.meta.max_doc_id) × Descending ts

abbrev Under : ℕ → List Reader → Type 0
Under n [] = Unit
Under n (t ∷ ts) = (t.meta.max_doc_id < n) × Under n ts

le-max_doc_id_from : (n : ℕ) (ts : List Reader) → n ≤ max_doc_id_from n ts
unfolding max_doc_id_from
le-max_doc_id_from n [] = omega arith
le-max_doc_id_from n (t ∷ ts) =
    ground (arith, le-max_doc_id_from (if ltb n t.meta.max_doc_id then t.meta.max_doc_id else n) ts)

max_doc_id_from-Under : (n hi : ℕ) (ts : List Reader) → max_doc_id_from n ts < hi → Under hi ts
unfolding max_doc_id_from
max_doc_id_from-Under n hi [] h = tt
max_doc_id_from-Under n hi (t ∷ ts) h = (
  ground (arith, le-max_doc_id_from (if ltb n t.meta.max_doc_id then t.meta.max_doc_id else n) ts),
  max_doc_id_from-Under (if ltb n t.meta.max_doc_id then t.meta.max_doc_id else n) hi ts h,
)

stays : (n m : ℕ) → m < n → (if ltb n m then m else n) ≡ n
stays n m h = ground arith

max_doc_id_from-stays : (n : ℕ) (ts : List Reader) → Under n ts → max_doc_id_from n ts ≡ n
unfolding max_doc_id_from
max_doc_id_from-stays n [] h = refl
max_doc_id_from-stays n (t ∷ ts) h =
    ap (λ x. max_doc_id_from x ts) (stays n t.meta.max_doc_id h.0) ∙ max_doc_id_from-stays n ts h.1

first_wins : (n : ℕ) → zero < n → (if ltb 0 n then n else 0) ≡ n
first_wins n h = ground arith

-- A new table with greater numbers has the greatest one.
pub max_doc_id_from-front :
    (t : Reader) (ts : List Reader)
    → max_doc_id_from 0 ts < t.meta.max_doc_id
    → max_doc_id_from 0 (t ∷ ts) ≡ t.meta.max_doc_id
unfolding max_doc_id_from
max_doc_id_from-front t ts h =
    ap (λ x. max_doc_id_from x ts) (first_wins t.meta.max_doc_id (omega arith))
    ∙ max_doc_id_from-stays t.meta.max_doc_id ts (max_doc_id_from-Under 0 t.meta.max_doc_id ts h)

-- The first table of the list and one behind it.
abbrev lead : List Reader → Reader → Reader
lead [] t = t
lead (r ∷ rs) t = r

-- The greatest numbers ascend along the list and up to `t`.
abbrev Rising : List Reader → Reader → Type 0
Rising [] t = Unit
Rising (r ∷ rs) t = (r.meta.max_doc_id < (lead rs t).meta.max_doc_id) × Rising rs t

Rising-append :
    (rs : List Reader) (u t : Reader)
    → u.meta.max_doc_id < t.meta.max_doc_id
    → Rising rs u
    → Rising (rs ++ (u ∷ [])) t
Rising-append [] u t p h = (p, tt)
Rising-append (r ∷ []) u t p h = (h.0, (p, tt))
Rising-append (r ∷ x ∷ rs) u t p h = (h.0, Rising-append (x ∷ rs) u t p h.1)

newer_greater : (x r : Reader) → r.meta.max_doc_id < x.meta.max_doc_id → newer x r ≡ true
newer_greater x r h = ground arith

select_newest-Rising :
    (r : Reader) (rs : List Reader) (t : Reader)
    → Rising (r ∷ rs) t
    → select_newest r (rs ++ (t ∷ [])) ≡ (t, r ∷ rs)
unfolding select_newest
select_newest-Rising r [] t h = rw (newer_greater t r h.0, select_newest) refl
select_newest-Rising r (x ∷ rs) t h =
    rw (newer_greater x r h.0, select_newest)
      (ap (λ (p : Reader × List Reader). (p.0, r ∷ p.1)) (select_newest-Rising x rs t h.1))

-- The order in which a directory lists the files of the tables: by their numbers, which ascend with the
-- flushes.
unfoldable pub oldest_first : List Reader → List Reader
oldest_first [] = []
oldest_first (t ∷ ts) = oldest_first ts ++ (t ∷ [])

oldest_first-Rising :
    (t : Reader) (ts : List Reader) → Descending (t ∷ ts) → Rising (oldest_first ts) t
unfolding oldest_first Descending max_doc_id_from
oldest_first-Rising t [] h = tt
oldest_first-Rising t (u ∷ us) h =
    Rising-append (oldest_first us) u t (max_doc_id_from-Under 0 t.meta.max_doc_id (u ∷ us) h.0).0
      (oldest_first-Rising u us h.1)

length-snoc : (rs : List Reader) (t : Reader) → length (rs ++ (t ∷ [])) ≡ suc (length rs)
length-snoc [] t = refl
length-snoc (r ∷ rs) t = ap suc (length-snoc rs t)

sort_from-Rising :
    (rs : List Reader) (t : Reader)
    → Rising rs t
    → sort_from (suc (length rs)) (rs ++ (t ∷ [])) ≡ t ∷ sort_from (length rs) rs
unfolding sort_from select_newest
sort_from-Rising [] t h = refl
sort_from-Rising (r ∷ rs) t h =
    ap (λ (p : Reader × List Reader). p.0 ∷ sort_from (suc (length rs)) p.1)
      (select_newest-Rising r rs t h)

-- A start brings them back into the order newest first.
pub sort-oldest_first :
    (ts : List Reader) → Descending ts → sort_sstables_newest_first (oldest_first ts) ≡ ts
unfolding sort_sstables_newest_first oldest_first Descending sort_from
sort-oldest_first [] h = refl
sort-oldest_first (t ∷ ts) h =
    ap (λ n. sort_from n (oldest_first ts ++ (t ∷ []))) (length-snoc (oldest_first ts) t)
    ∙ (sort_from-Rising (oldest_first ts) t (oldest_first-Rising t ts h)
        ∙ ap (λ l. t ∷ l) (sort-oldest_first ts h.1))
