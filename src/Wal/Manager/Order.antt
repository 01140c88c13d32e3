-- ===== src/Wal/Manager/Order.antt =====
-- The order of the segment numbers that the manager of internal/wal/wal.go keeps.
use dist_log.Prelude.{
  suc, ◌-◌, ◌^◌, String, str_eq, false, ℕ, ◌≤◌, ◌<◌, ◌≡◌, refl, subst, List, [], ◌∷◌, ◌++◌, Option,
  none, some, arith, Bool-cases, inl, inr,
}
use dist_log.Wal.Names.{parse_segment_name}
use dist_log.Wal.Manager.{
  SegmentWriter, Files, open_segment_writer, Manager, DirEntry, insert_sorted, insert_if,
  list_segment_ids, adopt, take_over, no_open_faults, opened, open_manager, SealOutcome, both_fine,
  close_fails, open_fails, seal_writer, seal_active, seal, close_writer,
}

-- Ascending from `lo` on.
abbrev pub Ascending : ℕ → List ℕ → Type 0
Ascending lo [] = Unit
Ascending lo (n ∷ ns) = (lo ≤ n) × Ascending n ns

abbrev pub AllLe : ℕ → List ℕ → Type 0
AllLe hi [] = Unit
AllLe hi (n ∷ ns) = (n ≤ hi) × AllLe hi ns

abbrev ActiveOrdered : List ℕ → ℕ → Option SegmentWriter → Type 0
ActiveOrdered ids next none = AllLe next ids
ActiveOrdered ids next (some w) = AllLe w.id ids × (w.id < next)

-- The sealed segments ascend, the active one is not below them, and the next number is new.
pub record IsOrdered (m : Manager) : Type 0 where
  pub ascending : Ascending 0 m.sealed
  pub active_last : ActiveOrdered m.sealed m.next_id m.active

insert_sorted-Ascending :
    (lo n : ℕ) (ids : List ℕ) → lo ≤ n → Ascending lo ids → Ascending lo (insert_sorted n ids)
insert_sorted-Ascending lo n [] h a = (h, tt)
insert_sorted-Ascending lo n (m ∷ ms) h a = ground (arith, insert_sorted-Ascending m n ms)

insert_if-Ascending :
    (o : Option ℕ) (ids : List ℕ) → Ascending 0 ids → Ascending 0 (insert_if o ids)
insert_if-Ascending none ids a = a
insert_if-Ascending (some id) ids a = insert_sorted-Ascending 0 id ids (omega arith) a

-- Whatever entries the directory has, the numbers are read in ascending order.
pub list_segment_ids-Ascending : (es : List DirEntry) → Ascending 0 (list_segment_ids es)
unfolding list_segment_ids
list_segment_ids-Ascending [] = tt
list_segment_ids-Ascending (e ∷ es) = elim (Bool-cases e.is_dir) [
  | inl d ↦ rw d (list_segment_ids-Ascending es)
  | inr d ↦ rw d (insert_if-Ascending (parse_segment_name e.name) _ (list_segment_ids-Ascending es))
]

Ascending-append :
    (lo last : ℕ) (ids : List ℕ)
    → Ascending lo ids
    → AllLe last ids
    → lo ≤ last
    → Ascending lo (ids ++ (last ∷ []))
Ascending-append lo last [] a h l = (l, tt)
Ascending-append lo last (n ∷ ns) a h l = (a.0, Ascending-append n last ns a.1 h.1 h.0)

AllLe-append :
    (hi last : ℕ) (ids : List ℕ) → AllLe last ids → last ≤ hi → AllLe hi (ids ++ (last ∷ []))
AllLe-append hi last [] h l = (l, tt)
AllLe-append hi last (n ∷ ns) h l = (omega arith, AllLe-append hi last ns h.1 l)

AllLe-mono : (lo hi : ℕ) (ids : List ℕ) → lo ≤ hi → AllLe lo ids → AllLe hi ids
AllLe-mono lo hi [] h a = tt
AllLe-mono lo hi (n ∷ ns) h a = (omega arith, AllLe-mono lo hi ns h a.1)

-- The greatest segment number that has a next one.
abbrev pub last_usable : ℕ
last_usable = 2 ^ 64 - 2

adopt-IsOrdered :
    (before : List ℕ) (last : ℕ) (ids : List ℕ) (fs : Files)
    → Ascending 0 before
    → AllLe last before
    → Ascending last ids
    → AllLe last_usable (last ∷ ids)
    → IsOrdered (adopt before last ids fs).0
unfolding open_segment_writer
adopt-IsOrdered before last [] fs a h i u = record {
  ascending = a;
  active_last = (h, omega (arith, u.0));
}
adopt-IsOrdered before last (id ∷ ids) fs a h i u =
    adopt-IsOrdered (before ++ (last ∷ [])) id ids fs
      (Ascending-append 0 last before a h (omega arith)) (AllLe-append id last before h i.0) i.1 u.1

take_over-IsOrdered :
    (ids : List ℕ) (fs : Files)
    → Ascending 0 ids
    → AllLe last_usable ids
    → IsOrdered (take_over ids fs).0
unfolding take_over
take_over-IsOrdered [] fs a u = record { ascending = tt; active_last = (tt, omega arith) }
take_over-IsOrdered (id ∷ ids) fs a u = adopt-IsOrdered [] id ids fs tt tt a.1 u

pub open_manager-IsOrdered :
    (dir : String) (es : List DirEntry) (fs : Files)
    → str_eq dir "" ≡ false
    → AllLe last_usable (list_segment_ids es)
    → let found = take_over (list_segment_ids es) fs in
      (open_manager dir no_open_faults es fs ≡ opened found.0 found.1) × IsOrdered found.0
unfolding open_manager
open_manager-IsOrdered dir es fs n u =
    (rw n refl, take_over-IsOrdered (list_segment_ids es) fs (list_segment_ids-Ascending es) u)

seal_writer-IsOrdered :
    (outcome : SealOutcome) (w : SegmentWriter) (m : Manager) (fs : Files)
    → suc m.next_id < 2 ^ 64
    → Ascending 0 m.sealed
    → AllLe w.id m.sealed × (w.id < m.next_id)
    → IsOrdered (seal_writer outcome w m fs).1
unfolding close_writer open_segment_writer
seal_writer-IsOrdered close_fails w m fs n a h = record { ascending = a; active_last = h }
seal_writer-IsOrdered open_fails w m fs n a h = record {
  ascending = Ascending-append 0 w.id m.sealed a h.0 (omega arith);
  active_last = AllLe-append m.next_id w.id m.sealed h.0 (omega arith);
}
seal_writer-IsOrdered both_fine w m fs n a h = record {
  ascending = Ascending-append 0 w.id m.sealed a h.0 (omega arith);
  active_last = (AllLe-append m.next_id w.id m.sealed h.0 (omega arith), omega arith);
}

seal_active-IsOrdered :
    (outcome : SealOutcome) (o : Option SegmentWriter) (m : Manager) (fs : Files)
    → suc m.next_id < 2 ^ 64
    → m.active ≡ o
    → IsOrdered m
    → IsOrdered (seal_active outcome o m fs).1
seal_active-IsOrdered outcome none m fs n e h = h
seal_active-IsOrdered outcome (some w) m fs n e h =
    seal_writer-IsOrdered outcome w m fs n h.ascending
      (subst (ActiveOrdered m.sealed m.next_id) e h.active_last)

-- Sealing keeps the order, whatever the operating system answers, as long as the next segment number has a
-- successor in 64 bits.
pub seal-IsOrdered :
    (outcome : SealOutcome) (m : Manager) (fs : Files)
    → suc m.next_id < 2 ^ 64
    → IsOrdered m
    → IsOrdered (seal outcome m fs).1
unfolding seal
seal-IsOrdered outcome m fs n h = elim (Bool-cases m.closed) [
  | inl c ↦ simp c h
  | inr c ↦ simp c (seal_active-IsOrdered outcome m.active m fs n refl h)
]
