-- ===== src/Sstable/Source/Agrees.antt =====
-- The loaded blocks that internal/sstable/reader.go searches are those that `loadBlock` gives.
use dist_log.Prelude.{
  ℕ, zero, suc, ◌≡◌, refl, ap, ◌∙◌, List, [], ◌∷◌, Option, none, some, map, get_elem?,
}
use dist_log.Types.Entries.{Entry}
use dist_log.Types.Codec.{Json}
use dist_log.Sstable.Format.{IndexEntry}
use dist_log.Sstable.Reader as Table
use dist_log.Sstable.Reader.{Block, block_contents}
use dist_log.Sstable.Source.{
  Source, OpenTable, load_block, load_entry, block_of, view, to_option, bad, index_out_of_range,
  Checked,
}

abbrev load_at : Json → Source → Option IndexEntry → Checked (List Entry)
load_at J s none = bad index_out_of_range
load_at J s (some e) = load_entry J s e

loaded_at :
    (J : Json) (s : Source) (es : List IndexEntry) (i : ℕ)
    → block_contents (get_elem? (map (block_of J s) es) i)
      ≡ to_option J (load_at J s (get_elem? es i))
unfolding block_of
loaded_at J s [] i = refl
loaded_at J s (e ∷ es) zero = refl
loaded_at J s (e ∷ es) (suc i) = loaded_at J s es i

opened_at :
    (J : Json) (s : Source) (o : Option IndexEntry)
    → load_at J s o ≡ (elim o as (λ o. Checked (List Entry)) [
      | none ↦ bad index_out_of_range
      | some e ↦ load_entry J s e
    ])
opened_at J s none = refl
opened_at J s (some e) = refl

-- Loading a block from the view of an open table gives what `loadBlock` gives from the bytes, an error
-- and a number out of range included.
pub load_block-view :
    (J : Json) (t : OpenTable) (i : ℕ)
    → Table.load_block (view J t).blocks i ≡ to_option J (load_block J t i)
unfolding Table.load_block view load_block
load_block-view J t i =
    loaded_at J t.source t.index_entries i
    ∙ ap (to_option J) (opened_at J t.source (get_elem? t.index_entries i))
