-- ===== src/Sstable/Format/FooterLaws.antt =====
-- The footer of a table file read back (internal/sstable/format.go).
use dist_log.Prelude.{
  ◌≡◌, refl, ap, ◌∙◌, Bool, true, false, length, ◌==◌, if◌then◌else◌, arith, not,
}
use dist_log.Bytes.{put_le, get_le, slice}
use dist_log.Bytes.Crc.{checksum, checksum-lt}
use dist_log.Sstable.Format.{
  ok, err, bad_version, Footer, footer_body, footer_fields, marshal_footer, unmarshal_footer,
  format_version, magic, same_bytes,
}
use dist_log.Sstable.Format.Laws.{IsU32, IsU64, not_short, eq_self, u32, u64}

pub record FooterFits (f : Footer) : Type 0 where
  pub version : IsU32 f.version
  pub flags : IsU32 f.flags
  pub index_block_offset : IsU64 f.index_block_offset
  pub index_block_size : IsU32 f.index_block_size
  pub meta_block_offset : IsU64 f.meta_block_offset
  pub meta_block_size : IsU32 f.meta_block_size

if_not {ℓ} : {A : Type ℓ} (b : Bool) (x y : A) → (if not b then x else y) ≡ (if b then y else x)
if_not true x y = refl
if_not false x y = refl

module _ (f : Footer) (h : FooterFits f) where
  read_fields : footer_fields (marshal_footer f) ≡ f
  read_fields =
      let read : footer_fields (marshal_footer f) ≡ record {
        version = get_le (put_le 4 f.version);
        flags = get_le (put_le 4 f.flags);
        index_block_offset = get_le (put_le 8 f.index_block_offset);
        index_block_size = get_le (put_le 4 f.index_block_size);
        meta_block_offset = get_le (put_le 8 f.meta_block_offset);
        meta_block_size = get_le (put_le 4 f.meta_block_size);
      } =
        unfold marshal_footer put_le in refl in
      read
      ∙ rw (
        u32 f.version h.version,
        u32 f.flags h.flags,
        u64 f.index_block_offset h.index_block_offset,
        u32 f.index_block_size h.index_block_size,
        u64 f.meta_block_offset h.meta_block_offset,
        u32 f.meta_block_size h.meta_block_size,
      )

  stored_crc : get_le (slice 32 36 (marshal_footer f)) ≡ checksum (footer_body f)
  stored_crc =
      let e : slice 32 36 (marshal_footer f) ≡ put_le 4 (checksum (footer_body f)) =
        unfold marshal_footer put_le in refl in
      ap get_le e ∙ u32 (checksum (footer_body f)) (checksum-lt (footer_body f))

  covered : slice 0 32 (marshal_footer f) ≡ footer_body f
  unfolding marshal_footer put_le
  covered = refl

  tagged : same_bytes (slice 40 48 (marshal_footer f)) magic ≡ true
  unfolding marshal_footer put_le
  tagged = refl

  pub length-marshal_footer : length (marshal_footer f) ≡ 48
  unfolding marshal_footer put_le
  length-marshal_footer = refl

  -- A footer whose fields have their machine widths is read back if it has this format's version, and
  -- any other version is refused.
  pub unmarshal-marshal_footer :
      unmarshal_footer (marshal_footer f)
      ≡ (if f.version == format_version then ok f else err bad_version)
  unfolding unmarshal_footer
  unmarshal-marshal_footer =
      let long = not_short (marshal_footer f) 48 (omega (arith, length-marshal_footer)) in
      rw (long, tagged, covered, stored_crc, eq_self (checksum (footer_body f)))
        (ap (λ (g : Footer). if not (g.version == format_version) then err bad_version else ok g)
            read_fields
          ∙ if_not (f.version == format_version) (err bad_version) (ok f))
