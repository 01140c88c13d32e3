-- ===== src/Sstable/Writer/Added.antt =====
-- `Add` of internal/sstable/writer.go on a disk that accepts the writes.
use mathlib.Core.List.{append-nil, append_assoc}
use dist_log.Prelude.{
  suc, ◌-◌, ◌^◌, ◌<◌, ◌≤◌, ◌≡◌, refl, sym, subst, ap, ◌∙◌, List, [], ◌∷◌, ◌++◌, some, Bool, false,
  ◌&&◌, ◌≢◌, length, ltb, leb, ◌==◌, arith, Bool-cases, inl, inr,
}
use dist_log.Types.{DocId, LogRecord}
use dist_log.Types.Entries.{Entry}
use dist_log.Types.Codec.{Json, marshal}
use dist_log.Bytes.{Byte}
use dist_log.Sstable.Writer.{
  Writer, done, ◌>>=◌, TwoWrites, write, note, push_block, flush_block, flush_if_full, add_payload,
  add, trailer,
}
use dist_log.Sstable.Writer.Built.{Built, note-Built, flushed, flushed-Built, next_from}
use dist_log.Sstable.Source.Blocks.{payload-ReadsBack}
use dist_log.Sstable.Layout.{concat, concat-append, payload, EntryFits}
use dist_log.Sstable.Layout.Sizes.{Room, length-payload-le}

abbrev pub Works : TwoWrites → Type 0
Works f = (f.body_fails ≡ false) × (f.trailer_fails ≡ false)

pub write-Works :
    (fails : Bool) (bs : List Byte) (w : Writer)
    → fails ≡ false
    → w.broken ≡ false
    → write fails bs w ≡ done tt (record w { file = w.file ++ bs })
unfolding write
write-Works fails bs w f h = simp (f, h) refl

two_writes :
    (f : TwoWrites) (w : Writer)
    → Works f
    → w.broken ≡ false
    → (w.cur_records == 0) ≡ false
    → flush_block f w ≡ done tt (flushed w)
unfolding flush_block flushed
two_writes f w (b, t) h n =
    let w1 : Writer = record w { file = w.file ++ w.cur_block } in
    rw n (
      ap
        (λ x. x >>= λ _ w1. write f.trailer_fails (trailer w.cur_records w.cur_block) w1 >>= λ _ w2.
          done tt (push_block w2))
        (write-Works f.body_fails w.cur_block w b h)
      ∙ ap (λ x. x >>= λ _ w2. done tt (push_block w2))
          (write-Works f.trailer_fails (trailer w.cur_records w.cur_block) w1 t h))

module _ (J : Json) where
  -- The records `es` have been added.
  pub record Holds (closed : Bool) (es : List Entry) (w : Writer) : Type 0 where
    pub blocks : List (List Entry)
    pub pending : List Entry
    pub all : concat blocks ++ pending ≡ es
    pub built : Built J closed blocks pending w

  length-ne-zero : (p : List Entry) → p ≢ [] → (length p == 0) ≡ false
  length-ne-zero [] h = absurd (h refl)
  length-ne-zero (x ∷ xs) h = ground arith

  pub flush_block-Works :
      (f : TwoWrites) (c : Bool) (bs : List (List Entry)) (p : List Entry) (w : Writer)
      → Works f
      → Built J c bs p w
      → p ≢ []
      → flush_block f w ≡ done tt (flushed w)
  flush_block-Works f c bs p w k h q =
      two_writes f w k h.sound (ap (λ n. n == 0) h.cur_records ∙ length-ne-zero p q)

  pub flushed-Holds :
      (c : Bool) (bs : List (List Entry)) (p : List Entry) (w : Writer)
      → Built J c bs p w
      → p ≢ []
      → Room J (concat bs ++ p)
      → Holds c (concat bs ++ p) (flushed w)
  unfolding concat
  flushed-Holds c bs p w h q room = record {
    blocks = bs ++ (p ∷ []);
    pending = [];
    all =
        append-nil (concat (bs ++ (p ∷ [])))
        ∙ (concat-append bs (p ∷ []) ∙ ap (λ l. concat bs ++ l) (append-nil p));
    built = flushed-Built J c bs p w h q room;
  }

  full_or_not :
      (f : TwoWrites) (es : List Entry) (bs : List (List Entry)) (p : List Entry) (w : Writer)
      → Works f
      → Built J false bs p w
      → p ≢ []
      → Room J es
      → concat bs ++ p ≡ es
      → next_from (flushed w) ≡ next_from w
      → (w' : Writer) × (flush_if_full f w ≡ done tt w')
        × Holds false es w'
        × (next_from w' ≡ next_from w)
  unfolding flush_if_full
  full_or_not f es bs p w k h q room e n =
      elim (Bool-cases (leb w.block_target_size (length w.cur_block))) [
        | inl t ↦ (
          flushed w,
          rw t (flush_block-Works f false bs p w k h q),
          subst (λ l. Holds false l (flushed w)) e
              (flushed-Holds false bs p w h q (subst (Room J) (sym e) room)),
          n,
        )
        | inr t ↦ (w, rw t refl, record { blocks = bs; pending = p; all = e; built = h }, refl)
      ]

  snoc-ne-nil : (p : List Entry) (e : Entry) → p ++ (e ∷ []) ≢ []
  snoc-ne-nil [] e h = cc
  snoc-ne-nil (x ∷ xs) e h = cc

  passes_guard :
      (d : DocId) (w : Writer) → next_from w ≤ d → (w.has_record && leb d w.last_doc_id) ≡ false
  unfolding next_from
  passes_guard d w h = ground (arith, h)

  add_noted :
      (f : TwoWrites) (d : DocId) (r : LogRecord) (w : Writer)
      → EntryFits J (d, r)
      → next_from w ≤ d
      → w.closed ≡ false
      → length (payload J r) < 2 ^ 32
      → add J f d r w ≡ flush_if_full f (note d r (payload J r) w)
  unfolding add add_payload marshal
  add_noted f d r w h n c s =
      let e : J.marshal r ≡ some (payload J r) =
        h.reads_back.encoded ∙ ap some (sym (payload-ReadsBack J r h.reads_back)) in
      let small : ltb (2 ^ 32 - 1) (length (payload J r)) ≡ false = ground (arith, s) in
      rw (c, passes_guard d w n) (rw e (rw small refl))

  -- A record that may follow is accepted, and is behind the others in what the writer holds.
  pub add-Holds :
      (f : TwoWrites) (es : List Entry) (d : DocId) (r : LogRecord) (w : Writer)
      → Works f
      → Holds false es w
      → EntryFits J (d, r)
      → next_from w ≤ d
      → Room J (es ++ ((d, r) ∷ []))
      → (w' : Writer) × (add J f d r w ≡ done tt w')
        × Holds false (es ++ ((d, r) ∷ [])) w'
        × (next_from w' ≡ suc d)
  unfolding note next_from flushed push_block
  add-Holds f es d r w k h fits n room =
      let e : Entry = (d, r) in
      let p' : List Entry = h.pending ++ (e ∷ []) in
      let all : concat h.blocks ++ p' ≡ es ++ (e ∷ []) =
        sym (append_assoc (concat h.blocks) h.pending (e ∷ [])) ∙ ap (λ l. l ++ (e ∷ [])) h.all in
      let noted =
        note-Built J h.blocks h.pending d r w h.built fits n (subst (Room J) (sym all) room) in
      let size : length (payload J r) < 2 ^ 32 = omega (arith, room, length-payload-le J es e []) in
      let (w', run, holds, next) =
        full_or_not f (es ++ (e ∷ [])) h.blocks p' (note d r (payload J r) w) k noted
          (snoc-ne-nil h.pending e) room all refl in
      (w', add_noted f d r w fits n h.built.is_closed size ∙ run, holds, next)
