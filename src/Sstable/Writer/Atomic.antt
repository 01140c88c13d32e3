-- ===== src/Sstable/Writer/Atomic.antt =====
-- What `Close` and `Abort` of internal/sstable/writer.go do to the directory, whatever fails.
use dist_log.Prelude.{
  ◌≡◌, refl, ap, ◌∙◌, ◌⊎◌, inl, inr, List, Option, none, some, Bool, true, false, ◌&&◌, ◌||◌, ◌==◌,
  if◌then◌else◌, if_both, Bool-cases, ◌≢◌,
}
use dist_log.Bytes.{Byte}
use dist_log.Sstable.Writer.{
  Writer, WriterError, Run, done, failed, ◌>>=◌, TwoWrites, write, push_block, flush_block,
  write_index_block, write_meta_block, write_footer, flush_failed, sync_failed, sync_dir_failed,
  close_failed, rename_failed,
}
use dist_log.Sstable.Writer.Close.{
  CloseRun, fail_if, write_tail, write_rest, remove_tmp, commit, commit_or_clean, close, abort,
}

-- The two writers see the same directory.
abbrev SameDir : Writer → Writer → Type 0
SameDir w v = (v.final ≡ w.final) × (v.tmp ≡ w.tmp)

abbrev KeepsDir : {A : Type 0} → Writer → Run A → Type 0
KeepsDir w (done a v) = SameDir w v
KeepsDir w (failed e v) = SameDir w v

along : {A : Type 0} (u w : Writer) (x : Run A) → SameDir u w → KeepsDir w x → KeepsDir u x
along u w (done a v) h k = (k.0 ∙ h.0, k.1 ∙ h.1)
along u w (failed e v) h k = (k.0 ∙ h.0, k.1 ∙ h.1)

bind-KeepsDir :
    {A B : Type 0} (w : Writer) (x : Run A) (k : A → Writer → Run B)
    → KeepsDir w x
    → ((a : A) (v : Writer) → KeepsDir v (k a v))
    → KeepsDir w (x >>= k)
bind-KeepsDir w (failed e v) k h g = h
bind-KeepsDir w (done a v) k h g = along w v (k a v) h (g a v)

write-KeepsDir : (fails : Bool) (bs : List Byte) (w : Writer) → KeepsDir w (write fails bs w)
unfolding write
write-KeepsDir fails bs w = if_both (KeepsDir w) (fails || w.broken) _ _ (refl, refl) (refl, refl)

flush_block-KeepsDir : (f : TwoWrites) (w : Writer) → KeepsDir w (flush_block f w)
unfolding flush_block push_block
flush_block-KeepsDir f w =
    if_both (KeepsDir w) (w.cur_records == 0) _ _ (refl, refl)
      (bind-KeepsDir w _ _ (write-KeepsDir f.body_fails w.cur_block w)
        (λ _ w1. bind-KeepsDir w1 _ _ (write-KeepsDir f.trailer_fails _ w1) (λ _ w2. (refl, refl))))

write_index_block-KeepsDir : (f : TwoWrites) (w : Writer) → KeepsDir w (write_index_block f w)
unfolding write_index_block
write_index_block-KeepsDir f w =
    bind-KeepsDir w _ _ (write-KeepsDir f.body_fails _ w)
      (λ _ w1. bind-KeepsDir w1 _ _ (write-KeepsDir f.trailer_fails _ w1) (λ _ w2. (refl, refl)))

fail_if-KeepsDir : (e : WriterError) (b : Bool) (w : Writer) → KeepsDir w (fail_if e b w)
fail_if-KeepsDir e true w = (refl, refl)
fail_if-KeepsDir e false w = (refl, refl)

write_rest-KeepsDir : (f : CloseRun) (w : Writer) → KeepsDir w (write_rest f w)
unfolding write_rest write_tail write_meta_block write_footer
write_rest-KeepsDir f w = bind-KeepsDir w _ _ (flush_block-KeepsDir f.block w) (λ _ w1.
    bind-KeepsDir w1 _ _ (write_index_block-KeepsDir f.index w1) (λ index w2.
      bind-KeepsDir w2 _ _
        (bind-KeepsDir w2 _ _ (write-KeepsDir f.meta_fails _ w2) (λ _ v. (refl, refl)))
        (λ meta w3.
          bind-KeepsDir w3 _ _
            (bind-KeepsDir w3 _ _ (write-KeepsDir f.footer_fails _ w3) (λ _ v. (refl, refl)))
            (λ _ w4.
              bind-KeepsDir w4 _ _ (fail_if-KeepsDir flush_failed _ w4)
                (λ _ w5. fail_if-KeepsDir sync_failed f.sync_fails w5)))))

-- Either the final path is as before and the temporary file is gone unless it cannot be removed, and
-- there is an error; or the whole file is at the final path and no temporary one is left.
abbrev pub Atomic : CloseRun → Writer → Option WriterError × Writer → Type 0
Atomic f w (e, v) =
    ((e ≢ none) × (v.final ≡ w.final) × (v.tmp ≡ (f.remove_fails && w.tmp)))
    ⊎ ((v.final ≡ some v.file)
        × (v.tmp ≡ false)
        × ((v' : Writer) × (write_rest f (record w { closed = true }) ≡ done tt v')
            × (v'.file ≡ v.file)))

-- `remove_tmp` on a writer whose directory is still that of `w`.
removed :
    (r : Bool) (w v : Writer)
    → SameDir w v
    → ((remove_tmp r v).final ≡ w.final) × ((remove_tmp r v).tmp ≡ (r && w.tmp))
unfolding remove_tmp
removed r w v h = (h.0, ap (λ t. r && t) h.1)

commit_flags :
    (a b c : Bool) (f : CloseRun) (w v : Writer)
    → SameDir w v
    → write_rest f (record w { closed = true }) ≡ done tt v
    → Atomic f w (
        if a
        then (some close_failed, remove_tmp f.remove_fails v)
        else if b
        then (some rename_failed, remove_tmp f.remove_fails v)
        else (let w' = record v { tmp = false; final = some v.file } in
            if c then (some sync_dir_failed, w') else (none, record w' { finished = true })))
commit_flags true b c f w v h e = let (a, b) = removed f.remove_fails w v h in inl ((λ p. cc), a, b)
commit_flags false true c f w v h e =
    let (a, b) = removed f.remove_fails w v h in inl ((λ p. cc), a, b)
commit_flags false false true f w v h e = inr (refl, refl, (v, e, refl))
commit_flags false false false f w v h e = inr (refl, refl, (v, e, refl))

clean_or_commit :
    (f : CloseRun) (w : Writer) (x : Run Unit)
    → KeepsDir w x
    → write_rest f (record w { closed = true }) ≡ x
    → Atomic f w (commit_or_clean f x)
unfolding commit_or_clean commit
clean_or_commit f w (failed e v) h q =
    let (a, b) = removed f.remove_fails w v h in inl ((λ p. cc), a, b)
clean_or_commit f w (done a v) h q =
    commit_flags f.close_fails f.rename_fails f.sync_dir_fails f w v h q

close_tests :
    (c h : Bool) (f : CloseRun) (w : Writer) (x y : Option WriterError × Writer)
    → c ≡ false
    → Atomic f w x
    → Atomic f w y
    → Atomic f w (if c then (none, w) else if h then x else y)
close_tests true h f w x y p q r = cc
close_tests false true f w x y p q r = q
close_tests false false f w x y p q r = r

-- Whatever fails, the first `Close` is atomic: either it returns an error, leaves the final path as it
-- was, and leaves the temporary file only if that cannot be removed; or the final path holds a file
-- of which every part was written and synced, and the temporary file is gone.
pub close-Atomic : (f : CloseRun) (w : Writer) → w.closed ≡ false → Atomic f w (close f w)
unfolding close
close-Atomic f w c =
    let w' : Writer = record w { closed = true } in
    let (a, b) = removed f.remove_fails w w' (refl, refl) in
    close_tests w.closed w.has_record f w _ _ c
      (clean_or_commit f w (write_rest f w') (write_rest-KeepsDir f w') refl)
      (inl ((λ p. cc), a, b))

-- `Abort` after `Close` has committed changes nothing, and otherwise it never touches the final path.
pub abort_lem :
    (r : Bool) (w : Writer)
    → (w.finished ≡ true → abort r w ≡ (none, w))
      × ((abort r w).1.final ≡ w.final)
      × (w.finished ≡ false → w.aborted ≡ false → (abort r w).1.tmp ≡ (r && w.tmp))
unfolding abort remove_tmp
abort_lem r w = elim (Bool-cases w.finished) [
  | inl h ↦ ((λ p. rw (h, abort) refl), rw (h, abort) refl, (λ p. cc))
  | inr h ↦ elim (Bool-cases w.aborted) [
    | inl k ↦ ((λ p. cc), rw (h, k, abort) refl, (λ p q. cc))
    | inr k ↦ ((λ p. cc), rw (h, k, abort) refl, (λ p q. rw (h, k, abort) refl))
  ]
]
