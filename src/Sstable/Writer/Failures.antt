-- ===== src/Sstable/Writer/Failures.antt =====
-- Failing file operations in internal/sstable/writer.go: an operation that succeeds does what it does
-- on a disk that works.
use dist_log.Prelude.{
  ◌-◌, ◌^◌, ◌≡◌, refl, ap, ◌∙◌, List, Option, none, some, Bool, true, false, ◌&&◌, ◌||◌, length,
  ltb, leb, ◌==◌, if◌then◌else◌,
}
use dist_log.Types.{DocId, LogRecord}
use dist_log.Types.Codec.{Json, marshal}
use dist_log.Bytes.{Byte}
use dist_log.Sstable.Writer.{
  Writer, WriterError, Run, done, failed, ◌>>=◌, TwoWrites, write, trailer, push_block, flush_block,
  note, flush_if_full, add_payload, add, write_index_block, write_meta_block, write_footer,
  flush_failed, sync_failed, close_failed, rename_failed, sync_dir_failed,
}
use dist_log.Sstable.Writer.Close.{
  CloseRun, fail_if, write_tail, write_rest, remove_tmp, commit, commit_or_clean, close,
}

abbrev pub no_failures : TwoWrites
no_failures = record { body_fails = false; trailer_fails = false }

-- The same close on a disk that works.
abbrev pub working : CloseRun → CloseRun
working f = record {
  block = no_failures;
  index = no_failures;
  meta_fails = false;
  footer_fails = false;
  flush_fails = false;
  sync_fails = false;
  close_fails = false;
  rename_fails = false;
  sync_dir_fails = false;
  remove_fails = f.remove_fails;
  now = f.now;
}

-- Whatever the first run gives when it succeeds, the second gives too.
abbrev pub Improves : {A : Type 0} → Run A → Run A → Type 0
Improves {A = A} x y = (a : A) (w : Writer) → x ≡ done a w → y ≡ done a w

pub bind-Improves :
    {A B : Type 0} (x y : Run A) (k l : A → Writer → Run B)
    → Improves x y
    → ((a : A) (w : Writer) → Improves (k a w) (l a w))
    → Improves (x >>= k) (y >>= l)
bind-Improves (failed e v) y k l h g b w p = cc
bind-Improves (done a v) y k l h g b w p = ap (λ z. z >>= l) (h a v refl) ∙ g a v b w p

write-Improves :
    (fails : Bool) (bs : List Byte) (w : Writer) → Improves (write fails bs w) (write false bs w)
unfolding write
write-Improves true bs w a v p = cc
write-Improves false bs w a v p = p

done-Improves : {A : Type 0} (x : Run A) → Improves x x
done-Improves x a w p = p

if-Improves :
    {A : Type 0} (b : Bool) (x x' y y' : Run A)
    → Improves x x'
    → Improves y y'
    → Improves (if b then x else y) (if b then x' else y')
if-Improves true x x' y y' h k = h
if-Improves false x x' y y' h k = k

flush_block-Improves :
    (f : TwoWrites) (w : Writer) → Improves (flush_block f w) (flush_block no_failures w)
unfolding flush_block
flush_block-Improves f w = if-Improves (w.cur_records == 0) _ _ _ _ (done-Improves (done tt w)) (
    bind-Improves _ _ _ _ (write-Improves f.body_fails w.cur_block w) (λ _ w1.
      bind-Improves _ _ _ _ (write-Improves f.trailer_fails (trailer w.cur_records w.cur_block) w1)
        (λ _ w2. done-Improves (done tt (push_block w2)))))

flush_if_full-Improves :
    (f : TwoWrites) (w : Writer) → Improves (flush_if_full f w) (flush_if_full no_failures w)
unfolding flush_if_full
flush_if_full-Improves f w =
    if-Improves (leb w.block_target_size (length w.cur_block)) _ _ _ _ (flush_block-Improves f w)
      (done-Improves (done tt w))

add_payload-Improves :
    (f : TwoWrites) (d : DocId) (r : LogRecord) (o : Option (List Byte)) (w : Writer)
    → Improves (add_payload f d r o w) (add_payload no_failures d r o w)
unfolding add_payload
add_payload-Improves f d r none w = done-Improves _
add_payload-Improves f d r (some p) w =
    if-Improves (ltb (2 ^ 32 - 1) (length p)) _ _ _ _ (done-Improves _)
      (flush_if_full-Improves f (note d r p w))

-- An `Add` that succeeds leaves the writer as on a disk that works.
pub add-Improves :
    (J : Json) (f : TwoWrites) (d : DocId) (r : LogRecord) (w : Writer)
    → Improves (add J f d r w) (add J no_failures d r w)
unfolding add
add-Improves J f d r w = if-Improves w.closed _ _ _ _ (done-Improves _) (
    if-Improves (w.has_record && leb d w.last_doc_id) _ _ _ _ (done-Improves _)
      (add_payload-Improves f d r (marshal J r) w))

write_index_block-Improves :
    (f : TwoWrites) (w : Writer)
    → Improves (write_index_block f w) (write_index_block no_failures w)
unfolding write_index_block
write_index_block-Improves f w =
    bind-Improves _ _ _ _ (write-Improves f.body_fails _ w) (λ _ w1.
      bind-Improves _ _ _ _ (write-Improves f.trailer_fails _ w1) (λ _ w2. done-Improves _))

fail_if-Improves :
    (e : WriterError) (b c : Bool) (w : Writer)
    → Improves (fail_if e (b || c) w) (fail_if e (false || c) w)
fail_if-Improves e true c w a v p = cc
fail_if-Improves e false c w a v p = p

fail-Improves :
    (e : WriterError) (b : Bool) (w : Writer) → Improves (fail_if e b w) (fail_if e false w)
fail-Improves e true w a v p = cc
fail-Improves e false w a v p = p

write_tail-Improves :
    (f : CloseRun) (w : Writer) → Improves (write_tail f w) (write_tail (working f) w)
unfolding write_tail write_meta_block write_footer
write_tail-Improves f w = bind-Improves _ _ _ _ (write_index_block-Improves f.index w) (λ index w1.
    bind-Improves _ _ _ _
      (bind-Improves _ _ _ _ (write-Improves f.meta_fails _ w1) (λ _ w2. done-Improves _))
      (λ meta w2.
        bind-Improves _ _ _ _
          (bind-Improves _ _ _ _ (write-Improves f.footer_fails _ w2) (λ _ w3. done-Improves _))
          (λ _ w3.
            bind-Improves _ _ _ _ (fail_if-Improves flush_failed f.flush_fails w3.broken w3)
              (λ _ w4. fail-Improves sync_failed f.sync_fails w4))))

write_rest-Improves :
    (f : CloseRun) (w : Writer) → Improves (write_rest f w) (write_rest (working f) w)
unfolding write_rest
write_rest-Improves f w =
    bind-Improves _ _ _ _ (flush_block-Improves f.block w) (λ _ w1. write_tail-Improves f w1)

abbrev commit_with : Bool → Bool → Bool → Bool → Writer → Option WriterError × Writer
commit_with close_fails rename_fails sync_dir_fails remove_fails w =
    if close_fails
    then (some close_failed, remove_tmp remove_fails w)
    else if rename_fails
    then (some rename_failed, remove_tmp remove_fails w)
    else (let w' = record w { tmp = false; final = some w.file } in
        if sync_dir_fails
        then (some sync_dir_failed, w')
        else (none, record w' { finished = true }))

commit_with_lem :
    (a b c r : Bool) (w : Writer)
    → (commit_with a b c r w).0 ≡ none
    → commit_with false false false r w ≡ commit_with a b c r w
commit_with_lem true b c r w h = cc
commit_with_lem false true c r w h = cc
commit_with_lem false false true r w h = cc
commit_with_lem false false false r w h = refl

commit-working :
    (f : CloseRun) (w : Writer) → (commit f w).0 ≡ none → commit (working f) w ≡ commit f w
unfolding commit
commit-working f w h =
    commit_with_lem f.close_fails f.rename_fails f.sync_dir_fails f.remove_fails w h

commit_or_clean-working :
    (f : CloseRun) (x y : Run Unit)
    → Improves x y
    → (commit_or_clean f x).0 ≡ none
    → commit_or_clean (working f) y ≡ commit_or_clean f x
unfolding commit_or_clean
commit_or_clean-working f (failed e w) y h p = cc
commit_or_clean-working f (done a w) y h p =
    ap (commit_or_clean (working f)) (h a w refl) ∙ commit-working f w p

under_tests :
    (a b : Bool) (u x y z : Option WriterError × Writer)
    → (x.0 ≡ none → y ≡ x)
    → (if a then u else if b then x else z).0 ≡ none
    → (if a then u else if b then y else z) ≡ (if a then u else if b then x else z)
under_tests true b u x y z h p = refl
under_tests false true u x y z h p = h p
under_tests false false u x y z h p = refl

-- A `Close` that succeeds leaves what it leaves on a disk that works.
pub close-working :
    (f : CloseRun) (w : Writer) → (close f w).0 ≡ none → close (working f) w ≡ close f w
unfolding close
close-working f w p =
    let w' : Writer = record w { closed = true } in
    under_tests w.closed w.has_record (none, w) _ _ _
      (commit_or_clean-working f (write_rest f w') (write_rest (working f) w')
        (write_rest-Improves f w'))
      p
