-- ===== src/Wal/Replay/Laws.antt =====
-- What a replay hands to its callback.
use mathlib.Core.List.{append_assoc}
use mathlib.Core.Logic.{◌≢◌}
use dist_log.Prelude.{
  ℕ, zero, suc, ◌+◌, ◌≤◌, ◌<◌, ◌≡◌, refl, sym, subst, List, [], ◌∷◌, ◌++◌, Bool, false, length,
  length-append, arith,
}
use dist_log.Bytes.{Byte}
use dist_log.Wal.Record.{
  RecordType, header_size, max_payload, record_bytes, Reader, Decoded, decoded, end_of_log, torn,
  corrupt, io_error, decode_record,
}
use dist_log.Wal.Record.Laws.{decode-record_bytes, length-record_bytes}
use dist_log.Wal.Record.Laws.Cut.{decode_cut_record}
use dist_log.Wal.Record.Laws.Inverse.{decoded_shorter}
use dist_log.Wal.Replay.{
  carry_on, refuse, Replayed, finished, refused, out_of_fuel, Callback, replay_loop, replay,
}

-- A record as it was appended.
abbrev pub Appended : Type 0
Appended = RecordType × List Byte

abbrev pub AllFit : List Appended → Type 0
AllFit [] = Unit
AllFit ((typ, payload) ∷ rs) = (length payload ≤ max_payload) × AllFit rs

-- The bytes of a segment to which these records were appended.
unfoldable pub segment_bytes : List Appended → List Byte
segment_bytes [] = []
segment_bytes ((typ, payload) ∷ rs) = record_bytes typ payload ++ segment_bytes rs

module _ {S E : Type 0} (id : ℕ) (fn : Callback S E) where
  -- The callback on the records one after the other, each with the offset at which it begins.
  unfoldable pub feed : ℕ → List Appended → S → Replayed S E
  feed offset [] s = finished s
  feed offset ((typ, payload) ∷ rs) s =
      elim (fn (record { segment_id = id; lsn = offset; typ = typ; payload = payload }) s) [
        | refuse e ↦ refused e
        | carry_on s' ↦ feed (offset + (header_size + length payload)) rs s'
      ]

  pub feed_ok :
      (offset : ℕ) (typ : RecordType) (payload : List Byte) (rs : List Appended) (s s' : S)
      → fn (record { segment_id = id; lsn = offset; typ = typ; payload = payload }) s ≡ carry_on s'
      → feed offset ((typ, payload) ∷ rs) s ≡ feed (offset + (header_size + length payload)) rs s'
  unfolding feed
  feed_ok offset typ payload rs s s' e = rw (e, feed)

-- What stops a replay without an error.
abbrev pub EndsLog : Decoded → Type 0
EndsLog end_of_log = Unit
EndsLog torn = Unit
EndsLog corrupt = Unit
EndsLog io_error = ⊥
EndsLog (decoded _ _ _) = ⊥

module _ {S E : Type 0} (id : ℕ) (fn : Callback S E) where
  stop_here :
      (fuel offset : ℕ) (r : Reader) (s : S) (d : Decoded)
      → decode_record r ≡ d
      → EndsLog d
      → replay_loop (suc fuel) id offset r fn s ≡ finished s
  unfolding replay_loop
  stop_here fuel offset r s end_of_log e h = rw (e, replay_loop)
  stop_here fuel offset r s torn e h = rw (e, replay_loop)
  stop_here fuel offset r s corrupt e h = rw (e, replay_loop)
  stop_here fuel offset r s io_error e h = absurd h
  stop_here fuel offset r s (decoded _ _ _) e h = absurd h

  replay_loop-segment_bytes :
      (rs : List Appended) (tail : List Byte) (fault : Bool) (fuel offset : ℕ) (s : S)
      → AllFit rs
      → length (segment_bytes rs) < fuel
      → EndsLog (decode_record (record { rest = tail; fault = fault }))
      → replay_loop fuel id offset (record { rest = segment_bytes rs ++ tail; fault = fault }) fn s
        ≡ feed id fn offset rs s
  unfolding replay_loop feed segment_bytes
  replay_loop-segment_bytes rs tail fault zero offset s fit lt h = absurd (omega arith)
  replay_loop-segment_bytes [] tail fault (suc fuel) offset s fit lt h =
      stop_here fuel offset (record { rest = tail; fault = fault }) s _ refl h
  replay_loop-segment_bytes ((typ, payload) ∷ rs) tail fault (suc fuel) offset s fit lt h =
      let rest : List Byte = segment_bytes rs ++ tail in
      let read = decode-record_bytes typ payload fit.0 rest fault in
      let total = length-append (record_bytes typ payload) (segment_bytes rs) in
      let shorter : length (segment_bytes rs) < fuel =
        omega (arith, total, length-record_bytes typ payload) in
      let next = offset + (header_size + length payload) in
      let ih = λ (s' : S). replay_loop-segment_bytes rs tail fault fuel next s' fit.1 shorter h in
      rw (append_assoc (record_bytes typ payload) (segment_bytes rs) tail) (
        rw (read, replay_loop)
          (elim (fn (record { segment_id = id; lsn = offset; typ = typ; payload = payload }) s)
            as (λ a.
              (elim a [
                | refuse e ↦ refused e
                | carry_on s' ↦
                    replay_loop fuel id next (record { rest = rest; fault = fault }) fn s'
              ])
              ≡ (elim a [ refuse e ↦ refused e | carry_on s' ↦ feed id fn next rs s' ])) [
                | refuse e ↦ refl
                | carry_on s' ↦ ih s'
              ]))

-- A segment's records are handed to the callback in order, each with the offset at which it begins,
-- whatever comes behind them that does not decode: the end of the file, a torn or a corrupt record.
pub replay-segment_bytes :
    {S E : Type 0} (id : ℕ) (fn : Callback S E) (rs : List Appended) (tail : List Byte)
    (fault : Bool) (s : S)
    → AllFit rs
    → EndsLog (decode_record (record { rest = tail; fault = fault }))
    → replay id (record { rest = segment_bytes rs ++ tail; fault = fault }) fn s ≡ feed id fn 0 rs s
unfolding replay
replay-segment_bytes id fn rs tail fault s fit h =
    replay_loop-segment_bytes id fn rs tail fault (suc (length (segment_bytes rs ++ tail))) 0 s fit
      (omega (arith, length-append (segment_bytes rs) tail)) h

-- After a crash that cut the last record short, the replay gives exactly the records before it.
pub replay_cut_segment :
    {S E : Type 0} (id : ℕ) (fn : Callback S E) (rs : List Appended) (typ : RecordType)
    (payload front back : List Byte) (x : Byte) (s : S)
    → AllFit rs
    → length payload ≤ max_payload
    → record_bytes typ payload ≡ front ++ (x ∷ back)
    → front ≢ []
    → replay id (record { rest = segment_bytes rs ++ front; fault = false }) fn s
      ≡ feed id fn 0 rs s
replay_cut_segment id fn rs typ payload front back x s fit small e ne =
    replay-segment_bytes id fn rs front false s fit
      (subst EndsLog (sym (decode_cut_record typ payload front back x small e ne)) tt)

module _ {S E : Type 0} (id : ℕ) (fn : Callback S E) where
  abbrev Total : ℕ → Type 0
  Total fuel =
      (offset : ℕ) (r : Reader) (s : S)
      → length r.rest < fuel
      → replay_loop fuel id offset r fn s ≢ out_of_fuel

  round-Total :
      (fuel offset : ℕ) (r : Reader) (s : S) (d : Decoded)
      → length r.rest < suc fuel
      → Total fuel
      → decode_record r ≡ d
      → replay_loop (suc fuel) id offset r fn s ≢ out_of_fuel
  unfolding replay_loop
  round-Total fuel offset r s end_of_log h ih e = rw (e, replay_loop) (λ q. cc)
  round-Total fuel offset r s torn h ih e = rw (e, replay_loop) (λ q. cc)
  round-Total fuel offset r s corrupt h ih e = rw (e, replay_loop) (λ q. cc)
  round-Total fuel offset r s io_error h ih e = rw (e, replay_loop) (λ q. cc)
  round-Total fuel offset r s (decoded typ payload r') h ih e =
      let shorter : length r'.rest < fuel = omega (arith, decoded_shorter r r' typ payload e) in
      let next = offset + (header_size + length payload) in
      rw (e, replay_loop)
        (elim (fn (record { segment_id = id; lsn = offset; typ = typ; payload = payload }) s)
          as (λ a.
            (elim a as (λ _. Replayed S E) [
              | refuse x ↦ refused x
              | carry_on s' ↦ replay_loop fuel id next r' fn s'
            ])
            ≢ out_of_fuel) [ refuse x ↦ (λ q. cc) | carry_on s' ↦ ih next r' s' shorter ])

  replay_loop-Total : (fuel : ℕ) → Total fuel
  replay_loop-Total zero offset r s h = absurd (omega arith)
  replay_loop-Total (suc fuel) offset r s h =
      round-Total fuel offset r s (decode_record r) h (replay_loop-Total fuel) refl

-- A replay ends on every file, well formed or not.
pub replay_total :
    {S E : Type 0} (id : ℕ) (fn : Callback S E) (r : Reader) (s : S)
    → replay id r fn s ≢ out_of_fuel
unfolding replay
replay_total id fn r s = replay_loop-Total id fn (suc (length r.rest)) 0 r s (omega arith)
