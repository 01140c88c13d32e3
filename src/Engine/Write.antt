-- ===== src/Engine/Write.antt =====
-- `Write` of internal/engine/engine.go and the gate that holds it back.
use dist_log.Prelude.{
  ℕ, zero, suc, List, [], ◌∷◌, Bool, true, false, ◌&&◌, not, length, if◌then◌else◌,
}
use dist_log.Prelude.Int.{ℤ, pos, ltb_ℤ}
use dist_log.Types.{DocId, LogRecord}
use dist_log.Types.Allocator as Allocator
use dist_log.Memtable as Memtable
use dist_log.Memtable.{SkipList, MemTable, PutResult, stored, frozen_error}
use dist_log.Engine.State.{Engine, append_record, tear}

pub data WriteError : Type 0 where
  closed_error fatal_error backpressure marshal_error append_error too_many_retries : WriteError

-- What a stalled writer sees each time it is awake: its context, the flags, the stall itself, and its
-- context again.
pub record Round : Type 0 where
  pub ctx_done : Bool
  pub closed : Bool
  pub fatal : Bool
  pub stalled : Bool
  pub ctx_done_after : Bool

pub data Gate : Type 0 where
  clear : Gate
  refused : WriteError → Gate
  waiting : Gate

-- The loop around `stallCond.Wait`.
unfoldable pub stall_loop : List Round → Gate
stall_loop [] = waiting
stall_loop (r ∷ rs) =
    let rest = stall_loop rs in
    if r.ctx_done
    then refused backpressure
    else if r.closed
    then refused closed_error
    else if r.fatal
    then refused fatal_error
    else if not r.stalled
    then clear
    else if r.ctx_done_after
    then refused backpressure
    else rest

-- `waitForStallClear`, given the predicate on the fast path.
unfoldable pub wait_for_stall_clear : Bool → List Round → Gate
unfolding stall_loop
wait_for_stall_clear stalled rounds = if not stalled then clear else stall_loop rounds

-- `>=` on the signed sizes.
abbrev pub at_least : ℤ → ℤ → Bool
at_least a b = not (ltb_ℤ a b)

pub data WriteResult : Type 0 where
  written : DocId → WriteResult
  failed : WriteError → WriteResult
  blocked : WriteResult

-- What `Append` of the segment writer comes to: it succeeds, it fails before it writes, its write is cut
-- short, or the record is written and the sync fails.
pub data AppendOutcome : Type 0 where
  appended nothing_written cut_short not_synced : AppendOutcome

-- Whether marshalling fails, and what the append comes to.
pub record WriteFaults : Type 0 where
  pub marshal_fails : Bool
  pub append : AppendOutcome

abbrev pub no_faults : WriteFaults
no_faults = record { marshal_fails = false; append = appended }

module _ (S : SkipList) where
  unfoldable pub stall_predicate : Engine S → Bool
  stall_predicate e =
      at_least e.active.size_bytes e.config.mem_table_hard_limit
      && at_least (pos (length e.frozen)) e.config.max_frozen_mem_tables

  unfoldable pub maybe_trigger_freeze : Engine S → Engine S
  maybe_trigger_freeze e =
      if ltb_ℤ e.active.size_bytes e.config.mem_table_size_limit
      then e
      else record e { freeze_signal = true }

  -- The attempts: each appends to the log first and puts into the table then.
  unfoldable pub write_attempts :
      ℕ → AppendOutcome → DocId → LogRecord → Engine S → WriteResult × Engine S
  unfolding maybe_trigger_freeze append_record tear Memtable.put
  write_attempts zero outcome id r e = (failed too_many_retries, e)
  write_attempts (suc n) outcome id r e =
      let e' = record e { log = append_record (id, r) e.log } in
      let again = write_attempts n outcome id r e' in
      let (result, m) = Memtable.put S id r e.active in
      elim outcome [
        | appended ↦ elim result [
          | stored ↦ (written id, maybe_trigger_freeze (record e' { active = m }))
          | frozen_error ↦ again
        ]
        | nothing_written ↦ (failed append_error, e)
        | cut_short ↦ (failed append_error, record e { log = tear e.log })
        | not_synced ↦ (failed append_error, e')
      ]

  abbrev pub max_write_attempts : ℕ
  max_write_attempts = 3

  -- `Write` behind the gate, where no other goroutine's step comes between the number, which is taken
  -- outside the lock, and the attempts. Engine.Laws.Sound has them as steps of their own.
  unfoldable pub commit : WriteFaults → LogRecord → Engine S → WriteResult × Engine S
  unfolding write_attempts Allocator.next
  commit faults r e =
      let (id, alloc') = Allocator.next e.alloc in
      let e' = record e { alloc = alloc' } in
      if faults.marshal_fails
      then (failed marshal_error, e')
      else write_attempts max_write_attempts faults.append id r e'

  abbrev pub behind_gate : Gate → WriteFaults → LogRecord → Engine S → WriteResult × Engine S
  behind_gate clear faults r e = commit faults r e
  behind_gate (refused x) faults r e = (failed x, e)
  behind_gate waiting faults r e = (blocked, e)

  -- `Write`, with what the writer sees while it is stalled.
  unfoldable pub write : List Round → WriteFaults → LogRecord → Engine S → WriteResult × Engine S
  unfolding commit wait_for_stall_clear stall_predicate
  write rounds faults r e =
      if e.closed
      then (failed closed_error, e)
      else if e.fatal
      then (failed fatal_error, e)
      else behind_gate (wait_for_stall_clear (stall_predicate e) rounds) faults r e
