-- ===== src/Server/Ingest/Owned.antt =====
-- What a successful ingest does (internal/server/server.go): the record belongs to the caller's tenant,
-- the caller can look it up, and no other tenant can.
use text.Mathlib.TextPositions.{eq_refl}
use dist_log.Prelude.{
  ◌^◌, ◌<◌, String, ◌≡◌, refl, ap, ◌∙◌, List, some, Bool, false, ◌==◌, not, str_eq, if◌then◌else◌,
}
use dist_log.Prelude.Decimal.{parse_uint, format_nat, parse_uint-format_nat}
use dist_log.Types.{DocId, LogRecord, Timestamp}
use dist_log.Types.Allocator as Allocator
use dist_log.Memtable.{SkipList}
use dist_log.Sstable.Reader.{GetResult, found}
use dist_log.Engine.State.{Engine}
use dist_log.Engine.Write.{Round, no_faults, clear, wait_for_stall_clear, stall_predicate, write}
use dist_log.Engine.Read.{get}
use dist_log.Engine.Laws.Written.{write_lem}
use dist_log.Sstable.Format.Laws.{eq_self}
use dist_log.Server.{
  ServerConfig, Reply, log_record, not_found, tenant, auth_middleware, tenant_from_ctx,
  reply_to_get, handle_get, get_log,
}
use dist_log.Server.Ingest.{
  IngestRequest, IngestReply, accepted, record_of, reply_to_write, handle_ingest, post_ingest,
}

-- A lookup by a caller who is let through, under a number that is written as such.
get_log_found :
    (c : ServerConfig) (header name text : String) (id : DocId) (r : LogRecord)
    (g : DocId → GetResult)
    → auth_middleware c header ≡ tenant name
    → parse_uint text ≡ some id
    → (id == 0) ≡ false
    → g id ≡ found r
    → get_log c header text g ≡ (
        if not (str_eq r.tenant_id (tenant_from_ctx c name)) then not_found id else log_record id r)
unfolding get_log handle_get reply_to_get
get_log_found c header name text id r g a p z e =
    rw (a, get_log) (rw (p, handle_get) (rw z (rw e refl)))

module _ (S : SkipList) (c : ServerConfig) (header name : String) (now : Timestamp)
    (q : IngestRequest) (rounds : List Round) (e : Engine S) where
  abbrev ingested : IngestReply × Engine S
  ingested = post_ingest S c header now (some q) rounds no_faults e

  abbrev next_id : DocId
  next_id = (Allocator.next e.alloc).0

  let_through :
      auth_middleware c header ≡ tenant name
      → let w = write S rounds no_faults (record_of c name now q) e in
        ingested ≡ (reply_to_write w.0, w.1)
  unfolding post_ingest handle_ingest
  let_through a = rw (a, post_ingest) refl

  written_read :
      e.closed ≡ false
      → e.fatal ≡ false
      → e.active.frozen ≡ false
      → wait_for_stall_clear (stall_predicate S e) rounds ≡ clear
      → let w = write S rounds no_faults (record_of c name now q) e in
        (reply_to_write w.0 ≡ accepted next_id)
        × (get S next_id w.1 ≡ found (record_of c name now q))
  unfolding reply_to_write
  written_read c0 f fr g =
      let r : LogRecord = record_of c name now q in
      let (res, log, reads) = write_lem S rounds r e c0 f fr g in
      (
        ap reply_to_write res,
        reads next_id ∙ ap (λ b. if b then found r else get S next_id e) (eq_self next_id),
      )

  -- Where the engine takes the write, an ingest replies with the number of the record; the caller's
  -- lookup of that number gives the record of the body, with the caller's tenant whatever the body says
  -- and the current time if it gives none; and the lookup of any caller of another tenant replies that
  -- there is no such record.
  pub ingest-get_log :
      auth_middleware c header ≡ tenant name
      → e.closed ≡ false
      → e.fatal ≡ false
      → e.active.frozen ≡ false
      → wait_for_stall_clear (stall_predicate S e) rounds ≡ clear
      → (next_id == 0) ≡ false
      → next_id < 2 ^ 64
      → (ingested.0 ≡ accepted next_id)
        × (get_log c header (format_nat next_id) (λ k. get S k ingested.1)
            ≡ log_record next_id (record_of c name now q))
        × ((header' name' : String)
            → auth_middleware c header' ≡ tenant name'
            → str_eq (tenant_from_ctx c name) (tenant_from_ctx c name') ≡ false
            → get_log c header' (format_nat next_id) (λ k. get S k ingested.1) ≡ not_found next_id)
  unfolding record_of
  ingest-get_log a c0 f fr g z n =
      let (reply, reads) = written_read c0 f fr g in
      let through = let_through a in
      let r : LogRecord = record_of c name now q in
      let got : get S next_id ingested.1 ≡ found r = ap (λ x. get S next_id x.1) through ∙ reads in
      let text = parse_uint-format_nat next_id n in
      let reply_as : Bool → Reply =
        λ b. if not b then not_found next_id else log_record next_id r in
      (
        ap (λ x. x.0) through ∙ reply,
        get_log_found c header name (format_nat next_id) next_id r (λ k. get S k ingested.1) a text
              z got
            ∙ ap reply_as (eq_refl (tenant_from_ctx c name)),
        λ header' name' b d.
            get_log_found c header' name' (format_nat next_id) next_id r (λ k. get S k ingested.1) b
              text z got
            ∙ ap reply_as d,
      )
