-- ===== src/Server/Ingest/Health.antt =====
-- The health route of internal/server/server.go and what it says of the ingest route.
use dist_log.Prelude.{
  ℕ, String, ◌≡◌, refl, ap, List, some, Bool, true, false, ◌||◌, not, if◌then◌else◌,
}
use dist_log.Types.{Timestamp}
use dist_log.Memtable.{SkipList}
use dist_log.Engine.State.{Engine}
use dist_log.Engine.Write.{
  Round, WriteFaults, WriteResult, failed, closed_error, fatal_error, write,
}
use dist_log.Engine.Read.{stats}
use dist_log.Engine.Flush.{close, signal_shutdown}
use dist_log.Server.{ServerConfig, tenant, auth_middleware}
use dist_log.Server.Ingest.{
  IngestRequest, status, reply_to_write, write_engine_error, answered, handle_ingest, post_ingest,
  handle_health,
}

module _ (S : SkipList) where
  refused_write :
      (a b : Bool) (e : Engine S) (x : WriteResult × Engine S)
      → not (b || a) ≡ false
      → (if a then (failed closed_error, e) else if b then (failed fatal_error, e) else x)
        ≡ (if a then (failed closed_error, e) else (failed fatal_error, e))
  refused_write true b e x h = refl
  refused_write false true e x h = refl
  refused_write false false e x h = cc

  refusal :
      (a : Bool) (e : Engine S)
      → let x = answered S (if a then (failed closed_error, e) else (failed fatal_error, e)) in
        (status x.0 ≡ (if a then 503 else 500)) × (x.1 ≡ e)
  unfolding status reply_to_write write_engine_error
  refusal true e = (refl, refl)
  refusal false e = (refl, refl)

  -- An engine that the health route calls unhealthy refuses the ingests of every caller that is let
  -- through, and is left as it was: with status 503 if it is closed, and with 500 otherwise.
  pub unhealthy_refuses :
      (quarantined : ℕ) (c : ServerConfig) (header name : String) (now : Timestamp)
      (q : IngestRequest) (rounds : List Round) (faults : WriteFaults) (e : Engine S)
      → (handle_health S quarantined e).healthy ≡ false
      → auth_middleware c header ≡ tenant name
      → let (reply, e') = post_ingest S c header now (some q) rounds faults e in
        (status reply ≡ (if e.closed then 503 else 500)) × (e' ≡ e)
  unfolding handle_health stats post_ingest handle_ingest write
  unhealthy_refuses quarantined c header name now q rounds faults e h a =
      rw (a, post_ingest) (rw (refused_write e.closed e.fatal e _ h) (refusal e.closed e))

  closed_flag :
      (b : Bool) (e x : Engine S)
      → e.closed ≡ b
      → x.closed ≡ true
      → (if b then e else x).closed ≡ true
  closed_flag true e x h k = h
  closed_flag false e x h k = k

  close_closed : (e : Engine S) → (close S e).closed ≡ true
  unfolding close signal_shutdown
  close_closed e = closed_flag e.closed e _ refl refl

  either_way : (a b : Bool) → b ≡ true → not (a || b) ≡ false
  either_way true b h = refl
  either_way false b h = ap not h

  -- After Close the health route calls the engine unhealthy.
  pub close-unhealthy :
      (quarantined : ℕ) (e : Engine S) → (handle_health S quarantined (close S e)).healthy ≡ false
  unfolding handle_health stats
  close-unhealthy quarantined e = either_way (close S e).fatal (close S e).closed (close_closed e)
