-- ===== src/Server/Isolation.antt =====
-- What a caller of internal/server/server.go can learn of other tenants' records.
use dist_log.Prelude.{
  String, ◌≡◌, refl, ◌==◌, str_eq, if◌then◌else◌, Bool-cases, Option-cases, inl, inr,
}
use dist_log.Prelude.Decimal.{parse_uint}
use dist_log.Types.{DocId}
use dist_log.Sstable.Reader.{GetResult, found, absent, load_error}
use dist_log.Server.{
  ServerConfig, Reply, Auth, tenant, denied, auth_middleware, tenant_from_ctx, reply_to_get,
  handle_get, get_log,
}

-- An answer as if the records of other tenants did not exist.
abbrev pub visible : String → GetResult → GetResult
visible name load_error = load_error
visible name absent = absent
visible name (found r) = if str_eq r.tenant_id name then found r else absent

-- The tenant that a request acts for, if it is let through.
abbrev pub acting : ServerConfig → Auth → String
acting c (tenant name) = tenant_from_ctx c name
acting c (denied r) = ""

reply_to_get-visible :
    (name : String) (id : DocId) (g : GetResult)
    → reply_to_get name id g ≡ reply_to_get name id (visible name g)
unfolding reply_to_get
reply_to_get-visible name id load_error = refl
reply_to_get-visible name id absent = refl
reply_to_get-visible name id (found r) = elim (Bool-cases (str_eq r.tenant_id name)) [
  | inl e ↦ rw e (rw e refl)
  | inr e ↦ rw e refl
]

handle_get-visible :
    (c : ServerConfig) (name text : String) (get : DocId → GetResult)
    → handle_get c name text get
      ≡ handle_get c name text (λ k. visible (tenant_from_ctx c name) (get k))
unfolding handle_get
handle_get-visible c name text get = elim (Option-cases (parse_uint text)) [
  | inl e ↦ rw (e, handle_get) refl
  | inr (id, e) ↦
      rw (e, handle_get)
        (elim (Bool-cases (id == 0)) [
          | inl z ↦ rw z refl
          | inr z ↦ rw z (reply_to_get-visible (tenant_from_ctx c name) id (get id))
        ])
]

-- Whatever header and path a caller sends, the reply is the one that an engine would give in which the
-- records of every tenant but the one the request acts for do not exist: a foreign record cannot be told
-- from a missing one.
pub get_log-visible :
    (c : ServerConfig) (header text : String) (get : DocId → GetResult)
    → get_log c header text get
      ≡ get_log c header text (λ k. visible (acting c (auth_middleware c header)) (get k))
unfolding get_log
get_log-visible c header text get = go (auth_middleware c header)
  where
    go :
        (a : Auth)
        → (elim a as (λ x. Reply) [ denied r ↦ r | tenant name ↦ handle_get c name text get ])
          ≡ (elim a as (λ x. Reply) [
            | denied r ↦ r
            | tenant name ↦ handle_get c name text (λ k. visible (acting c a) (get k))
          ])
    go (denied r) = refl
    go (tenant name) = handle_get-visible c name text get
