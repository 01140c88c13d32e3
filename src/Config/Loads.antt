-- ===== src/Config/Loads.antt =====
-- What a loaded configuration guarantees (internal/config/config.go, cmd/distlog/main.go).
use dist_log.Prelude.{
  String, ◌≡◌, refl, sym, subst, Option, none, some, Bool, true, false, str_eq, if◌then◌else◌,
  Bool-cases, inl, inr,
}
use dist_log.Prelude.Int.{ℤ, pos}
use dist_log.Query.Plan.{is_zero}
use dist_log.Config.{
  Config, ConfigError, missing_data_dir, loaded, or_text, or_duration, apply_defaults, validate,
  valid_or, load,
}

-- Every field that has a default is set, and there is a data directory.
pub record IsComplete (c : Config) : Type 0 where
  pub data_dir : str_eq c.engine.data_dir "" ≡ false
  pub listen_addr : str_eq c.server.listen_addr "" ≡ false
  pub shutdown_timeout : is_zero c.server.shutdown_timeout ≡ false
  pub write_request_timeout : is_zero c.server.write_request_timeout ≡ false

text_lem : (d s : String) → str_eq d "" ≡ false → str_eq (or_text d s) "" ≡ false
text_lem d s h = elim (Bool-cases (str_eq s "")) [ inl e ↦ simp e h | inr e ↦ simp e refl ]

duration_lem : (d n : ℤ) → is_zero d ≡ false → is_zero (or_duration d n) ≡ false
duration_lem d n h = elim (Bool-cases (is_zero n)) [ inl e ↦ simp e h | inr e ↦ simp e refl ]

valid_or_lem :
    (c : Config) (o : Option ConfigError) (c' : Config)
    → valid_or c o ≡ loaded c'
    → (o ≡ none) × (c ≡ c')
valid_or_lem c none c' h = (refl, cc)
valid_or_lem c (some e) c' h = cc

validate_lem : (c : Config) → validate c ≡ none → str_eq c.engine.data_dir "" ≡ false
unfolding validate
validate_lem c h = from_test (str_eq c.engine.data_dir "") h
  where
    from_test : (b : Bool) → (if b then some missing_data_dir else none) ≡ none → b ≡ false
    from_test true h = cc
    from_test false h = refl

apply_defaults-IsComplete :
    (c : Config) → str_eq c.engine.data_dir "" ≡ false → IsComplete (apply_defaults c)
unfolding apply_defaults
apply_defaults-IsComplete c h = record {
  data_dir = h;
  listen_addr = text_lem ":8080" c.server.listen_addr refl;
  shutdown_timeout = duration_lem (pos 10000000000) c.server.shutdown_timeout refl;
  write_request_timeout = duration_lem (pos 5000000000) c.server.write_request_timeout refl;
}

-- A configuration that loads is the decoded one with its defaults, and is complete: it names a data
-- directory and a listen address, and neither timeout is zero.
pub load-IsComplete :
    (c c' : Config) → load (some (some c)) ≡ loaded c' → (c' ≡ apply_defaults c) × IsComplete c'
unfolding load
load-IsComplete c c' h =
    let (v, e) = valid_or_lem (apply_defaults c) (validate (apply_defaults c)) c' h in
    let dir : str_eq c.engine.data_dir "" ≡ false =
      unfold apply_defaults in validate_lem (apply_defaults c) v in
    (sym e, subst IsComplete e (apply_defaults-IsComplete c dir))
