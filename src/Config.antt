-- ===== src/Config.antt =====
-- internal/config/config.go, and the configurations that `run` of cmd/distlog/main.go makes of it. YAML is
-- decoded by a third-party package: `Load` takes what reading the file and decoding it give.
pub mod Loads
use dist_log.Prelude.{String, List, Option, none, some, str_eq, if◌then◌else◌}
use dist_log.Prelude.Int.{ℤ, pos}
use dist_log.Query.Plan.{is_zero}
use dist_log.Engine.State as State
use dist_log.Server as Server

pub record AuthConfig : Type 0 where
  pub tokens : List (String × String)

abbrev pub anonymous_tenant : String
anonymous_tenant = "_anonymous"

-- Durations are nanoseconds.
pub record ServerConfig : Type 0 where
  pub listen_addr : String
  pub shutdown_timeout : ℤ
  pub write_request_timeout : ℤ

pub record EngineConfig : Type 0 where
  pub data_dir : String
  pub mem_table_size_limit : ℤ
  pub mem_table_hard_limit : ℤ
  pub max_frozen_mem_tables : ℤ

pub record Config : Type 0 where
  pub server : ServerConfig
  pub engine : EngineConfig
  pub auth : AuthConfig

pub data ConfigError : Type 0 where
  unreadable unparsed missing_data_dir : ConfigError

pub data Loading : Type 0 where
  loaded : Config → Loading
  refused : ConfigError → Loading

abbrev pub or_text : String → String → String
or_text d s = if str_eq s "" then d else s

abbrev pub or_duration : ℤ → ℤ → ℤ
or_duration d n = if is_zero n then d else n

unfoldable pub apply_defaults : Config → Config
apply_defaults c = record c {
  server = record {
    listen_addr = or_text ":8080" c.server.listen_addr;
    shutdown_timeout = or_duration (pos 10000000000) c.server.shutdown_timeout;
    write_request_timeout = or_duration (pos 5000000000) c.server.write_request_timeout;
  };
}

unfoldable pub validate : Config → Option ConfigError
validate c = if str_eq c.engine.data_dir "" then some missing_data_dir else none

abbrev valid_or : Config → Option ConfigError → Loading
valid_or c none = loaded c
valid_or c (some e) = refused e

-- `Load`, for a file that cannot be read or what the strict decoder makes of it; `none` is its error.
unfoldable pub load : Option (Option Config) → Loading
unfolding apply_defaults validate
load none = refused unreadable
load (some none) = refused unparsed
load (some (some c)) = let c' = apply_defaults c in valid_or c' (validate c')

-- What `run` hands to `engine.Open`; the fields that it leaves out are zero.
unfoldable pub engine_config : Config → State.Config
engine_config c = record {
  mem_table_size_limit = c.engine.mem_table_size_limit;
  mem_table_hard_limit = c.engine.mem_table_hard_limit;
  max_frozen_mem_tables = c.engine.max_frozen_mem_tables;
  max_flush_retries = pos 0;
  flush_retry_base_delay = pos 0;
  flush_retry_max_delay = pos 0;
}

-- What `run` hands to `server.New`, as far as requests depend on it.
unfoldable pub server_config : Config → Server.ServerConfig
server_config c = record { tokens = c.auth.tokens; anonymous_tenant = anonymous_tenant }
