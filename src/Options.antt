-- ===== src/Options.antt =====
-- The configuration of database/database.go: Options with its defaults and its validation, and the
-- pool sizes that newDB derives from it.
pub mod Defaults
pub mod Pool
use hellnet_lib_database.Prelude.{
  ℕ, Bool, true, false, ◌&&◌, not, Option, none, some, List, [], ◌∷◌, ◌++◌, if◌then◌else◌,
}
use hellnet_lib_database.Prelude.Int.{ℤ, pos, leb_ℤ, ltb_ℤ, eqb_ℤ, ◌+ℤ◌}
use hellnet_lib_database.Text.{Text, codes, is_empty, trim_space, join}
use hellnet_lib_database.Errors.{Err, errorf}
use hellnet_lib_database.World.{Hook}

pub record Options : Type 0 where
  pub host : Text
  pub port : ℤ
  pub database : Text
  pub username : Text
  pub password : Text
  pub pool_min_size : ℤ
  pub pool_max_size : ℤ
  pub command_timeout : ℤ
  pub connection_timeout : ℤ
  pub retry_enabled : Bool
  pub retry_max_count : ℤ
  pub retry_base_delay : ℤ
  pub slow_query : ℤ
  pub query_hooks : List Hook
  pub hide_query_args : Bool
  pub instrumentation : Option ℕ

-- durations count nanoseconds
abbrev pub second : ℕ
second = 1000000000

abbrev pub millisecond : ℕ
millisecond = 1000000

-- Default
abbrev pub default : Options
default = record {
  host = [];
  port = pos 0;
  database = [];
  username = [];
  password = [];
  pool_min_size = pos 10;
  pool_max_size = pos 100;
  command_timeout = pos 30000000000;
  connection_timeout = pos 15000000000;
  retry_enabled = true;
  retry_max_count = pos 3;
  retry_base_delay = pos 100000000;
  slow_query = pos 500000000;
  query_hooks = [];
  hide_query_args = false;
  instrumentation = none;
}

unfoldable pub text_or : Text → Text → Text
text_or s d = if is_empty s then d else s

unfoldable pub int_or : ℤ → ℤ → ℤ
int_or n d = if eqb_ℤ n (pos 0) then d else n

-- defaultRetryEnabled, on an `o` whose other fields have their defaults already
unfoldable pub default_retry_enabled : Options → Options → Options
default_retry_enabled o d = record o {
  retry_enabled =
      if not o.retry_enabled
        && (eqb_ℤ o.retry_max_count d.retry_max_count
            && eqb_ℤ o.retry_base_delay d.retry_base_delay)
      then d.retry_enabled
      else o.retry_enabled;
}

-- withDefaults
unfoldable pub with_defaults : Options → Options
unfolding default_retry_enabled
with_defaults o =
    let o' = record o {
      host = text_or o.host default.host;
      port = int_or o.port default.port;
      database = text_or o.database default.database;
      username = text_or o.username default.username;
      password = text_or o.password default.password;
      pool_min_size = int_or o.pool_min_size default.pool_min_size;
      pool_max_size = int_or o.pool_max_size default.pool_max_size;
      command_timeout = int_or o.command_timeout default.command_timeout;
      connection_timeout = int_or o.connection_timeout default.connection_timeout;
      retry_max_count = int_or o.retry_max_count default.retry_max_count;
      retry_base_delay = int_or o.retry_base_delay default.retry_base_delay;
    } in
    let o'' = default_retry_enabled o' default in
    record o'' { slow_query = int_or o''.slow_query default.slow_query }

abbrev pub missing_if : Bool → Text → List Text
missing_if true name = name ∷ []
missing_if false name = []

-- the names that Validate collects
unfoldable pub missing : Options → List Text
missing o =
    missing_if (is_empty (trim_space o.database)) (codes "DATABASE_NAME")
    ++ (missing_if (is_empty (trim_space o.username)) (codes "DATABASE_USERNAME")
        ++ (missing_if (is_empty (trim_space o.password)) (codes "DATABASE_PASSWORD")
            ++ missing_if (leb_ℤ o.pool_max_size (pos 0))
                (codes "DATABASE_POOL_MAX_SIZE (must be > 0)")))

unfoldable pub report : List Text → Option Err
report [] = none
report (m ∷ ms) =
    some (errorf "database: missing or invalid configuration: %s" (join (m ∷ ms) (codes ", ") ∷ []))

-- Validate
unfoldable pub validate : Options → Option Err
unfolding missing report
validate o = report (missing o)

abbrev pub max_ℤ : ℤ → ℤ → ℤ
max_ℤ a b = if ltb_ℤ a b then b else a

abbrev pub min_ℤ : ℤ → ℤ → ℤ
min_ℤ a b = if ltb_ℤ b a then b else a

abbrev pub max_int32 : ℤ
max_int32 = pos 2147483647

-- cfg.MinConns and cfg.MaxConns of newDB
unfoldable pub min_conns : Options → ℤ
min_conns o = min_ℤ (max_ℤ o.pool_min_size (pos 0)) max_int32

unfoldable pub max_conns : Options → ℤ
unfolding min_conns
max_conns o = min_ℤ (max_ℤ o.pool_max_size (min_conns o +ℤ pos 1)) max_int32
