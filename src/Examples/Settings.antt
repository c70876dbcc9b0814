-- ===== src/Examples/Settings.antt =====
-- Configurations, and views with a timeout of their own.
use hellnet_lib_database.Prelude.{◌≡◌, refl, inl, true, false, none, some, []}
use hellnet_lib_database.Prelude.Int.{pos}
use hellnet_lib_database.Text.{codes}
use hellnet_lib_database.World.{panics, nil_logger, Env}
use hellnet_lib_database.Resilience.{new_retry_policy}
use hellnet_lib_database.Options.{Options, default, with_defaults}
use hellnet_lib_database.Options.Defaults.{with_defaults_enables_retry}
use hellnet_lib_database.Database.{Db}
use hellnet_lib_database.View.{View, view_execute}
use hellnet_lib_database.View.Statement.{slow_view_panics, sent}
use hellnet_lib_database.Examples.{healthy, conn, hooked}

-- what DATABASE_RETRY_ENABLED=false alone sets
abbrev no_retry : Options
no_retry = record default {
  database = codes "app";
  username = codes "app";
  retry_enabled = false;
  retry_max_count = pos 0;
  retry_base_delay = pos 0;
}

with_defaults_enables_retry_example : (with_defaults no_retry).retry_enabled ≡ true
with_defaults_enables_retry_example = with_defaults_enables_retry no_retry (inl refl) (inl refl)

abbrev once_only : Options
once_only = record no_retry { retry_max_count = pos 1 }

-- a minimum above the largest int32
abbrev huge : Options
huge = record default { pool_min_size = pos 5000000000 }

abbrev db : Db
db = record {
  conn = conn;
  pool = 1;
  retry = new_retry_policy true (pos 3) (pos 100);
  pool_metrics = none;
}

abbrev view : View
view = record { db = db; cmd_timeout = pos 60000000000 }

-- a server that takes a second for every statement
abbrev slow : Env
slow = record healthy { since = λ _. 1000000000 }

slow_view_panics_example :
    view_execute slow (some view) (codes "SELECT 1") [] hooked
    ≡ (panics nil_logger, sent slow view (codes "SELECT 1") [] hooked)
slow_view_panics_example = slow_view_panics slow view (codes "SELECT 1") [] hooked refl
