-- ===== src/Metrics/Described.antt =====
-- NewMetricsCollector of database/metrics.go: the metrics that a collector makes for itself.
use hellnet_lib_database.Prelude.{ℕ, ◌*◌, String, Option, none, some, List, [], ◌∷◌}
use hellnet_lib_database.Prelude.Int.{ℤ, pos}
use hellnet_lib_database.World.{
  Metric, queries_total, query_duration, pool_acquire_total, tx_total, rollback_compensations,
  pool_in_use, pool_idle, pool_max,
}
use hellnet_lib_database.Metrics.{MetricsHandle}

-- the options of a metric, its labels, and the buckets of a histogram in thousandths of a second
pub record Desc : Type 0 where
  pub name : String
  pub help : String
  pub labels : List String
  pub buckets : List ℕ

abbrev pub query_duration_buckets : List ℕ
query_duration_buckets = 5 ∷ 10 ∷ 25 ∷ 50 ∷ 100 ∷ 250 ∷ 500 ∷ 1000 ∷ 2500 ∷ 5000 ∷ 10000 ∷ []

abbrev plain : String → String → Desc
plain name help = record { name = name; help = help; labels = []; buckets = [] }

abbrev pub desc : Metric → Desc
desc queries_total = record {
  name = "db_queries_total";
  help =
      "database statements executed by op (query|query_row|scalar|exec) and status (ok|error|canceled)";
  labels = "op" ∷ "status" ∷ [];
  buckets = [];
}
desc query_duration = record {
  name = "db_query_duration_seconds";
  help = "statement execution latency (inclui mapping) por op";
  labels = "op" ∷ [];
  buckets = query_duration_buckets;
}
desc pool_acquire_total =
    plain "db_pool_acquires_total"
      "successful dedicated connections acquired from the pool (DB.Acquire)"
desc tx_total = record {
  name = "db_transactions_total";
  help = "transaction outcomes by result (commit|rollback|panic)";
  labels = "result" ∷ [];
  buckets = [];
}
desc rollback_compensations =
    plain "db_rollback_compensations_total"
      "compensating rollbacks executed outside the normal path (post-commit-failure, deferred-after-panic)"
desc pool_in_use = plain "db_pool_in_use" "pool connections currently checked out (sampled)"
desc pool_idle = plain "db_pool_idle" "idle pool connections awaiting reuse (sampled)"
desc pool_max = plain "db_pool_max" "configured pool connection limit (sampled)"

-- MetricsCollector, whose eight metrics are those of `desc`
pub record MetricsCollector : Type 0 where
  pub reg : ℕ
  pub poll_interval : ℤ

-- defaultMetricsPollInterval
abbrev pub default_metrics_poll_interval : ℤ
default_metrics_poll_interval = pos (5 * 1000000000)

-- NewMetricsCollector, with the default registerer of the prometheus package
abbrev pub new_metrics_collector : ℕ → Option ℕ → MetricsCollector
new_metrics_collector default_registerer none = record {
  reg = default_registerer;
  poll_interval = default_metrics_poll_interval;
}
new_metrics_collector default_registerer (some reg) = record {
  reg = reg;
  poll_interval = default_metrics_poll_interval;
}

-- Collector, on a pointer that may be nil
abbrev pub collector_of : Option MetricsHandle → Option ℕ
collector_of none = none
collector_of (some h) = some h.mc
