-- ===== src/Metrics.antt =====
-- server/src/metrics.rs: counters in memory (`FUNCTION_METRICS`) and in a database of their own
-- (`METRICS_DB`). The clock, the functions directory and the failures of the database are arguments.
pub mod Recording
pub mod Flush
use faasta.Prelude.{
  ℕ, ◌+◌, ◌-◌, ◌%◌, ◌^◌, min, max, Text, Bool, true, false, not, Option, none, some, List, [], ◌∷◌,
  ◌++◌, Result, ok, err, ◌==◌, if◌then◌else◌,
}
use mathlib.Core.Option
use faasta.Prelude.Dict
use faasta.Prelude.Dict.{Dict}
use faasta.Db
use faasta.Db.{Database, Faults}

abbrev pub u64_max : ℕ
u64_max = 2 ^ 64 - 1

abbrev pub wrap : ℕ → ℕ
wrap n = n % 2 ^ 64

pub record FunctionMetric : Type 0 where
  pub function_name : Text
  pub total_time : ℕ
  pub call_count : ℕ
  pub last_called : ℕ

pub record Metering : Type 0 where
  pub function_metrics : Dict FunctionMetric
  pub metrics_db : Database

abbrev pub default : Text → ℕ → FunctionMetric
default function_name now = record {
  function_name = function_name;
  total_time = 0;
  call_count = 0;
  last_called = now;
}

abbrev pub loaded : Text → ℕ → Result Text (Option (ℕ × ℕ × ℕ)) → FunctionMetric
loaded function_name now (ok (some (total_time, call_count, last_called))) = record {
  function_name = function_name;
  total_time = total_time;
  call_count = call_count;
  last_called = last_called;
}
loaded function_name now (ok none) = default function_name now
loaded function_name now (err e) = default function_name now

-- The atomic additions wrap round.
unfoldable pub record_call : ℕ → ℕ → FunctionMetric → FunctionMetric
record_call duration_ms now metric = record metric {
  total_time = wrap (metric.total_time + duration_ms);
  call_count = wrap (metric.call_count + 1);
  last_called = now;
}

abbrev pub row_or_zeros : Result Text (Option (ℕ × ℕ × ℕ)) → ℕ × ℕ × ℕ
row_or_zeros (ok (some row)) = row
row_or_zeros (ok none) = (0, 0, 0)
row_or_zeros (err e) = (0, 0, 0)

abbrev pub in_memory : Option FunctionMetric → ℕ × ℕ × ℕ
in_memory none = (0, 0, 0)
in_memory (some metric) = (metric.total_time, metric.call_count, metric.last_called)

-- One function in the report of `get_metrics`; the date is printed by a library.
pub record FunctionMetricsResponse : Type 0 where
  pub function_name : Text
  pub total_time_millis : ℕ
  pub call_count : ℕ
  pub last_called : Text

pub record Metrics : Type 0 where
  pub total_time : ℕ
  pub total_calls : ℕ
  pub function_metrics : List FunctionMetricsResponse

module _ (fault : Faults) where
  -- `FunctionMetric::new`
  unfoldable pub new : Text → ℕ → Database → FunctionMetric
  new function_name now db = loaded function_name now (Db.get_metric fault function_name db)

  -- The sums are those of a release build, which wrap round. A failure to persist is logged.
  unfoldable pub flush_to_db : FunctionMetric → Database → Database
  flush_to_db metric db =
      let (db_total, db_calls, db_last) =
        row_or_zeros (Db.get_metric fault metric.function_name db) in
      let (r, db') =
        Db.upsert_metric fault metric.function_name (wrap (db_total + metric.total_time))
          (wrap (db_calls + metric.call_count)) (max db_last metric.last_called) db in
      db'

  -- One round of the loop of `flush_metrics_to_db`.
  unfoldable pub flush_entry : FunctionMetric → Database → FunctionMetric × Database
  flush_entry metric db =
      if metric.call_count == 0
      then (metric, db)
      else (record metric { total_time = 0; call_count = 0 }, flush_to_db metric db)

  flush_entries : Dict FunctionMetric → Database → Dict FunctionMetric × Database
  flush_entries [] db = ([], db)
  flush_entries ((key, metric) ∷ entries) db =
      let (metric', db') = flush_entry metric db in
      let (entries', db'') = flush_entries entries db' in ((key, metric') ∷ entries', db'')

  -- The checkpoint at the end moves no row, and its failure is logged.
  unfoldable pub flush_metrics_to_db : Metering → Metering
  unfolding flush_entries
  flush_metrics_to_db s =
      let (entries, db) = flush_entries s.function_metrics s.metrics_db in
      record { function_metrics = entries; metrics_db = db }

  abbrev known : Result Text Bool → Bool
  known (ok found) = found
  known (err e) = false

  add_row : Text → ℕ → Database → Database
  add_row function_name now db =
      if known (Db.metric_exists fault function_name db)
      then db
      else (let (r, db') = Db.upsert_metric fault function_name 0 0 now db in db')

  -- The metric that comes back is a value of its own: what is recorded in it stays out of the map.
  unfoldable pub get_or_create_metric :
      Bool → ℕ → Text → Metering → Option FunctionMetric × Metering
  unfolding add_row
  get_or_create_metric artifact_exists now function_name s =
      elim (Dict.lookup function_name s.function_metrics) [
        | some _ ↦ (some (new function_name now s.metrics_db), s)
        | none ↦
            if artifact_exists
            then (let metric = new function_name now s.metrics_db in
                (
                  some metric,
                  record {
                    function_metrics = Dict.insert function_name metric s.function_metrics;
                    metrics_db = add_row function_name now s.metrics_db;
                  },
                ))
            else (none, s)
      ]

  -- `Drop for Timer`: the state that is left, and the metric that the call was recorded in.
  unfoldable pub drop_timer : Bool → ℕ → ℕ → Text → Metering → Option FunctionMetric × Metering
  drop_timer artifact_exists now duration_ms function_name s =
      let (metric, s') = get_or_create_metric artifact_exists now function_name s in
      (Option.map (record_call (max duration_ms 1) now) metric, s')

  module _ (to_rfc3339 : ℕ → Text) where
    abbrev saturating_add : ℕ → ℕ → ℕ
    saturating_add a b = min (a + b) u64_max

    -- A row of the table with what is in memory for its function.
    combine : Dict FunctionMetric → Text × ℕ × ℕ × ℕ → FunctionMetricsResponse
    combine memory (function_name, db_total, db_calls, db_last) =
        let (mem_total, mem_calls, mem_last) = in_memory (Dict.lookup function_name memory) in
        record {
          function_name = function_name;
          total_time_millis = saturating_add db_total mem_total;
          call_count = saturating_add db_calls mem_calls;
          last_called = to_rfc3339 (max db_last mem_last);
        }

    collect : Dict FunctionMetric → Metrics → List (Text × ℕ × ℕ × ℕ) → Metrics
    collect memory report [] = report
    collect memory report (row ∷ rows) =
        let entry = combine memory row in
        collect memory
          (record {
            total_time = wrap (report.total_time + entry.total_time_millis);
            total_calls = wrap (report.total_calls + entry.call_count);
            function_metrics = report.function_metrics ++ entry ∷ [];
          })
          rows

    abbrev rows_or_none : Result Text (List (Text × ℕ × ℕ × ℕ)) → List (Text × ℕ × ℕ × ℕ)
    rows_or_none (ok rows) = rows
    rows_or_none (err e) = []

    unfoldable pub get_metrics : Metering → Metrics
    unfolding collect combine
    get_metrics s =
        collect s.function_metrics
          (record { total_time = 0; total_calls = 0; function_metrics = [] })
          (rows_or_none (Db.iter_metrics fault s.metrics_db))
