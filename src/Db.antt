-- ===== src/Db.antt =====
-- `Database` of server/src/db.rs: the three tables of SQLite, and what each method's statement does
-- to them. A statement may fail; then it changes nothing, and the method returns the error.
use faasta.Prelude.{
  ℕ, Text, List, map, Bool, true, false, Option, none, some, Result, ok, err, Action,
}
use mathlib.Core.Option
use faasta.Prelude.Dict
use faasta.Prelude.Dict.{Dict}
use faasta.Prelude.Int.{ℤ, as_i64, max0_as_u64}

abbrev pub Bytes : Type 0
Bytes = List ℕ

-- A row of `metrics`, its columns signed.
pub record MetricRow : Type 0 where
  pub total_time : ℤ
  pub call_count : ℤ
  pub last_called : ℤ

pub record Database : Type 0 where
  pub functions : Dict Bytes
  pub user_data : Dict Bytes
  pub metrics : Dict MetricRow

-- The statements by the method that runs them.
pub data Statement : Type 0 where
  select_function upsert_function remove_function upsert_user select_metric set_metric
        exists_metric :
      Text → Statement
  select_users select_metrics checkpoint : Statement

-- The error of a statement, if it fails.
abbrev pub Faults : Type 0
Faults = Statement → Option Text

abbrev pub read {ℓ} : {A : Type ℓ} → Option Text → A → Result Text A
read none a = ok a
read (some e) a = err e

-- A write: the new tables where it succeeds, the old ones where it fails.
abbrev pub write : Option Text → Database → Database → Result Text (Unit {0}) × Database
write none db db' = (ok tt, db')
write (some e) db db' = (err e, db)

-- The three counters of a row as the program reads them.
unfoldable pub read_row : MetricRow → ℕ × ℕ × ℕ
read_row row = (max0_as_u64 row.total_time, max0_as_u64 row.call_count, max0_as_u64 row.last_called)

unfoldable pub store_row : ℕ → ℕ → ℕ → MetricRow
store_row total_time call_count last_called = record {
  total_time = as_i64 total_time;
  call_count = as_i64 call_count;
  last_called = as_i64 last_called;
}

abbrev pub named_counters : Text × MetricRow → Text × ℕ × ℕ × ℕ
named_counters (name, row) =
    (name, max0_as_u64 row.total_time, max0_as_u64 row.call_count, max0_as_u64 row.last_called)

module _ (fault : Faults) where
  unfoldable pub get_function : Text → Database → Result Text (Option Bytes)
  get_function name db = read (fault (select_function name)) (Dict.lookup name db.functions)

  unfoldable pub put_function : Text → Bytes → Action Database Text (Unit {0})
  put_function name bytes db =
      write (fault (upsert_function name)) db
        (record db { functions = Dict.insert name bytes db.functions })

  unfoldable pub delete_function : Text → Action Database Text (Unit {0})
  delete_function name db =
      write (fault (remove_function name)) db
        (record db { functions = Dict.erase name db.functions })

  unfoldable pub put_user : Text → Bytes → Action Database Text (Unit {0})
  put_user username bytes db =
      write (fault (upsert_user username)) db
        (record db { user_data = Dict.insert username bytes db.user_data })

  unfoldable pub iter_users : Database → Result Text (List (Text × Bytes))
  iter_users db = read (fault select_users) db.user_data

  unfoldable pub get_metric : Text → Database → Result Text (Option (ℕ × ℕ × ℕ))
  unfolding read_row
  get_metric name db =
      read (fault (select_metric name)) (Option.map read_row (Dict.lookup name db.metrics))

  unfoldable pub upsert_metric : Text → ℕ → ℕ → ℕ → Action Database Text (Unit {0})
  unfolding store_row
  upsert_metric name total_time call_count last_called db =
      write (fault (set_metric name)) db (record db {
        metrics = Dict.insert name (store_row total_time call_count last_called) db.metrics;
      })

  unfoldable pub metric_exists : Text → Database → Result Text Bool
  metric_exists name db =
      read (fault (exists_metric name))
        (elim (Dict.lookup name db.metrics) [ none ↦ false | some _ ↦ true ])

  unfoldable pub iter_metrics : Database → Result Text (List (Text × ℕ × ℕ × ℕ))
  iter_metrics db = read (fault select_metrics) (map named_counters db.metrics)

  -- The checkpoint moves no row.
  unfoldable pub flush : Database → Result Text (Unit {0})
  flush db = read (fault checkpoint) tt
