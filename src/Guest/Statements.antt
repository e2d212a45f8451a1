-- ===== src/Guest/Statements.antt =====
-- SQL as a function sees it: `query` and `exec` of faasta/src/sql.rs. The bindings to the host are
-- arguments.
pub mod Undone
use faasta.Prelude.{ℕ, Text, text, List, [], ◌∷◌, Action, ◌>>=◌}
use faasta.Sql.Values.{DataType, Row}
use faasta.Guest.{IntoSqlValue, into_sql_value}
use faasta.Guest.Blobs.{map_err}

-- The interfaces `wasi:sql`, with connections of a type `C` and statements of a type `S`.
pub record Host (R C S : Type 0) : Type 0 where
  pub open_connection : Text → Action R Text C
  pub prepare : Text → List DataType → Action R Text S
  pub query : C → S → Action R Text (List Row)
  pub exec : C → S → Action R Text ℕ

-- The types that are `IntoSqlParams`.
pub data IntoSqlParams : Type 0 where
  nothing : IntoSqlParams
  values : List DataType → IntoSqlParams
  one : IntoSqlValue → IntoSqlParams

unfoldable pub into_sql_params : IntoSqlParams → List DataType
into_sql_params nothing = []
into_sql_params (values params) = params
into_sql_params (one value) = into_sql_value value ∷ []

module _ {R C S : Type 0} (host : Host R C S) where
  unfoldable pub query : Text → List DataType → Action R Text (List Row)
  query statement params = do
    connection ←
        map_err (text "failed to open SQL connection: ") (host.open_connection (text "default"))
    prepared ← map_err (text "failed to prepare SQL statement: ") (host.prepare statement params)
    map_err (text "SQL query failed: ") (host.query connection prepared)

  unfoldable pub exec : Text → List DataType → Action R Text ℕ
  exec statement params = do
    connection ←
        map_err (text "failed to open SQL connection: ") (host.open_connection (text "default"))
    prepared ← map_err (text "failed to prepare SQL statement: ") (host.prepare statement params)
    map_err (text "SQL exec failed: ") (host.exec connection prepared)

  -- `Sql`
  unfoldable pub sql_query : Text → IntoSqlParams → Action R Text (List Row)
  sql_query statement params = query statement (into_sql_params params)

  unfoldable pub sql_exec : Text → IntoSqlParams → Action R Text ℕ
  sql_exec statement params = exec statement (into_sql_params params)
