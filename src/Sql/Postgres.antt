-- ===== src/Sql/Postgres.antt =====
-- The SQL stores of the functions: `SqlProvider`, `PostgresSqlProvider` and `PostgresTenantConnection`
-- of server/src/wasm_function.rs. Postgres and SQLite are arguments; the contexts that are put before an
-- error's text are left out.
use faasta.Prelude.{
  ℕ, ◌-◌, ◌%◌, ◌^◌, min, Text, text, List, ◌++◌, ◌||◌, Result, ok, err, Action, pure, lift, ◌>>=◌,
  ◌>>◌, is_empty, ends_with, if◌then◌else◌,
}
use faasta.Tenant.{TenantId}
use faasta.Sql.{quote_pg_ident, validate_single_statement, rewrite_qmark_params}
use faasta.Sql.Values.{DataType, PgValue, Column, Row, postgres_params, rows_from}

-- A client of the pool: `client_batch_execute` runs by itself, the others in the transaction that was
-- begun last. `rollback` is what the drop of an unfinished transaction does.
pub record Postgres (R : Type 0) : Type 0 where
  pub get_client : Action R Text (Unit {0})
  pub client_batch_execute : Text → Action R Text (Unit {0})
  pub begin : Action R Text (Unit {0})
  pub batch_execute : Text → Action R Text (Unit {0})
  pub query : Text → List PgValue → Action R Text (List (List Column))
  pub execute : Text → List PgValue → Action R Text ℕ
  pub commit : Action R Text (Unit {0})
  pub rollback : R → R

-- `SqlDefault`, whose connections have a type of their own.
pub record Sqlite (R D : Type 0) : Type 0 where
  pub create_dir_all : Text → Action R Text (Unit {0})
  pub connect_with : Text → Action R Text D

pub data SqlProvider : Type 0 where
  sqlite : Text → SqlProvider
  postgres : SqlProvider

-- `PostgresTenantSql` and its connections are their schema.
pub data TenantSql (D : Type 0) : Type 0 where
  sqlite_sql : D → TenantSql D
  postgres_sql : Text → TenantSql D

-- `dir.join(file)`
abbrev pub join : Text → Text → Text
join dir file =
    if is_empty dir || ends_with (text "/") dir then dir ++ file else dir ++ (text "/" ++ file)

unfoldable pub sqlite_path : Text → TenantId → Text
sqlite_path dir id = join dir (id.hash ++ text ".sqlite3")

unfoldable pub schema_of : TenantId → Text
schema_of id = text "faasta_fn_" ++ id.hash

unfoldable pub search_path : Text → Text
search_path schema = text "SET LOCAL search_path TO " ++ (quote_pg_ident schema ++ text ", public;")

abbrev pub u32_max : ℕ
u32_max = 2 ^ 32 - 1

module _ {R : Type 0} (pg : Postgres R) where
  -- `PostgresSqlProvider::for_tenant`
  unfoldable pub postgres_for_tenant : TenantId → Action R Text Text
  postgres_for_tenant id = do
    pg.get_client
    pg.client_batch_execute
        (text "CREATE SCHEMA IF NOT EXISTS " ++ (quote_pg_ident (schema_of id) ++ text ";"))
    pure (schema_of id)

  -- `SqlProvider::for_tenant`; the parent of the database's path is the directory.
  unfoldable pub for_tenant :
      {D : Type 0} → Sqlite R D → SqlProvider → TenantId → Action R Text (TenantSql D)
  for_tenant files (sqlite dir) id = do
    files.create_dir_all dir
    database ← files.connect_with (sqlite_path dir id)
    pure (sqlite_sql database)
  for_tenant files postgres id = do schema ← postgres_for_tenant id; pure (postgres_sql schema)

  module _ {A : Type 0} where
    abbrev pub rolled : Result Text A → R → Result Text A × R
    rolled (ok a) r = (ok a, r)
    rolled (err e) r = (err e, pg.rollback r)

    -- The transaction is dropped where the steps in it fail.
    unfoldable pub or_rollback : Action R Text A → Action R Text A
    or_rollback m r = let (a, r') = m r in rolled a r'

    unfoldable pub in_transaction : Action R Text A → Action R Text A
    in_transaction m = do pg.get_client; pg.begin; a ← or_rollback m; pg.commit; pure a

  unfoldable pub query_steps : Text → Text → List DataType → Action R Text (List Row)
  query_steps schema statement params = do
    pg.batch_execute (search_path schema)
    rows ← pg.query (rewrite_qmark_params statement) (postgres_params params)
    lift (rows_from 0 rows)

  -- `PostgresTenantConnection::query`
  unfoldable pub query : Text → Text → List DataType → Action R Text (List Row)
  query schema statement params = do
    lift (validate_single_statement statement)
    in_transaction (query_steps schema statement params)

  unfoldable pub exec_steps : Text → Text → List DataType → Action R Text ℕ
  exec_steps schema statement params = do
    pg.batch_execute (search_path schema)
    pg.execute (rewrite_qmark_params statement) (postgres_params params)

  -- `PostgresTenantConnection::exec`
  unfoldable pub exec : Text → Text → List DataType → Action R Text ℕ
  exec schema statement params = do
    lift (validate_single_statement statement)
    count ← in_transaction (exec_steps schema statement params)
    pure (min count u32_max % 2 ^ 32)
