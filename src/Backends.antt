-- ===== src/Backends.antt =====
-- The stores that the functions are given, chosen by environment variables: the `from_env` functions and
-- `WasmFunctionRuntime::new` of server/src/wasm_function.rs. The clients and what they answer are
-- arguments; an error's text is that of the context that is put before it.
use faasta.Prelude.{
  ℕ, Text, text, Option, none, some, ◌++◌, Result, ok, err, text_eq, if◌then◌else◌,
}

abbrev pub Environment : Type 0
Environment = Text → Option Text

abbrev pub or_default : Option Text → Text → Text
or_default none value = value
or_default (some v) value = v

unfoldable pub env_or_default : Environment → Text → Text → Text
env_or_default env key value = or_default (env key) value

-- `var(key).context(…)?`
abbrev pub required : Option Text → Text → Result Text Text
required none what = err what
required (some v) what = ok v

-- A step that fails with a context.
abbrev pub attempt {ℓ} : {A : Type ℓ} → Option Text → Text → Result Text A → Result Text A
attempt none what next = next
attempt (some e) what next = err what

-- A step whose error is told.
abbrev pub explained : Option Text → Text → Result Text (Unit {0})
explained none what = ok tt
explained (some e) what = err (what ++ (text ": " ++ e))

infixl 5 ◌>>=◌
abbrev pub ◌>>=◌ : {A B : Type 0} → Result Text A → (A → Result Text B) → Result Text B
ok a >>= f = f a
err e >>= f = err e

pub data KeyValueBackend : Type 0 where
  memory : KeyValueBackend
  valkey : Text → KeyValueBackend

pub record S3Settings : Type 0 where
  pub endpoint : Text
  pub access_key : Text
  pub secret_key : Text
  pub bucket : Text
  pub region : Text

pub data BlobBackend : Type 0 where
  in_memory : BlobBackend
  s3 : S3Settings → BlobBackend

pub data SqlBackend : Type 0 where
  sqlite : Text → SqlBackend
  postgres : Text → ℕ → SqlBackend

-- What the clients come to: an error, where there is one. `debug` is how a path is printed in a text.
pub record Clients : Type 0 where
  pub debug : Text → Text
  pub memory_keyvalue : Option Text
  pub open_valkey : Text → Option Text
  pub connect_valkey : Text → Option Text
  pub ping_valkey : Text → Option Text
  pub memory_blobstore : Option Text
  pub head_bucket : S3Settings → Option Text
  pub create_dir_all : Text → Option Text
  pub parse_dsn : Text → Option Text
  pub parse_size : Text → Option ℕ
  pub build_pool : Text → ℕ → Option Text
  pub connect_postgres : Text → Option Text
  pub ping_postgres : Text → Option Text
  pub create_engine : Option Text
  pub add_to_linker : Text → Option Text

module _ (env : Environment) (clients : Clients) where
  -- `ValkeyKeyValue::from_env`
  unfoldable pub valkey_from_env : Result Text Text
  unfolding env_or_default
  valkey_from_env =
      let url = env_or_default env (text "FAASTA_KV_VALKEY_URL") (text "redis://127.0.0.1:6379") in
      attempt (clients.open_valkey url) (text "failed to create Valkey client for " ++ url) (
        attempt (clients.connect_valkey url) (text "failed to connect to Valkey at " ++ url)
          (attempt (clients.ping_valkey url) (text "failed to ping Valkey") (ok url)))

  -- `S3Blobstore::from_env`
  unfoldable pub s3_from_env : Result Text S3Settings
  unfolding env_or_default
  s3_from_env = do
    endpoint ←
        required (env (text "FAASTA_BLOB_S3_ENDPOINT"))
          (text "FAASTA_BLOB_S3_ENDPOINT is required for FAASTA_BLOB_BACKEND=s3")
    access_key ←
        required (env (text "FAASTA_BLOB_S3_ACCESS_KEY"))
          (text "FAASTA_BLOB_S3_ACCESS_KEY is required for FAASTA_BLOB_BACKEND=s3")
    secret_key ←
        required (env (text "FAASTA_BLOB_S3_SECRET_KEY"))
          (text "FAASTA_BLOB_S3_SECRET_KEY is required for FAASTA_BLOB_BACKEND=s3")
    let settings : S3Settings = record {
      endpoint = endpoint;
      access_key = access_key;
      secret_key = secret_key;
      bucket = env_or_default env (text "FAASTA_BLOB_S3_BUCKET") (text "faasta");
      region = env_or_default env (text "FAASTA_BLOB_S3_REGION") (text "garage");
    }
    attempt (clients.head_bucket settings) (text "failed to access S3 bucket " ++ settings.bucket)
        (ok settings)

  abbrev size_of : Option ℕ → Result Text ℕ
  size_of none = err (text "invalid FAASTA_SQL_POSTGRES_POOL_SIZE")
  size_of (some n) = ok n

  -- `PostgresSqlProvider::from_env`
  unfoldable pub postgres_from_env : Result Text (Text × ℕ)
  unfolding env_or_default
  postgres_from_env = do
    dsn ←
        required (env (text "FAASTA_SQL_POSTGRES_DSN"))
          (text "FAASTA_SQL_POSTGRES_DSN is required for FAASTA_SQL_BACKEND=postgres")
    attempt (clients.parse_dsn dsn) (text "failed to parse Postgres DSN") (do
      size ← size_of (
          clients.parse_size
            (env_or_default env (text "FAASTA_SQL_POSTGRES_POOL_SIZE") (text "16")))
      attempt (clients.build_pool dsn size) (text "failed to build Postgres pool") (
          attempt (clients.connect_postgres dsn) (text "failed to connect to Postgres") (
            attempt (clients.ping_postgres dsn) (text "failed to ping Postgres") (ok (dsn, size)))))

  abbrev unsupported {ℓ} : {A : Type ℓ} → Text → Text → Result Text A
  unsupported variable other =
      err (text "unsupported " ++ (variable ++ (text " '" ++ (other ++ text "'"))))

  -- `connect` of the store in memory has an error of its own text.
  abbrev connected {ℓ} : {A : Type ℓ} → Option Text → A → Result Text A
  connected none a = ok a
  connected (some e) a = err e

  unfoldable pub keyvalue_from_env : Result Text KeyValueBackend
  unfolding env_or_default
  keyvalue_from_env =
      let backend = env_or_default env (text "FAASTA_KV_BACKEND") (text "memory") in
      if text_eq backend (text "memory")
      then connected clients.memory_keyvalue memory
      else if text_eq backend (text "valkey")
      then (valkey_from_env >>= λ url. ok (valkey url))
      else unsupported (text "FAASTA_KV_BACKEND") backend

  unfoldable pub blobstore_from_env : Result Text BlobBackend
  unfolding env_or_default
  blobstore_from_env =
      let backend = env_or_default env (text "FAASTA_BLOB_BACKEND") (text "memory") in
      if text_eq backend (text "memory")
      then connected clients.memory_blobstore in_memory
      else if text_eq backend (text "s3")
      then (s3_from_env >>= λ settings. ok (s3 settings))
      else unsupported (text "FAASTA_BLOB_BACKEND") backend

  unfoldable pub sql_from_env : Result Text SqlBackend
  unfolding env_or_default
  sql_from_env =
      let backend = env_or_default env (text "FAASTA_SQL_BACKEND") (text "sqlite") in
      let dir = env_or_default env (text "FAASTA_WASI_SQL_DIR") (text "./data/wasi-sql") in
      if text_eq backend (text "sqlite")
      then attempt (clients.create_dir_all dir)
          (text "failed to create WASI SQL directory " ++ clients.debug dir) (ok (sqlite dir))
      else if text_eq backend (text "postgres")
      then (postgres_from_env >>= λ p. ok (postgres p.0 p.1))
      else unsupported (text "FAASTA_SQL_BACKEND") backend

  abbrev linked : Text → Result Text (Unit {0})
  linked imports =
      explained (clients.add_to_linker imports)
        (text "failed to add " ++ (imports ++ text " imports to linker"))

  -- `WasmFunctionRuntime::new`, whose cache is empty: the stores of the functions.
  unfoldable pub new_runtime : Result Text (KeyValueBackend × BlobBackend × SqlBackend)
  new_runtime = do
    _ ← explained clients.create_engine (text "failed to create wasmtime engine")
    _ ← linked (text "WASI p3")
    _ ← linked (text "WASI p2")
    _ ← linked (text "WASI HTTP p3")
    _ ← linked (text "WASI keyvalue")
    _ ← linked (text "WASI blobstore")
    _ ← linked (text "WASI SQL")
    keyvalue ← keyvalue_from_env
    blobstore ← blobstore_from_env
    sql ← sql_from_env
    ok (keyvalue, blobstore, sql)
