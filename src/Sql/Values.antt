-- ===== src/Sql/Values.antt =====
-- Parameters and rows: `postgres_params` and `postgres_row_to_wasi` of server/src/wasm_function.rs.
use faasta.Prelude.{
  ℕ, ◌+◌, ◌-◌, ◌^◌, min, Text, Bool, Option, none, some, List, [], ◌∷◌, map, Result, ok, err,
}
use faasta.Prelude.Decimal.{to_string}
use faasta.Prelude.Int.{ℤ, pos, as_i64}
use faasta.Db.{Bytes}

-- `DataType` of wasi:sql; floating-point numbers as their bits.
pub data DataType : Type 0 where
  boolean : Option Bool → DataType
  int32 int64 : Option ℤ → DataType
  uint32 uint64 : Option ℕ → DataType
  float double : Option ℕ → DataType
  str date time timestamp : Option Text → DataType
  binary : Option Bytes → DataType

-- The Rust values that are boxed as `ToSql`.
pub data PgValue : Type 0 where
  bool : Option Bool → PgValue
  i32 i64 : Option ℤ → PgValue
  f32 f64 : Option ℕ → PgValue
  string : Option Text → PgValue
  bytes : Option Bytes → PgValue

abbrev pub i64_max : ℕ
i64_max = 2 ^ 63 - 1

abbrev pub each {ℓ} : {A B : Type ℓ} → (A → B) → Option A → Option B
each f none = none
each f (some a) = some (f a)

unfoldable pub pg_value : DataType → PgValue
pg_value (boolean value) = bool value
pg_value (int32 value) = i32 value
pg_value (int64 value) = i64 value
pg_value (uint32 value) = i64 (each pos value)
pg_value (uint64 value) = i64 (each (λ v. as_i64 (min v i64_max)) value)
pg_value (float value) = f32 value
pg_value (double value) = f64 value
pg_value (str value) = string value
pg_value (date value) = string value
pg_value (time value) = string value
pg_value (timestamp value) = string value
pg_value (binary value) = bytes value

abbrev pub postgres_params : List DataType → List PgValue
postgres_params params = map pg_value params

-- The types of a column that the code tells apart.
pub data PgType : Type 0 where
  bool_type int2 int4 int8 float4 float8 bytea other : PgType

-- A column of a row of tokio_postgres: `try_get` at each type that is asked for.
pub record Column : Type 0 where
  pub name : Text
  pub type_ : PgType
  pub get_bool : Result Text (Option Bool)
  pub get_i32 : Result Text (Option ℤ)
  pub get_i64 : Result Text (Option ℤ)
  pub get_f32 : Result Text (Option ℕ)
  pub get_f64 : Result Text (Option ℕ)
  pub get_bytes : Result Text (Option Bytes)
  pub get_string : Result Text (Option Text)

pub record Field : Type 0 where
  pub name : Text
  pub value : DataType

pub record Row : Type 0 where
  pub index : Text
  pub fields : List Field

abbrev pub wrapped {ℓ} : {A B : Type ℓ} → (A → B) → Result Text A → Result Text B
wrapped f (ok a) = ok (f a)
wrapped f (err e) = err e

unfoldable pub value_at : PgType → Column → Result Text DataType
value_at bool_type c = wrapped boolean c.get_bool
value_at int2 c = wrapped int32 c.get_i32
value_at int4 c = wrapped int32 c.get_i32
value_at int8 c = wrapped int64 c.get_i64
value_at float4 c = wrapped float c.get_f32
value_at float8 c = wrapped double c.get_f64
value_at bytea c = wrapped binary c.get_bytes
value_at other c = wrapped str c.get_string

-- `collect` into a result ends at the first error.
abbrev pub first_error {ℓ} :
    {A : Type ℓ} → Result Text A → Result Text (List A) → Result Text (List A)
first_error (err e) rest = err e
first_error (ok a) (err e) = err e
first_error (ok a) (ok rest) = ok (a ∷ rest)

unfoldable pub fields_of : List Column → Result Text (List Field)
fields_of [] = ok []
fields_of (column ∷ columns) =
    first_error
      (wrapped (λ value. record { name = column.name; value = value })
        (value_at column.type_ column))
      (fields_of columns)

unfoldable pub postgres_row_to_wasi : ℕ → List Column → Result Text Row
postgres_row_to_wasi index columns =
    wrapped (λ fields. record { index = to_string index; fields = fields }) (fields_of columns)

unfoldable pub rows_from : ℕ → List (List Column) → Result Text (List Row)
rows_from index [] = ok []
rows_from index (row ∷ rows) =
    first_error (postgres_row_to_wasi index row) (rows_from (index + 1) rows)
