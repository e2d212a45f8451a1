-- ===== src/Sql/Stored.antt =====
-- Where the SQL data of a function is kept, and how its values come back.
use faasta.Prelude.{
  ℕ, min, Text, text, Option, none, some, [], ◌++◌, ◌≡◌, ◌≢◌, refl, ap, arith, append-nil, ok, ◌||◌,
  is_empty, ends_with, Bool-cases, inl, inr,
}
use faasta.Prelude.Int.{pos, as_i64}
use faasta.Prelude.Cuts.{prefix_injective}
use faasta.Tenant.{tenant, stable_tenant_hash}
use faasta.Tenant.Isolation.{hash_within}
use faasta.Sql.{quote_pg_ident}
use faasta.Sql.Identifiers.{read_ident, read_ident-quoted}
use faasta.Sql.Values.{
  DataType, boolean, int32, int64, uint32, uint64, float, double, str, date, time, timestamp,
  binary, PgValue, bool, i32, i64, f32, f64, string, bytes, Column, bool_type, int4, int8, float4,
  float8, bytea, other, pg_value, value_at, each, i64_max,
}
use faasta.Sql.Postgres.{join, sqlite_path, schema_of}

-- A column of the type of a value, with that value in it.
abbrev pub Holds : Column → PgValue → Type 0
Holds c (bool value) = (c.type_ ≡ bool_type) × (c.get_bool ≡ ok value)
Holds c (i32 value) = (c.type_ ≡ int4) × (c.get_i32 ≡ ok value)
Holds c (i64 value) = (c.type_ ≡ int8) × (c.get_i64 ≡ ok value)
Holds c (f32 value) = (c.type_ ≡ float4) × (c.get_f32 ≡ ok value)
Holds c (f64 value) = (c.type_ ≡ float8) × (c.get_f64 ≡ ok value)
Holds c (string value) = (c.type_ ≡ other) × (c.get_string ≡ ok value)
Holds c (bytes value) = (c.type_ ≡ bytea) × (c.get_bytes ≡ ok value)

-- What a value is after Postgres: unsigned numbers are signed 64-bit ones, dates and times are texts.
abbrev pub signed : DataType → DataType
signed (uint32 value) = int64 (each pos value)
signed (uint64 value) = int64 (each (λ v. pos (min v i64_max)) value)
signed (date value) = str value
signed (time value) = str value
signed (timestamp value) = str value
signed value = value

as_i64-min : (v : ℕ) → as_i64 (min v i64_max) ≡ pos (min v i64_max)
unfolding as_i64
as_i64-min v = ground arith

i64_read :
    (value : Option ℕ)
    → each (λ v. as_i64 (min v i64_max)) value ≡ each (λ v. pos (min v i64_max)) value
i64_read none = refl
i64_read (some v) = ap some (as_i64-min v)

-- A value that is passed as a parameter and kept in a column of the type it is passed as comes back as
-- it was, but for dates and times, which come back as texts, and unsigned numbers, which come back
-- signed: those of 64 bits as themselves up to the largest signed number, and as that one above it.
pub value_at-pg_value :
    (d : DataType) (c : Column) → Holds c (pg_value d) → value_at c.type_ c ≡ ok (signed d)
unfolding value_at pg_value
value_at-pg_value (boolean value) c (t, h) = rw (t, h) refl
value_at-pg_value (int32 value) c (t, h) = rw (t, h) refl
value_at-pg_value (int64 value) c (t, h) = rw (t, h) refl
value_at-pg_value (uint32 value) c (t, h) = rw (t, h) refl
value_at-pg_value (uint64 value) c (t, h) = rw (t, h) (ap (λ x. ok (int64 x)) (i64_read value))
value_at-pg_value (float value) c (t, h) = rw (t, h) refl
value_at-pg_value (double value) c (t, h) = rw (t, h) refl
value_at-pg_value (str value) c (t, h) = rw (t, h) refl
value_at-pg_value (date value) c (t, h) = rw (t, h) refl
value_at-pg_value (time value) c (t, h) = rw (t, h) refl
value_at-pg_value (timestamp value) c (t, h) = rw (t, h) refl
value_at-pg_value (binary value) c (t, h) = rw (t, h) refl

join-injective : (dir s t : Text) → join dir s ≡ join dir t → s ≡ t
join-injective dir s t e = elim (Bool-cases (is_empty dir || ends_with (text "/") dir)) [
  | inl h ↦ (prefix_injective dir dir s t refl (rw h at e)).1
  | inr h ↦
      (prefix_injective (text "/") (text "/") s t refl
        (prefix_injective dir dir (text "/" ++ s) (text "/" ++ t) refl (rw h at e)).1).1
]

-- Functions with different hashes have different database files, and different schemas: Postgres reads the
-- quoted name of each schema as that name, whole and with nothing left over, and the two names differ.
pub stores-apart :
    (dir f g : Text)
    → stable_tenant_hash f ≢ stable_tenant_hash g
    → (sqlite_path dir (tenant f) ≢ sqlite_path dir (tenant g))
      × (read_ident (quote_pg_ident (schema_of (tenant f))) ≡ some (schema_of (tenant f), []))
      × (read_ident (quote_pg_ident (schema_of (tenant g))) ≡ some (schema_of (tenant g), []))
      × (schema_of (tenant f) ≢ schema_of (tenant g))
unfolding sqlite_path schema_of
stores-apart dir f g apart = (
  λ e. apart (hash_within [] f g (text ".sqlite3") (text ".sqlite3") (join-injective dir _ _ e)),
  read_ident-quoted (schema_of (tenant f)),
  read_ident-quoted (schema_of (tenant g)),
  λ e. apart (
      hash_within (text "faasta_fn_") f g [] []
        (rw (append-nil (stable_tenant_hash f), append-nil (stable_tenant_hash g)) e)),
)
