-- ===== src/Tests/Databases.antt =====
-- A Postgres that counts statements: those that are committed, and those of the open transaction.
use faasta.Prelude.{
  List, Bool, true, false, ℕ, ◌+◌, ◌-◌, ◌^◌, ◌≤◌, min, Text, text, some, [], ◌∷◌, ◌++◌, arith, ◌≡◌,
  ◌≢◌, refl, Result, ok, err, ◌>>=◌, is_whitespace,
}
use faasta.Prelude.Int.{pos, as_i64}
use faasta.Tenant.{tenant}
use faasta.Sql.{validate_single_statement, rewrite_qmark_params, quote_pg_ident, double_quote}
use faasta.Sql.Values.{
  DataType, uint64, int64, Column, int8, pg_value, postgres_params, value_at, i64_max,
}
use faasta.Sql.Postgres.{
  Postgres, or_rollback, in_transaction, query, exec, exec_steps, search_path, schema_of,
  sqlite_path, u32_max,
}
use faasta.Sql.Transactions.{IsTransactional, Ended, failed-Unchanged, exec-committed}
use faasta.Sql.Identifiers.{read_ident, read_ident-quote_pg_ident}
use faasta.Sql.Stored.{value_at-pg_value, stores-apart}
use faasta.Guest.Statements.{Host, nothing, sql_query, sql_exec}
use faasta.Guest.Statements.Undone.{IsServed, call-Ended}
use faasta.Tests.Stores.{hashes_apart}

-- What is committed, what the open transaction would leave, and whether there is one.
abbrev Counted : Type 0
Counted = ℕ × ℕ × Bool

-- A statement in a transaction is counted there, one outside of it at once.
abbrev counted_in : Bool → ℕ → ℕ → Counted
counted_in true n m = (n, m + 1, true)
counted_in false n m = (n + 1, m + 1, false)

-- Five thousand million rows are counted for every statement.
abbrev counting : Postgres Counted
counting = record {
  get_client = λ r. (ok tt, r);
  client_batch_execute = λ s r. (ok tt, r);
  begin = λ r. (ok tt, (r.0, r.0, true));
  batch_execute = λ s r. (ok tt, r);
  query = λ s vs r. (ok [], counted_in r.2 r.0 r.1);
  execute = λ s vs r. (ok 5000000000, counted_in r.2 r.0 r.1);
  commit = λ r. (ok tt, (r.1, r.1, false));
  rollback = λ r. (r.0, r.0, false);
}

abbrev committed : Counted → ℕ
committed r = r.0

abbrev in_progress : Counted → Bool
in_progress r = r.2

abbrev no_control : Text → Bool
no_control s = false

counted_in-open :
    (b : Bool) (n m : ℕ)
    → b ≡ true
    → (committed (counted_in b n m) ≡ n) × (in_progress (counted_in b n m) ≡ true)
counted_in-open true n m e = (refl, refl)
counted_in-open false n m e = cc

counting-IsTransactional : IsTransactional counting committed in_progress no_control
counting-IsTransactional = record {
  at-get_client = λ r h. (refl, h);
  at-begin = λ r. refl;
  begins = λ r h. refl;
  begins_not = λ r e h k. absurd (never e k);
  at-batch_execute = λ s r p h. (refl, h);
  at-query = λ s vs r p h. counted_in-open r.2 r.0 r.1 h;
  at-execute = λ s vs r p h. counted_in-open r.2 r.0 r.1 h;
  at-rollback = λ r h. (refl, refl);
}
  where
    never : (e : Text) → ¬ (Path (Result Text (Unit {0})) (ok tt) (err e))
    never e h = cc

abbrev deletion : Text
deletion = text "DELETE FROM t"

abbrev three : Counted
three = (3, 0, false)

failed-Unchanged_example :
    Ended counting committed in_progress 3 (query counting (text "s") deletion [] three)
    × Ended counting committed in_progress 3 (exec counting (text "s") deletion [] three)
failed-Unchanged_example =
    failed-Unchanged counting committed in_progress no_control (text "s") deletion [] three
      counting-IsTransactional refl refl refl

deleted : (exec counting (text "s") deletion [] three).0 ≡ ok u32_max
unfolding exec exec_steps in_transaction or_rollback ◌>>=◌ validate_single_statement is_whitespace
deleted = refl

exec-committed_example :
    let client = counting.get_client three in
    let begun = counting.begin client.1 in
    let set = counting.batch_execute (search_path (text "s")) begun.1 in
    let ran = counting.execute (rewrite_qmark_params deletion) (postgres_params []) set.1 in
    let done = counting.commit ran.1 in
    (validate_single_statement deletion ≡ ok tt)
    × (client.0 ≡ ok tt)
    × (begun.0 ≡ ok tt)
    × (set.0 ≡ ok tt)
    × (count : ℕ) × (ran.0 ≡ ok count)
    × (u32_max ≡ min count u32_max)
    × (u32_max ≤ u32_max)
    × (done.0 ≡ ok tt)
    × ((exec counting (text "s") deletion [] three).1 ≡ done.1)
exec-committed_example = exec-committed counting (text "s") deletion [] three u32_max deleted

-- A column with the largest signed number.
abbrev largest : Column
largest = record {
  name = text "n";
  type_ = int8;
  get_bool = err [];
  get_i32 = err [];
  get_i64 = ok (some (pos i64_max));
  get_f32 = err [];
  get_f64 = err [];
  get_bytes = err [];
  get_string = err [];
}

value_at-pg_value_example : value_at int8 largest ≡ ok (int64 (some (pos i64_max)))
unfolding pg_value as_i64
value_at-pg_value_example = value_at-pg_value (uint64 (some (2 ^ 64 - 1))) largest (refl, refl)

stores-apart_example :
    (sqlite_path (text "data") (tenant (text "a")) ≢ sqlite_path (text "data") (tenant (text "b")))
    × (read_ident (quote_pg_ident (schema_of (tenant (text "a"))))
        ≡ some (schema_of (tenant (text "a")), []))
    × (read_ident (quote_pg_ident (schema_of (tenant (text "b"))))
        ≡ some (schema_of (tenant (text "b")), []))
    × (schema_of (tenant (text "a")) ≢ schema_of (tenant (text "b")))
stores-apart_example = stores-apart (text "data") (text "a") (text "b") hashes_apart

-- A name that would end the statement, were it not quoted.
abbrev hostile : Text
hostile = text "a" ++ (double_quote ∷ text "; DROP TABLE t; --")

read_ident-quote_pg_ident_example :
    read_ident (quote_pg_ident hostile ++ text ", public;") ≡ some (hostile, text ", public;")
read_ident-quote_pg_ident_example =
    read_ident-quote_pg_ident hostile (text ", public;") (λ e. omega (arith, e))

-- A host that keeps statements as they were prepared.
abbrev counting_host : Host Counted (Unit {0}) (Text × List DataType)
counting_host = record {
  open_connection = λ name r. (ok tt, r);
  prepare = λ statement params r. (ok (statement, params), r);
  query = λ c s. query counting (text "s") s.0 s.1;
  exec = λ c s. exec counting (text "s") s.0 s.1;
}

counting_host-IsServed : IsServed counting_host counting committed in_progress no_control (text "s")
counting_host-IsServed = record {
  text_of = λ s. s.0;
  params_of = λ s. s.1;
  plain = λ s. refl;
  at-open = λ name r. (refl, refl);
  at-prepare = λ statement params r. (refl, refl);
  at-query = λ c s r. refl;
  at-exec = λ c s r. refl;
}

undone :
    Ended counting committed in_progress 3 (sql_query counting_host deletion nothing three)
    × Ended counting committed in_progress 3 (sql_exec counting_host deletion nothing three)
undone = call-Ended counting_host-IsServed counting-IsTransactional refl deletion nothing three refl
