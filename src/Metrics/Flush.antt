-- ===== src/Metrics/Flush.antt =====
-- What a flush writes: `flush_to_db` and `flush_metrics_to_db` of server/src/metrics.rs.
use faasta.Prelude.{
  ℕ, ◌+◌, ◌^◌, ◌<◌, max, Text, true, none, some, [], ◌≡◌, ◌≢◌, refl, sym, subst, ap, ◌∙◌, arith, ok,
  Bool-cases, inl, inr, text_eq_self, ◌==◌, ==_iff,
}
use faasta.Prelude.Dict
use faasta.Prelude.Dict.{Dict, lookup-insert}
use faasta.Prelude.Int.{max0_as_u64-as_i64}
use faasta.Db
use faasta.Db.{
  Database, MetricRow, Faults, Statement, read, write, read_row, store_row, select_metric,
  set_metric, exists_metric,
}
use faasta.Metrics.{
  FunctionMetric, new, flush_entry, flush_entries, flush_to_db, flush_metrics_to_db, row_or_zeros,
  add_row, get_or_create_metric, wrap,
}

abbrev pub Counters : Type 0
Counters = ℕ × ℕ × ℕ

-- What the table says of a function.
abbrev pub stored : Faults → Text → Database → Counters
stored fault name db = row_or_zeros (Db.get_metric fault name db)

-- What is known of a function in all: the table's counters and those in memory.
abbrev pub counted : Faults → FunctionMetric × Database → Counters
counted fault (m, db) =
    let (t, c, l) = stored fault m.function_name db in
    (t + m.total_time, c + m.call_count, max l m.last_called)

-- The counters fit a signed column.
abbrev pub Fits : Counters → Type 0
Fits (t, c, l) = (t < 2 ^ 63) × (c < 2 ^ 63) × (l < 2 ^ 63)

-- The statements for this function succeed.
pub record IsUp (fault : Faults) (name : Text) : Type 0 where
  pub selects : fault (select_metric name) ≡ none
  pub sets : fault (set_metric name) ≡ none

read_row-store_row : (t c l : ℕ) → Fits (t, c, l) → read_row (store_row t c l) ≡ (t, c, l)
unfolding read_row store_row
read_row-store_row t c l (ht, hc, hl) =
    ground (arith, max0_as_u64-as_i64 t, max0_as_u64-as_i64 c, max0_as_u64-as_i64 l)

-- What is written to the table is read from it.
stored-upsert :
    (fault : Faults) (name : Text) (t c l : ℕ) (db : Database)
    → IsUp fault name
    → Fits (t, c, l)
    → stored fault name (Db.upsert_metric fault name t c l db).1 ≡ (t, c, l)
unfolding Db.get_metric Db.upsert_metric
stored-upsert fault name t c l db up fits =
    rw
      (
        up.sets,
        up.selects,
        lookup-insert name name (store_row t c l) db.metrics,
        text_eq_self name,
        read_row-store_row t c l fits,
      )
      refl

wrap-small : (n : ℕ) → n < 2 ^ 63 → wrap n ≡ n
wrap-small n h = omega (arith, h)

stored-flush :
    (fault : Faults) (m : FunctionMetric) (db : Database)
    → IsUp fault m.function_name
    → Fits (counted fault (m, db))
    → stored fault m.function_name (flush_to_db fault m db) ≡ counted fault (m, db)
unfolding flush_to_db
stored-flush fault m db up (ht, hc, hl) =
    let (t, c, l) = stored fault m.function_name db in
    subst
      (λ x.
        stored fault m.function_name
          (Db.upsert_metric fault m.function_name x (wrap (c + m.call_count)) (max l m.last_called)
            db).1
        ≡ counted fault (m, db))
      (sym (wrap-small (t + m.total_time) ht))
      (subst
        (λ x.
          stored fault m.function_name
            (Db.upsert_metric fault m.function_name (t + m.total_time) x (max l m.last_called) db).1
          ≡ counted fault (m, db))
        (sym (wrap-small (c + m.call_count) hc))
        (stored-upsert fault m.function_name (t + m.total_time) (c + m.call_count)
          (max l m.last_called) db up (ht, hc, hl)))

settled : (t c l last : ℕ) → Path Counters (t + 0, c + 0, max (max l last) last) (t, c, max l last)
settled t c l last = ground arith

-- Where the table can be read and written and the sums fit, a flush moves a function's counters to
-- the table: nothing is lost and nothing is counted twice.
pub flush_entry-counted :
    (fault : Faults) (m : FunctionMetric) (db : Database)
    → IsUp fault m.function_name
    → Fits (counted fault (m, db))
    → counted fault (flush_entry fault m db) ≡ counted fault (m, db)
unfolding flush_entry
flush_entry-counted fault m db up fits = elim (Bool-cases (m.call_count == 0)) [
  | inl idle ↦ rw idle refl
  | inr busy ↦ rw busy (rw (stored-flush fault m db up fits) (settled _ _ _ m.last_called))
]

-- Where a function has calls and the statement that writes its row fails, a flush leaves the table
-- as it is and clears the call count all the same: the calls since the last flush are lost.
pub failed_flush-forgets :
    (fault : Faults) (m : FunctionMetric) (db : Database) (e : Text)
    → fault (set_metric m.function_name) ≡ some e
    → m.call_count ≢ 0
    → ((flush_entry fault m db).1 ≡ db) × ((flush_entry fault m db).0.call_count ≡ 0)
unfolding flush_entry flush_to_db Db.upsert_metric
failed_flush-forgets fault m db e failed busy = elim (Bool-cases (m.call_count == 0)) [
  | inl idle ↦ absurd (busy ((==_iff m.call_count 0).0 idle))
  | inr some_calls ↦ rw (some_calls, failed) (refl, refl)
]

stored_lem :
    (fault : Faults) (name : Text) (db : Database) (row : MetricRow)
    → IsUp fault name
    → Dict.lookup name db.metrics ≡ some row
    → Db.get_metric fault name db ≡ ok (some (read_row row))
unfolding Db.get_metric
stored_lem fault name db row up found = rw (up.selects, found) refl

-- What memory holds of a function whose row was loaded.
abbrev reloaded : Text → Counters → FunctionMetric
reloaded name (t, c, l) = record {
  function_name = name;
  total_time = t;
  call_count = c;
  last_called = l;
}

new-reloaded :
    (fault : Faults) (now : ℕ) (name : Text) (db : Database) (row : MetricRow)
    → IsUp fault name
    → Dict.lookup name db.metrics ≡ some row
    → new fault name now db ≡ reloaded name (read_row row)
unfolding new
new-reloaded fault now name db row up found = rw (stored_lem fault name db row up found) refl

add_row-known :
    (fault : Faults) (now : ℕ) (name : Text) (db : Database) (row : MetricRow)
    → fault (exists_metric name) ≡ none
    → Dict.lookup name db.metrics ≡ some row
    → add_row fault name now db ≡ db
unfolding add_row Db.metric_exists
add_row-known fault now name db row answers found = rw (answers, found) refl

counted-reloaded :
    (fault : Faults) (name : Text) (db : Database) (t c l : ℕ)
    → Db.get_metric fault name db ≡ ok (some (t, c, l))
    → counted fault (reloaded name (t, c, l), db) ≡ (t + t, c + c, l)
counted-reloaded fault name db t c l e = rw e (ground arith)

stored-flush_entry :
    (fault : Faults) (m : FunctionMetric) (db : Database)
    → m.call_count ≢ 0
    → IsUp fault m.function_name
    → Fits (counted fault (m, db))
    → stored fault m.function_name (flush_entry fault m db).1 ≡ counted fault (m, db)
unfolding flush_entry
stored-flush_entry fault m db busy up fits = elim (Bool-cases (m.call_count == 0)) [
  | inl idle ↦ absurd (busy ((==_iff m.call_count 0).0 idle))
  | inr some_calls ↦ rw some_calls (stored-flush fault m db up fits)
]

-- After a restart the first call of a function that has an artifact, a row and calls in it loads
-- its counters from the row, and the next flush adds them to the row again: where the statements
-- succeed and the sums fit, time and calls are doubled.
pub reload-doubles :
    (fault : Faults) (now : ℕ) (name : Text) (db : Database) (row : MetricRow) (t c l : ℕ)
    → IsUp fault name
    → Dict.lookup name db.metrics ≡ some row
    → read_row row ≡ (t, c, l)
    → fault (exists_metric name) ≡ none
    → c ≢ 0
    → Fits (t + t, c + c, l)
    → stored fault name
        (flush_metrics_to_db fault
          (get_or_create_metric fault true now name
            (record { function_metrics = []; metrics_db = db })).1).metrics_db
      ≡ (t + t, c + c, l)
unfolding flush_metrics_to_db flush_entries get_or_create_metric Dict.lookup Dict.insert
reload-doubles fault now name db row t c l up found reads answers some_calls fits =
    let twice =
      counted-reloaded fault name db t c l
        (stored_lem fault name db row up found ∙ ap (λ x. ok (some x)) reads) in
    rw
      (
        new-reloaded fault now name db row up found,
        reads,
        add_row-known fault now name db row answers found,
      )
      (stored-flush_entry fault (reloaded name (t, c, l)) db some_calls up
          (subst Fits (sym twice) fits)
        ∙ twice)
