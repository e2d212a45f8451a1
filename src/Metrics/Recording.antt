-- ===== src/Metrics/Recording.antt =====
-- What becomes of the calls that `Timer` records: `get_or_create_metric`, `drop_timer`, the periodic
-- flush and a restart of the server, in server/src/metrics.rs, one after another.
use faasta.Prelude.{
  ℕ, Text, Bool, Option, none, some, List, [], ◌∷◌, map, ◌≡◌, refl, Result, ok, err, All,
  Bool-cases, Option-cases, inl, inr, text_eq,
}
use faasta.Prelude.Dict
use faasta.Prelude.Dict.{Dict}
use faasta.Prelude.Int.{pos, as_i64, max0_as_u64}
use faasta.Db
use faasta.Db.{
  Database, MetricRow, Faults, read, write, read_row, store_row, select_metric, set_metric,
  exists_metric,
}
use faasta.Metrics.{
  FunctionMetric, Metering, Metrics, new, loaded, flush_entry, flush_entries, flush_metrics_to_db,
  row_or_zeros, add_row, known, get_or_create_metric, drop_timer, in_memory, combine, collect,
  get_metrics,
}

-- What happens to the metrics, with what each step meets of the database, the clock and the directory.
pub data Event : Type 0 where
  called : Faults → Bool → ℕ → ℕ → Text → Event
  flushed : Faults → Event
  restarted : Event

unfoldable pub happen : Event → Metering → Metering
happen (called fault artifact_exists now duration_ms name) s =
    (drop_timer fault artifact_exists now duration_ms name s).1
happen (flushed fault) s = flush_metrics_to_db fault s
happen restarted s = record s { function_metrics = [] }

pub run : Metering → List Event → Metering
run s [] = s
run s (e ∷ events) = run (happen e s) events

abbrev IsZero : Text × FunctionMetric → Type 0
IsZero (_, metric) = (metric.total_time ≡ 0) × (metric.call_count ≡ 0)

abbrev IsZeroRow : Text × MetricRow → Type 0
IsZeroRow (_, row) = (row.total_time ≡ pos 0) × (row.call_count ≡ pos 0)

-- No time and no call, in memory and in the table.
pub record IsSilent (s : Metering) : Type 0 where
  pub memory : All IsZero s.function_metrics
  pub rows : All IsZeroRow s.metrics_db.metrics

module _ {ℓ κ} {V : Type ℓ} (P : Text × V → Type κ)
    (same : (j k : Text) (v : V) → P (j, v) → P (k, v)) where
  All-insert : (k : Text) (v : V) (d : Dict V) → P (k, v) → All P d → All P (Dict.insert k v d)
  unfolding Dict.insert
  All-insert k v [] p h = (p, tt)
  All-insert k v ((j, w) ∷ d) p (q, h) = elim (Bool-cases (text_eq j k)) [
    | inl e ↦ rw e (p, h)
    | inr e ↦ rw e (q, All-insert k v d p h)
  ]

row-IsZero :
    (name : Text) (row : MetricRow) (d : Dict MetricRow)
    → All IsZeroRow d
    → Dict.lookup name d ≡ some row
    → (row.total_time ≡ pos 0) × (row.call_count ≡ pos 0)
unfolding Dict.lookup
row-IsZero name row [] h e = cc
row-IsZero name row ((j, w) ∷ d) (q, h) e = elim (Bool-cases (text_eq j name)) [
  | inl same ↦ (cc, cc)
  | inr other ↦ row-IsZero name row d h cc
]

-- What the table says of a function of which no call is known.
abbrev IsNothing : Result Text (Option (ℕ × ℕ × ℕ)) → Type 0
IsNothing r = ((row_or_zeros r).0 ≡ 0) × ((row_or_zeros r).1 ≡ 0)

get_metric-IsNothing :
    (fault : Faults) (name : Text) (db : Database)
    → All IsZeroRow db.metrics
    → IsNothing (Db.get_metric fault name db)
unfolding Db.get_metric read_row max0_as_u64
get_metric-IsNothing fault name db h = elim (Option-cases (fault (select_metric name))) [
  | inr (e, failed) ↦ rw (failed) (refl, refl)
  | inl fine ↦ elim (Option-cases (Dict.lookup name db.metrics)) [
    | inl missing ↦ rw (fine, missing) (refl, refl)
    | inr (row, found) ↦
        let (t, c) = row-IsZero name row db.metrics h found in rw (fine, found, t, c) (refl, refl)
  ]
]

loaded-IsZero :
    (name : Text) (now : ℕ) (r : Result Text (Option (ℕ × ℕ × ℕ)))
    → IsNothing r
    → IsZero (name, loaded name now r)
loaded-IsZero name now (ok none) h = (refl, refl)
loaded-IsZero name now (ok (some (t, c, l))) h = h
loaded-IsZero name now (err e) h = (refl, refl)

new-IsZero :
    (fault : Faults) (name : Text) (now : ℕ) (db : Database)
    → All IsZeroRow db.metrics
    → IsZero (name, new fault name now db)
unfolding new
new-IsZero fault name now db h =
    loaded-IsZero name now (Db.get_metric fault name db) (get_metric-IsNothing fault name db h)

add_row-All :
    (fault : Faults) (name : Text) (now : ℕ) (db : Database)
    → All IsZeroRow db.metrics
    → All IsZeroRow (add_row fault name now db).metrics
unfolding add_row Db.upsert_metric store_row as_i64
add_row-All fault name now db h = elim (Bool-cases (known fault (Db.metric_exists fault name db))) [
  | inl there ↦ rw there h
  | inr absent ↦ elim (Option-cases (fault (set_metric name))) [
    | inl fine ↦
        rw (absent, fine) (All-insert IsZeroRow (λ j k v p. p) name _ db.metrics (refl, refl) h)
    | inr (e, failed) ↦ rw (absent, failed) h
  ]
]

get_or_create-IsSilent :
    (fault : Faults) (artifact_exists : Bool) (now : ℕ) (name : Text) (s : Metering)
    → IsSilent s
    → IsSilent (get_or_create_metric fault artifact_exists now name s).1
unfolding get_or_create_metric
get_or_create-IsSilent fault artifact_exists now name s h =
    elim (Option-cases (Dict.lookup name s.function_metrics)) [
      | inr (m, there) ↦ rw (there, get_or_create_metric) h
      | inl fresh ↦ elim (Bool-cases artifact_exists) [
        | inr gone ↦ rw (fresh, get_or_create_metric, gone) h
        | inl found ↦
            rw (fresh, get_or_create_metric, found)
              (record {
                memory =
                    All-insert IsZero (λ j k v p. p) name (new fault name now s.metrics_db)
                      s.function_metrics (new-IsZero fault name now s.metrics_db h.rows) h.memory;
                rows = add_row-All fault name now s.metrics_db h.rows;
              })
      ]
    ]

flush_entries_idle :
    (fault : Faults) (d : Dict FunctionMetric) (db : Database)
    → All IsZero d
    → flush_entries fault d db ≡ (d, db)
unfolding flush_entries flush_entry
flush_entries_idle fault [] db h = refl
flush_entries_idle fault ((k, m) ∷ d) db ((t, c), h) =
    rw (c) (rw (flush_entries_idle fault d db h) refl)

happen-IsSilent : (e : Event) (s : Metering) → IsSilent s → IsSilent (happen e s)
unfolding happen drop_timer flush_metrics_to_db
happen-IsSilent (called fault artifact_exists now duration_ms name) s h =
    get_or_create-IsSilent fault artifact_exists now name s h
happen-IsSilent (flushed fault) s h =
    rw (flush_entries_idle fault s.function_metrics s.metrics_db h.memory)
      (record { memory = h.memory; rows = h.rows })
happen-IsSilent restarted s h = record { memory = tt; rows = h.rows }

run-IsSilent : (s : Metering) (events : List Event) → IsSilent s → IsSilent (run s events)
unfolding run
run-IsSilent s [] h = h
run-IsSilent s (e ∷ events) h = run-IsSilent (happen e s) events (happen-IsSilent e s h)

lookup-IsNothing :
    (name : Text) (d : Dict FunctionMetric)
    → All IsZero d
    → ((in_memory (Dict.lookup name d)).0 ≡ 0) × ((in_memory (Dict.lookup name d)).1 ≡ 0)
unfolding Dict.lookup
lookup-IsNothing name [] h = (refl, refl)
lookup-IsNothing name ((j, m) ∷ d) (z, h) = elim (Bool-cases (text_eq j name)) [
  | inl same ↦ rw same z
  | inr other ↦ rw other (lookup-IsNothing name d h)
]

-- Nothing in a report.
abbrev pub IsBlank : Metrics → Type 0
IsBlank m = (m.total_time ≡ 0) × (m.total_calls ≡ 0)

collect-IsBlank :
    (fault : Faults) (to_rfc3339 : ℕ → Text) (memory : Dict FunctionMetric) (d : Dict MetricRow)
    (report : Metrics)
    → All IsZero memory
    → All IsZeroRow d
    → IsBlank report
    → IsBlank (collect fault to_rfc3339 memory report (map Db.named_counters d))
unfolding collect combine max0_as_u64
collect-IsBlank fault to_rfc3339 memory [] report h k b = b
collect-IsBlank fault to_rfc3339 memory ((j, row) ∷ d) report h ((t, c), k) (bt, bc) =
    let (mt, mc) = lookup-IsNothing j memory h in
    collect-IsBlank fault to_rfc3339 memory d _ h k (rw (bt, t, mt) refl, rw (bc, c, mc) refl)

-- A server that starts with no call and no time in memory and in its table never counts any:
-- whatever is called, flushed and restarted, and whatever fails, the totals of the report stay
-- zero.
pub report-IsBlank :
    (s : Metering) (events : List Event) (fault : Faults) (to_rfc3339 : ℕ → Text)
    → IsSilent s
    → IsBlank (get_metrics fault to_rfc3339 (run s events))
unfolding get_metrics Db.iter_metrics
report-IsBlank s events fault to_rfc3339 h =
    let k = run-IsSilent s events h in
    elim (Option-cases (fault Db.select_metrics)) [
      | inl fine ↦ rw fine (collect-IsBlank fault to_rfc3339 _ _ _ k.memory k.rows (refl, refl))
      | inr (e, failed) ↦ rw failed (refl, refl)
    ]
