-- ===== src/Guest/Statements/Undone.antt =====
-- The SQL calls of a function, faasta/src/sql.rs, on its store in Postgres.
use faasta.Prelude.{
  Text, text, Bool, false, List, ◌≡◌, ap, ◌∙◌, inl, inr, Result, ok, err, Action, continue, ◌>>=◌,
}
use faasta.Sql.{rewrite_qmark_params}
use faasta.Sql.Values.{DataType}
use faasta.Sql.Postgres as Store
use faasta.Sql.Postgres.{Postgres, search_path}
use faasta.Sql.Transactions.{IsTransactional, Ended, failed-Unchanged}
use faasta.Guest.Blobs.{map_err, in_context}
use faasta.Guest.Statements.{Host, query, exec, IntoSqlParams, into_sql_params, sql_query, sql_exec}

-- The host runs a statement that it prepared on the schema of the function, and neither opening a connection
-- nor preparing a statement writes anything or begins a transaction. No statement that is prepared here
-- begins or ends a transaction itself.
pub record IsServed {R C S D : Type 0} (host : Host R C S) (pg : Postgres R) (durable : R → D)
    (begun : R → Bool) (controls : Text → Bool) (schema : Text) : Type 0 where
  pub text_of : S → Text
  pub params_of : S → List DataType
  pub plain : (s : S) → controls (rewrite_qmark_params (text_of s)) ≡ false
  pub at-open :
      (name : Text) (r : R)
      → (durable (host.open_connection name r).1 ≡ durable r)
        × (begun (host.open_connection name r).1 ≡ begun r)
  pub at-prepare :
      (statement : Text) (params : List DataType) (r : R)
      → (durable (host.prepare statement params r).1 ≡ durable r)
        × (begun (host.prepare statement params r).1 ≡ begun r)
  pub at-query :
      (c : C) (s : S) (r : R) → host.query c s r ≡ Store.query pg schema (text_of s) (params_of s) r
  pub at-exec :
      (c : C) (s : S) (r : R) → host.exec c s r ≡ Store.exec pg schema (text_of s) (params_of s) r

module _ {R D : Type 0} (pg : Postgres R) (durable : R → D) (begun : R → Bool) (d : D) where
  abbrev Ends : {A : Type 0} → Result Text A × R → Type 0
  Ends x = Ended pg durable begun d x

  then-Ends :
      {A B : Type 0} (m : Action R Text A) (f : A → Action R Text B) (r : R)
      → durable (m r).1 ≡ d
      → begun (m r).1 ≡ false
      → ((a : A) (r' : R) → durable r' ≡ d → begun r' ≡ false → Ends (f a r'))
      → Ends ((m >>= f) r)
  unfolding ◌>>=◌
  then-Ends {A = A} m f r kept idle later = let (x, r') = m r in by_result x r' kept idle
    where
      by_result :
          (x : Result Text A) (r' : R) → durable r' ≡ d → begun r' ≡ false → Ends (continue x f r')
      by_result (ok a) r' p q = later a r' p q
      by_result (err e) r' p q = inr (inl (p, q))

  answer-Ends :
      {A : Type 0} (what : Text) (m : Action R Text A) (r : R)
      → Ends (m r)
      → Ends (map_err what m r)
  answer-Ends what m r u = let (x, r') = m r in in_both x r' u
    where
      in_both :
          {A : Type 0} (x : Result Text A) (r' : R) → Ends (x, r') → Ends (in_context what x, r')
      in_both x r' (inl (a, e)) = inl (a, ap (in_context what) e)
      in_both x r' (inr p) = inr p

module _ {R C S D : Type 0} {host : Host R C S} {pg : Postgres R} {durable : R → D}
    {begun : R → Bool} {controls : Text → Bool} {schema : Text}
    (served : IsServed host pg durable begun controls schema)
    (laws : IsTransactional pg durable begun controls)
    (plain_path : controls (search_path schema) ≡ false) where
  -- What the host runs between the function and its store.
  ran-Ends :
      {A : Type 0} (what statement : Text) (params : List DataType) (r : R)
      (run : C → S → Action R Text A)
      → begun r ≡ false
      → ((c : C) (s : S) (r' : R)
          → durable r' ≡ durable r
          → begun r' ≡ false
          → Ends pg durable begun (durable r) (run c s r'))
      → Ends pg durable begun (durable r) (
          (map_err (text "failed to open SQL connection: ") (host.open_connection (text "default"))
              >>= λ c.
                  map_err (text "failed to prepare SQL statement: ") (host.prepare statement params)
                  >>= λ s. map_err what (run c s))
            r)
  ran-Ends what statement params r run idle runs =
      let opened = served.at-open (text "default") r in
      then-Ends pg durable begun (durable r) _ _ r opened.0 (opened.1 ∙ idle) λ c r1 p q.
        let prepared = served.at-prepare statement params r1 in
        then-Ends pg durable begun (durable r) _ _ r1 (prepared.0 ∙ p) (prepared.1 ∙ q)
          λ s r2 p' q'.
            answer-Ends pg durable begun (durable r) what (run c s) r2 (runs c s r2 p' q')

  -- A query and a statement of a function on its store in Postgres, begun in no transaction, end as
  -- `failed-Unchanged` says, whatever kind of parameters it gives them and wherever they failed.
  pub call-Ended :
      (statement : Text) (params : IntoSqlParams) (r : R)
      → begun r ≡ false
      → Ended pg durable begun (durable r) (sql_query host statement params r)
        × Ended pg durable begun (durable r) (sql_exec host statement params r)
  unfolding sql_query sql_exec query exec
  call-Ended statement params r idle = (
    ran-Ends (text "SQL query failed: ") statement (into_sql_params params) r host.query idle
        (λ c s r' p q. rw (served.at-query c s r', ← p) (ends s r' q).0),
    ran-Ends (text "SQL exec failed: ") statement (into_sql_params params) r host.exec idle
        (λ c s r' p q. rw (served.at-exec c s r', ← p) (ends s r' q).1),
  )
    where
      ends :
          (s : S) (r' : R)
          → begun r' ≡ false
          → Ended pg durable begun
              (durable r')
              (Store.query pg schema (served.text_of s) (served.params_of s) r')
            × Ended pg durable begun
                (durable r')
                (Store.exec pg schema (served.text_of s) (served.params_of s) r')
      ends s r' q =
          failed-Unchanged pg durable begun controls schema (served.text_of s) (served.params_of s)
            r' laws plain_path (served.plain s) q
