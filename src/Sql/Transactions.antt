-- ===== src/Sql/Transactions.antt =====
-- `query` and `exec` of `PostgresTenantConnection`: what is committed, and what is answered.
use faasta.Prelude.{
  ◌⊎◌, inl, inr, ℕ, ◌%◌, ◌^◌, ◌≤◌, min, Text, Bool, true, false, List, ◌≡◌, refl, sym, ap, subst,
  ◌∙◌, arith, Result, ok, err, Action, pure, lift, ◌>>=◌, ◌>>◌, Keeps, bind-eq-ok, keeps_rules,
  continue, pure-eq, lift-eq-ok,
}
use faasta.Sql.{validate_single_statement, rewrite_qmark_params}
use faasta.Sql.Values.{DataType, PgValue, postgres_params}
use faasta.Sql.Postgres.{
  Postgres, search_path, u32_max, rolled, or_rollback, in_transaction, query, query_steps, exec,
  exec_steps,
}

-- `durable` is what the other connections see, `begun` whether the client is in a transaction, and
-- `controls` whether a statement is one that itself begins or ends a transaction. In a transaction the
-- other statements, also those that fail, change nothing durable and leave it open, and a rollback ends
-- it. Nothing is said of statements outside of a transaction, nor of a commit.
pub record IsTransactional {R D : Type 0} (pg : Postgres R) (durable : R → D) (begun : R → Bool)
    (controls : Text → Bool) : Type 0 where
  pub at-get_client :
      (r : R)
      → begun r ≡ false
      → (durable (pg.get_client r).1 ≡ durable r) × (begun (pg.get_client r).1 ≡ false)
  pub at-begin : (r : R) → durable (pg.begin r).1 ≡ durable r
  pub begins : (r : R) → (pg.begin r).0 ≡ ok tt → begun (pg.begin r).1 ≡ true
  pub begins_not :
      (r : R) (e : Text) → begun r ≡ false → (pg.begin r).0 ≡ err e → begun (pg.begin r).1 ≡ false
  pub at-batch_execute :
      (s : Text) (r : R)
      → controls s ≡ false
      → begun r ≡ true
      → (durable (pg.batch_execute s r).1 ≡ durable r) × (begun (pg.batch_execute s r).1 ≡ true)
  pub at-query :
      (s : Text) (vs : List PgValue) (r : R)
      → controls s ≡ false
      → begun r ≡ true
      → (durable (pg.query s vs r).1 ≡ durable r) × (begun (pg.query s vs r).1 ≡ true)
  pub at-execute :
      (s : Text) (vs : List PgValue) (r : R)
      → controls s ≡ false
      → begun r ≡ true
      → (durable (pg.execute s vs r).1 ≡ durable r) × (begun (pg.execute s vs r).1 ≡ true)
  pub at-rollback :
      (r : R)
      → begun r ≡ true
      → (durable (pg.rollback r) ≡ durable r) × (begun (pg.rollback r) ≡ false)

module _ {R D : Type 0} (pg : Postgres R) (durable : R → D) (begun : R → Bool) (d : D) where
  -- Only the commit, which comes last, failed.
  pub record CommitFailed (t : R) : Type 0 where
    pub before : R
    pub why : Text
    pub kept : durable before ≡ d
    pub failed : pg.commit before ≡ (err why, t)

  -- An action answers; or it changed nothing durable and left no transaction open; or its commit failed.
  abbrev pub Ended : {A : Type 0} → Result Text A × R → Type 0
  Ended {A = A} (x, t) =
      ((a : A) × (x ≡ ok a)) ⊎ (((durable t ≡ d) × (begun t ≡ false)) ⊎ CommitFailed t)

  Ended-lift :
      {A B : Type 0} (x : Result Text A) (f : A → Action R Text B) (r : R)
      → durable r ≡ d
      → begun r ≡ false
      → ((a : A) → Ended (f a r))
      → Ended ((lift x >>= f) r)
  unfolding ◌>>=◌
  Ended-lift (ok a) f r same idle then = then a
  Ended-lift (err e) f r same idle then = inr (inl (same, idle))

  -- What follows cannot fail.
  Ended-pure :
      {A B : Type 0} (m : Action R Text A) (f : A → B) (r : R)
      → Ended (m r)
      → Ended ((m >>= λ a. pure (f a)) r)
  unfolding ◌>>=◌
  Ended-pure {A = A} {B = B} m f r h = let (x, t) = m r in by_result x t h
    where
      by_result :
          (x : Result Text A) (t : R)
          → Ended (x, t)
          → Ended (continue {B = B} x (λ a. pure (f a)) t)
      by_result (ok a) t h = inl (f a, refl)
      by_result (err e) t (inl (a, k)) = cc
      by_result (err e) t (inr k) = inr k

module _ {R D : Type 0} (pg : Postgres R) (durable : R → D) (begun : R → Bool)
    (controls : Text → Bool) (laws : IsTransactional pg durable begun controls) (d : D) where
  abbrev Open : R → Type 0
  Open r = (durable r ≡ d) × (begun r ≡ true)

  abbrev Idle : R → Type 0
  Idle r = (durable r ≡ d) × (begun r ≡ false)

  batch_execute-Keeps : (s : Text) → controls s ≡ false → Keeps Open (pg.batch_execute s)
  batch_execute-Keeps s plain = record {
    from = λ r h. let (same, open_) = laws.at-batch_execute s r plain h.1 in (same ∙ h.0, open_);
  }

  query-Keeps : (s : Text) (vs : List PgValue) → controls s ≡ false → Keeps Open (pg.query s vs)
  query-Keeps s vs plain = record {
    from = λ r h. let (same, open_) = laws.at-query s vs r plain h.1 in (same ∙ h.0, open_);
  }

  execute-Keeps : (s : Text) (vs : List PgValue) → controls s ≡ false → Keeps Open (pg.execute s vs)
  execute-Keeps s vs plain = record {
    from = λ r h. let (same, open_) = laws.at-execute s vs r plain h.1 in (same ∙ h.0, open_);
  }

  module _ {A : Type 0} where
    abbrev Ends : Result Text A × R → Type 0
    Ends x = Ended pg durable begun d x

    committed-Ends : (a : A) (s : R) → Open s → Ends ((pg.commit >>= λ _. pure a) s)
    unfolding ◌>>=◌
    committed-Ends a s h = let (x, t) = pg.commit s in by_result x t refl
      where
        by_result :
            (x : Result Text (Unit {0})) (t : R)
            → pg.commit s ≡ (x, t)
            → Ends (continue x (λ _. pure a) t)
        by_result (ok u) t e = inl (a, refl)
        by_result (err why) t e =
            inr (inr (record { before = s; why = why; kept = h.0; failed = e }))

    ran-Ends :
        (x : Result Text A) (s : R)
        → Open s
        → Ends (continue (rolled pg x s).0 (λ a. pg.commit >>= λ _. pure a) (rolled pg x s).1)
    ran-Ends (ok a) s h = committed-Ends a s h
    ran-Ends (err e) s h = let (same, idle) = laws.at-rollback s h.1 in inr (inl (same ∙ h.0, idle))

    abbrev finished : Action R Text A → Action R Text A
    finished m = or_rollback pg m >>= λ a. pg.commit >>= λ _. pure a

    finished-Ends : (m : Action R Text A) → Keeps Open m → (s : R) → Open s → Ends (finished m s)
    unfolding ◌>>=◌ or_rollback
    finished-Ends m k s h = let (x, t) = m s in ran-Ends x t (k.from s h)

    begun-Ends :
        (m : Action R Text A) → Keeps Open m → (s : R) → Idle s → Ends ((pg.begin >> finished m) s)
    unfolding ◌>>=◌
    begun-Ends m k s h =
        let (x, t) = pg.begin s in
        by_result x t (laws.at-begin s ∙ h.0) (λ e. laws.begins s e)
          (λ why e. laws.begins_not s why h.1 e)
      where
        by_result :
            (x : Result Text (Unit {0})) (t : R)
            → durable t ≡ d
            → (x ≡ ok tt → begun t ≡ true)
            → ((why : Text) → x ≡ err why → begun t ≡ false)
            → Ends (continue x (λ _. finished m) t)
        by_result (ok tt) t same good bad = finished-Ends m k t (same, good refl)
        by_result (err why) t same good bad = inr (inl (same, bad why refl))

    in_transaction-Ends :
        (m : Action R Text A) → Keeps Open m → (s : R) → Idle s → Ends (in_transaction pg m s)
    unfolding in_transaction ◌>>=◌
    in_transaction-Ends m k s h =
        let (same, idle) = laws.at-get_client s h.1 in
        let (x, t) = pg.get_client s in by_result x t (same ∙ h.0) idle
      where
        by_result :
            (x : Result Text (Unit {0})) (t : R)
            → durable t ≡ d
            → begun t ≡ false
            → Ends (continue x (λ _. pg.begin >> finished m) t)
        by_result (ok u) t same idle = begun-Ends m k t (same, idle)
        by_result (err why) t same idle = inr (inl (same, idle))

  module _ (schema statement : Text) (params : List DataType)
      (plain_path : controls (search_path schema) ≡ false)
      (plain : controls (rewrite_qmark_params statement) ≡ false) where
    query_steps-Keeps : Keeps Open (query_steps pg schema statement params)
    unfolding query_steps
    query_steps-Keeps = search (keeps_rules, batch_execute-Keeps, query-Keeps, plain_path, plain)

    exec_steps-Keeps : Keeps Open (exec_steps pg schema statement params)
    unfolding exec_steps
    exec_steps-Keeps = search (keeps_rules, batch_execute-Keeps, execute-Keeps, plain_path, plain)

    query-Ends : (r : R) → Idle r → Ended pg durable begun d (query pg schema statement params r)
    unfolding query
    query-Ends r h =
        Ended-lift pg durable begun d (validate_single_statement statement) _ r h.0 h.1
          (λ _. in_transaction-Ends _ query_steps-Keeps r h)

    exec-Ends : (r : R) → Idle r → Ended pg durable begun d (exec pg schema statement params r)
    unfolding exec
    exec-Ends r h =
        Ended-lift pg durable begun d (validate_single_statement statement) _ r h.0 h.1 λ _.
          Ended-pure pg durable begun d _ (λ count. min count u32_max % 2 ^ 32) r
            (in_transaction-Ends _ exec_steps-Keeps r h)

-- A query and a statement that begin in no transaction either answer, or leave everything that is durable as
-- it was and no transaction open, or fail in the commit, before which nothing durable was changed: also a
-- row that cannot be read takes back what its query wrote. Neither the statement nor the setting of the
-- search path begins or ends a transaction itself, and Postgres keeps what is done in a transaction in it.
pub failed-Unchanged :
    {R D : Type 0} (pg : Postgres R) (durable : R → D) (begun : R → Bool) (controls : Text → Bool)
    (schema statement : Text) (params : List DataType) (r : R)
    → IsTransactional pg durable begun controls
    → controls (search_path schema) ≡ false
    → controls (rewrite_qmark_params statement) ≡ false
    → begun r ≡ false
    → Ended pg durable begun (durable r) (query pg schema statement params r)
      × Ended pg durable begun (durable r) (exec pg schema statement params r)
failed-Unchanged pg durable begun controls schema statement params r laws plain_path plain idle = (
  query-Ends pg durable begun controls laws (durable r) schema statement params plain_path plain r
      (refl, idle),
  exec-Ends pg durable begun controls laws (durable r) schema statement params plain_path plain r
      (refl, idle),
)

module _ {R A : Type 0} (pg : Postgres R) (m : Action R Text A) where
  or_rollback-eq-ok : (r : R) (a : A) → (or_rollback pg m r).0 ≡ ok a → or_rollback pg m r ≡ m r
  unfolding or_rollback
  or_rollback-eq-ok r a h = let (x, r') = m r in kept x r' h
    where
      kept : (x : Result Text A) (r' : R) → (rolled pg x r').0 ≡ ok a → rolled pg x r' ≡ (x, r')
      kept (ok b) r' h = refl
      kept (err e) r' h = cc

  -- A transaction that answers got a client, began, ran its steps and was committed.
  in_transaction-eq-ok :
      (r : R) (a : A)
      → (in_transaction pg m r).0 ≡ ok a
      → let client = pg.get_client r in
        let begun = pg.begin client.1 in
        let ran = m begun.1 in
        (client.0 ≡ ok tt)
        × (begun.0 ≡ ok tt)
        × (ran.0 ≡ ok a)
        × ((pg.commit ran.1).0 ≡ ok tt)
        × ((in_transaction pg m r).1 ≡ (pg.commit ran.1).1)
  unfolding in_transaction
  in_transaction-eq-ok r a h =
      let (_, got_client, e1) = bind-eq-ok pg.get_client _ r h in
      let r1 = (pg.get_client r).1 in
      let (_, begins, e2) = bind-eq-ok pg.begin _ r1 (sym (ap (λ x. x.0) e1) ∙ h) in
      let s = (pg.begin r1).1 in
      let e12 = e1 ∙ e2 in
      let (b, got, e3) = bind-eq-ok (or_rollback pg m) _ s (sym (ap (λ x. x.0) e12) ∙ h) in
      let ran = or_rollback-eq-ok s b got in
      let e123 = e12 ∙ e3 in
      let t = (or_rollback pg m s).1 in
      let (_, committed, e4) =
        bind-eq-ok pg.commit (λ _. pure b) t (sym (ap (λ x. x.0) e123) ∙ h) in
      let whole = e123 ∙ e4 ∙ pure-eq b (pg.commit t).1 in
      let same : Path (Result Text A) (ok b) (ok a) = sym (ap (λ x. x.0) whole) ∙ h in
      (
        got_client,
        begins,
        sym (ap (λ x. x.0) ran) ∙ got ∙ same,
        subst (λ x. (pg.commit x.1).0 ≡ ok tt) ran committed,
        ap (λ x. x.1) whole ∙ ap (λ x. (pg.commit x.1).1) ran,
      )

exec_steps-eq-ok :
    {R : Type 0} (pg : Postgres R) (schema statement : Text) (params : List DataType) (s : R)
    (count : ℕ)
    → (exec_steps pg schema statement params s).0 ≡ ok count
    → let t = (pg.batch_execute (search_path schema) s).1 in
      ((pg.batch_execute (search_path schema) s).0 ≡ ok tt)
      × (exec_steps pg schema statement params s
          ≡ pg.execute (rewrite_qmark_params statement) (postgres_params params) t)
unfolding exec_steps
exec_steps-eq-ok pg schema statement params s count h =
    let (_, set, ran) = bind-eq-ok (pg.batch_execute (search_path schema)) _ s h in (set, ran)

answered : (n m : ℕ) → Path (Result Text ℕ) (ok m) (ok n) → n ≡ m
answered n m h = cc

-- A statement that answers a number passed the check for a single statement, and was run by these calls, which
-- all succeeded, and no others, in this order: a client was taken, a transaction begun, the search path set to
-- the schema, the statement executed with its placeholders numbered, and the transaction committed. The
-- number is the count of rows, or the largest 32-bit number where the count is larger.
pub exec-committed :
    {R : Type 0} (pg : Postgres R) (schema statement : Text) (params : List DataType) (r : R)
    (n : ℕ)
    → (exec pg schema statement params r).0 ≡ ok n
    → let client = pg.get_client r in
      let begun = pg.begin client.1 in
      let set = pg.batch_execute (search_path schema) begun.1 in
      let ran = pg.execute (rewrite_qmark_params statement) (postgres_params params) set.1 in
      let done = pg.commit ran.1 in
      (validate_single_statement statement ≡ ok tt)
      × (client.0 ≡ ok tt)
      × (begun.0 ≡ ok tt)
      × (set.0 ≡ ok tt)
      × (count : ℕ) × (ran.0 ≡ ok count)
      × (n ≡ min count u32_max)
      × (n ≤ u32_max)
      × (done.0 ≡ ok tt)
      × ((exec pg schema statement params r).1 ≡ done.1)
unfolding exec
exec-committed pg schema statement params r n h =
    let (_, valid, e1) = lift-eq-ok (validate_single_statement statement) _ r h in
    let steps = exec_steps pg schema statement params in
    let (count, got, e2) = bind-eq-ok (in_transaction pg steps) _ r (sym (ap (λ x. x.0) e1) ∙ h) in
    let (client, begins, stepped, committed, last) = in_transaction-eq-ok pg steps r count got in
    let s = (pg.begin (pg.get_client r).1).1 in
    let (set, ran) = exec_steps-eq-ok pg schema statement params s count stepped in
    let whole = e1 ∙ e2 ∙ pure-eq (min count u32_max % 2 ^ 32) (in_transaction pg steps r).1 in
    let answer : n ≡ min count u32_max % 2 ^ 32 =
      answered n (min count u32_max % 2 ^ 32) (sym (ap (λ x. x.0) whole) ∙ h) in
    (
      valid,
      client,
      begins,
      set,
      count,
      sym (ap (λ x. x.0) ran) ∙ stepped,
      omega (arith, answer),
      omega (arith, answer),
      subst (λ x. (pg.commit x.1).0 ≡ ok tt) ran committed,
      ap (λ x. x.1) whole ∙ last ∙ ap (λ x. (pg.commit x.1).1) ran,
    )
