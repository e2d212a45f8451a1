-- ===== src/GithubAuth/Persistence.antt =====
-- The users' data in memory and in the database: `add_project`, `remove_project` and `new` of
-- server/src/github_auth.rs.
use faasta.Prelude.{
  Text, Option, none, some, [], ◌∷◌, ◌≡◌, refl, ◌∙◌, Result, ok, err, arith, text_eq, text_eq_iff,
  if◌then◌else◌, Option-cases, inl, inr,
}
use faasta.Prelude.Dict
use faasta.Prelude.Dict.{Dict, lookup-insert, NodupKeys, insert-NodupKeys}
use faasta.Db
use faasta.Db.{Bytes, Database, Faults, select_users, upsert_user}
use faasta.Codec.{Codec, IsLawful}
use faasta.GithubAuth.{
  UserData, GithubAuth, without_project, save_bytes, store_user, add_project, remove_project,
  decode_into, load_users, new,
}

module _ (codec : Codec UserData) where
  abbrev or_old : Result Text UserData → Option UserData → Option UserData
  or_old (ok d) old = some d
  or_old (err e) old = old

  -- A row's user data; nothing where there is no row or it does not decode.
  abbrev pub decoded : Option Bytes → Option UserData
  decoded none = none
  decoded (some bytes) = or_old (codec.decode bytes) none

  -- The database holds for each user what the map holds, one row for a user.
  pub record IsSynced (s : GithubAuth) : Type 0 where
    pub rows : (u : Text) → decoded (Dict.lookup u s.db.user_data) ≡ Dict.lookup u s.user_projects
    pub keys : NodupKeys s.db.user_data

  abbrev pick : Option Bytes → Option UserData → Option UserData
  pick none old = old
  pick (some bytes) old = or_old (codec.decode bytes) old

  pick-none : (o : Option Bytes) → pick o none ≡ decoded o
  pick-none none = refl
  pick-none (some bytes) = refl

  lookup-decode_into :
      (u k : Text) (r : Result Text UserData) (users : Dict UserData)
      → Dict.lookup u (decode_into codec k r users)
        ≡ (if text_eq k u then or_old r (Dict.lookup u users) else Dict.lookup u users)
  lookup-decode_into u k (ok d) users = lookup-insert u k d users
  lookup-decode_into u k (err e) users = ground arith

  lookup-load_users :
      (u : Text) (users : Dict UserData) (rows : Dict Bytes)
      → NodupKeys rows
      → Dict.lookup u (load_users codec users rows)
        ≡ pick (Dict.lookup u rows) (Dict.lookup u users)
  unfolding load_users Dict.lookup
  lookup-load_users u users [] h = refl
  lookup-load_users u users ((k, bytes) ∷ rows) (fresh, h) = ground (
    arith,
    lookup-load_users u (decode_into codec k (codec.decode bytes) users) rows h,
    lookup-decode_into u k (codec.decode bytes) users,
    text_eq_iff k u,
  )

  module _ (lawful : IsLawful codec) (fault : Faults) where
    put_user_lem :
        (u : Text) (bytes : Bytes) (db : Database)
        → (Db.put_user fault u bytes db).0 ≡ ok tt
        → (Db.put_user fault u bytes db).1
          ≡ record db { user_data = Dict.insert u bytes db.user_data }
    unfolding Db.put_user
    put_user_lem u bytes db h = ground arith

    save-IsSynced :
        (u : Text) (d : UserData) (s : GithubAuth) (r : Result Text Bytes)
        → IsSynced s
        → codec.encode d ≡ r
        → let s' = record s { user_projects = Dict.insert u d s.user_projects } in
          (save_bytes codec fault u r s').0 ≡ ok tt → IsSynced (save_bytes codec fault u r s').1
    save-IsSynced u d s (err e) h encoded done = cc
    save-IsSynced u d s (ok bytes) h encoded done = rw (put_user_lem u bytes s.db done) (record {
      rows = λ v. ground (
        arith,
        lookup-insert v u bytes s.db.user_data,
        lookup-insert v u d s.user_projects,
        lawful.decode-encode d bytes encoded,
        h.rows v,
      );
      keys = insert-NodupKeys u bytes s.db.user_data h.keys;
    })

    -- A write that succeeds leaves the map and the database in step.
    store_user-IsSynced :
        (u : Text) (d : UserData) (s : GithubAuth)
        → IsSynced s
        → (store_user codec fault u d s).0 ≡ ok tt
        → IsSynced (store_user codec fault u d s).1
    unfolding store_user
    store_user-IsSynced u d s h done = save-IsSynced u d s (codec.encode d) h refl done

    -- An addition of a project that succeeds keeps the map and the database in step, where the
    -- encoding is lawful.
    pub add_project-IsSynced :
        (u p : Text) (s : GithubAuth)
        → IsSynced s
        → (add_project codec fault u p s).0 ≡ ok tt
        → IsSynced (add_project codec fault u p s).1
    unfolding add_project
    add_project-IsSynced u p s h = store_user-IsSynced u _ s h

    -- A removal of a project that succeeds keeps the map and the database in step.
    pub remove_project-IsSynced :
        (u p : Text) (s : GithubAuth)
        → IsSynced s
        → (remove_project codec fault u p s).0 ≡ ok tt
        → IsSynced (remove_project codec fault u p s).1
    unfolding remove_project
    remove_project-IsSynced u p s h = elim (Option-cases (Dict.lookup u s.user_projects)) [
      | inl missing ↦ λ _. rw (missing, remove_project) h
      | inr (d, found) ↦
          rw (found, remove_project) (store_user-IsSynced u (without_project p d) s h)
    ]

    -- A restart reads back what was in memory, where the encoding is lawful, the map and the
    -- database are in step and the rows can be read.
    pub new-IsSynced :
        (s : GithubAuth)
        → IsSynced s
        → fault select_users ≡ none
        → (t : GithubAuth) × (new codec fault s.db ≡ ok t)
          × ((u : Text) → Dict.lookup u t.user_projects ≡ Dict.lookup u s.user_projects)
          × (t.db ≡ s.db)
    unfolding new Db.iter_users Dict.lookup
    new-IsSynced s h works = (
      record { user_projects = load_users codec [] s.db.user_data; db = s.db },
      rw (works, new),
      λ u. lookup-load_users u [] s.db.user_data h.keys ∙ pick-none _ ∙ h.rows u,
      refl,
    )
